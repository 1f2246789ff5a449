-- ===== src/PerfectLink/Life.antt =====
-- The lives of one end of a link: each message that it has received stands once in
-- `messages_delivered_`.
use distributed_algorithms_p.Prelude.{
  ℕ, ◌≡◌, refl, Bool, true, false, List, [], ◌∷◌, map, Option, none, some, arith, if◌then◌else◌,
  ◌==◌, nat_eq, nat_beq_iff, is_empty, Bool-cases, Option-cases, inl, inr,
}
use distributed_algorithms_p.Prelude.Map.{find, assign, remove}
use distributed_algorithms_p.Prelude.Set.{member, Distinct}
use distributed_algorithms_p.Udp.{Machine}
use distributed_algorithms_p.PerfectLink.Codec.{Packet, message, ack, parse}
use distributed_algorithms_p.PerfectLink.Link.{
  PerfectLink, new_link, subscribe, notify, on_packet, send_acks, send, record_ack,
  record_delivered, receive_ack, AckToRemove, expired, forget, clean_acks,
}

abbrev pub keys : List (ℕ × ℕ) → List ℕ
keys = map (λ e. e.0)

member-keys-assign :
    (k j v : ℕ) (m : List (ℕ × ℕ))
    → member k (keys (assign j v m)) ≡ (if j == k then true else member k (keys m))
unfolding assign member
member-keys-assign k j v [] = refl
member-keys-assign k j v ((i, w) ∷ m) =
    ground (arith, nat_beq_iff i j, nat_beq_iff j k, nat_beq_iff i k, member-keys-assign k j v m)

assign-Distinct : (j v : ℕ) (m : List (ℕ × ℕ)) → Distinct (keys m) → Distinct (keys (assign j v m))
unfolding assign member
assign-Distinct j v [] d = (refl, tt)
assign-Distinct j v ((i, w) ∷ m) d = ground (
  arith,
  d.0,
  nat_beq_iff i j,
  nat_beq_iff j i,
  member-keys-assign i j v m,
  assign-Distinct j v m d.1,
)

member-keys-remove :
    (k j : ℕ) (m : List (ℕ × ℕ)) → member k (keys m) ≡ false → member k (keys (remove j m)) ≡ false
unfolding remove member
member-keys-remove k j [] h = refl
member-keys-remove k j ((i, w) ∷ m) h = ground (arith, member-keys-remove k j m)

remove-Distinct : (j : ℕ) (m : List (ℕ × ℕ)) → Distinct (keys m) → Distinct (keys (remove j m))
unfolding remove
remove-Distinct j [] d = tt
remove-Distinct j ((i, w) ∷ m) d =
    ground (arith, d.0, member-keys-remove i j m, remove-Distinct j m d.1)

forget-Distinct :
    (acks : List AckToRemove) (m : List (ℕ × ℕ))
    → Distinct (keys m)
    → Distinct (keys (forget acks m))
unfolding forget
forget-Distinct [] m d = d
forget-Distinct (a ∷ acks) m d = elim (Bool-cases a.remove_from_delivered) [
  | inl old ↦ rw (old, forget) (forget-Distinct acks (remove a.seq m) (remove-Distinct a.seq m d))
  | inr young ↦ rw (young, forget) (forget-Distinct acks m d)
]

-- What a link has been through: packets, rounds of acks and messages to send, in any order and at
-- any times.
pub data Life (strong : Bool) : PerfectLink → Type 0 where
  made : (id target_id : ℕ) (addr : Machine) → Life strong (new_link id target_id addr)
  subscribed :
      (manager : ℕ) {pl : PerfectLink} → Life strong pl → Life strong (subscribe pl manager)
  took :
      (bytes : List ℕ) (now : ℕ) {pl : PerfectLink}
      → Life strong pl
      → Life strong (notify pl bytes now).0
  acked : (now : ℕ) {pl : PerfectLink} → Life strong pl → Life strong (send_acks strong now pl).0
  queued : (payload : List ℕ) {pl : PerfectLink} → Life strong pl → Life strong (send pl payload).0

abbrev pub IsKeyed : PerfectLink → Type 0
IsKeyed pl = Distinct (keys pl.messages_delivered)

clean_acks-IsKeyed :
    (strong : Bool) (now : ℕ) (pl : PerfectLink) → IsKeyed pl → IsKeyed (clean_acks strong now pl)
unfolding clean_acks
clean_acks-IsKeyed true now pl d = d
clean_acks-IsKeyed false now pl d =
    forget-Distinct (expired now pl.messages_delivered) pl.messages_delivered d

on_packet-IsKeyed :
    (pl : PerfectLink) (o : Option Packet) (now : ℕ) → IsKeyed pl → IsKeyed (on_packet pl o now).0
unfolding on_packet record_ack record_delivered receive_ack
on_packet-IsKeyed pl none now d = d
on_packet-IsKeyed pl (some (message m)) now d = assign-Distinct m.seq now pl.messages_delivered d
on_packet-IsKeyed pl (some (ack i)) now d = elim (Option-cases (find i pl.messages_to_send)) [
  | inl absent ↦ rw (absent, receive_ack) d
  | inr (payload, e) ↦ rw (e, receive_ack) d
]

pub Life-IsKeyed : {strong : Bool} {pl : PerfectLink} → Life strong pl → IsKeyed pl
unfolding new_link subscribe notify send_acks send
Life-IsKeyed (made id target_id addr) = tt
Life-IsKeyed (subscribed manager l) = Life-IsKeyed l
Life-IsKeyed (took bytes now {pl} l) = on_packet-IsKeyed pl (parse bytes) now (Life-IsKeyed l)
Life-IsKeyed {strong} (acked now {pl} l) = elim (Bool-cases (is_empty pl.acks_to_send)) [
  | inl none_left ↦ rw (none_left, send_acks) (Life-IsKeyed l)
  | inr waiting ↦ rw (waiting, send_acks) (clean_acks-IsKeyed strong now pl (Life-IsKeyed l))
]
Life-IsKeyed (queued payload l) = Life-IsKeyed l
