-- ===== src/PerfectLink/Receiver.antt =====
-- What an end knows of the messages that it has received.
use distributed_algorithms_p.Prelude.{
  ℕ, ◌≤◌, ◌≡◌, refl, sym, ap, subst, ◌∙◌, Bool, true, List, [], ◌∷◌, ◌++◌, map, Option, none, some,
  arith, if◌then◌else◌, ◌==◌, nat_eq, nat_beq_iff, max_seq, In, In-append, ◌⊎◌, inl, inr,
  Option-cases, Bool-cases, In-append_right,
}
use distributed_algorithms_p.Prelude.Map.{find, remove, find-assign, find-remove}
use distributed_algorithms_p.Prelude.Set.{member, erase, member-insert, member-erase, In-member}
use distributed_algorithms_p.PerfectLink.Codec.{
  Message, Packet, message, ack, ack_packet, parse, parse-ack_packet, not-ack-serialize,
}
use distributed_algorithms_p.PerfectLink.Link.{
  PerfectLink, AckToRemove, expired, forget, erase_acks, send, send_acks, clean_acks, send_messages,
  on_packet, notify,
}
use distributed_algorithms_p.PerfectLink.Packets.{In-packets-send_messages, In-packets-send_acks}
use distributed_algorithms_p.PerfectLink.Channel.{
  End, packets, sending, sending_messages, sending_acks, Move, sends, sends_messages, sends_acks,
  receives,
}

-- A message of that number was handed to the manager.
abbrev pub Has : List Message → ℕ → Type 0
Has delivered n = (m : Message) × In m delivered × (m.seq ≡ n) × (n ≤ max_seq)

-- There is one manager, and what is acknowledged or marked as delivered was handed to it.
pub record IsReceiver (b : End) : Type 0 where
  pub manager : ℕ
  pub one_manager : b.link.managers ≡ manager ∷ []
  pub acked : (n : ℕ) → member n b.link.acks_to_send ≡ true → Has b.delivered n
  pub known : (n t : ℕ) → find n b.link.messages_delivered ≡ some t → Has b.delivered n
  pub answered :
      (bytes : List ℕ) (n : ℕ) → In bytes b.out → parse bytes ≡ some (ack n) → Has b.delivered n

member-erase_acks :
    (acks : List AckToRemove) (n : ℕ) (to_send : List ℕ)
    → member n (erase_acks acks to_send) ≡ true
    → member n to_send ≡ true
unfolding erase_acks
member-erase_acks [] n to_send h = h
member-erase_acks (a ∷ acks) n to_send h =
    ground (arith, member-erase_acks acks n (erase a.seq to_send) h, member-erase a.seq n to_send)

find-forget :
    (acks : List AckToRemove) (n t : ℕ) (delivered : List (ℕ × ℕ))
    → find n (forget acks delivered) ≡ some t
    → find n delivered ≡ some t
unfolding forget
find-forget [] n t delivered h = h
find-forget (a ∷ acks) n t delivered h = ground (
  arith,
  find-forget acks n t (if a.remove_from_delivered then remove a.seq delivered else delivered) h,
  find-remove a.seq n delivered,
)

-- Cleaning up only takes away.
send_acks-subset :
    (strong : Bool) (now : ℕ) (pl : PerfectLink)
    → let pl' = (send_acks strong now pl).0 in
      (pl'.managers ≡ pl.managers)
      × ((n : ℕ) → member n pl'.acks_to_send ≡ true → member n pl.acks_to_send ≡ true)
      × ((n t : ℕ) → find n pl'.messages_delivered ≡ some t → find n pl.messages_delivered ≡ some t)
unfolding send_acks clean_acks
send_acks-subset strong now pl = (
  ground arith,
  λ n h. ground (arith, member-erase_acks (expired now pl.messages_delivered) n pl.acks_to_send),
  λ n t h.
      ground (arith, find-forget (expired now pl.messages_delivered) n t pl.messages_delivered),
)

sending-IsReceiver : {b : End} (payload : List ℕ) → IsReceiver b → IsReceiver (sending b payload)
unfolding send
sending-IsReceiver payload r = record {
  manager = r.manager;
  one_manager = r.one_manager;
  acked = r.acked;
  known = r.known;
  answered = r.answered;
}

sending_messages-IsReceiver : {b : End} → IsReceiver b → IsReceiver (sending_messages b)
sending_messages-IsReceiver {b} r = record {
  manager = r.manager;
  one_manager = r.one_manager;
  acked = r.acked;
  known = r.known;
  answered = λ bytes n h e. elim (In-append bytes (packets (send_messages b.link)) b.out h) [
    | inl new ↦
        let (x, i, p) = In-packets-send_messages b.link bytes new in
        absurd (not-ack-serialize _ n (sym (ap parse p) ∙ e))
    | inr old ↦ r.answered bytes n old e
  ];
}

ack-Has :
    (delivered : List Message) (n m : ℕ)
    → Has delivered n
    → parse (ack_packet n) ≡ some (ack m)
    → Has delivered m
ack-Has delivered n m h e = ground (arith, h.3, parse-ack_packet n)

sending_acks-IsReceiver :
    {b : End} (strong : Bool) (now : ℕ) → IsReceiver b → IsReceiver (sending_acks strong now b)
sending_acks-IsReceiver {b} strong now r =
    let (managers, fewer_acks, fewer_known) = send_acks-subset strong now b.link in
    record {
      manager = r.manager;
      one_manager = managers ∙ r.one_manager;
      acked = λ n h. r.acked n (fewer_acks n h);
      known = λ n t h. r.known n t (fewer_known n t h);
      answered = λ bytes n h e.
          elim (In-append bytes (packets (send_acks strong now b.link).1) b.out h) [
            | inl new ↦
                let (k, i, p) = In-packets-send_acks strong now b.link bytes new in
                ack-Has b.delivered k n (r.acked k (In-member k b.link.acks_to_send i))
                  (sym (ap parse p) ∙ e)
            | inr old ↦ r.answered bytes n old e
          ];
    }

Has-mono : (new old : List Message) (n : ℕ) → Has old n → Has (new ++ old) n
Has-mono new old n (m, i, e, l) = (m, In-append_right m new old i, e, l)

-- The end after a packet that is already parsed.
abbrev pub taking : End → Option Packet → ℕ → End
taking b packet now = record b {
  link = (on_packet b.link packet now).0;
  delivered = map (λ u. u.msg) (on_packet b.link packet now).1 ++ b.delivered;
}

-- A message is handed over if and only if it is not marked as delivered.
pub taking-message :
    {b : End} (m : Message) (now : ℕ)
    → IsReceiver b
    → ((find m.seq b.link.messages_delivered ≡ none)
        × ((taking b (some (message m)) now).delivered ≡ m ∷ b.delivered))
      ⊎ (Has b.delivered m.seq × ((taking b (some (message m)) now).delivered ≡ b.delivered))
unfolding on_packet
taking-message {b} m now r = elim (Option-cases (find m.seq b.link.messages_delivered)) [
  | inl new ↦ inl (new, rw (new, r.one_manager))
  | inr (t, old) ↦ inr (r.known m.seq t old, rw old)
]

taking-Has :
    {b : End} (m : Message) (now : ℕ)
    → IsReceiver b
    → m.seq ≤ max_seq
    → Has (taking b (some (message m)) now).delivered m.seq
taking-Has {b} m now r small = elim (taking-message m now r) [
  | inl (new, e) ↦ rw e (m, inl refl, refl, small)
  | inr (old, e) ↦ rw e old
]

taking-IsReceiver :
    {b : End} (packet : Option Packet) (now : ℕ)
    → ((m : Message) → packet ≡ some (message m) → m.seq ≤ max_seq)
    → IsReceiver b
    → IsReceiver (taking b packet now)
unfolding on_packet
taking-IsReceiver none now small r = r
taking-IsReceiver {b} (some (ack n)) now small r = record {
  manager = r.manager;
  one_manager = ground (arith, r.one_manager);
  acked = λ k h. r.acked k (ground arith);
  known = λ k t h. r.known k t (ground arith);
  answered = r.answered;
}
taking-IsReceiver {b} (some (message m)) now small r = record {
  manager = r.manager;
  one_manager = r.one_manager;
  acked = λ n h. elim (Bool-cases (m.seq == n)) [
    | inl same ↦ subst (Has _) ((nat_beq_iff m.seq n).0 same) has
    | inr other ↦ keep n (r.acked n (ground (arith, member-insert m.seq n b.link.acks_to_send)))
  ];
  known = λ n t h. elim (Bool-cases (m.seq == n)) [
    | inl same ↦ subst (Has _) ((nat_beq_iff m.seq n).0 same) has
    | inr other ↦
        keep n (r.known n t (ground (arith, find-assign m.seq n now b.link.messages_delivered)))
  ];
  answered = λ bytes n h e. keep n (r.answered bytes n h e);
}
  where
    has : Has (taking b (some (message m)) now).delivered m.seq
    has = taking-Has m now r (small m refl)

    keep : (n : ℕ) → Has b.delivered n → Has (taking b (some (message m)) now).delivered n
    keep n = Has-mono _ b.delivered n

-- A step keeps this, where every message that comes in has a number that was given out.
pub Move-IsReceiver :
    {strong : Bool} {b a b' : End}
    → Move strong b a b'
    → ((bytes : List ℕ) (m : Message)
        → In bytes a.out
        → parse bytes ≡ some (message m)
        → m.seq ≤ max_seq)
    → IsReceiver b
    → IsReceiver b'
unfolding notify
Move-IsReceiver (sends payload s) small r = sending-IsReceiver payload r
Move-IsReceiver sends_messages small r = sending_messages-IsReceiver r
Move-IsReceiver {strong} (sends_acks now) small r = sending_acks-IsReceiver strong now r
Move-IsReceiver (receives bytes now i) small r =
    taking-IsReceiver (parse bytes) now (λ m. small bytes m i) r
