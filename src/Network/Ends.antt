-- ===== src/Network/Ends.antt =====
-- The links of a process one by one, and what the two ends of a link keep over several moves of one.
use distributed_algorithms_p.Prelude.{
  ℕ, ◌≡◌, refl, true, Bool, List, [], ◌∷◌, map, some, arith, ◌==◌, ==_refl, nat_eq, nat_beq_iff,
  if◌then◌else◌, In, In-append, In-append_right, In-map, inl, inr, ap, Bool-cases, is_empty,
}
use distributed_algorithms_p.Prelude.Map.{find, assign}
use distributed_algorithms_p.Prelude.Set.{member, Distinct}
use distributed_algorithms_p.Udp.{Datagram}
use distributed_algorithms_p.PerfectLink.Codec.{Message}
use distributed_algorithms_p.PerfectLink.Link.{PerfectLink, send, send_acks, send_messages}
use distributed_algorithms_p.PerfectLink.Channel.{
  End, Move, sends, sends_messages, sends_acks, receives,
}
use distributed_algorithms_p.PerfectLink.Linked.{IsLinked, sender_moves, receiver_moves}
use distributed_algorithms_p.Manager.{Links, send_acks_all, send_messages_all}
use distributed_algorithms_p.Broadcast.{send_all}

abbrev pub keys : Links → List ℕ
keys = map (λ l. l.0)

member-keys-assign :
    (k j : ℕ) (pl : PerfectLink) (links : Links)
    → member j (keys (assign k pl links)) ≡ (if k == j then true else member j (keys links))
unfolding assign member
member-keys-assign k j pl [] = ground arith
member-keys-assign k j pl ((i, q) ∷ links) =
    ground
      (arith, nat_beq_iff i k, nat_beq_iff k j, nat_beq_iff i j, member-keys-assign k j pl links)

pub keys-assign-Distinct :
    (k : ℕ) (pl : PerfectLink) (links : Links)
    → Distinct (keys links)
    → Distinct (keys (assign k pl links))
unfolding assign member
keys-assign-Distinct k pl [] d = (refl, tt)
keys-assign-Distinct k pl ((i, q) ∷ links) d = elim (Bool-cases (i == k)) [
  | inl same ↦ rw same (ground (arith, nat_beq_iff i k, d.0), d.1)
  | inr other ↦ rw other (
    ground (arith, nat_beq_iff i k, nat_beq_iff k i, d.0, member-keys-assign k i pl links),
    keys-assign-Distinct k pl links d.1,
  )
]

pub keys-send_all : (bytes : List ℕ) (links : Links) → keys (send_all bytes links) ≡ keys links
unfolding send_all
keys-send_all bytes [] = refl
keys-send_all bytes ((k, pl) ∷ links) = ap (λ ks. k ∷ ks) (keys-send_all bytes links)

pub keys-send_acks_all :
    (strong : Bool) (now : ℕ) (links : Links) → keys (send_acks_all strong now links).0 ≡ keys links
unfolding send_acks_all
keys-send_acks_all strong now [] = refl
keys-send_acks_all strong now ((k, pl) ∷ links) =
    ap (λ ks. k ∷ ks) (keys-send_acks_all strong now links)

pub find-send_all :
    (bytes : List ℕ) (links : Links) (k : ℕ) (pl : PerfectLink)
    → find k links ≡ some pl
    → find k (send_all bytes links) ≡ some ((send pl bytes).0)
unfolding find send_all
find-send_all bytes [] k pl e = cc
find-send_all bytes ((j, q) ∷ links) k pl e = elim (Bool-cases (j == k)) [
  | inl same ↦ rw same (ap some (ap (λ (l : PerfectLink). (send l bytes).0) (ground arith)))
  | inr other ↦ rw other (find-send_all bytes links k pl (rw other at e))
]

pub find-send_acks_all :
    (strong : Bool) (now : ℕ) (links : Links) (k : ℕ) (pl : PerfectLink)
    → find k links ≡ some pl
    → find k (send_acks_all strong now links).0 ≡ some ((send_acks strong now pl).0)
unfolding find send_acks_all
find-send_acks_all strong now [] k pl e = cc
find-send_acks_all strong now ((j, q) ∷ links) k pl e = elim (Bool-cases (j == k)) [
  | inl same ↦
      rw same (ap some (ap (λ (l : PerfectLink). (send_acks strong now l).0) (ground arith)))
  | inr other ↦ rw other (find-send_acks_all strong now links k pl (rw other at e))
]

member-keys :
    (k : ℕ) (pl : PerfectLink) (links : Links) → In (k, pl) links → member k (keys links) ≡ true
unfolding member
member-keys k pl [] i = absurd i
member-keys k pl ((j, q) ∷ links) i = ground (arith, i, ==_refl k, member-keys k pl links)

-- A link stands under one id.
pub find-of_In :
    (k : ℕ) (pl : PerfectLink) (links : Links)
    → Distinct (keys links)
    → In (k, pl) links
    → find k links ≡ some pl
unfolding find
find-of_In k pl [] d i = absurd i
find-of_In k pl ((j, q) ∷ links) d (inl e) = ground (arith, e, ==_refl k)
find-of_In k pl ((j, q) ∷ links) d (inr i) =
    ground (arith, d.0, member-keys k pl links i, nat_beq_iff j k, find-of_In k pl links d.1 i)

-- Which link has sent what goes out.
pub send_messages_all-from :
    (links : Links) (d : Datagram)
    → In d (send_messages_all links)
    → (k : ℕ) × (pl : PerfectLink) × In (k, pl) links
      × In d (send_messages pl)
      × (d.machine ≡ pl.target_addr)
unfolding send_messages_all send_messages
send_messages_all-from [] d i = absurd i
send_messages_all-from ((k, pl) ∷ links) d i =
    elim (In-append d (send_messages pl) (send_messages_all links) i) [
      | inl now ↦
          let (x, _, e) = In-map _ d pl.messages_to_send now in
          (k, pl, inl refl, now, ap (λ (y : Datagram). y.machine) e)
      | inr later ↦
          let (j, q, at, out, to) = send_messages_all-from links d later in (j, q, inr at, out, to)
    ]

send_acks-to :
    (strong : Bool) (now : ℕ) (pl : PerfectLink) (d : Datagram)
    → In d (send_acks strong now pl).1
    → d.machine ≡ pl.target_addr
unfolding send_acks
send_acks-to strong now pl d i = elim (Bool-cases (is_empty pl.acks_to_send)) [
  | inl nothing ↦ absurd (rw nothing at i)
  | inr acks ↦
      let (x, _, e) = In-map _ d pl.acks_to_send (rw acks at i) in
      ap (λ (y : Datagram). y.machine) e
]

pub send_acks_all-from :
    (strong : Bool) (now : ℕ) (links : Links) (d : Datagram)
    → In d (send_acks_all strong now links).1
    → (k : ℕ) × (pl : PerfectLink) × In (k, pl) links
      × In d (send_acks strong now pl).1
      × (d.machine ≡ pl.target_addr)
unfolding send_acks_all
send_acks_all-from strong now [] d i = absurd i
send_acks_all-from strong now ((k, pl) ∷ links) d i =
    elim (In-append d (send_acks strong now pl).1 (send_acks_all strong now links).1 i) [
      | inl now_ ↦ (k, pl, inl refl, now_, send_acks-to strong now pl d now_)
      | inr later ↦
          let (j, q, at, out, to) = send_acks_all-from strong now links d later in
          (j, q, inr at, out, to)
    ]

-- Several moves of one end, while the other end stands still.
pub data Moves (strong : Bool) (self peer : End) : End → Type 0 where
  stays : Moves strong self peer self
  then_move :
      {a b : End} → Moves strong self peer a → Move strong a peer b → Moves strong self peer b

module _ {strong : Bool} {self peer : End} where
  pub sender-Moves : {e : End} → Moves strong self peer e → IsLinked self peer → IsLinked e peer
  sender-Moves stays l = l
  sender-Moves (then_move ms m) l = sender_moves m (sender-Moves ms l)

  pub receiver-Moves : {e : End} → Moves strong self peer e → IsLinked peer self → IsLinked peer e
  receiver-Moves stays l = l
  receiver-Moves (then_move ms m) l = receiver_moves m (receiver-Moves ms l)

  -- What went out and what was sent stays on record.
  pub Moves-out : {e : End} → Moves strong self peer e → (b : List ℕ) → In b self.out → In b e.out
  Moves-out stays b i = i
  Moves-out (then_move ms (sends payload small)) b i = Moves-out ms b i
  Moves-out (then_move ms sends_messages) b i = In-append_right b _ _ (Moves-out ms b i)
  Moves-out (then_move ms (sends_acks now)) b i = In-append_right b _ _ (Moves-out ms b i)
  Moves-out (then_move ms (receives bytes now on)) b i = Moves-out ms b i

  pub Moves-sent :
      {e : End} → Moves strong self peer e → (m : Message) → In m self.sent → In m e.sent
  Moves-sent stays m i = i
  Moves-sent (then_move ms (sends payload small)) m i = inr (Moves-sent ms m i)
  Moves-sent (then_move ms sends_messages) m i = Moves-sent ms m i
  Moves-sent (then_move ms (sends_acks now)) m i = Moves-sent ms m i
  Moves-sent (then_move ms (receives bytes now on)) m i = Moves-sent ms m i
