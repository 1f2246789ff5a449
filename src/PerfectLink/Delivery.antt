-- ===== src/PerfectLink/Delivery.antt =====
-- The promises of a perfect link, for every run of two ends over the network.
use distributed_algorithms_p.Prelude.{
  ℕ, ◌≡◌, sym, ap, ◌∙◌, subst, Bool, true, List, map, Option, none, some, arith, ◌==◌, nat_eq, In,
  In-append, In-All, All-from_In, All, ◌⊎◌, ◌+◌, ◌≤◌, length, inl, inr, Bool-cases,
}
use distributed_algorithms_p.Prelude.Map.{find, find-assign}
use distributed_algorithms_p.Prelude.Set.{member, Distinct}
use distributed_algorithms_p.Udp.{Machine}
use distributed_algorithms_p.PerfectLink.Codec.{
  Message, Packet, message, ack, parse, serialize, ack_packet, packet_prefix_size, max_send_size,
  length-serialize,
}
use distributed_algorithms_p.PerfectLink.Packets.{In-packets-send_messages, In-packets-send_acks}
use distributed_algorithms_p.PerfectLink.Link.{
  PerfectLink, on_packet, receive_ack, notify, send_acks, send_messages, clean_acks, send,
}
use distributed_algorithms_p.PerfectLink.Channel.{
  packets, End, Move, sends, sends_messages, sends_acks, receives, Channel, on_left, on_right,
  Reach, here, next,
}
use distributed_algorithms_p.PerfectLink.Receiver.{taking, taking-message}
use distributed_algorithms_p.PerfectLink.Linked.{
  IsLinked, IsSafe, AreLinked, Reach-AreLinked, new_end, new_end-IsLinked,
}

-- Two new ends; each has its own id, the other's id, the other's address and one manager.
pub record Setup : Type 0 where
  pub left_id : ℕ
  pub right_id : ℕ
  pub left_addr : Machine
  pub right_addr : Machine
  pub left_manager : ℕ
  pub right_manager : ℕ

abbrev pub new_channel : Setup → Channel
new_channel s = record {
  left = new_end s.left_id s.right_id s.right_addr s.left_manager;
  right = new_end s.right_id s.left_id s.left_addr s.right_manager;
}

new_channel-AreLinked : (s : Setup) → AreLinked (new_channel s)
new_channel-AreLinked s = record {
  to_right = new_end-IsLinked _ _ _ _ _ _ _ _;
  to_left = new_end-IsLinked _ _ _ _ _ _ _ _;
}

-- What `a` promises of its messages to `b`.
abbrev pub IsReliable : End → End → Type 0
IsReliable a b =
    ((m : Message) → In m b.delivered → In m a.sent) × ((m : Message) → In m a.sent → IsSafe a b m)

-- Each packet that an end has sent is an ack, or has one of the messages given to its `Send`.
abbrev IsPosted : End → List ℕ → Type 0
IsPosted a bytes =
    ((n : ℕ) × (bytes ≡ ack_packet n)) ⊎ ((m : Message) × In m a.sent × (bytes ≡ serialize m))

abbrev HasPosted : End → Type 0
HasPosted a = (bytes : List ℕ) → In bytes a.out → IsPosted a bytes

Move-HasPosted :
    {strong : Bool} {a b a' : End} → Move strong a b a' → IsLinked a b → HasPosted a → HasPosted a'
Move-HasPosted (sends payload small) l h bytes on = elim (h bytes on) [
  | inl acks ↦ inl acks
  | inr (m, at, e) ↦ inr (m, inr at, e)
]
Move-HasPosted {a = a} sends_messages l h bytes on =
    elim (In-append bytes (packets (send_messages a.link)) a.out on) [
      | inr old ↦ h bytes old
      | inl new ↦
          let (x, at, e) = In-packets-send_messages a.link bytes new in
          inr (record { seq = x.0; payload = x.1 }, l.sender.queued x at, e)
    ]
Move-HasPosted {strong} {a} (sends_acks now) l h bytes on =
    elim (In-append bytes (packets (send_acks strong now a.link).1) a.out on) [
      | inr old ↦ h bytes old
      | inl new ↦ let (n, _, e) = In-packets-send_acks strong now a.link bytes new in inl (n, e)
    ]
Move-HasPosted (receives packet now at) l h bytes on = h bytes on

reach-HasPosted :
    {strong : Bool} (s : Setup) {c : Channel}
    → Reach strong (new_channel s) c
    → HasPosted c.left × HasPosted c.right
reach-HasPosted s here = (λ bytes on. absurd on, λ bytes on. absurd on)
reach-HasPosted s (next r (on_left m)) =
    let (h, k) = reach-HasPosted s r in
    (Move-HasPosted m (Reach-AreLinked r (new_channel-AreLinked s)).to_right h, k)
reach-HasPosted s (next r (on_right m)) =
    let (h, k) = reach-HasPosted s r in
    (h, Move-HasPosted m (Reach-AreLinked r (new_channel-AreLinked s)).to_left k)

-- What was given to `Send` fits the buffer that `SendMessages` writes it to.
abbrev pub AreSmall : End → Type 0
AreSmall a = All (λ (m : Message). packet_prefix_size + length m.payload ≤ max_send_size) a.sent

-- And so does what was written there.
abbrev pub AreWhole : End → Type 0
AreWhole a = All (λ (bytes : List ℕ). length bytes ≤ max_send_size) a.out

HasPosted-AreWhole : (a : End) → AreSmall a → HasPosted a → AreWhole a
unfolding ack_packet
HasPosted-AreWhole a small h = All-from_In _ a.out λ bytes on. elim (h bytes on) [
  | inl (n, e) ↦ subst (λ b. length b ≤ max_send_size) (sym e) (omega arith)
  | inr (m, at, e) ↦
      subst (λ b. length b ≤ max_send_size) (sym e)
        (omega (arith, length-serialize m, In-All _ a.sent m small at))
]

-- In every reachable state of two ends that each number fewer than 2^32 - 1 messages, with or
-- without PERFECT_LINKS_STRONG, where no message given to `Send` is longer than what the buffer of
-- `SendMessages` holds after the packet's prefix: no packet is longer than that buffer, which is also
-- what the server reads; and in both directions each message handed to a manager was given to `Send` at
-- the other end with the same number and payload, and each message given to `Send` still waits in
-- `messages_to_send_`, to be sent again, or was handed to the other end's manager.
pub reach-IsReliable :
    {strong : Bool} (s : Setup) {c : Channel}
    → Reach strong (new_channel s) c
    → AreSmall c.left
    → AreSmall c.right
    → (AreWhole c.left × IsReliable c.left c.right) × (AreWhole c.right × IsReliable c.right c.left)
reach-IsReliable s {c} r left right =
    let l = Reach-AreLinked r (new_channel-AreLinked s) in
    let (h, k) = reach-HasPosted s r in
    (
      (HasPosted-AreWhole c.left left h, (l.to_right.created, l.to_right.kept)),
      (HasPosted-AreWhole c.right right k, (l.to_left.created, l.to_left.kept)),
    )

abbrev seqs : List Message → List ℕ
seqs = map (λ m. m.seq)

-- Every message handed over is marked, and none was handed over twice.
record IsOnce (b : End) : Type 0 where
  marked :
      (n : ℕ)
      → member n (seqs b.delivered) ≡ true
      → (t : ℕ) × (find n b.link.messages_delivered ≡ some t)
  once : Distinct (seqs b.delivered)

taking-marked :
    {a b : End} (m : Message) (now : ℕ)
    → IsLinked a b
    → IsOnce b
    → (n : ℕ) → member n (seqs (taking b (some (message m)) now).delivered) ≡ true
    → (t : ℕ) × (find n (taking b (some (message m)) now).link.messages_delivered ≡ some t)
unfolding on_packet member
taking-marked {a} {b} m now l o n h = elim (Bool-cases (m.seq == n)) [
  | inl same ↦ (now, find-assign m.seq n now b.link.messages_delivered ∙ rw same)
  | inr other ↦
      let old : member n (seqs b.delivered) ≡ true = elim (taking-message m now l.receiver) [
        | inl (_, e) ↦ rw other at (subst (λ d. member n (seqs d) ≡ true) e h)
        | inr (_, e) ↦ subst (λ d. member n (seqs d) ≡ true) e h
      ] in
      let (t, e) = o.marked n old in
      (t, find-assign m.seq n now b.link.messages_delivered ∙ rw other e)
]

taking-once :
    {a b : End} (m : Message) (now : ℕ)
    → IsLinked a b
    → IsOnce b
    → Distinct (seqs (taking b (some (message m)) now).delivered)
taking-once {a} {b} m now l o = elim (taking-message m now l.receiver) [
  | inl (new, e) ↦
      subst (λ d. Distinct (seqs d)) (sym e)
        (elim (Bool-cases (member m.seq (seqs b.delivered))) [
          | inl old ↦ let (t, f) = o.marked m.seq old in cc
          | inr fresh ↦ (fresh, o.once)
        ])
  | inr (_, e) ↦ subst (λ d. Distinct (seqs d)) (sym e) o.once
]

receive_ack-messages_delivered :
    (pl : PerfectLink) (n : ℕ) → (receive_ack pl n).messages_delivered ≡ pl.messages_delivered
unfolding receive_ack
receive_ack-messages_delivered pl n = ground arith

send_acks-messages_delivered :
    (now : ℕ) (pl : PerfectLink)
    → (send_acks true now pl).0.messages_delivered ≡ pl.messages_delivered
unfolding send_acks clean_acks
send_acks-messages_delivered now pl = ground arith

taking-IsOnce :
    {a b : End} (packet : Option Packet) (now : ℕ)
    → IsLinked a b
    → IsOnce b
    → IsOnce (taking b packet now)
unfolding on_packet
taking-IsOnce none now l o = o
taking-IsOnce {a} {b} (some (ack n)) now l o = record {
  marked = λ k h.
      let (t, e) = o.marked k h in (t, ap (find k) (receive_ack-messages_delivered b.link n) ∙ e);
  once = o.once;
}
taking-IsOnce (some (message m)) now l o = record {
  marked = taking-marked m now l o;
  once = taking-once m now l o;
}

Move-IsOnce : {a b b' : End} → Move true b a b' → IsLinked a b → IsOnce b → IsOnce b'
unfolding notify send
Move-IsOnce (sends payload small) l o = record { marked = o.marked; once = o.once }
Move-IsOnce sends_messages l o = record { marked = o.marked; once = o.once }
Move-IsOnce {a} {b} (sends_acks now) l o = record {
  marked = λ n h.
      let (t, e) = o.marked n h in (t, ap (find n) (send_acks-messages_delivered now b.link) ∙ e);
  once = o.once;
}
Move-IsOnce (receives bytes now i) l o = taking-IsOnce (parse bytes) now l o

new_end-IsOnce : (id target manager : ℕ) (addr : Machine) → IsOnce (new_end id target addr manager)
unfolding member
new_end-IsOnce id target manager addr = record { marked = λ n h. cc; once = tt }

reach-IsOnce :
    (s : Setup) {c : Channel} → Reach true (new_channel s) c → IsOnce c.left × IsOnce c.right
reach-IsOnce s here = (new_end-IsOnce _ _ _ _, new_end-IsOnce _ _ _ _)
reach-IsOnce s (next r (on_left m)) =
    let (o, p) = reach-IsOnce s r in
    (Move-IsOnce m (Reach-AreLinked r (new_channel-AreLinked s)).to_left o, p)
reach-IsOnce s (next r (on_right m)) =
    let (o, p) = reach-IsOnce s r in
    (o, Move-IsOnce m (Reach-AreLinked r (new_channel-AreLinked s)).to_right p)

-- With PERFECT_LINKS_STRONG, for two ends that each number fewer than 2^32 - 1 messages, however
-- often the network repeats a datagram and whatever the clocks show, no sequence number is handed
-- twice to the manager at either end.
pub reach-Distinct :
    (s : Setup) {c : Channel}
    → Reach true (new_channel s) c
    → Distinct (map (λ m. m.seq) c.left.delivered) × Distinct (map (λ m. m.seq) c.right.delivered)
reach-Distinct s r = let (o, p) = reach-IsOnce s r in (o.once, p.once)
