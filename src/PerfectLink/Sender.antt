-- ===== src/PerfectLink/Sender.antt =====
-- What an end knows of the messages that it sends.
use distributed_algorithms_p.Prelude.{
  ℕ, ◌≤◌, ◌<◌, ◌≡◌, sym, ap, ◌∙◌, Bool, List, Option, none, some, arith, nat_eq, max_seq, In,
  In-append, inl, inr, Option-cases,
}
use distributed_algorithms_p.Prelude.Map.{find, In-remove, In-emplace, find-In}
use distributed_algorithms_p.PerfectLink.Codec.{
  Message, Packet, message, ack, parse, parse-serialize, not-message-ack_packet,
}
use distributed_algorithms_p.PerfectLink.Link.{
  PerfectLink, send, send_acks, clean_acks, send_messages, on_packet, receive_ack, notify,
}
use distributed_algorithms_p.PerfectLink.Packets.{In-packets-send_messages, In-packets-send_acks}
use distributed_algorithms_p.PerfectLink.Channel.{
  End, packets, sending, sending_messages, sending_acks, receiving, Move, sends, sends_messages,
  sends_acks, receives,
}

-- Numbers are given out once, and what waits to be sent or is on the wire was given to `Send`.
pub record IsSender (a : End) : Type 0 where
  pub bounded : a.link.n_messages_sent ≤ max_seq
  pub numbered : (m : Message) → In m a.sent → m.seq < a.link.n_messages_sent
  pub unique : (m m' : Message) → In m a.sent → In m' a.sent → m.seq ≡ m'.seq → m ≡ m'
  pub queued :
      (x : ℕ × List ℕ)
      → In x a.link.messages_to_send
      → In (record { seq = x.0; payload = x.1 }) a.sent
  pub wired :
      (bytes : List ℕ) (m : Message) → In bytes a.out → parse bytes ≡ some (message m) → In m a.sent

-- The fields that sending reads.
abbrev pub SameQueue : PerfectLink → PerfectLink → Type 0
SameQueue pl pl' =
    (pl'.n_messages_sent ≡ pl.n_messages_sent) × (pl'.messages_to_send ≡ pl.messages_to_send)

pub send_acks-SameQueue :
    (strong : Bool) (now : ℕ) (pl : PerfectLink) → SameQueue pl (send_acks strong now pl).0
unfolding send_acks clean_acks
send_acks-SameQueue strong now pl = ground arith

-- The queue after a packet: an ack takes its message out.
abbrev pub on_packet_queue : PerfectLink → Option Packet → List (ℕ × List ℕ)
on_packet_queue pl (some (ack n)) = (receive_ack pl n).messages_to_send
on_packet_queue pl _ = pl.messages_to_send

pub on_packet-queue :
    (pl : PerfectLink) (packet : Option Packet) (now : ℕ)
    → ((on_packet pl packet now).0.n_messages_sent ≡ pl.n_messages_sent)
      × ((on_packet pl packet now).0.messages_to_send ≡ on_packet_queue pl packet)
unfolding on_packet
on_packet-queue pl none now = ground arith
on_packet-queue pl (some (message m)) now = ground arith
on_packet-queue pl (some (ack n)) now = ground arith

pub In-on_packet_queue :
    (pl : PerfectLink) (packet : Option Packet) (x : ℕ × List ℕ)
    → In x (on_packet_queue pl packet)
    → In x pl.messages_to_send
unfolding receive_ack
In-on_packet_queue pl none x h = h
In-on_packet_queue pl (some (message m)) x h = h
In-on_packet_queue pl (some (ack n)) x h = ground (arith, In-remove n x pl.messages_to_send)

pub find-fresh : {a : End} → IsSender a → find a.link.n_messages_sent a.link.messages_to_send ≡ none
find-fresh {a} s = elim (Option-cases (find a.link.n_messages_sent a.link.messages_to_send)) [
  | inl e ↦ e
  | inr (p, e) ↦ absurd (omega (arith, s.numbered _ (s.queued _ (find-In _ p _ e))))
]

sending-IsSender :
    {a : End} (payload : List ℕ)
    → a.link.n_messages_sent < max_seq
    → IsSender a
    → IsSender (sending a payload)
unfolding send
sending-IsSender {a} payload small s = record {
  bounded = omega arith;
  numbered = λ m h. ground (arith, s.numbered m);
  unique = λ m m' h h' e. ground (arith, s.unique m m', s.numbered m, s.numbered m');
  queued = λ x h.
      ground
        (arith, In-emplace a.link.n_messages_sent payload x a.link.messages_to_send h, s.queued x);
  wired = λ bytes m h e. inr (s.wired bytes m h e);
}

sending_messages-IsSender : {a : End} → IsSender a → IsSender (sending_messages a)
sending_messages-IsSender {a} s = record {
  bounded = s.bounded;
  numbered = s.numbered;
  unique = s.unique;
  queued = s.queued;
  wired = λ bytes m h e. elim (In-append bytes (packets (send_messages a.link)) a.out h) [
    | inl new ↦
        let (x, i, p) = In-packets-send_messages a.link bytes new in
        ground (
          arith,
          s.queued x i,
          s.numbered (record { seq = x.0; payload = x.1 }),
          s.bounded,
          parse-serialize (record { seq = x.0; payload = x.1 }),
        )
    | inr old ↦ s.wired bytes m old e
  ];
}

sending_acks-IsSender :
    {a : End} (strong : Bool) (now : ℕ) → IsSender a → IsSender (sending_acks strong now a)
sending_acks-IsSender {a} strong now s = record {
  bounded = omega (arith, same);
  numbered = λ m h. omega (arith, same, s.numbered m h);
  unique = s.unique;
  queued = λ x h. s.queued x (rw (same.1) at h);
  wired = λ bytes m h e. elim (In-append bytes (packets (send_acks strong now a.link).1) a.out h) [
    | inl new ↦
        let (n, i, p) = In-packets-send_acks strong now a.link bytes new in
        absurd (not-message-ack_packet n m (sym (ap parse p) ∙ e))
    | inr old ↦ s.wired bytes m old e
  ];
}
  where
    same : SameQueue a.link (send_acks strong now a.link).0
    same = send_acks-SameQueue strong now a.link

receiving-IsSender :
    {a : End} (bytes : List ℕ) (now : ℕ) → IsSender a → IsSender (receiving a bytes now)
unfolding notify
receiving-IsSender {a} bytes now s = record {
  bounded = omega (arith, count);
  numbered = λ m h. omega (arith, count, s.numbered m h);
  unique = s.unique;
  queued = λ x h. s.queued x (In-on_packet_queue a.link (parse bytes) x (rw (queue) at h));
  wired = s.wired;
}
  where
    open (on_packet-queue a.link (parse bytes) now) use {«0» as count, «1» as queue}

pub Move-IsSender : {strong : Bool} {a b a' : End} → Move strong a b a' → IsSender a → IsSender a'
Move-IsSender (sends payload small) s = sending-IsSender payload small s
Move-IsSender sends_messages s = sending_messages-IsSender s
Move-IsSender {strong} (sends_acks now) s = sending_acks-IsSender strong now s
Move-IsSender (receives bytes now i) s = receiving-IsSender bytes now s
