-- ===== src/PerfectLink/Linked.antt =====
-- What holds between two ends of a link, and is kept by every step of either.
use distributed_algorithms_p.Prelude.{
  ℕ, ◌≤◌, ◌<◌, ◌≡◌, refl, sym, subst, ◌∙◌, Bool, List, [], Option, none, some, arith, ◌==◌, nat_eq,
  nat_beq_iff, max_seq, In, ◌⊎◌, inl, inr, Bool-cases, In-append_right,
}
use distributed_algorithms_p.Prelude.Map.{find, find-remove, find-emplace}
use distributed_algorithms_p.Prelude.Set.{member}
use distributed_algorithms_p.Udp.{Machine}
use distributed_algorithms_p.PerfectLink.Codec.{Message, Packet, message, ack, parse}
use distributed_algorithms_p.PerfectLink.Link.{
  new_link, subscribe, send, on_packet, receive_ack, notify,
}
use distributed_algorithms_p.PerfectLink.Channel.{
  End, sending, Move, sends, sends_messages, sends_acks, receives, Channel, Step, on_left, on_right,
  Reach, here, next,
}
use distributed_algorithms_p.PerfectLink.Sender.{
  IsSender, Move-IsSender, find-fresh, send_acks-SameQueue, on_packet-queue, on_packet_queue,
}
use distributed_algorithms_p.PerfectLink.Receiver.{
  IsReceiver, Has, Move-IsReceiver, taking, taking-message,
}

-- The message is still in `messages_to_send_`, or it has reached the other side's manager.
abbrev pub IsSafe : End → End → Message → Type 0
IsSafe a b m = (find m.seq a.link.messages_to_send ≡ some m.payload) ⊎ In m b.delivered

-- What holds from `a` to `b`.
pub record IsLinked (a b : End) : Type 0 where
  pub sender : IsSender a
  pub receiver : IsReceiver b
  pub created : (m : Message) → In m b.delivered → In m a.sent
  pub kept : (m : Message) → In m a.sent → IsSafe a b m

kept-sending :
    {a b : End} (payload : List ℕ)
    → a.link.n_messages_sent < max_seq
    → IsLinked a b
    → (m : Message) → In m (sending a payload).sent
    → IsSafe (sending a payload) b m
unfolding send
kept-sending {a} payload small l m h = ground (
  arith,
  h,
  find-emplace a.link.n_messages_sent m.seq payload a.link.messages_to_send,
  find-fresh l.sender,
  l.kept m,
  l.sender.numbered m,
)

-- An ack shows that the message which it takes out of the queue was delivered.
kept-packet :
    {a b : End} (packet : Option Packet) (now : ℕ)
    → ((n : ℕ) → packet ≡ some (ack n) → Has b.delivered n)
    → IsLinked a b
    → (m : Message) → In m a.sent
    → (find m.seq (on_packet_queue a.link packet) ≡ some m.payload) ⊎ In m b.delivered
unfolding receive_ack
kept-packet none now acked l m h = l.kept m h
kept-packet (some (message x)) now acked l m h = l.kept m h
kept-packet {a} {b} (some (ack n)) now acked l m h =
    let (m', i, e, _) = acked n refl in
    elim (Bool-cases (n == m.seq)) [
      | inl same ↦
          let same' : m'.seq ≡ m.seq = e ∙ (nat_beq_iff n m.seq).0 same in
          inr (subst (λ x. In x b.delivered) (l.sender.unique m' m (l.created m' i) h same') i)
      | inr other ↦ ground (arith, other, l.kept m h, find-remove n m.seq a.link.messages_to_send)
    ]

-- A step of the sending end.
pub sender_moves :
    {strong : Bool} {a b a' : End} → Move strong a b a' → IsLinked a b → IsLinked a' b
unfolding notify
sender_moves {strong} {a} {b} (sends payload small) l = record {
  sender = Move-IsSender {strong = strong} {b = b} (sends payload small) l.sender;
  receiver = l.receiver;
  created = λ m i. inr (l.created m i);
  kept = kept-sending payload small l;
}
sender_moves {strong} {a} {b} sends_messages l = record {
  sender = Move-IsSender {strong = strong} {b = b} sends_messages l.sender;
  receiver = l.receiver;
  created = l.created;
  kept = l.kept;
}
sender_moves {strong} {a} {b} (sends_acks now) l = record {
  sender = Move-IsSender {strong = strong} {b = b} (sends_acks now) l.sender;
  receiver = l.receiver;
  created = l.created;
  kept = λ m h. ground (arith, send_acks-SameQueue strong now a.link, l.kept m h);
}
sender_moves {strong} {a} {b} (receives bytes now i) l = record {
  sender = Move-IsSender {strong = strong} {b = b} (receives bytes now i) l.sender;
  receiver = l.receiver;
  created = l.created;
  kept = λ m h. ground (
    arith,
    on_packet-queue a.link (parse bytes) now,
    kept-packet (parse bytes) now (λ n. l.receiver.answered bytes n i) l m h,
  );
}

created-taking :
    {a b : End} (packet : Option Packet) (now : ℕ)
    → ((m : Message) → packet ≡ some (message m) → In m a.sent)
    → IsLinked a b
    → (m : Message) → In m (taking b packet now).delivered
    → In m a.sent
unfolding on_packet
created-taking none now ok l m h = l.created m h
created-taking (some (ack n)) now ok l m h = l.created m h
created-taking {a} (some (message x)) now ok l m h = elim (taking-message x now l.receiver) [
  | inl (_, e) ↦ elim (subst (In m) e h) [
    | inl new ↦ subst (λ y. In y a.sent) (sym new) (ok x refl)
    | inr old ↦ l.created m old
  ]
  | inr (_, e) ↦ l.created m (subst (In m) e h)
]

seq_bound :
    {a b : End}
    → IsLinked a b
    → (bytes : List ℕ) (m : Message) → In bytes a.out
    → parse bytes ≡ some (message m)
    → m.seq ≤ max_seq
seq_bound l bytes m i e =
    let s = l.sender in omega (arith, s.numbered m (s.wired bytes m i e), s.bounded)

-- A step of the receiving end.
pub receiver_moves :
    {strong : Bool} {a b b' : End} → Move strong b a b' → IsLinked a b → IsLinked a b'
unfolding notify
receiver_moves {strong} {a} {b} (sends payload small) l = record {
  sender = l.sender;
  receiver =
      Move-IsReceiver {strong = strong} {a = a} (sends payload small) (seq_bound l) l.receiver;
  created = l.created;
  kept = l.kept;
}
receiver_moves {strong} {a} {b} sends_messages l = record {
  sender = l.sender;
  receiver = Move-IsReceiver {strong = strong} {a = a} sends_messages (seq_bound l) l.receiver;
  created = l.created;
  kept = l.kept;
}
receiver_moves {strong} {a} {b} (sends_acks now) l = record {
  sender = l.sender;
  receiver = Move-IsReceiver {strong = strong} {a = a} (sends_acks now) (seq_bound l) l.receiver;
  created = l.created;
  kept = l.kept;
}
receiver_moves {strong} {a} {b} (receives bytes now i) l = record {
  sender = l.sender;
  receiver =
      Move-IsReceiver {strong = strong} {a = a} (receives bytes now i) (seq_bound l) l.receiver;
  created = created-taking (parse bytes) now (λ m. l.sender.wired bytes m i) l;
  kept = λ m h. elim (l.kept m h) [
    | inl waits ↦ inl waits
    | inr got ↦ inr (In-append_right m _ b.delivered got)
  ];
}

-- Both directions.
pub record AreLinked (c : Channel) : Type 0 where
  pub to_right : IsLinked c.left c.right
  pub to_left : IsLinked c.right c.left

pub Step-AreLinked : {strong : Bool} {c d : Channel} → Step strong c d → AreLinked c → AreLinked d
Step-AreLinked (on_left m) l = record {
  to_right = sender_moves m l.to_right;
  to_left = receiver_moves m l.to_left;
}
Step-AreLinked (on_right m) l = record {
  to_right = receiver_moves m l.to_right;
  to_left = sender_moves m l.to_left;
}

pub Reach-AreLinked : {strong : Bool} {c d : Channel} → Reach strong c d → AreLinked c → AreLinked d
Reach-AreLinked here l = l
Reach-AreLinked (next r s) l = Step-AreLinked s (Reach-AreLinked r l)

-- A new link with its one manager, before anything is sent.
abbrev pub new_end : ℕ → ℕ → Machine → ℕ → End
new_end id target_id target_addr manager = record {
  link = subscribe (new_link id target_id target_addr) manager;
  out = [];
  sent = [];
  delivered = [];
}

pub new_end-IsLinked :
    (id id' target target' manager manager' : ℕ) (addr addr' : Machine)
    → IsLinked (new_end id target addr manager) (new_end id' target' addr' manager')
unfolding subscribe new_link find member
new_end-IsLinked id id' target target' manager manager' addr addr' = record {
  sender = record {
    bounded = omega arith;
    numbered = λ m h. absurd h;
    unique = λ m m' h h' e. absurd h;
    queued = λ x h. absurd h;
    wired = λ bytes m h e. absurd h;
  };
  receiver = record {
    manager = manager';
    one_manager = refl;
    acked = λ n h. cc;
    known = λ n t h. cc;
    answered = λ bytes n h e. absurd h;
  };
  created = λ m h. absurd h;
  kept = λ m h. absurd h;
}
