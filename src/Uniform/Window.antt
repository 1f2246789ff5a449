-- ===== src/Uniform/Window.antt =====
-- Flow control: a process's own messages are sent in order, within a window.
use distributed_algorithms_p.Prelude.{
  ℕ, suc, ◌+◌, ◌≤◌, ◌<◌, ◌≡◌, ◌≢◌, refl, sym, subst, true, false, List, [], ◌∷◌, ◌++◌, arith,
  nat_eq, inl, inr, ◌⊎◌, u32, max_seq, leb,
}
use distributed_algorithms_p.Prelude.Set.{member, Distinct, insert-Distinct, member-insert}
use distributed_algorithms_p.Broadcast.Types.{Message, MessageId, id_eq, id_beq_iff}
use distributed_algorithms_p.Broadcast.{Upper, best_effort_send, best_effort_notify}
use distributed_algorithms_p.DeliveredSet
use distributed_algorithms_p.Uniform.{
  Uniform, max_msgs_in_network, send_internal, send, notify_internal, count_up, with_queue,
  own_message, numbered,
}
use distributed_algorithms_p.Uniform.Run.{Event, sent, notified}
use distributed_algorithms_p.Uniform.Cases.{send_cases, notify_internal_cases, told, acked}
use distributed_algorithms_p.Uniform.OwnCount.{own_count, own_count-insert}

-- The author's id with that number.
abbrev pub own_id : ℕ → ℕ → MessageId
own_id author seq = record { seq = seq; author = author }

-- The queue holds the author's messages from number `from` up to `to` - 1, in order.
abbrev pub Queued : ℕ → ℕ → List Message → ℕ → Type 0
Queued author from [] to = from ≡ to
Queued author from (m ∷ queue) to = (m.id ≡ own_id author from) × Queued author (suc from) queue to

Queued-append :
    (author from to : ℕ) (queue : List Message) (m : Message)
    → Queued author from queue to
    → m.id ≡ own_id author to
    → Queued author from (queue ++ m ∷ []) (suc to)
Queued-append author from to [] m q e = ground arith
Queued-append author from to (x ∷ queue) m q e =
    (q.0, Queued-append author (suc from) to queue m q.1 e)

pub record IsFlowing {U : Type 0} (u : Uniform U) : Type 0 where
  pub distinct : Distinct u.pending_for_delivery
  pub counted : u.n_own_pending_for_delivery ≡ own_count u.id u.pending_for_delivery
  pub within : u.n_own_pending_for_delivery ≤ u.n_own_pending_delivery_ideal
  pub positive : 1 ≤ u.n_own_pending_delivery_ideal
  pub small : u.n_own_pending_delivery_ideal ≤ max_msgs_in_network
  pub full :
      (u.own_pending_for_broadcast ≡ [])
      ⊎ (u.n_own_pending_for_delivery ≡ u.n_own_pending_delivery_ideal)
  pub front : ℕ
  pub queued : Queued u.id front u.own_pending_for_broadcast u.n_messages_sent
  pub before :
      (id : MessageId) → member id u.pending_for_delivery ≡ true → id.author ≡ u.id → id.seq < front
  pub accounted :
      (seq : ℕ)
      → 1 ≤ seq
      → seq < front
      → (member (own_id u.id seq) u.pending_for_delivery ≡ true)
        ⊎ (DeliveredSet.contains u.delivered (own_id u.id seq) ≡ true)
  -- the process's own delivered messages are behind the queue's front, and none is still pending
  pub past :
      (id : MessageId)
      → DeliveredSet.contains u.delivered id ≡ true
      → 1 ≤ id.seq
      → id.author ≡ u.id
      → id.seq < front
  pub apart :
      (id : MessageId)
      → 1 ≤ id.seq
      → member id u.pending_for_delivery ≡ true
      → DeliveredSet.contains u.delivered id ≡ false

-- A message that comes in under this process's own name is one that it has sent.
abbrev pub IsGenuine : {U : Type 0} → Uniform U → Event → Type 0
IsGenuine u (sent id) = Unit
IsGenuine u (notified m) =
    m.id.author ≡ u.id
    → (member m.id u.pending_for_delivery ≡ true) ⊎ (DeliveredSet.contains u.delivered m.id ≡ true)

module _ {U : Type 0} (upper : Upper U) where
  send_waits-IsFlowing :
      (u : Uniform U) (msg : List ℕ)
      → u.n_messages_sent < max_seq
      → leb u.n_own_pending_delivery_ideal u.n_own_pending_for_delivery ≡ true
      → IsFlowing u
      → IsFlowing (
          with_queue
            (u.own_pending_for_broadcast ++ own_message upper u msg ∷ [])
            (numbered upper u))
  send_waits-IsFlowing u msg small full f = record {
    distinct = f.distinct;
    counted = f.counted;
    within = f.within;
    small = f.small;
    positive = f.positive;
    full = inr (ground (arith, f.within));
    front = f.front;
    queued =
        let e : suc u.n_messages_sent ≡ u32 (u.n_messages_sent + 1) = omega arith in
        subst (Queued u.id f.front (u.own_pending_for_broadcast ++ own_message upper u msg ∷ [])) e
          (Queued-append u.id f.front u.n_messages_sent u.own_pending_for_broadcast _ f.queued
            refl);
    before = f.before;
    accounted = f.accounted;
    past = f.past;
    apart = f.apart;
  }

  send_goes-IsFlowing :
      (u : Uniform U) (msg : List ℕ)
      → u.n_messages_sent < max_seq
      → leb u.n_own_pending_delivery_ideal u.n_own_pending_for_delivery ≡ false
      → IsFlowing u
      → IsFlowing (send_internal (count_up (numbered upper u)) (own_message upper u msg))
  unfolding send_internal best_effort_send
  send_goes-IsFlowing u msg small room f = record {
    distinct = insert-Distinct id u.pending_for_delivery f.distinct;
    counted = ground (
      arith,
      f.counted,
      f.within,
      f.small,
      fresh,
      own_count-insert u.id id u.pending_for_delivery,
    );
    within = ground (arith, f.within, f.small);
    small = f.small;
    positive = f.positive;
    full = inl empty;
    front = suc u.n_messages_sent;
    queued =
        let e : suc u.n_messages_sent ≡ u32 (u.n_messages_sent + 1) = omega arith in
        subst (λ q. Queued u.id (suc u.n_messages_sent) q (u32 (u.n_messages_sent + 1))) (sym empty)
          e;
    before = λ j h e.
        ground
          (arith, front_eq, member-insert id j u.pending_for_delivery, id_beq_iff id j, f.before j);
    accounted = λ seq lo hi. ground (
      arith,
      front_eq,
      member-insert id (own_id u.id seq) u.pending_for_delivery,
      f.accounted seq,
    );
    past = λ j d lo own. ground (arith, front_eq, f.past j d lo own);
    apart = λ j lo h. ground (
      arith,
      front_eq,
      member-insert id j u.pending_for_delivery,
      id_beq_iff id j,
      f.apart j lo,
      f.past id,
    );
  }
    where
      id : MessageId
      id = own_id u.id u.n_messages_sent

      empty : u.own_pending_for_broadcast ≡ []
      empty = ground (arith, f.full)

      front_eq : f.front ≡ u.n_messages_sent
      front_eq = subst (λ q. Queued u.id f.front q u.n_messages_sent) empty f.queued

      fresh : member id u.pending_for_delivery ≡ false
      fresh = ground (arith, f.before id)

  pub send-IsFlowing :
      (u : Uniform U) (msg : List ℕ)
      → u.n_messages_sent < max_seq
      → IsFlowing u
      → IsFlowing (send upper u msg)
  send-IsFlowing u msg small f =
      send_cases IsFlowing upper u msg (λ full. send_waits-IsFlowing u msg small full f)
        (λ room. send_goes-IsFlowing u msg small room f)

  told-IsFlowing : (u : Uniform U) (msg : Message) → IsFlowing u → IsFlowing (told upper u msg)
  unfolding best_effort_notify
  told-IsFlowing u msg f = record {
    distinct = f.distinct;
    counted = f.counted;
    within = f.within;
    small = f.small;
    positive = f.positive;
    full = f.full;
    front = f.front;
    queued = f.queued;
    before = f.before;
    accounted = f.accounted;
    past = f.past;
    apart = f.apart;
  }

  pub acks-IsFlowing :
      (u : Uniform U) (acks : List (MessageId × List ℕ))
      → IsFlowing u
      → IsFlowing (record u { acks = acks })
  acks-IsFlowing u acks f = record {
    distinct = f.distinct;
    counted = f.counted;
    within = f.within;
    small = f.small;
    positive = f.positive;
    full = f.full;
    front = f.front;
    queued = f.queued;
    before = f.before;
    accounted = f.accounted;
    past = f.past;
    apart = f.apart;
  }

  relay-IsFlowing :
      (u : Uniform U) (msg : Message)
      → msg.id.author ≢ u.id
      → DeliveredSet.contains u.delivered msg.id ≡ false
      → member msg.id u.pending_for_delivery ≡ false
      → IsFlowing u
      → IsFlowing (send_internal u msg)
  unfolding send_internal best_effort_send
  relay-IsFlowing u msg other undelivered new f = record {
    distinct = insert-Distinct msg.id u.pending_for_delivery f.distinct;
    counted = ground (arith, f.counted, own_count-insert u.id msg.id u.pending_for_delivery);
    within = f.within;
    small = f.small;
    positive = f.positive;
    full = f.full;
    front = f.front;
    queued = f.queued;
    before = λ j h e.
        ground
          (arith, member-insert msg.id j u.pending_for_delivery, id_beq_iff msg.id j, f.before j);
    accounted = λ seq lo hi.
        ground
          (arith, member-insert msg.id (own_id u.id seq) u.pending_for_delivery, f.accounted seq);
    past = f.past;
    apart = λ j lo h. ground (
      arith,
      undelivered,
      member-insert msg.id j u.pending_for_delivery,
      id_beq_iff msg.id j,
      f.apart j lo,
    );
  }

  pub notify_internal-IsFlowing :
      (u : Uniform U) (msg : Message)
      → IsGenuine u (notified msg)
      → IsFlowing u
      → IsFlowing (notify_internal upper u msg)
  unfolding best_effort_notify
  notify_internal-IsFlowing u msg g f =
      let t = told-IsFlowing u msg f in
      notify_internal_cases IsFlowing upper u msg (λ _. t) (λ _ _. acks-IsFlowing _ _ t)
        λ undelivered new.
          relay-IsFlowing (acked upper u msg) msg
            (λ own. elim (g own) [ inl p ↦ ground arith | inr d ↦ ground arith ]) undelivered new
            (acks-IsFlowing _ _ t)
