-- ===== src/Uniform/Refill.antt =====
-- A delivery of a process's own message makes room in the window, which the queue fills again.
use distributed_algorithms_p.Prelude.{
  ℕ, suc, ◌≤◌, ◌<◌, ◌≡◌, subst, ◌∙◌, true, false, List, [], ◌∷◌, arith, if◌then◌else◌, ◌==◌, nat_eq,
  inl, inr, ◌⊎◌,
}
use distributed_algorithms_p.Prelude.Set.{
  member, erase, insert-Distinct, erase-Distinct, member-insert, member-erase,
}
use distributed_algorithms_p.Broadcast.Types.{Message, MessageId, id_eq, id_beq_iff}
use distributed_algorithms_p.Broadcast.{Upper, best_effort_send}
use distributed_algorithms_p.DeliveredSet
use distributed_algorithms_p.DeliveredSet.Refinement.{contains-insert}
use distributed_algorithms_p.Uniform.{
  Uniform, send_internal, deliver, erased, count_up, count_down, with_queue, record_delivery,
}
use distributed_algorithms_p.Uniform.Cases.{finish_own_cases}
use distributed_algorithms_p.Uniform.Sound.{IsSound}
use distributed_algorithms_p.Uniform.OwnCount.{own_count, own_count-insert, own_count-erase}
use distributed_algorithms_p.Uniform.Window.{IsFlowing, own_id, Queued}

module _ {U : Type 0} (upper : Upper U) where
  -- A pending id that is delivered, and the three ways in which its delivery goes on.
  module _ (u : Uniform U) (id : MessageId) (s : IsSound u) (f : IsFlowing u)
      (pending : member id u.pending_for_delivery ≡ true)
      (fresh : DeliveredSet.contains u.delivered id ≡ false) where
    fewer : own_count u.id u.pending_for_delivery ≡ (
        if id.author == u.id
        then suc (own_count u.id (erase id u.pending_for_delivery))
        else own_count u.id (erase id u.pending_for_delivery))
    fewer = own_count-erase u.id id u.pending_for_delivery f.distinct pending

    known_after :
        (seq : ℕ)
        → 1 ≤ seq
        → seq < f.front
        → (member (own_id u.id seq) (erase id u.pending_for_delivery) ≡ true)
          ⊎ (DeliveredSet.contains (DeliveredSet.insert u.delivered id) (own_id u.id seq) ≡ true)
    known_after seq lo hi = ground (
      arith,
      f.accounted seq lo hi,
      member-erase id (own_id u.id seq) u.pending_for_delivery,
      contains-insert u.delivered id (own_id u.id seq) s.valid (s.pending id pending) fresh lo,
    )

    before_after :
        (j : MessageId)
        → member j (erase id u.pending_for_delivery) ≡ true
        → j.author ≡ u.id
        → j.seq < f.front
    before_after j h e = f.before j (ground (arith, member-erase id j u.pending_for_delivery)) e

    past_after :
        (j : MessageId)
        → DeliveredSet.contains (DeliveredSet.insert u.delivered id) j ≡ true
        → 1 ≤ j.seq
        → j.author ≡ u.id
        → j.seq < f.front
    past_after j d lo own = ground (
      arith,
      d,
      contains-insert u.delivered id j s.valid (s.pending id pending) fresh lo,
      id_beq_iff id j,
      f.before j,
      f.past j,
    )

    apart_after :
        (j : MessageId)
        → 1 ≤ j.seq
        → member j (erase id u.pending_for_delivery) ≡ true
        → DeliveredSet.contains (DeliveredSet.insert u.delivered id) j ≡ false
    apart_after j lo h = ground (
      arith,
      h,
      contains-insert u.delivered id j s.valid (s.pending id pending) fresh lo,
      member-erase id j u.pending_for_delivery,
      f.apart j lo,
    )

    other-IsFlowing : id.author == u.id ≡ false → IsFlowing (record_delivery upper id (erased id u))
    other-IsFlowing other = record {
      distinct = erase-Distinct id u.pending_for_delivery f.distinct;
      counted = f.counted ∙ fewer ∙ rw other;
      within = f.within;
      small = f.small;
      positive = f.positive;
      full = f.full;
      front = f.front;
      queued = f.queued;
      before = before_after;
      accounted = known_after;
      past = past_after;
      apart = apart_after;
    }

    last-IsFlowing :
        id.author == u.id ≡ true
        → u.own_pending_for_broadcast ≡ []
        → IsFlowing (record_delivery upper id (count_down (erased id u)))
    last-IsFlowing own empty = record {
      distinct = erase-Distinct id u.pending_for_delivery f.distinct;
      counted = ground (arith, f.counted, fewer, f.within, f.small);
      within = ground (arith, f.counted, fewer, f.within, f.small);
      small = f.small;
      positive = f.positive;
      full = inl empty;
      front = f.front;
      queued = f.queued;
      before = before_after;
      accounted = known_after;
      past = past_after;
      apart = apart_after;
    }

    next-IsFlowing :
        (msg : Message) (queue : List Message)
        → id.author == u.id ≡ true
        → u.own_pending_for_broadcast ≡ msg ∷ queue
        → IsFlowing (
            record_delivery upper id
              (send_internal (count_up (with_queue queue (count_down (erased id u)))) msg))
    unfolding send_internal best_effort_send
    next-IsFlowing msg queue own e = record {
      distinct = insert-Distinct msg.id _ (erase-Distinct id u.pending_for_delivery f.distinct);
      counted = ground (
        arith,
        f.counted,
        fewer,
        f.within,
        f.small,
        q.0,
        new,
        own_count-insert u.id msg.id (erase id u.pending_for_delivery),
      );
      within = ground (arith, f.counted, fewer, f.within, f.small);
      small = f.small;
      positive = f.positive;
      full = inr (ground (arith, f.counted, fewer, f.within, f.small, e, f.full));
      front = suc f.front;
      queued = q.1;
      before = λ j h o. ground (
        arith,
        q.0,
        member-insert msg.id j (erase id u.pending_for_delivery),
        id_beq_iff msg.id j,
        before_after j,
      );
      accounted = λ seq lo hi. ground (
        arith,
        q.0,
        id_beq_iff msg.id (own_id u.id seq),
        member-insert msg.id (own_id u.id seq) (erase id u.pending_for_delivery),
        known_after seq lo,
      );
      past = λ j d lo own. ground (arith, past_after j d lo own);
      apart = λ j lo h. ground (
        arith,
        q.0,
        id_beq_iff msg.id j,
        member-insert msg.id j (erase id u.pending_for_delivery),
        apart_after j lo,
        past_after msg.id,
      );
    }
      where
        q : Queued u.id f.front (msg ∷ queue) u.n_messages_sent
        q = subst (λ l. Queued u.id f.front l u.n_messages_sent) e f.queued

        new : member msg.id (erase id u.pending_for_delivery) ≡ false
        new = ground (arith, q.0, before_after msg.id)

    pub deliver-IsFlowing : IsFlowing (deliver upper u id)
    unfolding deliver
    deliver-IsFlowing =
        finish_own_cases (λ w. IsFlowing (record_delivery upper id w)) (erased id u) id
          other-IsFlowing (λ own over. ground (arith, f.within)) last-IsFlowing
          (λ msg queue own few e. next-IsFlowing msg queue own e)
