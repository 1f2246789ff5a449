-- ===== src/Uniform/Holds.antt =====
-- The messages that a process holds, pending or delivered: it never loses one, and takes in only its
-- own and those that come in.
use distributed_algorithms_p.Prelude.{
  ℕ, ◌≤◌, ◌≡◌, refl, sym, ap, subst, true, false, List, ◌∷◌, arith, ◌==◌, nat_eq, In, inl, inr, ◌⊎◌,
  Bool-cases,
}
use distributed_algorithms_p.Prelude.Set.{member, insert, member-insert, member-erase}
use distributed_algorithms_p.Broadcast.Types.{Message, MessageId, id_eq, id_beq_iff}
use distributed_algorithms_p.Broadcast.{Upper, best_effort_send, best_effort_notify}
use distributed_algorithms_p.DeliveredSet
use distributed_algorithms_p.DeliveredSet.Refinement.{IsNumbered, contains-insert}
use distributed_algorithms_p.Uniform.{
  Uniform, send_internal, finish_own, send, notify_internal, deliver, try_deliver, erased,
  own_message,
}
use distributed_algorithms_p.Uniform.Run.{
  Event, notified, Step, sends, notifies, tries, relinks, with_links,
}
use distributed_algorithms_p.Uniform.Cases.{
  finish_own_cases, send_cases, notify_internal_cases, try_deliver_cases, looked,
}
use distributed_algorithms_p.Uniform.Sound.{notify_lem, IsSound, acks-IsSound, delivered-finish_own}
use distributed_algorithms_p.Uniform.Window.{IsFlowing, Queued, acks-IsFlowing}

-- What a step takes in from outside.
abbrev pub IsNew : List Event → MessageId → Type 0
IsNew new j = (m : Message) × In (notified m) new × (m.id ≡ j)

Queued-author :
    (author from to : ℕ) (queue : List Message) (m : Message) (rest : List Message)
    → Queued author from queue to
    → queue ≡ m ∷ rest
    → m.id.author ≡ author
Queued-author author from to queue m rest q e =
    let r : Queued author from (m ∷ rest) to = subst (λ l. Queued author from l to) e q in
    ap (λ i. i.author) r.0

module _ {U : Type 0} where
  abbrev pub Holds : Uniform U → MessageId → Type 0
  Holds u id =
      (member id u.pending_for_delivery ≡ true) ⊎ (DeliveredSet.contains u.delivered id ≡ true)

  -- The process held the message before, or it is its own, or it is `new`.
  abbrev pub IsOldOr : Type 0 → Uniform U → MessageId → Type 0
  IsOldOr New u j = Holds u j ⊎ (j.author ≡ u.id) ⊎ New

  -- What a handler's result `v` holds, after `u`.
  pub record Holding (New : MessageId → Type 0) (u v : Uniform U) : Type 0 where
    pub same_id : v.id ≡ u.id
    pub kept : (j : MessageId) → 1 ≤ j.seq → Holds u j → Holds v j
    pub taken : (j : MessageId) → 1 ≤ j.seq → Holds v j → IsOldOr (New j) u j

  module _ (New : MessageId → Type 0) where
    -- Only these members matter.
    same-Holding :
        (u v : Uniform U)
        → (v.id ≡ u.id)
          × (v.pending_for_delivery ≡ u.pending_for_delivery)
          × (v.delivered ≡ u.delivered)
        → Holding New u v
    same-Holding u v (i, p, d) = record {
      same_id = i;
      kept = λ j lo h. ground (arith, h, p, d);
      taken = λ j lo h. inl (ground (arith, h, p, d));
    }

    insert-Holding :
        (u v : Uniform U) (id : MessageId)
        → (v.id ≡ u.id)
          × (v.pending_for_delivery ≡ insert id u.pending_for_delivery)
          × (v.delivered ≡ u.delivered)
        → (id.author ≡ u.id) ⊎ New id
        → Holding New u v
    insert-Holding u v id (i, p, d) new = record {
      same_id = i;
      kept = λ j lo h. ground (arith, h, p, d, member-insert id j u.pending_for_delivery);
      taken = λ j lo h. elim (Bool-cases (id == j)) [
        | inl same ↦ inr (subst (λ k. (k.author ≡ u.id) ⊎ New k) ((id_beq_iff id j).0 same) new)
        | inr other ↦ inl (ground (arith, h, p, d, member-insert id j u.pending_for_delivery))
      ];
    }

  -- The message that `finish_own` may send is the process's own.
  finish_own-taken :
      (u : Uniform U) (id : MessageId)
      → ((m : Message) (queue : List Message)
          → u.own_pending_for_broadcast ≡ m ∷ queue
          → m.id.author ≡ u.id)
      → ((finish_own u id).id ≡ u.id)
        × ((j : MessageId)
            → member j u.pending_for_delivery ≡ true
            → member j (finish_own u id).pending_for_delivery ≡ true)
        × ((j : MessageId)
            → member j (finish_own u id).pending_for_delivery ≡ true
            → (member j u.pending_for_delivery ≡ true) ⊎ (j.author ≡ u.id))
  unfolding send_internal best_effort_send
  finish_own-taken u id own =
      finish_own_cases
        (λ v.
          (v.id ≡ u.id)
          × ((j : MessageId)
              → member j u.pending_for_delivery ≡ true
              → member j v.pending_for_delivery ≡ true)
          × ((j : MessageId)
              → member j v.pending_for_delivery ≡ true
              → (member j u.pending_for_delivery ≡ true) ⊎ (j.author ≡ u.id)))
        u id (λ _. (refl, λ j h. h, λ j h. inl h)) (λ _ _. (refl, λ j h. h, λ j h. inl h))
        (λ _ _. (refl, λ j h. h, λ j h. inl h))
        (λ msg queue _ few e. (
          refl,
          λ j h. ground (arith, member-insert msg.id j u.pending_for_delivery),
          λ j h. ground (
            arith,
            own msg queue e,
            id_beq_iff msg.id j,
            member-insert msg.id j u.pending_for_delivery,
          ),
        ))

  module _ (upper : Upper U) where
    deliver-Holding :
        (New : MessageId → Type 0) (u : Uniform U) (id : MessageId)
        → IsSound u
        → IsFlowing u
        → member id u.pending_for_delivery ≡ true
        → DeliveredSet.contains u.delivered id ≡ false
        → Holding New u (deliver upper u id)
    unfolding deliver
    deliver-Holding New u id s f pending fresh =
        let (i, kept, taken) = finish_own-taken (erased id u) id (λ m queue e.
          Queued-author u.id f.front u.n_messages_sent u.own_pending_for_broadcast m queue f.queued
            e) in
        let d = delivered-finish_own (erased id u) id in
        record {
          same_id = i;
          kept = λ j lo h. ground (
            arith,
            h,
            d,
            kept j,
            member-erase id j u.pending_for_delivery,
            contains-insert u.delivered id j s.valid (s.pending id pending) fresh lo,
          );
          taken = λ j lo h. ground (
            arith,
            h,
            d,
            pending,
            taken j,
            id_beq_iff id j,
            member-erase id j u.pending_for_delivery,
            contains-insert u.delivered id j s.valid (s.pending id pending) fresh lo,
          );
        }

    send-Holding :
        (New : MessageId → Type 0) (u : Uniform U) (msg : List ℕ) → Holding New u (send upper u msg)
    unfolding send_internal best_effort_send
    send-Holding New u msg =
        send_cases (Holding New u) upper u msg (λ _. same-Holding New u _ (refl, refl, refl))
          (λ _. insert-Holding New u _ (own_message upper u msg).id (refl, refl, refl) (inl refl))

    notify_internal-Holding :
        (New : MessageId → Type 0) (u : Uniform U) (msg : Message)
        → New msg.id
        → Holding New u (notify_internal upper u msg)
    unfolding send_internal best_effort_send best_effort_notify
    notify_internal-Holding New u msg new =
        notify_internal_cases (Holding New u) upper u msg
          (λ _. same-Holding New u _ (refl, refl, refl))
          (λ _ _. same-Holding New u _ (refl, refl, refl))
          (λ _ _. insert-Holding New u _ msg.id (refl, refl, refl) (inr new))

    try_deliver-Holding :
        (New : MessageId → Type 0) (u : Uniform U) (id : MessageId)
        → IsSound u
        → IsFlowing u
        → member id u.pending_for_delivery ≡ true
        → Holding New u (try_deliver upper u id)
    try_deliver-Holding New u id s f pending =
        let l : Holding New u (looked u id) = same-Holding New u (looked u id) (refl, refl, refl) in
        try_deliver_cases (Holding New u) upper u id l λ many fresh.
          let d =
            deliver-Holding New (looked u id) id (acks-IsSound _ s) (acks-IsFlowing upper u _ f)
              pending fresh in
          record { same_id = d.same_id; kept = d.kept; taken = d.taken }

    pub Step-Holding :
        {u v : Uniform U} {new : List Event}
        → Step upper u new v
        → IsSound u
        → IsFlowing u
        → Holding (IsNew new) u v
    Step-Holding {u} (sends msg small) s f = send-Holding _ u msg
    Step-Holding {u} {new = new} (notifies sender_id packet {msg} e numbered) s f =
        subst (Holding _ u) (sym (notify_lem upper u sender_id packet e))
          (notify_internal-Holding _ u msg (msg, inl refl, refl))
    Step-Holding {u} (tries id pending) s f = try_deliver-Holding _ u id s f pending
    Step-Holding {u} (relinks on links) s f =
        same-Holding _ u (with_links on links u) (refl, refl, refl)

    -- What comes in has a number.
    pub Step-notified :
        {u v : Uniform U} {new : List Event}
        → Step upper u new v
        → (m : Message) → In (notified m) new
        → IsNumbered m.id
    Step-notified (sends msg small) m (inl e) = cc
    Step-notified (sends msg small) m (inr other) = elim other [ ]
    Step-notified (notifies sender_id packet {msg} e numbered) m (inl same) =
        ground (arith, same, numbered)
    Step-notified (notifies sender_id packet {msg} e numbered) m (inr other) = elim other [ ]
    Step-notified (tries id pending) m i = absurd i
    Step-notified (relinks on links) m i = absurd i
