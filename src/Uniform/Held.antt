-- ===== src/Uniform/Held.antt =====
-- A message that came in, and its sender, are held until the message is delivered.
use distributed_algorithms_p.Prelude.{
  ℕ, ◌≤◌, ◌≡◌, refl, ap, ◌∙◌, true, false, List, [], arith, ==_refl, nat_eq, inl, inr, ◌⊎◌,
}
use distributed_algorithms_p.Prelude.Map.{get_or, remove, get_or-assign, get_or-remove}
use distributed_algorithms_p.Prelude.Set.{member, insert, erase, member-insert, member-erase}
use distributed_algorithms_p.Broadcast.Types.{Message, MessageId, id_eq, id_beq_iff}
use distributed_algorithms_p.Broadcast.{Upper, best_effort_send, best_effort_notify}
use distributed_algorithms_p.DeliveredSet
use distributed_algorithms_p.DeliveredSet.Refinement.{IsNumbered, contains-insert}
use distributed_algorithms_p.Uniform.{
  Uniform, send_internal, finish_own, send, notify_internal, deliver, try_deliver, erased,
}
use distributed_algorithms_p.Uniform.Cases.{
  finish_own_cases, send_cases, notify_internal_cases, try_deliver_cases, looked, acked,
}
use distributed_algorithms_p.Uniform.Sound.{IsSound, acks-IsSound, delivered-finish_own}

module _ {U : Type 0} where
  -- The message is delivered, or it is pending and the process counts among those that sent it.
  abbrev pub IsAckedBy : Uniform U → MessageId → ℕ → Type 0
  IsAckedBy u id s =
      (DeliveredSet.contains u.delivered id ≡ true)
      ⊎ ((member id u.pending_for_delivery ≡ true) × (member s (get_or id [] u.acks) ≡ true))

  abbrev pub Keeps : Uniform U → Uniform U → Type 0
  Keeps u v =
      (v.n_processes ≡ u.n_processes)
      × ((id : MessageId) (s : ℕ) → 1 ≤ id.seq → IsAckedBy u id s → IsAckedBy v id s)

  -- Nothing that is pending is lost when the next message is sent.
  finish_own-pending :
      (u : Uniform U) (id : MessageId)
      → ((finish_own u id).n_processes ≡ u.n_processes)
        × ((finish_own u id).acks ≡ u.acks)
        × ((j : MessageId)
            → member j u.pending_for_delivery ≡ true
            → member j (finish_own u id).pending_for_delivery ≡ true)
  unfolding send_internal best_effort_send
  finish_own-pending u id =
      finish_own_cases
        (λ v.
          (v.n_processes ≡ u.n_processes)
          × (v.acks ≡ u.acks)
          × ((j : MessageId)
              → member j u.pending_for_delivery ≡ true
              → member j v.pending_for_delivery ≡ true))
        u id (λ _. (refl, refl, λ j h. h)) (λ _ _. (refl, refl, λ j h. h))
        (λ _ _. (refl, refl, λ j h. h))
        (λ msg queue own few e.
          (refl, refl, λ j h. ground (arith, member-insert msg.id j u.pending_for_delivery)))

  module _ (upper : Upper U) where
    pub send-Keeps : (u : Uniform U) (msg : List ℕ) → Keeps u (send upper u msg)
    unfolding send_internal best_effort_send
    send-Keeps u msg =
        send_cases (Keeps u) upper u msg (λ _. (refl, λ id s n k. k))
          (λ _. (
            refl,
            λ id s n k. ground (
              arith,
              member-insert (record { seq = u.n_messages_sent; author = u.id }) id
                  u.pending_for_delivery,
              k,
            ),
          ))

    acked-Keeps : (u : Uniform U) (msg : Message) → Keeps u (acked upper u msg)
    unfolding best_effort_notify
    acked-Keeps u msg = (
      refl,
      λ id s n k. ground (
        arith,
        k,
        id_beq_iff msg.id id,
        get_or-assign msg.id id [] (insert msg.sender (get_or msg.id [] u.acks)) u.acks,
        member-insert msg.sender s (get_or msg.id [] u.acks),
      ),
    )

    pub notify_internal-Keeps :
        (u : Uniform U) (msg : Message) → Keeps u (notify_internal upper u msg)
    unfolding send_internal best_effort_send best_effort_notify
    notify_internal-Keeps u msg =
        notify_internal_cases (Keeps u) upper u msg (λ _. (refl, λ id s n k. k))
          (λ _ _. acked-Keeps u msg)
          (λ _ _. (
            refl,
            λ id s n k. ground (
              arith,
              (acked-Keeps u msg).1 id s n k,
              member-insert msg.id id u.pending_for_delivery,
            ),
          ))

    pub notify_internal-new :
        (u : Uniform U) (msg : Message) → IsAckedBy (notify_internal upper u msg) msg.id msg.sender
    unfolding send_internal best_effort_send best_effort_notify
    notify_internal-new u msg =
        notify_internal_cases (λ v. IsAckedBy v msg.id msg.sender) upper u msg (λ d. inl d)
          (λ _ p. inr (p, counted))
          (λ _ _. inr (
            ground (arith, ==_refl msg.id, member-insert msg.id msg.id u.pending_for_delivery),
            counted,
          ))
      where
        counted : member msg.sender (get_or msg.id [] (acked upper u msg).acks) ≡ true
        counted = ground (
          arith,
          ==_refl msg.id,
          ==_refl msg.sender,
          get_or-assign msg.id msg.id [] (insert msg.sender (get_or msg.id [] u.acks)) u.acks,
          member-insert msg.sender msg.sender (get_or msg.id [] u.acks),
        )

    -- What a delivery leaves.
    pub deliver-pending :
        (u : Uniform U) (id : MessageId)
        → ((deliver upper u id).n_processes ≡ u.n_processes)
          × ((deliver upper u id).delivered ≡ DeliveredSet.insert u.delivered id)
          × ((deliver upper u id).acks ≡ remove id u.acks)
          × ((j : MessageId)
              → member j (erase id u.pending_for_delivery) ≡ true
              → member j (deliver upper u id).pending_for_delivery ≡ true)
    unfolding deliver
    deliver-pending u id =
        let (n, a, p) = finish_own-pending (erased id u) id in
        (
          n,
          ap (λ d. DeliveredSet.insert d id) (delivered-finish_own (erased id u) id),
          ap (remove id) a,
          p,
        )

    deliver-Keeps :
        (u : Uniform U) (id : MessageId)
        → IsSound u
        → IsNumbered id
        → DeliveredSet.contains u.delivered id ≡ false
        → Keeps u (deliver upper u id)
    deliver-Keeps u id s n fresh =
        let (size, d, a, p) = deliver-pending u id in
        (
          size,
          λ j sender lo k. ground (
            arith,
            k,
            d,
            a,
            p j,
            member-erase id j u.pending_for_delivery,
            get_or-remove id j [] u.acks,
            contains-insert u.delivered id j s.valid n fresh lo,
          ),
        )

    looked-Keeps : (u : Uniform U) (id : MessageId) → Keeps u (looked u id)
    looked-Keeps u id = (
      refl,
      λ j s n k.
          ground (arith, k, id_beq_iff id j, get_or-assign id j [] (get_or id [] u.acks) u.acks),
    )

    pub try_deliver-Keeps :
        (u : Uniform U) (id : MessageId)
        → IsSound u
        → member id u.pending_for_delivery ≡ true
        → Keeps u (try_deliver upper u id)
    try_deliver-Keeps u id s pending =
        let l = looked-Keeps u id in
        try_deliver_cases (Keeps u) upper u id l λ many fresh.
          let d = deliver-Keeps (looked u id) id (acks-IsSound _ s) (s.pending id pending) fresh in
          (d.0 ∙ l.0, λ j sender lo k. d.1 j sender lo (l.1 j sender lo k))
