-- ===== src/Network/Sending.antt =====
-- What a call of a handler puts into the links' sets: a message, if any, that the process then holds.
use distributed_algorithms_p.Prelude.{
  ℕ, ◌≤◌, ◌≡◌, refl, sym, subst, true, false, List, arith, ◌==◌, ==_refl, nat_eq, inl, inr, ◌⊎◌,
  Bool-cases, Option-cases,
}
use distributed_algorithms_p.Prelude.Set.{member, insert, erase, member-insert, member-erase}
use distributed_algorithms_p.PerfectLink.Codec.{Message as LinkMessage}
use distributed_algorithms_p.Broadcast.Types.{Message, MessageId, id_eq, id_beq_iff}
use distributed_algorithms_p.Broadcast.Codec.{parse, serialize}
use distributed_algorithms_p.Broadcast.{Upper, best_effort_send, best_effort_notify, send_all}
use distributed_algorithms_p.DeliveredSet
use distributed_algorithms_p.DeliveredSet.Refinement.{IsNumbered, contains-insert}
use distributed_algorithms_p.Uniform.{
  Uniform, send_internal, finish_own, deliver, erased, own_message, numbered, count_up, send,
  notify, try_deliver,
}
use distributed_algorithms_p.Uniform.Cases.{
  finish_own_cases, send_cases, notify_internal_cases, try_deliver_cases, looked, acked,
}
use distributed_algorithms_p.Uniform.Sound.{IsSound, acks-IsSound, delivered-finish_own}
use distributed_algorithms_p.Uniform.Holds.{Holds}
use distributed_algorithms_p.Parser.{Host}
use distributed_algorithms_p.Network.Queues.{AllCarry, AllCarry-mono, send_all-AllCarry}

module _ {U : Type 0} where
  -- The payload is the form of a message that the process holds.
  abbrev pub IsHeldBy : Uniform U → List ℕ → Type 0
  IsHeldBy u payload = (m : Message) × (payload ≡ serialize m) × IsNumbered m.id × Holds u m.id

  -- `v` holds what `u` held, and beyond that only what `New` says.
  abbrev pub HoldsOnly : (MessageId → Type 0) → Uniform U → Uniform U → Type 0
  HoldsOnly New u v = (j : MessageId) → 1 ≤ j.seq → Holds v j → Holds u j ⊎ New j

  -- Either nothing is sent and nothing is newly held, or one message, which is pending then, is sent
  -- over all links, and no other is newly held.
  abbrev pub SendsPending : Uniform U → Uniform U → Type 0
  SendsPending u v =
      ((v.perfect_links ≡ u.perfect_links) × HoldsOnly (λ j. ⊥) u v)
      ⊎ ((m : Message) × (v.perfect_links ≡ send_all (serialize m) u.perfect_links)
          × (member m.id v.pending_for_delivery ≡ true)
          × HoldsOnly (λ j. m.id ≡ j) u v)

  -- `w` differs from `u` in neither what it holds nor its links.
  send_internal-SendsPending :
      (u w : Uniform U) (m : Message)
      → (w.pending_for_delivery ≡ u.pending_for_delivery)
        × (w.delivered ≡ u.delivered)
        × (w.perfect_links ≡ u.perfect_links)
      → SendsPending u (send_internal w m)
  unfolding send_internal best_effort_send
  send_internal-SendsPending u w m (p, d, l) = inr (
    m,
    rw l,
    ground (arith, member-insert m.id m.id w.pending_for_delivery, ==_refl m.id),
    λ j lo h. elim (Bool-cases (m.id == j)) [
      | inl same ↦ inr ((id_beq_iff m.id j).0 same)
      | inr other ↦ inl (ground (arith, h, p, d, member-insert m.id j u.pending_for_delivery))
    ],
  )

  -- The part of `DeliverPending` for an own message, which leaves what is delivered.
  abbrev SendsNext : Uniform U → Uniform U → Type 0
  SendsNext u v =
      ((v.perfect_links ≡ u.perfect_links) × (v.pending_for_delivery ≡ u.pending_for_delivery))
      ⊎ ((m : Message) × (v.perfect_links ≡ send_all (serialize m) u.perfect_links)
          × (v.pending_for_delivery ≡ insert m.id u.pending_for_delivery))

  finish_own-SendsNext : (u : Uniform U) (id : MessageId) → SendsNext u (finish_own u id)
  unfolding send_internal best_effort_send
  finish_own-SendsNext u id =
      finish_own_cases (SendsNext u) u id (λ _. inl (refl, refl)) (λ _ _. inl (refl, refl))
        (λ _ _. inl (refl, refl)) λ m queue _ few e. inr (m, refl, refl)

  module _ (upper : Upper U) where
    pub send-SendsPending : (u : Uniform U) (msg : List ℕ) → SendsPending u (send upper u msg)
    send-SendsPending u msg =
        send_cases (SendsPending u) upper u msg (λ _. inl (refl, λ j lo h. inl h))
          (λ _.
            send_internal-SendsPending u (count_up (numbered upper u)) (own_message upper u msg)
              (refl, refl, refl))

    pub notify-SendsPending :
        (u : Uniform U) (sender_id : ℕ) (packet : LinkMessage)
        → SendsPending u (notify upper u sender_id packet)
    unfolding notify best_effort_notify
    notify-SendsPending u sender_id packet = elim (Option-cases (parse sender_id packet.payload)) [
      | inl bad ↦ rw (bad, notify) (inl (refl, λ j lo h. inl h))
      | inr (m, e) ↦
          rw (e, notify)
            (notify_internal_cases (SendsPending u) upper u m (λ _. inl (refl, λ j lo h. inl h))
              (λ _ _. inl (refl, λ j lo h. inl h))
              (λ _ _. send_internal-SendsPending u (acked upper u m) m (refl, refl, refl)))
    ]

    deliver-SendsPending :
        (u : Uniform U) (id : MessageId)
        → IsSound u
        → member id u.pending_for_delivery ≡ true
        → DeliveredSet.contains u.delivered id ≡ false
        → SendsPending u (deliver upper u id)
    unfolding deliver
    deliver-SendsPending u id s pending fresh = elim (finish_own-SendsNext (erased id u) id) [
      | inl (links, p) ↦
          inl (links, λ j lo h. inl (old j lo h (λ q. subst (λ l. member j l ≡ true) p q)))
      | inr (m, links, p) ↦ inr (
        m,
        links,
        ground (arith, p, member-insert m.id m.id (erase id u.pending_for_delivery), ==_refl m.id),
        λ j lo h. elim (Bool-cases (m.id == j)) [
          | inl same ↦ inr ((id_beq_iff m.id j).0 same)
          | inr other ↦ inl (
              old j lo h
                (λ q. ground (arith, p, member-insert m.id j (erase id u.pending_for_delivery))))
        ],
      )
    ]
      where
        old :
            (j : MessageId)
            → 1 ≤ j.seq
            → Holds (deliver upper u id) j
            → (member j (finish_own (erased id u) id).pending_for_delivery ≡ true
                → member j (erase id u.pending_for_delivery) ≡ true)
            → Holds u j
        old j lo (inl q) back =
            inl (ground (arith, back q, member-erase id j u.pending_for_delivery))
        old j lo (inr d) back = ground (
          arith,
          d,
          pending,
          delivered-finish_own (erased id u) id,
          id_beq_iff id j,
          contains-insert u.delivered id j s.valid (s.pending id pending) fresh lo,
        )

    pub try_deliver-SendsPending :
        (u : Uniform U) (id : MessageId)
        → IsSound u
        → member id u.pending_for_delivery ≡ true
        → SendsPending u (try_deliver upper u id)
    try_deliver-SendsPending u id s pending =
        try_deliver_cases (SendsPending u) upper u id (inl (refl, λ j lo h. inl h))
          λ many fresh. deliver-SendsPending (looked u id) id (acks-IsSound _ s) pending fresh

  -- So what the links carry is held.
  pub SendsPending-AllCarry :
      (hosts : List Host) (u v : Uniform U)
      → SendsPending u v
      → IsSound v
      → ((id : MessageId) → IsNumbered id → Holds u id → Holds v id)
      → AllCarry hosts (IsHeldBy u) u.perfect_links
      → AllCarry hosts (IsHeldBy v) v.perfect_links
  SendsPending-AllCarry hosts u v sent sound kept c =
      let held : AllCarry hosts (IsHeldBy v) u.perfect_links =
        AllCarry-mono hosts (λ payload (m, e, n, h). (m, e, n, kept m.id n h)) u.perfect_links c in
      elim sent [
        | inl (same, _) ↦ subst (AllCarry hosts (IsHeldBy v)) (sym same) held
        | inr (m, sent_all, pending, _) ↦ subst (AllCarry hosts (IsHeldBy v)) (sym sent_all) (
            send_all-AllCarry hosts (IsHeldBy v) (serialize m) u.perfect_links
              (m, refl, sound.pending m.id pending, inl pending) held)
      ]
