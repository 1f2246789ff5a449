-- ===== src/Uniform/Cases.antt =====
-- To prove something of a handler's result: one case for each way through the handler.
use distributed_algorithms_p.Prelude.{
  ℕ, ◌≡◌, refl, true, false, List, [], ◌∷◌, ◌++◌, ◌==◌, nat_eq, leb, Bool-cases, inl, inr,
}
use distributed_algorithms_p.Prelude.Map.{get_or, assign}
use distributed_algorithms_p.Prelude.Set.{member}
use distributed_algorithms_p.Broadcast.Types.{Message, MessageId, id_eq}
use distributed_algorithms_p.Broadcast.{Upper, best_effort_notify}
use distributed_algorithms_p.DeliveredSet
use distributed_algorithms_p.Uniform.{
  Uniform, add_ack, majority_seen, count_up, count_down, with_queue, send_internal, send_next,
  finish_own, own_message, numbered, send, notify_internal, deliver, try_deliver,
}

-- The states that a handler goes through.
module _ {U : Type 0} where
  abbrev pub told : Upper U → Uniform U → Message → Uniform U
  told upper u msg = record u { broadcast = best_effort_notify upper u.broadcast msg }

  abbrev pub acked : Upper U → Uniform U → Message → Uniform U
  acked upper u msg = record (told upper u msg) { acks = add_ack msg.id msg.sender u.acks }

  abbrev pub looked : Uniform U → MessageId → Uniform U
  looked u id = record u { acks = assign id (get_or id [] u.acks) u.acks }

module _ {U : Type 0} (C : Uniform U → Type 0) where
  send_next_cases :
      (u : Uniform U)
      → (u.own_pending_for_broadcast ≡ [] → C u)
      → ((msg : Message) (queue : List Message)
          → u.own_pending_for_broadcast ≡ msg ∷ queue
          → C (send_internal (count_up (with_queue queue u)) msg))
      → C (send_next u)
  unfolding send_next
  send_next_cases u none_left next = by_queue u.own_pending_for_broadcast refl
    where
      by_queue : (q : List Message) → u.own_pending_for_broadcast ≡ q → C (send_next u)
      by_queue [] e = rw (e, send_next) (none_left e)
      by_queue (msg ∷ queue) e = rw (e, send_next) (next msg queue e)

  pub finish_own_cases :
      (u : Uniform U) (id : MessageId)
      → (id.author == u.id ≡ false → C u)
      → (id.author == u.id ≡ true
          → leb u.n_own_pending_for_delivery u.n_own_pending_delivery_ideal ≡ false
          → C (count_down u))
      → (id.author == u.id ≡ true → u.own_pending_for_broadcast ≡ [] → C (count_down u))
      → ((msg : Message) (queue : List Message)
          → id.author == u.id ≡ true
          → leb u.n_own_pending_for_delivery u.n_own_pending_delivery_ideal ≡ true
          → u.own_pending_for_broadcast ≡ msg ∷ queue
          → C (send_internal (count_up (with_queue queue (count_down u))) msg))
      → C (finish_own u id)
  unfolding finish_own
  finish_own_cases u id other over none_left next = elim (Bool-cases (id.author == u.id)) [
    | inr no_own ↦ rw (no_own, finish_own) (other no_own)
    | inl own ↦
        elim (Bool-cases (leb u.n_own_pending_for_delivery u.n_own_pending_delivery_ideal)) [
          | inr many ↦ rw (own, many, finish_own) (over own many)
          | inl few ↦
              rw (own, few, finish_own)
                (send_next_cases (count_down u) (none_left own)
                  (λ msg queue. next msg queue own few))
        ]
  ]

  module _ (upper : Upper U) where
    pub send_cases :
        (u : Uniform U) (msg : List ℕ)
        → (leb u.n_own_pending_delivery_ideal u.n_own_pending_for_delivery ≡ true
            → C (
                with_queue
                  (u.own_pending_for_broadcast ++ own_message upper u msg ∷ [])
                  (numbered upper u)))
        → (leb u.n_own_pending_delivery_ideal u.n_own_pending_for_delivery ≡ false
            → C (send_internal (count_up (numbered upper u)) (own_message upper u msg)))
        → C (send upper u msg)
    unfolding send
    send_cases u msg waits goes =
        elim (Bool-cases (leb u.n_own_pending_delivery_ideal u.n_own_pending_for_delivery)) [
          | inl full ↦ rw (full, send) (waits full)
          | inr room ↦ rw (room, send) (goes room)
        ]

    pub notify_internal_cases :
        (u : Uniform U) (msg : Message)
        → (DeliveredSet.contains u.delivered msg.id ≡ true → C (told upper u msg))
        → (DeliveredSet.contains u.delivered msg.id ≡ false
            → member msg.id u.pending_for_delivery ≡ true
            → C (acked upper u msg))
        → (DeliveredSet.contains u.delivered msg.id ≡ false
            → member msg.id u.pending_for_delivery ≡ false
            → C (send_internal (acked upper u msg) msg))
        → C (notify_internal upper u msg)
    unfolding notify_internal
    notify_internal_cases u msg old again new =
        elim (Bool-cases (DeliveredSet.contains u.delivered msg.id)) [
          | inl d ↦ rw (d, notify_internal) (old d)
          | inr f ↦ elim (Bool-cases (member msg.id u.pending_for_delivery)) [
            | inl p ↦ rw (f, p, notify_internal) (again f p)
            | inr q ↦ rw (f, q, notify_internal) (new f q)
          ]
        ]

    pub try_deliver_cases :
        (u : Uniform U) (id : MessageId)
        → C (looked u id)
        → (majority_seen u id ≡ true
            → DeliveredSet.contains u.delivered id ≡ false
            → C (deliver upper (looked u id) id))
        → C (try_deliver upper u id)
    unfolding try_deliver
    try_deliver_cases u id stays delivers = elim (Bool-cases (majority_seen u id)) [
      | inr few ↦ rw (few, try_deliver) stays
      | inl many ↦ elim (Bool-cases (DeliveredSet.contains u.delivered id)) [
        | inl d ↦ rw (many, d, try_deliver) stays
        | inr f ↦ rw (many, f, try_deliver) (delivers many f)
      ]
    ]
