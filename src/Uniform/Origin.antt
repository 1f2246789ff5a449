-- ===== src/Uniform/Origin.antt =====
-- Where the ids come from that a process holds.
use distributed_algorithms_p.Prelude.{
  ℕ, ◌≡◌, refl, sym, subst, true, List, [], ◌∷◌, ◌++◌, arith, ◌==◌, nat_eq, Bool-cases, inl, inr,
  All, All-append, All-map,
}
use distributed_algorithms_p.Prelude.Set.{member, member-insert, member-erase}
use distributed_algorithms_p.Broadcast.Types.{Message, MessageId, id_eq, id_beq_iff}
use distributed_algorithms_p.Broadcast.{Upper}
use distributed_algorithms_p.Uniform.{
  Uniform, send_internal, finish_own, send, notify_internal, deliver, try_deliver, erased,
  with_queue, own_message,
}
use distributed_algorithms_p.Uniform.Run.{
  Event, sent, notified, Step, sends, notifies, tries, relinks, with_links, Known, Known-append,
}
use distributed_algorithms_p.Uniform.Cases.{
  finish_own_cases, send_cases, notify_internal_cases, try_deliver_cases, looked,
}
use distributed_algorithms_p.Uniform.Sound.{notify_lem}

-- What is pending or queued was broadcast here or came in.
pub record IsKnown {U : Type 0} (events : List Event) (u : Uniform U) : Type 0 where
  pub pending : (id : MessageId) → member id u.pending_for_delivery ≡ true → Known events id
  pub queue : All (λ m. Known events m.id) u.own_pending_for_broadcast

module _ {U : Type 0} where
  append-IsKnown :
      (new : List Event) {old : List Event} {u : Uniform U} → IsKnown old u → IsKnown (new ++ old) u
  append-IsKnown new {old} {u} k = record {
    pending = λ id h. Known-append new old id (k.pending id h);
    queue = All-map (λ m. Known-append new old m.id) u.own_pending_for_broadcast k.queue;
  }

  -- Only the set and the queue matter.
  same-IsKnown :
      {events : List Event} {u : Uniform U} (v : Uniform U)
      → v.pending_for_delivery ≡ u.pending_for_delivery
      → v.own_pending_for_broadcast ≡ u.own_pending_for_broadcast
      → IsKnown events u
      → IsKnown events v
  same-IsKnown v p q k = record {
    pending = λ id h. k.pending id (subst (λ s. member id s ≡ true) p h);
    queue = subst (All _) (sym q) k.queue;
  }

  queue-IsKnown :
      {events : List Event} {u : Uniform U} (queue : List Message)
      → All (λ m. Known events m.id) queue
      → IsKnown events u
      → IsKnown events (with_queue queue u)
  queue-IsKnown queue q k = record { pending = k.pending; queue = q }

  send_internal-IsKnown :
      {events : List Event} {u : Uniform U} (msg : Message)
      → Known events msg.id
      → IsKnown events u
      → IsKnown events (send_internal u msg)
  unfolding send_internal
  send_internal-IsKnown {events} {u} msg n k = record {
    pending = λ id h. elim (Bool-cases (msg.id == id)) [
      | inl same ↦ subst (Known events) ((id_beq_iff msg.id id).0 same) n
      | inr other ↦ k.pending id (ground (arith, member-insert msg.id id u.pending_for_delivery))
    ];
    queue = k.queue;
  }

  finish_own-IsKnown :
      {events : List Event} {u : Uniform U} (id : MessageId)
      → IsKnown events u
      → IsKnown events (finish_own u id)
  finish_own-IsKnown {events} {u} id k =
      let same : (n : ℕ) → IsKnown events (record u { n_own_pending_for_delivery = n }) =
        λ n. same-IsKnown (record u { n_own_pending_for_delivery = n }) refl refl k in
      finish_own_cases (IsKnown events) u id (λ _. k) (λ _ _. same _) (λ _ _. same _)
        λ msg queue own few e.
          let q : All (λ m. Known events m.id) (msg ∷ queue) = subst (All _) e k.queue in
          send_internal-IsKnown msg q.0 (
            same-IsKnown _ refl refl
              (queue-IsKnown queue q.1 (same (u.n_own_pending_for_delivery))))

  erased-IsKnown :
      {events : List Event} {u : Uniform U} (id : MessageId)
      → IsKnown events u
      → IsKnown events (erased id u)
  erased-IsKnown {events} {u} id k = record {
    pending = λ j h. k.pending j (ground (arith, member-erase id j u.pending_for_delivery));
    queue = k.queue;
  }

  module _ (upper : Upper U) where
    send-IsKnown :
        {events : List Event} (u : Uniform U) (msg : List ℕ)
        → Known events (own_message upper u msg).id
        → IsKnown events u
        → IsKnown events (send upper u msg)
    send-IsKnown {events} u msg n k =
        send_cases (IsKnown events) upper u msg
          (λ _.
            queue-IsKnown _ (All-append _ u.own_pending_for_broadcast _ k.queue (n, tt))
              (same-IsKnown _ refl refl k))
          (λ _. send_internal-IsKnown (own_message upper u msg) n (same-IsKnown _ refl refl k))

    notify_internal-IsKnown :
        {events : List Event} (u : Uniform U) (msg : Message)
        → Known events msg.id
        → IsKnown events u
        → IsKnown events (notify_internal upper u msg)
    notify_internal-IsKnown {events} u msg n k =
        notify_internal_cases (IsKnown events) upper u msg (λ _. same-IsKnown _ refl refl k)
          (λ _ _. same-IsKnown _ refl refl k)
          (λ _ _. send_internal-IsKnown msg n (same-IsKnown _ refl refl k))

    try_deliver-IsKnown :
        {events : List Event} (u : Uniform U) (id : MessageId)
        → IsKnown events u
        → IsKnown events (try_deliver upper u id)
    unfolding deliver
    try_deliver-IsKnown {events} u id k =
        let l : IsKnown events (looked u id) = same-IsKnown (looked u id) refl refl k in
        try_deliver_cases (IsKnown events) upper u id l
          λ many fresh. same-IsKnown _ refl refl (finish_own-IsKnown id (erased-IsKnown id l))

    pub Step-IsKnown :
        {u v : Uniform U} {new old : List Event}
        → Step upper u new v
        → IsKnown old u
        → IsKnown (new ++ old) v
    Step-IsKnown {u} (sends msg small) k =
        send-IsKnown u msg (inl (inl refl)) (append-IsKnown (sent _ ∷ []) k)
    Step-IsKnown {u} (notifies sender_id packet {msg} e n) k =
        subst (IsKnown _) (sym (notify_lem upper u sender_id packet e)) (
          notify_internal-IsKnown u msg (inr (msg.sender, (msg, inl refl, refl, refl)))
            (append-IsKnown (notified msg ∷ []) k))
    Step-IsKnown {u} (tries id pending) k = try_deliver-IsKnown u id k
    Step-IsKnown {u} (relinks on links) k = same-IsKnown (with_links on links u) refl refl k
