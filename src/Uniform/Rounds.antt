-- ===== src/Uniform/Rounds.antt =====
-- One round of `DeliverPending` is a sequence of the steps that runs are made of.
use distributed_algorithms_p.Prelude.{
  ℕ, ◌≤◌, ◌≡◌, refl, true, false, if◌then◌else◌, Bool-cases, inl, inr, List, [], ◌∷◌, arith, ◌==◌,
  nat_eq, All,
}
use distributed_algorithms_p.Prelude.Set.{member, Distinct, member-erase}
use distributed_algorithms_p.PerfectLink.Link.{PerfectLink}
use distributed_algorithms_p.Broadcast.Types.{MessageId, id_eq, id_beq_iff}
use distributed_algorithms_p.Broadcast.{Upper}
use distributed_algorithms_p.Prelude.Map.{get_or, get_or-assign, get_or-remove}
use distributed_algorithms_p.DeliveredSet
use distributed_algorithms_p.DeliveredSet.Refinement.{contains-insert}
use distributed_algorithms_p.Uniform.{Uniform, add, try_deliver, deliver_pending, majority_seen}
use distributed_algorithms_p.Uniform.Sound.{IsSound, Step-IsSound, add-IsSound, new_uniform-IsSound}
use distributed_algorithms_p.Uniform.Run.{add_all, started, Event, tries, Reach, here, next}
use distributed_algorithms_p.Uniform.Cases.{try_deliver_cases, looked}
use distributed_algorithms_p.Uniform.Held.{deliver-pending}

module _ {U : Type 0} (upper : Upper U) where
  -- A try leaves the other ids pending.
  try_deliver-pending :
      (u : Uniform U) (id j : MessageId)
      → id == j ≡ false
      → member j u.pending_for_delivery ≡ true
      → member j (try_deliver upper u id).pending_for_delivery ≡ true
  try_deliver-pending u id j other h =
      try_deliver_cases (λ v. member j v.pending_for_delivery ≡ true) upper u id h
        λ many fresh.
          let (size, d, a, kept) = deliver-pending upper (looked u id) id in
          kept j (ground (arith, member-erase id j u.pending_for_delivery))

  tries-pending :
      (u : Uniform U) (id : MessageId) (ids : List MessageId)
      → member id ids ≡ false
      → All (λ j. member j u.pending_for_delivery ≡ true) ids
      → All (λ j. member j (try_deliver upper u id).pending_for_delivery ≡ true) ids
  unfolding member
  tries-pending u id [] new p = tt
  tries-pending u id (j ∷ ids) new p = (
    try_deliver-pending u id j (ground (arith, new, id_beq_iff id j, id_beq_iff j id)) p.0,
    tries-pending u id ids (ground (arith, new)) p.1,
  )

  -- A try of a pending id that is not delivered delivers it if a majority has sent it; and it changes of
  -- no other id whether it is delivered or whether a majority has sent it.
  try_deliver-delivered :
      (u : Uniform U) (id j : MessageId)
      → IsSound u
      → member id u.pending_for_delivery ≡ true
      → 1 ≤ j.seq
      → (DeliveredSet.contains (try_deliver upper u id).delivered j ≡ (
          if DeliveredSet.contains u.delivered j
          then true
          else if id == j
          then majority_seen u j
          else false))
        × (id == j ≡ false → majority_seen (try_deliver upper u id) j ≡ majority_seen u j)
  unfolding try_deliver
  try_deliver-delivered u id j s pending lo =
      let w : Uniform U = looked u id in
      let (size, d, a, _) = deliver-pending upper w id in
      let acks = get_or-assign id j [] (get_or id [] u.acks) u.acks in
      let removed = get_or-remove id j [] w.acks in
      elim (Bool-cases (majority_seen u id)) [
        | inr few ↦
            rw few (ground (arith, few, id_beq_iff id j), λ other. ground (arith, acks, other))
        | inl many ↦ elim (Bool-cases (DeliveredSet.contains u.delivered id)) [
          | inl old ↦
              rw (many, old)
                (ground (arith, old, id_beq_iff id j), λ other. ground (arith, acks, other))
          | inr fresh ↦
              let inserted =
                contains-insert u.delivered id j s.valid (s.pending id pending) fresh lo in
              rw (many, fresh)
                (
                  ground (arith, many, fresh, d, inserted, id_beq_iff id j),
                  λ other. ground (arith, size, a, acks, removed, other),
                )
        ]
      ]

  pub deliver_pending-Reach :
      {u : Uniform U} {events : List Event} (ids : List MessageId) (v : Uniform U)
      → Distinct ids
      → All (λ j. member j v.pending_for_delivery ≡ true) ids
      → Reach upper u events v
      → Reach upper u events (deliver_pending upper v ids)
  unfolding deliver_pending
  deliver_pending-Reach [] v d p r = r
  deliver_pending-Reach (id ∷ ids) v d p r =
      deliver_pending-Reach ids (try_deliver upper v id) d.1 (tries-pending v id ids d.0 p.1)
        (next r (tries id p.0) refl)

  deliver_pending-delivered :
      (ids : List MessageId) (v : Uniform U) (j : MessageId)
      → Distinct ids
      → All (λ j. member j v.pending_for_delivery ≡ true) ids
      → IsSound v
      → 1 ≤ j.seq
      → DeliveredSet.contains (deliver_pending upper v ids).delivered j ≡ (
          if DeliveredSet.contains v.delivered j
          then true
          else if member j ids
          then majority_seen v j
          else false)
  unfolding deliver_pending member
  deliver_pending-delivered [] v j d p s lo = ground arith
  deliver_pending-delivered (id ∷ ids) v j d p s lo =
      let (now, later) = try_deliver-delivered v id j s p.0 lo in
      let rest =
        deliver_pending-delivered ids (try_deliver upper v id) j d.1
          (tries-pending v id ids d.0 p.1) (Step-IsSound upper (tries id p.0) s) lo in
      ground (arith, now, later, rest, d.0, id_beq_iff id j)

  add_all-IsSound :
      (u : Uniform U) (links : List PerfectLink) → IsSound u → IsSound (add_all u links)
  unfolding add_all
  add_all-IsSound u [] s = s
  add_all-IsSound u (pl ∷ links) s = add_all-IsSound (add u pl) links (add-IsSound pl s)

  Reach-IsSound :
      {u v : Uniform U} {events : List Event} → Reach upper u events v → IsSound u → IsSound v
  Reach-IsSound here s = s
  Reach-IsSound (next r st e) s = Step-IsSound upper st (Reach-IsSound r s)

  -- At any point of a run of a process's handlers with numbers from 1 to 2^32 - 2, a round of
  -- `DeliverPending` over different ids that are pending, in any order: afterwards an id is delivered
  -- exactly if it was before, or if it is one of these and a majority had sent it when the round began;
  -- and the round is itself a part of a run, in which nothing else happens.
  pub deliver_pending-delivers :
      (id : ℕ) (state : U) (links : List PerfectLink) {events : List Event} (ids : List MessageId)
      (v : Uniform U)
      → Distinct ids
      → All (λ j. member j v.pending_for_delivery ≡ true) ids
      → Reach upper (started id state links) events v
      → (j : MessageId) → 1 ≤ j.seq
      → (DeliveredSet.contains (deliver_pending upper v ids).delivered j ≡ (
          if DeliveredSet.contains v.delivered j
          then true
          else if member j ids
          then majority_seen v j
          else false))
        × Reach upper (started id state links) events (deliver_pending upper v ids)
  deliver_pending-delivers id state links ids v d p r j lo =
      let s = Reach-IsSound r (add_all-IsSound _ links (new_uniform-IsSound upper id state)) in
      (deliver_pending-delivered ids v j d p s lo, deliver_pending-Reach ids v d p r)
