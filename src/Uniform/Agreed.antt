-- ===== src/Uniform/Agreed.antt =====
-- What `DeliverPending` hands to the upper layer, handler by handler.
use distributed_algorithms_p.Prelude.{
  ℕ, ◌+◌, ◌*◌, ◌≤◌, ◌<◌, ◌≡◌, refl, sym, ap, subst, ◌∙◌, true, false, List, [], ◌∷◌, ◌++◌, arith,
  ◌==◌, nat_eq, Bool-cases, inl, inr, length,
}
use distributed_algorithms_p.Prelude.Map.{get_or}
use distributed_algorithms_p.Prelude.Set.{member, Distinct}
use distributed_algorithms_p.Broadcast.Types.{Message, MessageId, id_eq, id_beq_iff}
use distributed_algorithms_p.Broadcast.{
  Upper, best_effort_notify, best_effort_deliver, best_effort_send, log_send,
}
use distributed_algorithms_p.DeliveredSet
use distributed_algorithms_p.DeliveredSet.Refinement.{IsNumbered, contains-insert}
use distributed_algorithms_p.Uniform.{
  Uniform, send_internal, finish_own, send, notify_internal, deliver, try_deliver, erased,
  majority_seen,
}
use distributed_algorithms_p.Uniform.Run.{Event, Heard, Heard-append, Known, Known-append}
use distributed_algorithms_p.Uniform.Cases.{
  finish_own_cases, send_cases, notify_internal_cases, try_deliver_cases, looked, told,
}
use distributed_algorithms_p.Uniform.Sound.{IsSound, acks-IsSound}
use distributed_algorithms_p.Uniform.Acks.{IsCounted}
use distributed_algorithms_p.Uniform.Origin.{IsKnown}

-- Any subclass, with a note of the ids given to `DeliverInternal`, the latest first.
abbrev pub traced : {U : Type 0} → Upper U → Upper (U × List MessageId)
traced upper = record {
  log = λ u l. (upper.log u.0 l, u.1);
  deliver_internal = λ u id do_log. (upper.deliver_internal u.0 id do_log, id ∷ u.1);
}

-- Copies of the message came in from different processes which, with this one, are more than half of
-- the `n` processes.
abbrev pub HasMajority : List Event → ℕ → MessageId → Type 0
HasMajority events n id =
    (senders : List ℕ) × Distinct senders
    × ((s : ℕ) → member s senders ≡ true → Heard events id s)
    × (n < 2 * (length senders + 1))

module _ {U : Type 0} where
  abbrev pub trace : Uniform (U × List MessageId) → List MessageId
  trace u = u.upper.1

  pub record IsAgreed (events : List Event) (n : ℕ) (u : Uniform (U × List MessageId))
      : Type 0 where
    pub size : u.n_processes ≡ n
    pub same :
        (j : MessageId) → 1 ≤ j.seq → member j (trace u) ≡ DeliveredSet.contains u.delivered j
    pub once : Distinct (trace u)
    pub known : (j : MessageId) → member j (trace u) ≡ true → Known events j
    pub backed : (j : MessageId) → member j (trace u) ≡ true → HasMajority events n j

  pub append-IsAgreed :
      (new : List Event) {old : List Event} {n : ℕ} {u : Uniform (U × List MessageId)}
      → IsAgreed old n u
      → IsAgreed (new ++ old) n u
  append-IsAgreed new {old} a = record {
    size = a.size;
    same = a.same;
    once = a.once;
    known = λ j h. Known-append new old j (a.known j h);
    backed = λ j h.
        let (senders, d, heard, many) = a.backed j h in
        (senders, d, λ s m. Heard-append new old j s (heard s m), many);
  }

  -- The members that this is about.
  abbrev pub SameTop : Uniform (U × List MessageId) → Uniform (U × List MessageId) → Type 0
  SameTop u v = (v.n_processes ≡ u.n_processes) × (trace v ≡ trace u) × (v.delivered ≡ u.delivered)

  pub same-IsAgreed :
      {events : List Event} {n : ℕ} {u : Uniform (U × List MessageId)}
      (v : Uniform (U × List MessageId))
      → SameTop u v
      → IsAgreed events n u
      → IsAgreed events n v
  same-IsAgreed {events} {n} {u} v e a = record {
    size = e.0 ∙ a.size;
    same = λ j h. ap (member j) e.1 ∙ a.same j h ∙ ap (λ d. DeliveredSet.contains d j) (sym e.2);
    once = subst (λ t. Distinct t) (sym e.1) a.once;
    known = λ j h. a.known j (subst (λ t. member j t ≡ true) e.1 h);
    backed = λ j h. a.backed j (subst (λ t. member j t ≡ true) e.1 h);
  }

  finish_own-SameTop :
      (u : Uniform (U × List MessageId)) (id : MessageId) → SameTop u (finish_own u id)
  unfolding send_internal best_effort_send
  finish_own-SameTop u id =
      finish_own_cases (SameTop u) u id (λ _. (refl, refl, refl)) (λ _ _. (refl, refl, refl))
        (λ _ _. (refl, refl, refl)) (λ msg queue own few e. (refl, refl, refl))

  module _ (upper : Upper U) where
    pub send-SameTop :
        (u : Uniform (U × List MessageId)) (msg : List ℕ) → SameTop u (send (traced upper) u msg)
    unfolding send_internal best_effort_send log_send
    send-SameTop u msg =
        send_cases (SameTop u) (traced upper) u msg (λ _. (refl, refl, refl))
          (λ _. (refl, refl, refl))

    pub notify_internal-SameTop :
        (u : Uniform (U × List MessageId)) (msg : Message)
        → u.deliver_to_upper_layer ≡ false
        → SameTop u (notify_internal (traced upper) u msg)
    unfolding send_internal best_effort_send best_effort_notify best_effort_deliver
    notify_internal-SameTop u msg quiet =
        let t : trace (told (traced upper) u msg) ≡ trace u = rw quiet in
        notify_internal_cases (SameTop u) (traced upper) u msg (λ _. (refl, t, refl))
          (λ _ _. (refl, t, refl)) (λ _ _. (refl, t, refl))

    deliver-IsAgreed :
        {events : List Event} {n : ℕ} (u : Uniform (U × List MessageId)) (id : MessageId)
        → IsSound u
        → IsNumbered id
        → DeliveredSet.contains u.delivered id ≡ false
        → Known events id
        → HasMajority events n id
        → IsAgreed events n u
        → IsAgreed events n (deliver (traced upper) u id)
    unfolding deliver member
    deliver-IsAgreed {events} {n} u id s numbered fresh k b a = record {
      size = same_top.0 ∙ a.size;
      same = λ j h.
          ground (
            arith,
            same_top,
            a.same j h,
            contains-insert u.delivered id j s.valid numbered fresh h,
          );
      once = ground (arith, same_top, a.same id numbered.0, a.once);
      known = λ j h. elim (Bool-cases (id == j)) [
        | inl same ↦ subst (Known events) ((id_beq_iff id j).0 same) k
        | inr other ↦ a.known j (ground (arith, same_top))
      ];
      backed = λ j h. elim (Bool-cases (id == j)) [
        | inl same ↦ subst (HasMajority events n) ((id_beq_iff id j).0 same) b
        | inr other ↦ a.backed j (ground (arith, same_top))
      ];
    }
      where
        same_top : SameTop u (finish_own (erased id u) id)
        same_top = finish_own-SameTop (erased id u) id

    -- `majority_seen` says that the counted processes and this one are a majority.
    majority-HasMajority :
        {events : List Event} {n : ℕ} (u : Uniform (U × List MessageId)) (id : MessageId)
        → u.n_processes ≡ n
        → majority_seen u id ≡ true
        → IsCounted events u.acks
        → HasMajority events n id
    majority-HasMajority u id e many c =
        (get_or id [] u.acks, c.distinct id, c.heard id, ground arith)

    pub try_deliver-IsAgreed :
        {events : List Event} {n : ℕ} (u : Uniform (U × List MessageId)) (id : MessageId)
        → member id u.pending_for_delivery ≡ true
        → IsSound u
        → IsCounted events u.acks
        → IsKnown events u
        → IsAgreed events n u
        → IsAgreed events n (try_deliver (traced upper) u id)
    try_deliver-IsAgreed {events} {n} u id pending s c k a =
        let l : IsAgreed events n (looked u id) =
          same-IsAgreed (looked u id) (refl, refl, refl) a in
        try_deliver_cases (IsAgreed events n) (traced upper) u id l λ many fresh.
          deliver-IsAgreed (looked u id) id (acks-IsSound _ s) (s.pending id pending) fresh
            (k.pending id pending) (majority-HasMajority u id a.size many c) l
