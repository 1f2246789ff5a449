-- ===== src/Network/Walks.antt =====
-- A run of one process's handlers as a run of the system of which it is a part.
use mathlib.Core.List.{append_assoc}
use distributed_algorithms_p.Prelude.{
  ◌≤◌, ℕ, ◌≡◌, ◌≢◌, refl, sym, subst, ◌∙◌, List, [], ◌∷◌, ◌++◌, arith, ◌==◌, nat_eq, nat_beq_iff,
  Bool-cases, inl, inr, All, ap, ==_refl, In, In-append_right,
}
use distributed_algorithms_p.PerfectLink.Link.{PerfectLink}
use distributed_algorithms_p.Broadcast.Types.{MessageId}
use distributed_algorithms_p.Broadcast.{Upper}
use distributed_algorithms_p.Uniform.{Uniform}
use distributed_algorithms_p.Uniform.Run.{Event, sent, notified, Step, Reach, here, next}
use distributed_algorithms_p.Uniform.Holds.{Holds}
use distributed_algorithms_p.System.{
  System, IsMember, IsFrom, update, acts, SystemReach, system_here, system_next,
}
use distributed_algorithms_p.System.Origin.{SystemReach-IsLive, kept, proc-update, start-empty}

All-split :
    (P : Event → Type 0) (front back : List Event)
    → All P (front ++ back)
    → All P front × All P back
All-split P [] back a = (tt, a)
All-split P (e ∷ front) back a = let (f, b) = All-split P front back a.1 in ((a.0, f), b)

module _ {U : Type 0} where
  proc-update_other :
      (s : System U) (i k : ℕ) (new : List Event) (v : Uniform U)
      → k ≢ i
      → (update s i new v).proc k ≡ s.proc k
  proc-update_other s i k new v other = ground (arith, nat_beq_iff k i)

  events-update :
      (s : System U) (i k : ℕ) (new : List Event) (v : Uniform U) (e : Event)
      → In e (s.events k)
      → In e ((update s i new v).events k)
  events-update s i k new v e at = elim (Bool-cases (k == i)) [
    | inl same ↦ rw same (In-append_right e new (s.events k) at)
    | inr other ↦ rw other at
  ]

module _ {U : Type 0} (upper : Upper U) (n : ℕ) (state : U) (links : ℕ → List PerfectLink) where
  -- The system `t` after some steps of process `i` from `s` on, which lead to the state `v` and in which
  -- it is told `new`.
  pub record IsAfter (s : System U) (i : ℕ) (new : List Event) (v : Uniform U) (t : System U)
      : Type 0 where
    pub reached : SystemReach upper n state links t
    pub at : t.proc i ≡ v
    pub others : (k : ℕ) → k ≢ i → t.proc k ≡ s.proc k
    pub told : t.events i ≡ new ++ s.events i
    pub recalls : (k : ℕ) (e : Event) → In e (s.events k) → In e (t.events k)
    pub stays : (k : ℕ) (id : MessageId) → 1 ≤ id.seq → Holds (s.proc k) id → Holds (t.proc k) id

  -- What came from another process still does.
  still-IsFrom :
      {s t : System U} {i : ℕ} {past : List Event} {v : Uniform U}
      → IsAfter s i past v t
      → (new : List Event) → All (IsFrom n s i) new
      → All (IsFrom n t i) new
  still-IsFrom a [] from = tt
  still-IsFrom a (sent id ∷ new) from = (tt, still-IsFrom a new from.1)
  still-IsFrom a (notified m ∷ new) from =
      let (member, other, holds) = from.0 in
      (
        (member, other, subst (λ u. Holds u m.id) (sym (a.others m.sender other)) holds),
        still-IsFrom a new from.1,
      )

  IsAfter-Step :
      {s t : System U} (i : ℕ) {v w : Uniform U} {past new : List Event}
      → IsMember n i
      → IsAfter s i past v t
      → Step upper v new w
      → All (IsFrom n s i) new
      → IsAfter s i (new ++ past) w (update t i new w)
  IsAfter-Step {s} {t} i {v} {w} {past} {new} member a st from =
      let st' : Step upper (t.proc i) new w = subst (λ u. Step upper u new w) (sym a.at) st in
      let from' = still-IsFrom a new from in
      record {
        reached = system_next a.reached (acts i member st' from');
        at = proc-update t i new w;
        others = λ k other. proc-update_other t i k new w other ∙ a.others k other;
        told =
            rw (==_refl i) (ap (λ l. new ++ l) a.told ∙ sym (append_assoc new past (s.events i)));
        recalls = λ k e at. events-update t i k new w e (a.recalls k e at);
        stays = λ k id lo h.
            kept upper n state links t (SystemReach-IsLive upper n state links a.reached) i st'
              from' k id lo (a.stays k id lo h);
      }

  pub Reach-IsAfter :
      {s : System U} (i : ℕ) {u v : Uniform U} {events : List Event}
      → SystemReach upper n state links s
      → IsMember n i
      → s.proc i ≡ u
      → Reach upper u events v
      → All (IsFrom n s i) events
      → (t : System U) × IsAfter s i events v t
  Reach-IsAfter {s} i r member e here from = (
    s,
    record {
      reached = r;
      at = e;
      others = λ k _. refl;
      told = refl;
      recalls = λ k x at. at;
      stays = λ k id lo h. h;
    },
  )
  Reach-IsAfter {s} i r member e (next {w = v} {old = old} {new = new} q st eq) from =
      let (fresh, past) = All-split (IsFrom n s i) new old (subst (All (IsFrom n s i)) eq from) in
      let (t, a) = Reach-IsAfter i r member e q past in
      let t' = update t i new v in
      (t', subst (λ l. IsAfter s i l v t') (sym eq) (IsAfter-Step i member a st fresh))

  -- Only members hold anything.
  pub holder-IsMember :
      {s : System U}
      → SystemReach upper n state links s
      → (k : ℕ) (id : MessageId) → Holds (s.proc k) id
      → IsMember n k
  holder-IsMember system_here k id h = absurd (start-empty upper n state links k id h)
  holder-IsMember (system_next {s} r (acts i {v} {new} member st from)) k id h =
      elim (Bool-cases (k == i)) [
        | inl same ↦ subst (IsMember n) (sym ((nat_beq_iff k i).0 same)) member
        | inr other ↦ holder-IsMember r k id (rw other at h)
      ]
