-- ===== src/System/Holders.antt =====
-- Which processes hold a message that some process delivers: more than half of all.
use distributed_algorithms_p.Prelude.{
  ℕ, ◌*◌, ◌≤◌, ◌<◌, ◌≡◌, ◌≢◌, refl, sym, subst, ◌∙◌, true, List, [], ◌∷◌, arith, ◌==◌, nat_eq,
  nat_beq_iff, Bool-cases, inl, inr, length,
}
use distributed_algorithms_p.Prelude.Set.{member, Distinct}
use distributed_algorithms_p.PerfectLink.Link.{PerfectLink}
use distributed_algorithms_p.Broadcast.Types.{MessageId, id_eq}
use distributed_algorithms_p.Broadcast.{Upper}
use distributed_algorithms_p.Uniform.Run.{started}
use distributed_algorithms_p.Uniform.Agreed.{traced, trace}
use distributed_algorithms_p.Uniform.Agreement.{reach-HasMajority, reach-trace}
use distributed_algorithms_p.Uniform.Flow.{HonestReach-Reach}
use distributed_algorithms_p.Uniform.Holds.{Holds}
use distributed_algorithms_p.System.{System, IsMember, SystemReach}
use distributed_algorithms_p.System.Origin.{SystemReach-IsLive}

-- Different processes, more than half of all, hold the message.
abbrev pub IsWidelyHeld : {U : Type 0} → ℕ → System U → MessageId → Type 0
IsWidelyHeld n s id =
    (holders : List ℕ) × Distinct holders
    × ((i : ℕ) → member i holders ≡ true → IsMember n i × Holds (s.proc i) id)
    × (n < 2 * length holders)

-- The id was given to `DeliverInternal` at process `i`.
abbrev pub Given : {U : Type 0} → System (U × List MessageId) → ℕ → MessageId → Type 0
Given s i id = member id (trace (s.proc i)) ≡ true

module _ {U : Type 0} (upper : Upper U) (n : ℕ) (state : U) (links : ℕ → List PerfectLink) where
  -- In every run of a system of `n` processes, each with links to all the others, with numbers from 1
  -- to 2^32 - 2, in which any of them may stop and what comes in at one was sent by another that holds
  -- it: when a process gives a message id to `DeliverInternal`, then different processes that are more
  -- than half of all hold the message.
  pub reach-IsWidelyHeld :
      {s : System (U × List MessageId)}
      → SystemReach (traced upper) n (state, []) links s
      → (i : ℕ) → IsMember n i
      → (started {U = U × List MessageId} i (state, []) (links i)).n_processes ≡ n
      → (id : MessageId) → 1 ≤ id.seq
      → Given s i id
      → IsWidelyHeld n s id
  unfolding member
  reach-IsWidelyHeld {s} r i mem size id lo given =
      let l = SystemReach-IsLive (traced upper) n (state, []) links r in
      let run = HonestReach-Reach (traced upper) (l.honest i) in
      let (_, (senders, distinct, heard, many)) =
        reach-HasMajority upper i state (links i) run id given in
      let at_i : Holds (s.proc i) id =
        inr (sym (reach-trace upper i state (links i) run id lo) ∙ given) in
      let source : (k : ℕ)
          → member k senders ≡ true
          → IsMember n k × (k ≢ i) × Holds (s.proc k) id =
        λ k m.
          let (msg, at, same, from) = heard k m in
          subst (λ j. IsMember n j × (j ≢ i) × Holds (s.proc j) id) from
            (subst (λ j. IsMember n msg.sender × (msg.sender ≢ i) × Holds (s.proc msg.sender) j)
              same (l.sources i msg at)) in
      let apart : member i senders ≢ true = λ m. (source i m).1 refl in
      (
        i ∷ senders,
        (ground (arith, apart), distinct),
        λ k m. elim (Bool-cases (i == k)) [
          | inl same ↦
              subst (λ j. IsMember n j × Holds (s.proc j) id) ((nat_beq_iff i k).0 same) (mem, at_i)
          | inr other ↦ let (a, _, c) = source k (ground arith) in (a, c)
        ],
        omega (arith, many, size),
      )
