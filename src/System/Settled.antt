-- ===== src/System/Settled.antt =====
-- What becomes of a message in the end, when the processes that do not fail are more than half of all.
use distributed_algorithms_p.Prelude.{
  ℕ, ◌*◌, ◌≤◌, ◌<◌, ◌≡◌, ◌≢◌, sym, subst, ◌∙◌, true, false, List, [], ◌∷◌, arith, ◌==◌, nat_eq,
  nat_beq_iff, Bool-cases, In, inl, inr, length, map,
}
use distributed_algorithms_p.Prelude.Set.{member, Distinct, erase, member-erase, erase-Distinct}
use distributed_algorithms_p.Prelude.Counting.{length-Distinct, majorities-meet}
use distributed_algorithms_p.PerfectLink.Link.{PerfectLink}
use distributed_algorithms_p.Broadcast.Types.{Message, MessageId, id_eq}
use distributed_algorithms_p.Broadcast.{Upper}
use distributed_algorithms_p.DeliveredSet
use distributed_algorithms_p.Uniform.{majority_seen}
use distributed_algorithms_p.Uniform.Run.{notified, started}
use distributed_algorithms_p.Uniform.Agreed.{traced, HasMajority}
use distributed_algorithms_p.Uniform.Agreement.{reach-trace}
use distributed_algorithms_p.Uniform.OwnCount.{own_count-member}
use distributed_algorithms_p.Uniform.Window.{own_id}
use distributed_algorithms_p.Uniform.Flow.{
  HonestReach-Reach, honest-IsFlowing, reach-IsWindowed, reach-IsComplete,
}
use distributed_algorithms_p.Uniform.Progress.{reach-IsAckedBy, reach-majority_seen}
use distributed_algorithms_p.Uniform.Holds.{Holds}
use distributed_algorithms_p.System.{System, IsMember, SystemReach}
use distributed_algorithms_p.System.Origin.{SystemReach-IsLive}
use distributed_algorithms_p.System.Holders.{Given, reach-IsWidelyHeld}

-- The processes `correct` are more than half of all `n`; each message that one of them holds, and so has
-- sent, has come in at the others; and the rounds of `DeliverPending` have come to all that is
-- pending, which leaves pending only what no majority has sent.
pub record IsSettled {U : Type 0} (n : ℕ) (correct : List ℕ) (s : System U) : Type 0 where
  pub distinct : Distinct correct
  pub members : (i : ℕ) → member i correct ≡ true → IsMember n i
  pub majority : n < 2 * length correct
  pub arrived :
      (i j : ℕ)
      → member i correct ≡ true
      → member j correct ≡ true
      → i ≢ j
      → (id : MessageId) → 1 ≤ id.seq
      → Holds (s.proc i) id
      → (m : Message) × In (notified m) (s.events j) × (m.id ≡ id) × (m.sender ≡ i)
  pub tried :
      (j : ℕ)
      → member j correct ≡ true
      → (id : MessageId) → member id (s.proc j).pending_for_delivery ≡ true
      → majority_seen (s.proc j) id ≡ false

module _ {U : Type 0} (upper : Upper U) (n : ℕ) (state : U) (links : ℕ → List PerfectLink) where
  abbrev HasSize : Type 0
  HasSize = (i : ℕ) → IsMember n i → (started i state (links i)).n_processes ≡ n

  module _ {s : System U} (r : SystemReach upper n state links s) (size : HasSize)
      (correct : List ℕ) (settled : IsSettled n correct s) (id : MessageId) (lo : 1 ≤ id.seq)
      (i : ℕ) (in_i : member i correct ≡ true) (h : Holds (s.proc i) id) where
    spread : (j : ℕ) → member j correct ≡ true → Holds (s.proc j) id
    spread j in_j = elim (Bool-cases (i == j)) [
      | inl same ↦ subst (λ k. Holds (s.proc k) id) ((nat_beq_iff i j).0 same) h
      | inr other ↦
          let l = SystemReach-IsLive upper n state links r in
          let (m, at, same, from) =
            settled.arrived i j in_i in_j (λ e. ground (arith, nat_beq_iff i j)) id lo h in
          let run = HonestReach-Reach upper (l.honest j) in
          elim (reach-IsAckedBy upper j state (links j) run m at) [
            | inl d ↦ inr (subst (λ k. DeliveredSet.contains (s.proc j).delivered k ≡ true) same d)
            | inr (p, _) ↦ inl (subst (λ k. member k (s.proc j).pending_for_delivery ≡ true) same p)
          ]
    ]

    -- The others among the correct processes are, with `j`, a majority.
    settled-HasMajority : (j : ℕ) → member j correct ≡ true → HasMajority (s.events j) n id
    unfolding member
    settled-HasMajority j in_j = (
      erase j correct,
      erase-Distinct j correct settled.distinct,
      λ k m.
          settled.arrived k j (ground (arith, member-erase j k correct)) in_j
            (ground (arith, member-erase j k correct, nat_beq_iff j k)) id lo
            (spread k (ground (arith, member-erase j k correct))),
      let few : length correct ≤ length (j ∷ erase j correct) =
            length-Distinct correct (j ∷ erase j correct) settled.distinct
              λ k m. ground (arith, member-erase j k correct) in
          omega (arith, few, settled.majority),
    )

    settled-delivered :
        (j : ℕ) → member j correct ≡ true → DeliveredSet.contains (s.proc j).delivered id ≡ true
    settled-delivered j in_j = elim (spread j in_j) [
      | inr d ↦ d
      | inl p ↦ elim (Bool-cases (DeliveredSet.contains (s.proc j).delivered id)) [
        | inl d ↦ d
        | inr fresh ↦
            let l = SystemReach-IsLive upper n state links r in
            let run = HonestReach-Reach upper (l.honest j) in
            let many = reach-majority_seen upper j state (links j) run id fresh (
              subst (λ k. HasMajority (s.events j) k id) (sym (size j (settled.members j in_j)))
                (settled-HasMajority j in_j)) in
            ground (arith, many, settled.tried j in_j id p)
      ]
    ]

  -- Nothing waits at a correct process.
  none_pending :
      {s : System U}
      → SystemReach upper n state links s
      → HasSize
      → (correct : List ℕ) → IsSettled n correct s
      → (i : ℕ) → member i correct ≡ true
      → (id : MessageId) → ¬ (member id (s.proc i).pending_for_delivery ≡ true)
  none_pending {s} r size correct settled i in_i id p =
      let l = SystemReach-IsLive upper n state links r in
      let (sound, flow) = honest-IsFlowing upper i state (links i) (l.honest i) in
      let lo = (sound.pending id p).0 in
      let d = settled-delivered r size correct settled id lo i in_i (inl p) i in_i in
      ground (arith, d, flow.apart id lo p)

  own-Holds :
      {s : System U}
      → SystemReach upper n state links s
      → HasSize
      → (correct : List ℕ) → IsSettled n correct s
      → (i : ℕ) → member i correct ≡ true
      → (seq : ℕ) → 1 ≤ seq
      → seq < (s.proc i).n_messages_sent
      → Holds (s.proc i) (own_id i seq)
  own-Holds {s} r size correct settled i in_i seq lo hi =
      let l = SystemReach-IsLive upper n state links r in
      let (held, _) = reach-IsComplete upper i state (links i) (l.honest i) in
      let (counted, _, _, queue) = reach-IsWindowed upper i state (links i) (l.honest i) in
      subst (λ a. Holds (s.proc i) (own_id a seq)) (l.named i)
        (elim (held seq lo hi) [
          | inl p ↦ inl p
          | inr (inl d) ↦ inr d
          | inr (inr waits) ↦ elim queue [
            | inl none ↦
                absurd (subst (λ q. In (own_id (s.proc i).id seq) (map (λ m. m.id) q)) none waits)
            | inr (_, some_pending) ↦
                let (id, p, _) =
                  own_count-member (s.proc i).id (s.proc i).pending_for_delivery
                    (omega (arith, counted, some_pending)) in
                absurd (none_pending r size correct settled i in_i id p)
          ]
        ])

module _ {U : Type 0} (upper : Upper U) (n : ℕ) (state : U) (links : ℕ → List PerfectLink) where
  abbrev pub HasTracedSize : Type 0
  HasTracedSize = HasSize (traced upper) n (state, []) links

  given :
      {s : System (U × List MessageId)}
      → SystemReach (traced upper) n (state, []) links s
      → (id : MessageId) → 1 ≤ id.seq
      → (j : ℕ) → DeliveredSet.contains (s.proc j).delivered id ≡ true
      → Given s j id
  given {s} r id lo j d =
      let l = SystemReach-IsLive (traced upper) n (state, []) links r in
      reach-trace upper j state (links j) (HonestReach-Reach (traced upper) (l.honest j)) id lo ∙ d

  -- In every run of a system of `n` processes, each with links to all the others, with numbers from 1
  -- to 2^32 - 2, in which any process may stop and what comes in at one was sent by another that holds
  -- it: if the system is settled for some processes that are more than half of all (each message that
  -- one of them holds has come in from it at the others, and `DeliverPending` has come to all
  -- that is pending at them), then a message id that any process has given to `DeliverInternal`,
  -- also one that has stopped since, was given to it at each of those.
  pub settled-agreement :
      {s : System (U × List MessageId)}
      → SystemReach (traced upper) n (state, []) links s
      → HasTracedSize
      → (correct : List ℕ) → IsSettled n correct s
      → (i : ℕ) → IsMember n i
      → (id : MessageId) → 1 ≤ id.seq
      → Given s i id
      → (j : ℕ) → member j correct ≡ true
      → Given s j id
  settled-agreement {s} r size correct settled i mem id lo g j in_j =
      let (holders, distinct, held, many) =
        reach-IsWidelyHeld upper n state links r i mem (size i mem) id lo g in
      let (k, by, in_k) =
        majorities-meet n holders correct distinct settled.distinct (λ a m. (held a m).0)
          settled.members many settled.majority in
      given r id lo j (
        settled-delivered (traced upper) n (state, []) links r size correct settled id lo k in_k
          (held k by).1 j in_j)

  -- In every run of a system of `n` processes, each with links to all the others, with numbers from 1
  -- to 2^32 - 2, in which any process may stop and what comes in at one was sent by another that holds
  -- it: if the system is settled for some processes that are more than half of all (each message that
  -- one of them holds has come in from it at the others, and `DeliverPending` has come to all
  -- that is pending at them), then each message that one of them was asked to broadcast, by any of
  -- its calls of `Send`, was given to `DeliverInternal` at each of them.
  pub settled-validity :
      {s : System (U × List MessageId)}
      → SystemReach (traced upper) n (state, []) links s
      → HasTracedSize
      → (correct : List ℕ) → IsSettled n correct s
      → (i : ℕ) → member i correct ≡ true
      → (seq : ℕ) → 1 ≤ seq
      → seq < (s.proc i).n_messages_sent
      → (j : ℕ) → member j correct ≡ true
      → Given s j (own_id i seq)
  settled-validity {s} r size correct settled i in_i seq lo hi j in_j =
      let h =
        own-Holds (traced upper) n (state, []) links r size correct settled i in_i seq lo hi in
      given r _ lo j (
        settled-delivered (traced upper) n (state, []) links r size correct settled _ lo i in_i h j
          in_j)
