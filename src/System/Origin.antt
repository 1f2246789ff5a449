-- ===== src/System/Origin.antt =====
-- Whose messages travel: each was broadcast by its author, in every run of the system.
use distributed_algorithms_p.Prelude.{
  suc, ◌<◌, ℕ, ◌≤◌, ◌≡◌, refl, sym, subst, ◌∙◌, List, [], ◌∷◌, ◌++◌, arith, ◌==◌, nat_eq,
  nat_beq_iff, ==_refl, In, In-append, inl, inr, Bool-cases, All,
}
use distributed_algorithms_p.Prelude.Map.{find}
use distributed_algorithms_p.Prelude.Set.{member}
use distributed_algorithms_p.PerfectLink.Link.{PerfectLink}
use distributed_algorithms_p.Broadcast.Types.{Message, MessageId, id_eq}
use distributed_algorithms_p.Broadcast.{Upper}
use distributed_algorithms_p.DeliveredSet
use distributed_algorithms_p.Uniform.{Uniform, add, new_uniform}
use distributed_algorithms_p.Uniform.Run.{Event, sent, notified, Step, add_all, started}
use distributed_algorithms_p.Uniform.Window.{IsGenuine, Queued}
use distributed_algorithms_p.Uniform.Flow.{HonestReach, honest_here, honest_next, honest-IsFlowing}
use distributed_algorithms_p.Uniform.Holds.{Holds, IsNew, Holding, Step-Holding, Step-notified}
use distributed_algorithms_p.System.{
  System, IsFrom, update, start, acts, SystemReach, system_here, system_next,
}

-- Links change none of these members.
add_all_lem :
    {U : Type 0} (u : Uniform U) (links : List PerfectLink)
    → ((add_all u links).id ≡ u.id)
      × ((add_all u links).pending_for_delivery ≡ u.pending_for_delivery)
      × ((add_all u links).delivered ≡ u.delivered)
unfolding add_all add
add_all_lem u [] = (refl, refl, refl)
add_all_lem u (pl ∷ links) = add_all_lem (add u pl) links

All-In :
    (P : Event → Type 0) (events : List Event) → ((e : Event) → In e events → P e) → All P events
All-In P [] h = tt
All-In P (e ∷ events) h = (h e (inl refl), All-In P events (λ k i. h k (inr i)))

In-All : (P : Event → Type 0) (events : List Event) (e : Event) → All P events → In e events → P e
In-All P (x ∷ events) e a (inl same) = subst P (sym same) a.0
In-All P (x ∷ events) e a (inr i) = In-All P events e a.1 i
In-All P [] e a i = absurd i

-- To prove something of each process after a step of process `i`.
update_cases :
    {U : Type 0} (P : ℕ → Uniform U → List Event → Type 0) (s : System U) (i : ℕ) (new : List Event)
    (v : Uniform U)
    → P i v (new ++ s.events i)
    → ((k : ℕ) → P k (s.proc k) (s.events k))
    → (k : ℕ) → P k ((update s i new v).proc k) ((update s i new v).events k)
update_cases P s i new v at_i others k = elim (Bool-cases (k == i)) [
  | inr other ↦ rw other (others k)
  | inl same ↦
      rw same (subst (λ j. P j v (new ++ s.events j)) (sym ((nat_beq_iff k i).0 same)) at_i)
]

pub proc-update :
    {U : Type 0} (s : System U) (i : ℕ) (new : List Event) (v : Uniform U)
    → (update s i new v).proc i ≡ v
proc-update s i new v = rw (==_refl i)

module _ {U : Type 0} (upper : Upper U) (n : ℕ) (state : U) (links : ℕ → List PerfectLink) where
  -- What a run keeps: each process has an honest run of its own, and what one holds its author holds.
  pub record IsLive (s : System U) : Type 0 where
    pub honest : (i : ℕ) → HonestReach upper (started i state (links i)) (s.events i) (s.proc i)
    pub named : (i : ℕ) → (s.proc i).id ≡ i
    pub known : (i : ℕ) (j : MessageId) → 1 ≤ j.seq → Holds (s.proc i) j → Holds (s.proc j.author) j
    pub sources : (i : ℕ) (m : Message) → In (notified m) (s.events i) → IsFrom n s i (notified m)
    pub numbered : (i : ℕ) (m : Message) → In (notified m) (s.events i) → 1 ≤ m.id.seq

  -- A step of process `i`.
  module _ (s : System U) (l : IsLive s) (i : ℕ) {v : Uniform U} {new : List Event}
      (st : Step upper (s.proc i) new v) (from : All (IsFrom n s i) new) where
    abbrev after : System U
    after = update s i new v

    held : Holding (IsNew new) (s.proc i) v
    held =
        let (sound, flow) = honest-IsFlowing upper i state (links i) (l.honest i) in
        Step-Holding upper st sound flow

    pub kept : (k : ℕ) (j : MessageId) → 1 ≤ j.seq → Holds (s.proc k) j → Holds (after.proc k) j
    kept k j lo h = elim (Bool-cases (k == i)) [
      | inl same ↦
          rw same (held.kept j lo (subst (λ k'. Holds (s.proc k') j) ((nat_beq_iff k i).0 same) h))
      | inr other ↦ rw other h
    ]

    at_i : (j : MessageId) → Holds v j → Holds (after.proc i) j
    at_i j h = subst (λ u. Holds u j) (sym (proc-update s i new v)) h

    source : (m : Message) → In (notified m) new → IsFrom n s i (notified m)
    source m = In-All (IsFrom n s i) new (notified m) from

    -- What comes in is held by its author.
    source-known : (m : Message) → In (notified m) new → Holds (s.proc m.id.author) m.id
    source-known m at = l.known m.sender m.id (Step-notified upper st m at).0 (source m at).2

    taken-known : (j : MessageId) → 1 ≤ j.seq → Holds v j → Holds (after.proc j.author) j
    taken-known j lo h = elim (held.taken j lo h) [
      | inl old ↦ kept j.author j lo (l.known i j lo old)
      | inr (inl own) ↦ subst (λ k. Holds (after.proc k) j) (sym (own ∙ l.named i)) (at_i j h)
      | inr (inr (m, at, e)) ↦
          kept j.author j lo (subst (λ k. Holds (s.proc k.author) k) e (source-known m at))
    ]

    genuine : (e : Event) → In e new → IsGenuine (s.proc i) e
    genuine (sent id) at = tt
    genuine (notified m) at =
        λ own. subst (λ k. Holds (s.proc k) m.id) (own ∙ l.named i) (source-known m at)

    kept-source :
        (k : ℕ) (m : Message)
        → 1 ≤ m.id.seq
        → IsFrom n s k (notified m)
        → IsFrom n after k (notified m)
    kept-source k m lo (member, other, h) = (member, other, kept m.sender m.id lo h)

    acts-IsLive : IsLive after
    acts-IsLive = record {
      honest =
          update_cases (λ k u events. HonestReach upper (started k state (links k)) events u) s i
            new v (honest_next (l.honest i) st (All-In (IsGenuine (s.proc i)) new genuine) refl)
            l.honest;
      named = update_cases (λ k u events. u.id ≡ k) s i new v (held.same_id ∙ l.named i) l.named;
      known = λ k j lo.
          update_cases (λ k u events. Holds u j → Holds (after.proc j.author) j) s i new v
            (taken-known j lo) (λ k h. kept j.author j lo (l.known k j lo h)) k;
      sources = λ k m.
          update_cases (λ k u events. In (notified m) events → IsFrom n after k (notified m)) s i
            new v
            (λ at. elim (In-append (notified m) new (s.events i) at) [
              | inl fresh ↦ kept-source i m (Step-notified upper st m fresh).0 (source m fresh)
              | inr old ↦ kept-source i m (l.numbered i m old) (l.sources i m old)
            ])
            (λ k old. kept-source k m (l.numbered k m old) (l.sources k m old)) k;
      numbered = λ k m.
          update_cases (λ k u events. In (notified m) events → 1 ≤ m.id.seq) s i new v
            (λ at. elim (In-append (notified m) new (s.events i) at) [
              | inl fresh ↦ (Step-notified upper st m fresh).0
              | inr old ↦ l.numbered i m old
            ])
            (λ k old. l.numbered k m old) k;
    }

  -- At the start a process holds nothing.
  pub start-empty : (i : ℕ) (j : MessageId) → ¬ (Holds (started i state (links i)) j)
  unfolding member DeliveredSet.contains find
  start-empty i j h =
      let (_, p, d) = add_all_lem (new_uniform i state) (links i) in ground (arith, h, p, d)

  start-IsLive : IsLive (start upper n state links)
  start-IsLive = record {
    honest = λ i. honest_here;
    named = λ i. (add_all_lem (new_uniform i state) (links i)).0;
    known = λ i j lo h. absurd (start-empty i j h);
    sources = λ i m at. absurd at;
    numbered = λ i m at. absurd at;
  }

  pub SystemReach-IsLive : {s : System U} → SystemReach upper n state links s → IsLive s
  SystemReach-IsLive system_here = start-IsLive
  SystemReach-IsLive (system_next {s} r (acts i member st from)) =
      acts-IsLive s (SystemReach-IsLive r) i st from

  Queued-le : (author from to : ℕ) (queue : List Message) → Queued author from queue to → from ≤ to
  Queued-le author from to [] q = omega (arith, q)
  Queued-le author from to (m ∷ queue) q = omega (arith, Queued-le author (suc from) to queue q.1)

  -- In every run of a system of processes with numbers from 1 to 2^32 - 2, in which any of them may
  -- stop and what comes in at one was sent by another that holds it: whatever a process holds,
  -- pending or delivered, the process that the id names as its author holds too, and has numbered it
  -- in one of its own calls of `Send`.
  pub reach-IsAuthored :
      {s : System U}
      → SystemReach upper n state links s
      → (i : ℕ) (id : MessageId) → 1 ≤ id.seq
      → Holds (s.proc i) id
      → (id.seq < (s.proc id.author).n_messages_sent) × Holds (s.proc id.author) id
  reach-IsAuthored {s} r i id lo h =
      let l = SystemReach-IsLive r in
      let author = s.proc id.author in
      let held : Holds author id = l.known i id lo h in
      let f = (honest-IsFlowing upper id.author state (links id.author) (l.honest id.author)).1 in
      let all = Queued-le author.id f.front _ author.own_pending_for_broadcast f.queued in
      let own : id.author ≡ author.id = sym (l.named id.author) in
      (
        elim held [
          | inl pending ↦ omega (arith, all, f.before id pending own)
          | inr delivered ↦ omega (arith, all, f.past id delivered lo own)
        ],
        held,
      )
