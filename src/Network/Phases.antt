-- ===== src/Network/Phases.antt =====
-- The links between the processes: each has two ends that fit together, and what a process holds it has
-- handed to its end of each.
use distributed_algorithms_p.Prelude.{
  ℕ, ◌≤◌, ◌≡◌, ◌≢◌, sym, subst, false, Bool, List, some, arith, ◌==◌, ==_refl, nat_eq, nat_beq_iff,
  if◌then◌else◌, In, In-append, inl, inr, ◌⊎◌, Bool-cases,
}
use distributed_algorithms_p.Prelude.Map.{find}
use distributed_algorithms_p.Prelude.Set.{Distinct}
use distributed_algorithms_p.PerfectLink.Codec.{Message as LinkMessage}
use distributed_algorithms_p.PerfectLink.Channel.{End}
use distributed_algorithms_p.PerfectLink.Linked.{IsLinked}
use distributed_algorithms_p.Broadcast.Types.{Message, MessageId}
use distributed_algorithms_p.Broadcast.Codec.{parse, serialize}
use distributed_algorithms_p.Uniform.{Uniform}
use distributed_algorithms_p.Uniform.Run.{Event, notified}
use distributed_algorithms_p.Uniform.Holds.{Holds}
use distributed_algorithms_p.Parser.{Host}
use distributed_algorithms_p.Drivers.{Driver, machine_of}
use distributed_algorithms_p.Network.{Network, Flight, becomes}
use distributed_algorithms_p.Network.Ends.{
  keys, Moves, sender-Moves, receiver-Moves, Moves-out, Moves-sent,
}

-- A broadcast message of that id was given to `Send` of the link.
abbrev pub HasSent : MessageId → End → Type 0
HasSent id e =
    (b : Message) × (m : LinkMessage) × (b.id ≡ id) × (m.payload ≡ serialize b) × In m e.sent

module _ {U : Type 0} (strong : Bool) (hosts : List Host) where
  -- `events` is what the processes were told. The end at `i` of the link to `k` is `ends i k`.
  pub record AreLinkedUp (s : Network U) (events : ℕ → List Event) : Type 0 where
    pub ends : ℕ → ℕ → End
    pub linked :
        (g k : Host)
        → In g hosts
        → In k hosts
        → g.id ≢ k.id
        → IsLinked (ends g.id k.id) (ends k.id g.id)
    pub distinct : (i : ℕ) → Distinct (keys (s.node i).manager.perfect_links)
    pub found :
        (i : ℕ) (k : Host)
        → In k hosts
        → i ≢ k.id
        → find k.id (s.node i).manager.perfect_links ≡ some ((ends i k.id).link)
    pub posted :
        (f : Flight)
        → In f s.wire
        → (k : Host) → In k hosts
        → f.datagram.machine ≡ machine_of k
        → f.from.id ≢ k.id
        → In f.datagram.bytes (ends f.from.id k.id).out
    pub told :
        (g k : Host)
        → In g hosts
        → In k hosts
        → g.id ≢ k.id
        → (m : LinkMessage) → In m (ends k.id g.id).delivered
        → (b : Message) → parse g.id m.payload ≡ some b
        → In (notified b) (events k.id)
    pub sent :
        (g k : Host)
        → In g hosts
        → In k hosts
        → g.id ≢ k.id
        → (id : MessageId) → 1 ≤ id.seq
        → Holds (s.node g.id).manager id
        → HasSent id (ends g.id k.id)

  module _ (s : Network U) (events : ℕ → List Event) (l : AreLinkedUp s events) (h : Host) where
    -- The process of `h` in the course of a step: its members are `u`, its ends of the links `fam`, and it
    -- has been told `new`.
    pub record IsPhase (new : List Event) (u : Uniform U) (fam : ℕ → End) : Type 0 where
      pub moves :
          (k : Host)
          → In k hosts
          → h.id ≢ k.id
          → Moves strong (l.ends h.id k.id) (l.ends k.id h.id) (fam k.id)
      pub distinct : Distinct (keys u.perfect_links)
      pub found :
          (k : Host) → In k hosts → h.id ≢ k.id → find k.id u.perfect_links ≡ some ((fam k.id).link)
      pub told :
          (k : Host)
          → In k hosts
          → h.id ≢ k.id
          → (m : LinkMessage) → In m (fam k.id).delivered
          → In m (l.ends h.id k.id).delivered
            ⊎ ((b : Message) → parse k.id m.payload ≡ some b → In (notified b) new)
      pub sent :
          (k : Host)
          → In k hosts
          → h.id ≢ k.id
          → (id : MessageId) → 1 ≤ id.seq
          → Holds u id
          → Holds (s.node h.id).manager id ⊎ HasSent id (fam k.id)

    -- Its end.
    module _ (at : In h hosts) (new : List Event) (d : Driver (Uniform U)) (fam : ℕ → End)
        (out : List Flight) (p : IsPhase new d.manager fam)
        (posted' : (f : Flight)
          → In f out
          → (f.from ≡ h)
            × ((k : Host)
                → In k hosts
                → f.datagram.machine ≡ machine_of k
                → h.id ≢ k.id
                → In f.datagram.bytes (fam k.id).out))
        (events' : ℕ → List Event)
        (recalls : (i : ℕ) (e : Event) → In e (events i) → In e (events' i))
        (told' : (e : Event) → In e new → In e (events' h.id)) where
      abbrev ends' : ℕ → ℕ → End
      ends' i k = if i == h.id then fam k else l.ends i k

      other : (g k : Host) → g.id ≡ h.id → g.id ≢ k.id → k.id == h.id ≡ false
      other g k e apart = ground (arith, nat_beq_iff k.id h.id)

      linked' :
          (g k : Host)
          → In g hosts
          → In k hosts
          → g.id ≢ k.id
          → IsLinked (ends' g.id k.id) (ends' k.id g.id)
      linked' g k in_g in_k apart = elim (Bool-cases (g.id == h.id)) [
        | inl same ↦
            let e : g.id ≡ h.id = (nat_beq_iff g.id h.id).0 same in
            let apart' : h.id ≢ k.id = λ q. apart (ground arith) in
            rw (same, other g k e apart)
              (subst (λ j. IsLinked (fam k.id) (l.ends k.id j)) (sym e)
                (sender-Moves (p.moves k in_k apart') (l.linked h k at in_k apart')))
        | inr g_other ↦ elim (Bool-cases (k.id == h.id)) [
          | inr k_other ↦ rw (g_other, k_other) (l.linked g k in_g in_k apart)
          | inl same ↦
              let e : k.id ≡ h.id = (nat_beq_iff k.id h.id).0 same in
              let apart' : h.id ≢ g.id = λ q. apart (ground arith) in
              rw (g_other, same)
                (subst (λ j. IsLinked (l.ends g.id j) (fam g.id)) (sym e)
                  (receiver-Moves (p.moves g in_g apart')
                    (l.linked g h in_g at (λ q. apart' (sym q)))))
        ]
      ]

      out' :
          (f : Flight)
          → In f s.wire
          → (k : Host) → In k hosts
          → f.datagram.machine ≡ machine_of k
          → f.from.id ≢ k.id
          → In f.datagram.bytes (ends' f.from.id k.id).out
      out' f on k in_k to apart = elim (Bool-cases (f.from.id == h.id)) [
        | inr f_other ↦ rw f_other (l.posted f on k in_k to apart)
        | inl same ↦
            let e : f.from.id ≡ h.id = (nat_beq_iff f.from.id h.id).0 same in
            let apart' : h.id ≢ k.id = λ q. apart (ground arith) in
            rw same (
              Moves-out (p.moves k in_k apart') f.datagram.bytes (
                subst (λ j. In f.datagram.bytes (l.ends j k.id).out) e
                  (l.posted f on k in_k to apart)))
      ]

      pub phase-AreLinkedUp : AreLinkedUp (becomes s h.id d out) events'
      phase-AreLinkedUp = record {
        ends = ends';
        linked = linked';
        distinct = λ i. elim (Bool-cases (i == h.id)) [
          | inl same ↦ rw same p.distinct
          | inr i_other ↦ rw i_other (l.distinct i)
        ];
        found = λ i k in_k apart. elim (Bool-cases (i == h.id)) [
          | inl same ↦
              let e : i ≡ h.id = (nat_beq_iff i h.id).0 same in
              rw same (p.found k in_k (λ q. apart (ground arith)))
          | inr i_other ↦ rw i_other (l.found i k in_k apart)
        ];
        posted = λ f on k in_k to apart. elim (In-append f out s.wire on) [
          | inr old ↦ out' f old k in_k to apart
          | inl fresh ↦
              let (from, each) = posted' f fresh in
              subst (λ (g : Host). In f.datagram.bytes (ends' g.id k.id).out) (sym from)
                (rw (==_refl h.id) (each k in_k to (subst (λ (g : Host). g.id ≢ k.id) from apart)))
        ];
        told = λ g k in_g in_k apart m. elim (Bool-cases (k.id == h.id)) [
          | inr k_other ↦
              rw k_other (λ on b e. recalls k.id (notified b) (l.told g k in_g in_k apart m on b e))
          | inl same ↦
              let e : k.id ≡ h.id = (nat_beq_iff k.id h.id).0 same in
              let apart' : h.id ≢ g.id = λ q. apart (ground arith) in
              rw same λ on b read.
                subst (λ j. In (notified b) (events' j)) (sym e)
                  (elim (p.told g in_g apart' m on) [
                    | inl old ↦
                        recalls h.id (notified b)
                          (l.told g h in_g at (λ q. apart' (sym q)) m old b read)
                    | inr fresh ↦ told' (notified b) (fresh b read)
                  ])
        ];
        sent = λ g k in_g in_k apart id lo. elim (Bool-cases (g.id == h.id)) [
          | inr g_other ↦ rw g_other (l.sent g k in_g in_k apart id lo)
          | inl same ↦
              let e : g.id ≡ h.id = (nat_beq_iff g.id h.id).0 same in
              let apart' : h.id ≢ k.id = λ q. apart (ground arith) in
              rw same λ holds. elim (p.sent k in_k apart' id lo holds) [
                | inr fresh ↦ fresh
                | inl old ↦
                    let (b, m, i, form, on) = l.sent h k at in_k apart' id lo old in
                    (b, m, i, form, Moves-sent (p.moves k in_k apart') m on)
              ]
        ];
      }
