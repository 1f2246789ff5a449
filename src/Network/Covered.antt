-- ===== src/Network/Covered.antt =====
-- What holds of the processes and of the wire at any time, and how a step of one process keeps it.
use distributed_algorithms_p.Prelude.{
  ℕ, ◌≡◌, sym, subst, ◌∙◌, List, ◌==◌, nat_eq, nat_beq_iff, In, In-append, In-append_left,
  Bool-cases, inl, inr,
}
use distributed_algorithms_p.Udp.{Machine, audience}
use distributed_algorithms_p.PerfectLink.Link.{PerfectLink}
use distributed_algorithms_p.Broadcast.Types.{MessageId}
use distributed_algorithms_p.Broadcast.{Upper}
use distributed_algorithms_p.DeliveredSet.Refinement.{IsNumbered}
use distributed_algorithms_p.Uniform.{Uniform}
use distributed_algorithms_p.Uniform.Run.{Event}
use distributed_algorithms_p.Uniform.Sound.{IsSound}
use distributed_algorithms_p.Uniform.Flow.{honest-IsFlowing}
use distributed_algorithms_p.Uniform.Holds.{Holds}
use distributed_algorithms_p.Parser.{Host}
use distributed_algorithms_p.Drivers.{Driver}
use distributed_algorithms_p.Drivers.Running.{peer_links}
use distributed_algorithms_p.Drivers.Connected.{peers_at}
use distributed_algorithms_p.System.{System, IsMember, IsFrom, SystemReach}
use distributed_algorithms_p.System.Origin.{SystemReach-IsLive}
use distributed_algorithms_p.Node.Runs.{Leads}
use distributed_algorithms_p.Network.{Network, Flight, becomes}
use distributed_algorithms_p.Network.Queues.{AllCarry, Carried}
use distributed_algorithms_p.Network.Sending.{IsHeldBy}
use distributed_algorithms_p.Network.Walks.{Reach-IsAfter}

-- To prove something of each process after a step of process `i`.
pub becomes_cases :
    {U : Type 0} (P : ℕ → Driver (Uniform U) → Type 0) (s : Network U) (i : ℕ)
    (d : Driver (Uniform U)) (out : List Flight)
    → P i d
    → ((k : ℕ) → ¬ (k ≡ i) → P k (s.node k))
    → (k : ℕ) → P k ((becomes s i d out).node k)
becomes_cases P s i d out at_i others k = elim (Bool-cases (k == i)) [
  | inl same ↦ rw same (subst (λ j. P j d) (sym ((nat_beq_iff k i).0 same)) at_i)
  | inr other ↦ rw other (others k λ e. cc (other, (nat_beq_iff k i).1 e))
]

-- The hosts have ids from 1 to `n`.
abbrev pub AreMembers : ℕ → List Host → Type 0
AreMembers n hosts = (h : Host) → In h hosts → IsMember n h.id

module _ {U : Type 0} (upper : Upper U) (hosts : List Host) (n : ℕ) (state : U) where
  abbrev pub links : ℕ → List PerfectLink
  links i = peer_links i hosts

  -- The processes are those of a run of `System`; each holds what its links have yet to send, and what
  -- it has put on the wire; and each server knows its links.
  pub record IsCovered (s : Network U) : Type 0 where
    pub system : System U
    pub reached : SystemReach upper n state links system
    pub same : (i : ℕ) → system.proc i ≡ (s.node i).manager
    pub carried :
        (i : ℕ) → AllCarry hosts (IsHeldBy (s.node i).manager) (s.node i).manager.perfect_links
    pub sender : (f : Flight) → In f s.wire → In f.from hosts
    pub wired :
        (f : Flight) → In f s.wire → Carried (IsHeldBy (s.node f.from.id).manager) f.datagram
    pub heard : (i : ℕ) (addr : Machine) → audience (s.node i).server addr ≡ peers_at i addr hosts

  pub reached-IsSound :
      {t : System U} → SystemReach upper n state links t → (i : ℕ) → IsSound (t.proc i)
  reached-IsSound r i =
      let l = SystemReach-IsLive upper n state links r in
      (honest-IsFlowing upper i state (links i) (l.honest i)).0

  -- What a process holds it keeps.
  abbrev pub KeepsHeld : Uniform U → Uniform U → Type 0
  KeepsHeld u v = (id : MessageId) → IsNumbered id → Holds u id → Holds v id

  IsHeldBy-KeepsHeld :
      (u v : Uniform U)
      → KeepsHeld u v
      → (payload : List ℕ) → IsHeldBy u payload
      → IsHeldBy v payload
  IsHeldBy-KeepsHeld u v kept payload (m, e, numbered, h) = (m, e, numbered, kept m.id numbered h)

  -- The processes were told all that they were told before, and process `i` also `new`.
  pub record IsLater (i : ℕ) (new : List Event) (s t : System U) : Type 0 where
    pub recalls : (k : ℕ) (e : Event) → In e (s.events k) → In e (t.events k)
    pub told : (e : Event) → In e new → In e (t.events i)

  -- A step of the process of host `h`, which leads it to `d` and puts `out` on the wire.
  pub moves-IsCovered :
      (s : Network U) (c : IsCovered s) (h : Host) (d : Driver (Uniform U)) (out : List Flight)
      → AreMembers n hosts
      → In h hosts
      → (leads : Leads upper (IsFrom n c.system h.id) (s.node h.id).manager d.manager)
      → (IsSound d.manager
          → KeepsHeld (s.node h.id).manager d.manager
          → AllCarry hosts (IsHeldBy d.manager) d.manager.perfect_links)
      → ((addr : Machine) → audience d.server addr ≡ audience (s.node h.id).server addr)
      → ((f : Flight)
          → In f out
          → (f.from ≡ h) × Carried (IsHeldBy (s.node h.id).manager) f.datagram)
      → (after : IsCovered (becomes s h.id d out)) × IsLater h.id leads.0 c.system after.system
  moves-IsCovered s c h d out members at (events, run, from) carry told sent =
      let i = h.id in
      let after = becomes s i d out in
      let (t, a) =
        Reach-IsAfter upper n state links i c.reached (members h at) (c.same i) run from in
      let same : (k : ℕ) → t.proc k ≡ (after.node k).manager =
        becomes_cases (λ k e. t.proc k ≡ e.manager) s i d out a.at
          (λ k other. a.others k other ∙ c.same k) in
      let kept : (k : ℕ) → KeepsHeld (s.node k).manager (after.node k).manager =
        λ k id numbered holds.
          subst (λ u. Holds u id) (same k)
            (a.stays k id numbered.0 (subst (λ u. Holds u id) (sym (c.same k)) holds)) in
      let kept_i : KeepsHeld (s.node i).manager d.manager = λ id numbered holds.
        subst (λ u. Holds u id) a.at
          (a.stays i id numbered.0 (subst (λ u. Holds u id) (sym (c.same i)) holds)) in
      let sound : IsSound d.manager = subst IsSound a.at (reached-IsSound a.reached i) in
      let wired : (f : Flight)
          → In f s.wire
          → Carried (IsHeldBy (after.node f.from.id).manager) f.datagram =
        λ f on packet e.
          IsHeldBy-KeepsHeld (s.node f.from.id).manager (after.node f.from.id).manager
            (kept f.from.id) packet.payload (c.wired f on packet e) in
      (
        record {
          system = t;
          reached = a.reached;
          same = same;
          carried =
              becomes_cases (λ k e. AllCarry hosts (IsHeldBy e.manager) e.manager.perfect_links) s i
                d out (carry sound kept_i) (λ k _. c.carried k);
          sender = λ f on. elim (In-append f out s.wire on) [
            | inl new ↦ subst (λ g. In g hosts) (sym (sent f new).0) at
            | inr old ↦ c.sender f old
          ];
          wired = λ f on packet e. elim (In-append f out s.wire on) [
            | inl new ↦
                subst (λ (g : Host). IsHeldBy (after.node g.id).manager packet.payload)
                  (sym (sent f new).0)
                  (IsHeldBy-KeepsHeld (s.node i).manager (after.node i).manager (kept i)
                    packet.payload ((sent f new).1 packet e))
            | inr old ↦ wired f old packet e
          ];
          heard =
              becomes_cases
                (λ k e. (addr : Machine) → audience e.server addr ≡ peers_at k addr hosts) s i d out
                (λ addr. told addr ∙ c.heard i addr) (λ k _. c.heard k);
        },
        record {
          recalls = a.recalls;
          told = λ e on. subst (In e) (sym a.told) (In-append_left e events (c.system.events i) on);
        },
      )
