-- ===== src/Network/Steps.antt =====
-- What each step of a thread makes of the network, and what the process is told meanwhile.
use distributed_algorithms_p.Prelude.{
  ℕ, ◌≤◌, ◌<◌, ◌≡◌, refl, sym, subst, Bool, true, false, List, [], arith, nat_eq, max_seq, map, In,
  In-map, Bool-cases, inl, inr,
}
use distributed_algorithms_p.Prelude.Set.{Distinct, member}
use distributed_algorithms_p.Udp.{
  Datagram, Machine, UdpServer, machine_eq, audience, audience-receive, notify_all,
}
use distributed_algorithms_p.Udp
use distributed_algorithms_p.Manager.{ack_round, send_round}
use distributed_algorithms_p.Manager
use distributed_algorithms_p.Broadcast.{Upper}
use distributed_algorithms_p.Uniform.{Uniform, new_uniform, add, send, try_deliver}
use distributed_algorithms_p.Uniform
use distributed_algorithms_p.Uniform.Run.{Event, here, next, relinks, sends, tries}
use distributed_algorithms_p.Uniform.Sound.{IsSound}
use distributed_algorithms_p.Broadcast.Types.{MessageId, id_eq}
use distributed_algorithms_p.Parser.{Host}
use distributed_algorithms_p.Drivers.{machine_of, stop_execution}
use distributed_algorithms_p.System.{IsFrom}
use distributed_algorithms_p.Node.{receive, sends_acks, with_manager}
use distributed_algorithms_p.Node.Runs.{Leads, Step-Leads, relinks-Leads, acks-Leads}
use distributed_algorithms_p.Network.{Network, Flight, flights, becomes, begins, incoming}
use distributed_algorithms_p.Network.Queues.{
  AllCarry, send_acks_all-AllCarry, Carried, send_messages_all-Carried, send_acks_all-Carried,
}
use distributed_algorithms_p.Network.Sending.{
  IsHeldBy, send-SendsPending, try_deliver-SendsPending, SendsPending-AllCarry,
}
use distributed_algorithms_p.Network.Covered.{
  AreMembers, IsCovered, IsLater, moves-IsCovered, reached-IsSound,
}
use distributed_algorithms_p.Network.Incoming.{receive-Receipt}

-- What a host sends in one round.
In-flights :
    (P : Datagram → Type 0) (h : Host) (out : List Datagram)
    → ((d : Datagram) → In d out → P d)
    → (f : Flight) → In f (flights h out)
    → (f.from ≡ h) × P f.datagram
In-flights P h out each f i =
    let (d, at, e) = In-map (λ (d : Datagram). record { from = h; datagram = d }) f out i in
    subst (λ (g : Flight). (g.from ≡ h) × P g.datagram) (sym e) (refl, each d at)

audience-stop :
    (server : UdpServer) (addr : Machine) → audience (Udp.stop server) addr ≡ audience server addr
unfolding Udp.stop notify_all
audience-stop server addr = ground arith

module _ {U : Type 0} (upper : Upper U) where
  pub sends_acks-AllCarry :
      (hosts : List Host) (P : List ℕ → Type 0) (strong : Bool) (now : ℕ) (u : Uniform U)
      → AllCarry hosts P u.perfect_links
      → AllCarry hosts P (sends_acks upper strong now u).perfect_links
  unfolding ack_round
  sends_acks-AllCarry hosts P strong now u c = elim (Bool-cases u.on) [
    | inl on ↦ rw on (send_acks_all-AllCarry hosts P strong now u.perfect_links c)
    | inr off ↦ rw off c
  ]

  ack_round-Carried :
      (P : List ℕ → Type 0) (strong : Bool) (now : ℕ) (u : Uniform U) (d : Datagram)
      → In d (ack_round strong now u.manager).1
      → Carried P d
  unfolding ack_round
  ack_round-Carried P strong now u d i = elim (Bool-cases u.on) [
    | inl on ↦ send_acks_all-Carried P strong now u.perfect_links d (rw on at i)
    | inr off ↦ absurd (rw off at i)
  ]

  send_round-Carried :
      (hosts : List Host) (P : List ℕ → Type 0) (u : Uniform U)
      → AllCarry hosts P u.perfect_links
      → (d : Datagram) → In d (send_round u.manager)
      → Carried P d
  unfolding send_round
  send_round-Carried hosts P u c d i = elim (Bool-cases u.on) [
    | inl on ↦ send_messages_all-Carried hosts P u.perfect_links d c (rw on at i)
    | inr off ↦ absurd (rw off at i)
  ]

  stop-Leads : (P : Event → Type 0) (u : Uniform U) → Leads upper P u (Uniform.stop u)
  unfolding Uniform.stop Manager.stop
  stop-Leads P u = elim (Bool-cases u.on) [
    | inl on ↦
        subst (Leads upper P u) (ground arith) (relinks-Leads upper P u false u.perfect_links)
    | inr off ↦ subst (Leads upper P u) (ground arith) ([], here, tt)
  ]

  stop-AllCarry :
      (hosts : List Host) (u : Uniform U)
      → AllCarry hosts (IsHeldBy u) u.perfect_links
      → AllCarry hosts (IsHeldBy (Uniform.stop u)) (Uniform.stop u).perfect_links
  unfolding Uniform.stop Manager.stop
  stop-AllCarry hosts u c = elim (Bool-cases u.on) [
    | inl on ↦ rw (on, Uniform.stop, Manager.stop) c
    | inr off ↦ rw (off, Uniform.stop) c
  ]

  module _ (strong : Bool) (hosts : List Host) (n : ℕ) (state : U) (members : AreMembers n hosts)
      (few : n ≤ max_seq) (addresses : Distinct (map machine_of hosts)) where
    abbrev pub Covered : Network U → Type 0
    Covered = IsCovered upper hosts n state

    -- What a step of a process makes of it, and what the process is told meanwhile.
    abbrev pub After : {s : Network U} → Covered s → ℕ → List Event → Network U → Type 0
    After c i new t =
        (after : Covered t) × IsLater upper hosts n state i new (IsCovered.system c)
          (IsCovered.system after)

    module _ (s : Network U) (c : Covered s) (h : Host) (at : In h hosts) where
      abbrev P : Event → Type 0
      P = IsFrom n c.system h.id

      abbrev u : Uniform U
      u = (s.node h.id).manager

      pub u-IsSound : IsSound u
      u-IsSound = subst IsSound (c.same h.id) (reached-IsSound upper hosts n state c.reached h.id)

      pub starts-After :
          After c h.id [] (becomes s h.id (begins upper strong hosts (s.node h.id)) [])
      unfolding Uniform.start Manager.start Udp.start notify_all
      starts-After =
          moves-IsCovered upper hosts n state s c h _ [] members at
            ([], next here (relinks true u.perfect_links) refl, tt) (λ sound kept. c.carried h.id)
            (λ addr. refl) (λ f i. absurd i)

      pub broadcasts-After :
          (msg : List ℕ)
          → (small : u.n_messages_sent < max_seq)
          → (new : List Event) × After c h.id new
              (becomes s h.id (with_manager upper (s.node h.id) (send upper u msg)) [])
      broadcasts-After msg small = (
        _,
        moves-IsCovered upper hosts n state s c h _ [] members at
            (Step-Leads upper P (sends msg small) (tt, tt))
            (λ sound kept.
              SendsPending-AllCarry hosts u _ (send-SendsPending upper u msg) sound kept
                (c.carried h.id))
            (λ addr. refl) (λ f i. absurd i),
      )

      pub sends_messages-After :
          After c h.id [] (becomes s h.id (s.node h.id) (flights h (send_round u.manager)))
      sends_messages-After =
          moves-IsCovered upper hosts n state s c h _ (flights h (send_round u.manager)) members at
            ([], here, tt) (λ sound kept. c.carried h.id) (λ addr. refl)
            (In-flights _ h _ (send_round-Carried hosts (IsHeldBy u) u (c.carried h.id)))

      pub acks-After :
          (now : ℕ)
          → (new : List Event) × After c h.id new (
              becomes s h.id
                (with_manager upper (s.node h.id) (sends_acks upper strong now u))
                (flights h (ack_round strong now u.manager).1))
      acks-After now = (
        _,
        moves-IsCovered upper hosts n state s c h _ (flights h (ack_round strong now u.manager).1)
            members at (acks-Leads upper P strong now u)
            (λ sound kept. sends_acks-AllCarry hosts (IsHeldBy u) strong now u (c.carried h.id))
            (λ addr. refl) (In-flights _ h _ (ack_round-Carried (IsHeldBy u) strong now u)),
      )

      pub receives-After :
          (f : Flight) (now : ℕ) (on : In f s.wire)
          → let r = receive-Receipt upper hosts n state members few addresses s c h f on now in
            After c h.id
              (r.leads.0)
              (becomes s h.id (receive upper now (s.node h.id) (incoming f)) [])
      unfolding receive
      receives-After f now on =
          let r = receive-Receipt upper hosts n state members few addresses s c h f on now in
          moves-IsCovered upper hosts n state s c h _ [] members at r.leads r.carries
            (λ addr. audience-receive (s.node h.id).server _ addr) (λ f i. absurd i)

      pub delivers-After :
          (id : MessageId)
          → (pending : member id u.pending_for_delivery ≡ true)
          → (new : List Event) × After c h.id new
              (becomes s h.id (with_manager upper (s.node h.id) (try_deliver upper u id)) [])
      delivers-After id pending = (
        _,
        moves-IsCovered upper hosts n state s c h _ [] members at
            (Step-Leads upper P (tries id pending) tt)
            (λ sound kept.
              SendsPending-AllCarry hosts u _
                (try_deliver-SendsPending upper u id u-IsSound pending) sound kept (c.carried h.id))
            (λ addr. refl) (λ f i. absurd i),
      )

      pub stops-After :
          (new : List Event) × After c h.id new
            (becomes s h.id (stop_execution Uniform.stop (s.node h.id)) [])
      unfolding stop_execution
      stops-After = (
        _,
        moves-IsCovered upper hosts n state s c h _ [] members at (stop-Leads P u)
            (λ sound kept. stop-AllCarry hosts u (c.carried h.id))
            (audience-stop (s.node h.id).server) (λ f i. absurd i),
      )
