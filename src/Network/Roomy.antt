-- ===== src/Network/Roomy.antt =====
-- Every run in which no link's number wraps keeps the processes and the links joined.
use distributed_algorithms_p.Prelude.{
  ℕ, ◌≤◌, ◌<◌, ◌≡◌, refl, true, Bool, List, [], nat_eq, max_seq, map, In, inl,
}
use distributed_algorithms_p.Prelude.Set.{Distinct, member}
use distributed_algorithms_p.Udp.{machine_eq}
use distributed_algorithms_p.PerfectLink.Channel.{End}
use distributed_algorithms_p.Manager.{this}
use distributed_algorithms_p.Manager
use distributed_algorithms_p.Broadcast.{Upper}
use distributed_algorithms_p.Broadcast.Types.{MessageId, id_eq}
use distributed_algorithms_p.Uniform.{Uniform, new_uniform, add, send, try_deliver}
use distributed_algorithms_p.Uniform
use distributed_algorithms_p.Uniform.Run.{Event}
use distributed_algorithms_p.Parser.{Host}
use distributed_algorithms_p.Parser.Hosts.{ids}
use distributed_algorithms_p.Parser.Lex.{Text}
use distributed_algorithms_p.Drivers.{machine_of, stop_execution}
use distributed_algorithms_p.System.{IsFrom}
use distributed_algorithms_p.Node.{receive, sends_acks, with_manager}
use distributed_algorithms_p.Manager.{ack_round, send_round}
use distributed_algorithms_p.Network.{
  Network, Flight, becomes, incoming, begins, flights, NetworkStep, RoomyReach, roomy_here,
  roomy_next, HasRoom, starts, broadcasts, sends_messages, acks, receives, delivers, stops,
}
use distributed_algorithms_p.Network.Sending.{send-SendsPending, try_deliver-SendsPending}
use distributed_algorithms_p.Network.Covered.{AreMembers}
use distributed_algorithms_p.Network.Incoming.{receive_cases, receive-Receipt}
use distributed_algorithms_p.Network.Steps.{
  u-IsSound, starts-After, broadcasts-After, sends_messages-After, acks-After, receives-After,
  delivers-After, stops-After,
}
use distributed_algorithms_p.Network.Phases.{IsPhase}
use distributed_algorithms_p.Network.Moving.{
  start-Phase, same-Phase, sends-Phase, messages-IsPhase, acks-IsPhase,
}
use distributed_algorithms_p.Network.Arrivals.{observe-IsPhase}
use distributed_algorithms_p.Network.Joined.{
  IsJoined, connected-IsJoined, joined, found-Room, stop-same,
}

module _ {U : Type 0} (upper : Upper U) (strong : Bool) (hosts : List Host) (n : ℕ) (state : U)
    (members : AreMembers n hosts) (few : n ≤ max_seq)
    (addresses : Distinct (map machine_of hosts)) where
  abbrev Joined : Network U → Type 0
  Joined = IsJoined upper strong hosts n state members few addresses

  module _ (s : Network U) (j : Joined s) (h : Host) (at : In h hosts) where
    abbrev u : Uniform U
    u = (s.node h.id).manager

    abbrev own_ends : ℕ → End
    own_ends = j.linked.ends h.id

    -- What goes on at the links of `h`.
    abbrev Phase : List Event → Uniform U → (ℕ → End) → Type 0
    Phase new v fam = IsPhase strong hosts s j.covered.system.events j.linked h new v fam

    begin : (new : List Event) → Phase new u own_ends
    begin new = start-Phase strong hosts s j.covered.system.events j.linked h new

    starts-IsJoined : Joined (becomes s h.id (begins upper strong hosts (s.node h.id)) [])
    unfolding Uniform.start Manager.start
    starts-IsJoined =
        joined upper strong hosts n state members few addresses s j h at [] _ []
          (starts-After upper strong hosts n state members few addresses s j.covered h at) own_ends
          (same-Phase strong hosts s j.covered.system.events j.linked h [] u _ own_ends refl
            (λ i lo holds. inl holds) (begin []))
          (λ f i. absurd i)

    stops-IsJoined : Joined (becomes s h.id (stop_execution Uniform.stop (s.node h.id)) [])
    unfolding stop_execution
    stops-IsJoined =
        let (new, after) =
          stops-After upper strong hosts n state members few addresses s j.covered h at in
        let (links, held) = stop-same u in
        joined upper strong hosts n state members few addresses s j h at new _ [] after own_ends
          (same-Phase strong hosts s j.covered.system.events j.linked h new u _ own_ends links
            (λ i lo holds. inl (held i holds)) (begin new))
          (λ f i. absurd i)

    broadcasts-IsJoined :
        (msg : List ℕ)
        → u.n_messages_sent < max_seq
        → HasRoom hosts s
        → Joined (becomes s h.id (with_manager upper (s.node h.id) (send upper u msg)) [])
    broadcasts-IsJoined msg small room =
        let (new, after) =
          broadcasts-After upper strong hosts n state members few addresses s j.covered h at msg
            small in
        let (fam, p) =
          sends-Phase strong hosts s j.covered.system.events j.linked h new u _ own_ends
            (send-SendsPending upper u msg)
            (found-Room upper strong hosts n state members few addresses s j h at new room)
            (begin new) in
        joined upper strong hosts n state members few addresses s j h at new _ [] after fam p
          (λ f i. absurd i)

    delivers-IsJoined :
        (id : MessageId)
        → member id u.pending_for_delivery ≡ true
        → HasRoom hosts s
        → Joined (becomes s h.id (with_manager upper (s.node h.id) (try_deliver upper u id)) [])
    delivers-IsJoined id pending room =
        let (new, after) =
          delivers-After upper strong hosts n state members few addresses s j.covered h at id
            pending in
        let (fam, p) =
          sends-Phase strong hosts s j.covered.system.events j.linked h new u _ own_ends
            (try_deliver-SendsPending upper u id
              (u-IsSound upper strong hosts n state members few addresses s j.covered h at) pending)
            (found-Room upper strong hosts n state members few addresses s j h at new room)
            (begin new) in
        joined upper strong hosts n state members few addresses s j h at new _ [] after fam p
          (λ f i. absurd i)

    sends_messages-IsJoined :
        Joined (becomes s h.id (s.node h.id) (flights h (send_round u.manager)))
    sends_messages-IsJoined =
        let after =
          sends_messages-After upper strong hosts n state members few addresses s j.covered h at in
        let (fam, p, posted) =
          messages-IsPhase upper strong hosts addresses s j.covered.system.events j.linked h _
            (j.covered.carried h.id) [] in
        joined upper strong hosts n state members few addresses s j h at [] _ _ after fam p posted

    acks-IsJoined :
        (now : ℕ)
        → Joined (
            becomes s h.id
              (with_manager upper (s.node h.id) (sends_acks upper strong now u))
              (flights h (ack_round strong now u.manager).1))
    acks-IsJoined now =
        let (new, after) =
          acks-After upper strong hosts n state members few addresses s j.covered h at now in
        let (fam, p, posted) =
          acks-IsPhase upper strong hosts addresses s j.covered.system.events j.linked h _
            (j.covered.carried h.id) new now in
        joined upper strong hosts n state members few addresses s j h at new _ _ after fam p posted

    receives-IsJoined :
        (f : Flight) (now : ℕ)
        → In f s.wire
        → f.datagram.machine ≡ machine_of h
        → HasRoom hosts s
        → Joined (becomes s h.id (receive upper now (s.node h.id) (incoming f)) [])
    receives-IsJoined f now on to room =
        let c = j.covered in
        let r = receive-Receipt upper hosts n state members few addresses s c h f on now in
        let after =
          receives-After upper strong hosts n state members few addresses s c h at f now on in
        let (fam, p) : (fam : ℕ → End) × Phase r.leads.0
              (receive upper now (s.node h.id) (incoming f)).manager fam =
          receive_cases upper hosts n state members few addresses s c h f on
            (λ v. (fam : ℕ → End) × Phase r.leads.0 v fam) now (λ why. (own_ends, begin r.leads.0))
            (λ apart.
              observe-IsPhase upper strong hosts s c.system.events j.linked h f now _
                (IsFrom n c.system h.id) (c.carried h.id) (c.sender f on) on at to apart r.leads.0
                (r.tells apart)
                (found-Room upper strong hosts n state members few addresses s j h at r.leads.0
                  room)) in
        joined upper strong hosts n state members few addresses s j h at r.leads.0 _ [] after fam p
          (λ f i. absurd i)

  NetworkStep-IsJoined :
      {s t : Network U} → NetworkStep upper strong hosts s t → HasRoom hosts s → Joined s → Joined t
  NetworkStep-IsJoined {s} (starts h at) room j = starts-IsJoined s j h at
  NetworkStep-IsJoined {s} (broadcasts h msg at small fits) room j =
      broadcasts-IsJoined s j h at msg small room
  NetworkStep-IsJoined {s} (sends_messages h at) room j = sends_messages-IsJoined s j h at
  NetworkStep-IsJoined {s} (acks h now at) room j = acks-IsJoined s j h at now
  NetworkStep-IsJoined {s} (receives h f now at on to) room j =
      receives-IsJoined s j h at f now on to room
  NetworkStep-IsJoined {s} (delivers h id at pending) room j =
      delivers-IsJoined s j h at id pending room
  NetworkStep-IsJoined {s} (stops h at) room j = stops-IsJoined s j h at

  pub RoomyReach-IsJoined :
      (output_path : ℕ → Text)
      → Distinct (ids hosts)
      → {s : Network U} → RoomyReach upper strong hosts state output_path s
      → Joined s
  RoomyReach-IsJoined output_path names roomy_here =
      connected-IsJoined upper strong hosts n state members few addresses output_path names
  RoomyReach-IsJoined output_path names (roomy_next r room st) =
      NetworkStep-IsJoined st room (RoomyReach-IsJoined output_path names r)
