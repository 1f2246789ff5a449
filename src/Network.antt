-- ===== src/Network.antt =====
-- The whole program on several hosts: each host of the hosts file runs the process of
-- src/src/src/drivers.cpp, and what the links of one hand to their sockets may come in at the server of
-- another. The network loses, repeats, delays and reorders datagrams; it makes none up and changes none.
mod Queues
mod Sending
mod Fitting
pub mod Walks
pub mod Covered
pub mod Incoming
pub mod Steps
pub mod Refined
mod Ends
mod Phases
mod Moving
mod Arrivals
pub mod Joined
mod Roomy
pub mod Delivers
pub mod Logs
pub mod Fits
use distributed_algorithms_p.Prelude.{
  ℕ, ◌+◌, ◌≤◌, ◌<◌, ◌≡◌, Bool, true, List, [], ◌∷◌, ◌++◌, map, ◌==◌, nat_eq, if◌then◌else◌, max_seq,
  length, In, All,
}
use distributed_algorithms_p.Prelude.Set.{member}
use distributed_algorithms_p.Udp.{Datagram, new_server}
use distributed_algorithms_p.Udp
use distributed_algorithms_p.Manager.{ack_round, send_round}
use distributed_algorithms_p.Broadcast.{Upper}
use distributed_algorithms_p.Broadcast.Types.{MessageId, id_eq}
use distributed_algorithms_p.Broadcast.Codec.{buffer_size, packet_prefix_size}
use distributed_algorithms_p.Uniform.{Uniform, new_uniform, send, try_deliver}
use distributed_algorithms_p.Uniform
use distributed_algorithms_p.Parser.{Host}
use distributed_algorithms_p.Parser.Lex.{Text}
use distributed_algorithms_p.Drivers.{Driver, machine_of, connect_all, stop_execution}
use distributed_algorithms_p.Node.{receive, with_manager, sends_acks}

-- A datagram that a host has sent, with the address that it goes to.
pub record Flight : Type 0 where
  pub from : Host
  pub datagram : Datagram

-- The processes by id, and all that was ever sent.
pub record Network (U : Type 0) : Type 0 where
  pub node : ℕ → Driver (Uniform U)
  pub wire : List Flight

abbrev pub becomes : {U : Type 0} → Network U → ℕ → Driver (Uniform U) → List Flight → Network U
becomes s i d sent = record { node = λ k. if k == i then d else s.node k; wire = sent ++ s.wire }

abbrev pub flights : Host → List Datagram → List Flight
flights h = map (λ d. record { from = h; datagram = d })

-- What the receiver's socket gives: the bytes, and the address of the sender's socket.
abbrev pub incoming : Flight → Datagram
incoming f = record { machine = machine_of f.from; bytes = f.datagram.bytes }

-- Every link of every process has numbers left.
abbrev pub HasRoom : {U : Type 0} → List Host → Network U → Type 0
HasRoom hosts s =
    All (λ h. All (λ l. l.1.n_messages_sent < max_seq) (s.node h.id).manager.perfect_links) hosts

module _ {U : Type 0} (upper : Upper U) (strong : Bool) (hosts : List Host) where
  abbrev pub begins : Driver (Uniform U) → Driver (Uniform U)
  begins d = record d { server = Udp.start d.server; manager = Uniform.start d.manager }

  -- One step of one thread of the process of host `h`.
  pub data NetworkStep (s : Network U) : Network U → Type 0 where
    starts : (h : Host) → In h hosts → NetworkStep s (becomes s h.id (begins (s.node h.id)) [])
    broadcasts :
        (h : Host) (msg : List ℕ)
        → In h hosts
        → (s.node h.id).manager.n_messages_sent < max_seq
        → packet_prefix_size + length msg ≤ buffer_size
        → NetworkStep s (
            becomes s h.id
              (with_manager upper (s.node h.id) (send upper (s.node h.id).manager msg))
              [])
    sends_messages :
        (h : Host)
        → In h hosts
        → NetworkStep s
            (becomes s h.id (s.node h.id) (flights h (send_round (s.node h.id).manager.manager)))
    acks :
        (h : Host) (now : ℕ)
        → In h hosts
        → NetworkStep s (
            becomes s h.id
              (with_manager upper (s.node h.id) (sends_acks upper strong now (s.node h.id).manager))
              (flights h (ack_round strong now (s.node h.id).manager.manager).1))
    receives :
        (h : Host) (f : Flight) (now : ℕ)
        → In h hosts
        → In f s.wire
        → f.datagram.machine ≡ machine_of h
        → NetworkStep s (becomes s h.id (receive upper now (s.node h.id) (incoming f)) [])
    delivers :
        (h : Host) (id : MessageId)
        → In h hosts
        → member id (s.node h.id).manager.pending_for_delivery ≡ true
        → NetworkStep s (
            becomes s h.id
              (with_manager upper (s.node h.id) (try_deliver upper (s.node h.id).manager id))
              [])
    stops :
        (h : Host)
        → In h hosts
        → NetworkStep s (becomes s h.id (stop_execution Uniform.stop (s.node h.id)) [])

  -- The processes once their drivers have made the objects and connected them.
  module _ (state : U) (output_path : ℕ → Text) where
    abbrev pub connected : ℕ → Driver (Uniform U)
    connected i =
        connect_all Uniform.add i hosts (record {
          output_path = output_path i;
          server = new_server;
          manager = new_uniform i state;
        })

    pub data NetworkReach : Network U → Type 0 where
      network_here : NetworkReach (record { node = connected; wire = [] })
      network_next : {s t : Network U} → NetworkReach s → NetworkStep s t → NetworkReach t

    -- The runs in which no link gives a number out twice.
    pub data RoomyReach : Network U → Type 0 where
      roomy_here : RoomyReach (record { node = connected; wire = [] })
      roomy_next :
          {s t : Network U} → RoomyReach s → HasRoom hosts s → NetworkStep s t → RoomyReach t
