-- ===== src/Node.antt =====
-- A process as a whole: what a datagram that comes in sets off, from `UDPServer::Receive` of
-- src/src/src/udp_server.cpp through `PerfectLink::Notify` of src/src/src/perfect_link.cpp to
-- `Broadcast::Notify` of src/src/src/broadcast.cpp, and the steps of a process's threads.
pub mod Runs
pub mod Strangers
use distributed_algorithms_p.Prelude.{
  ℕ, ◌<◌, ◌≡◌, Bool, true, List, [], ◌∷◌, none, some, nat_eq, max_seq,
}
use distributed_algorithms_p.Prelude.Map.{find, assign}
use distributed_algorithms_p.Prelude.Set.{member}
use distributed_algorithms_p.Udp.{Datagram}
use distributed_algorithms_p.Udp
use distributed_algorithms_p.PerfectLink.Codec
use distributed_algorithms_p.PerfectLink.Codec.{message}
use distributed_algorithms_p.PerfectLink.Link.{Upcall}
use distributed_algorithms_p.PerfectLink.Link
use distributed_algorithms_p.Manager.{ack_round}
use distributed_algorithms_p.Broadcast.{Upper}
use distributed_algorithms_p.Broadcast.Types.{Message, MessageId, id_eq}
use distributed_algorithms_p.Broadcast.Codec.{parse}
use distributed_algorithms_p.DeliveredSet.Refinement.{IsNumbered}
use distributed_algorithms_p.Uniform.{Uniform, send, notify, try_deliver}
use distributed_algorithms_p.Uniform.Run.{with_links}
use distributed_algorithms_p.Drivers.{Driver}

-- The broadcast message in the datagram, if there is one, has a number that can have been given out.
abbrev pub IsFair : Datagram → Type 0
IsFair d =
    (packet : Codec.Message) (sender_id : ℕ) (m : Message)
    → Codec.parse d.bytes ≡ some (message packet)
    → parse sender_id packet.payload ≡ some m
    → IsNumbered m.id

module _ {U : Type 0} (upper : Upper U) where
  -- The calls of `manager->Notify` that a link makes.
  unfoldable pub upcalls : Uniform U → List Upcall → Uniform U
  unfolding notify
  upcalls u [] = u
  upcalls u (c ∷ calls) = upcalls (notify upper u c.sender_id c.msg) calls

  -- `obs->Notify(bytes)`, where the observer is a link of the process's manager. The link's own members
  -- and those that the manager's call of `Send` changes are different ones.
  unfoldable pub observe : ℕ → List ℕ → Uniform U → ℕ → Uniform U
  unfolding upcalls Link.notify
  observe now bytes u obs = elim (find obs u.perfect_links) [
    | none ↦ u
    | some pl ↦
        let (pl', calls) = Link.notify pl bytes now in
        upcalls (with_links u.on (assign obs pl' u.perfect_links) u) calls
  ]

  -- The loop of `NotifyAll`.
  unfoldable pub observe_all : ℕ → List ℕ → Uniform U → List ℕ → Uniform U
  unfolding observe
  observe_all now bytes u [] = u
  observe_all now bytes u (obs ∷ observers) =
      observe_all now bytes (observe now bytes u obs) observers

  -- One round of `Receive`.
  unfoldable pub receive : ℕ → Driver (Uniform U) → Datagram → Driver (Uniform U)
  unfolding Udp.receive observe_all
  receive now d datagram =
      let (server, observers) = Udp.receive d.server datagram in
      record d { server = server; manager = observe_all now datagram.bytes d.manager observers }

  abbrev pub with_manager : Driver (Uniform U) → Uniform U → Driver (Uniform U)
  with_manager d u = record d { manager = u }

  -- One round of `Manager::SendAcks`.
  abbrev pub sends_acks : Bool → ℕ → Uniform U → Uniform U
  sends_acks strong now u = record u {
    broadcast = record (u.broadcast) { manager = (ack_round strong now u.manager).0 };
  }

  -- The steps of the threads. `SendMessages` changes nothing.
  pub data NodeStep (d : Driver (Uniform U)) : Driver (Uniform U) → Type 0 where
    broadcasts :
        (msg : List ℕ)
        → d.manager.n_messages_sent < max_seq
        → NodeStep d (with_manager d (send upper d.manager msg))
    receives :
        (now : ℕ) (datagram : Datagram) → IsFair datagram → NodeStep d (receive now d datagram)
    delivers :
        (id : MessageId)
        → member id d.manager.pending_for_delivery ≡ true
        → NodeStep d (with_manager d (try_deliver upper d.manager id))
    acks : (strong : Bool) (now : ℕ) → NodeStep d (with_manager d (sends_acks strong now d.manager))

  pub data NodeReach (d : Driver (Uniform U)) : Driver (Uniform U) → Type 0 where
    node_here : NodeReach d d
    node_next : {e f : Driver (Uniform U)} → NodeReach d e → NodeStep e f → NodeReach d f
