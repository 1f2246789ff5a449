-- ===== src/Node/Strangers.antt =====
-- What comes from addresses of which the hosts file knows nothing.
use distributed_algorithms_p.Prelude.{
  ℕ, ◌≡◌, refl, ◌∙◌, false, List, [], map, arith, nat_eq, Bool-cases, inl, inr, is_empty,
}
use distributed_algorithms_p.Prelude.Set.{member}
use distributed_algorithms_p.Udp.{
  Datagram, Machine, machine_eq, new_server, audience, audience-receive, notify_all,
}
use distributed_algorithms_p.Udp
use distributed_algorithms_p.Broadcast.{Upper}
use distributed_algorithms_p.Uniform.{Uniform}
use distributed_algorithms_p.Parser.{Host}
use distributed_algorithms_p.UniformFifo.{UniformFifo, uniform_fifo}
use distributed_algorithms_p.Drivers.{Driver, machine_of, fifo_process}
use distributed_algorithms_p.Drivers.Connected.{audience-fifo_process, peers_at-absent}
use distributed_algorithms_p.Node.{
  observe_all, receive, NodeReach, node_here, node_next, broadcasts, receives, delivers, acks,
}

module _ {U : Type 0} (upper : Upper U) where
  NodeReach-audience :
      {d e : Driver (Uniform U)}
      → NodeReach upper d e
      → (addr : Machine) → audience e.server addr ≡ audience d.server addr
  unfolding receive
  NodeReach-audience node_here addr = refl
  NodeReach-audience (node_next r (broadcasts msg small)) addr = NodeReach-audience r addr
  NodeReach-audience (node_next {e} r (receives now datagram fair)) addr =
      audience-receive e.server datagram addr ∙ NodeReach-audience r addr
  NodeReach-audience (node_next r (delivers id pending)) addr = NodeReach-audience r addr
  NodeReach-audience (node_next r (acks strong now)) addr = NodeReach-audience r addr

  receive-unheard :
      (now : ℕ) (d : Driver (Uniform U)) (datagram : Datagram)
      → audience d.server datagram.machine ≡ []
      → (receive upper now d datagram).manager ≡ d.manager
  unfolding receive observe_all Udp.receive
  receive-unheard now d datagram h = elim (Bool-cases (is_empty datagram.bytes)) [
    | inl nothing ↦ ground arith
    | inr bytes ↦ ground arith
  ]

-- At any point of a run of the FIFO driver's process: a datagram from an address that no host of the
-- hosts file has leaves the manager, its links and the log as they are, and changes nothing of which
-- observers of the server a later datagram reaches. (The server may gain an entry, without observers.)
pub stranger-ignored :
    (id : ℕ) (hosts : List Host) (n : ℕ) (d : Driver UniformFifo)
    → d.server ≡ new_server
    → {e : Driver UniformFifo} → NodeReach uniform_fifo (fifo_process id hosts n d) e
    → (now : ℕ) (datagram : Datagram) → member datagram.machine (map machine_of hosts) ≡ false
    → (later : Datagram)
    → ((receive uniform_fifo now e datagram).manager ≡ e.manager)
      × ((Udp.receive (receive uniform_fifo now e datagram).server later).1
          ≡ (Udp.receive e.server later).1)
unfolding receive Udp.receive
stranger-ignored id hosts n d new {e} r now datagram unknown later = (
  receive-unheard uniform_fifo now e datagram (
      NodeReach-audience uniform_fifo r datagram.machine
      ∙ audience-fifo_process id hosts n d datagram.machine new
      ∙ peers_at-absent id datagram.machine hosts unknown),
  ground (arith, audience-receive e.server datagram later.machine),
)
