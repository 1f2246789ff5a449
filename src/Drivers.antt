-- ===== src/Drivers.antt =====
-- The two drivers of src/src/src/drivers.cpp, which put the components together and broadcast, and `main` of
-- src/src/src/main.cpp.
pub mod Connected
pub mod Running
pub mod Program
pub mod Links
pub mod Outcomes
use distributed_algorithms_p.Prelude.{
  ℕ, zero, suc, Bool, true, List, [], ◌∷◌, Option, none, some, if◌then◌else◌, ◌==◌, nat_eq,
}
use distributed_algorithms_p.Logger.{Line}
use distributed_algorithms_p.Udp.{Machine, UdpServer, attach, open_server}
use distributed_algorithms_p.Udp
use distributed_algorithms_p.PerfectLink.Link.{PerfectLink, new_link}
use distributed_algorithms_p.Manager.{Manager, BasicManager, new_manager, basic_send}
use distributed_algorithms_p.Manager
use distributed_algorithms_p.Parser.{
  Lookup, Parser, Host, Exception, Result, returns, throws, undefined, local_host, target_host,
  parse, new_parser, kperfect_links, kfifo_broadcast,
}
use distributed_algorithms_p.Parser.Lex.{Text}
use distributed_algorithms_p.Parser.Access
use distributed_algorithms_p.Uniform
use distributed_algorithms_p.UniformFifo.{UniformFifo, uniform_fifo, new_uniform_fifo}

-- The objects that a driver makes: the log's file, the server with its socket, and the manager.
pub record Driver (M : Type 0) : Type 0 where
  pub output_path : Text
  pub server : UdpServer
  pub manager : M

-- What becomes of the main thread: it waits for ever, it calls `std::exit(EXIT_FAILURE)`, an exception
-- leaves a function that is `noexcept`, or what it does is not defined.
pub data Outcome (D : Type 0) : Type 0 where
  waits : D → Outcome D
  exits : Outcome D
  terminates : Exception → Outcome D
  undefined_outcome : Outcome D

-- A call outside every `try`.
abbrev pub unguarded : {A D : Type 0} → Result A → (A → Outcome D) → Outcome D
unguarded (throws e) f = terminates e
unguarded undefined f = undefined_outcome
unguarded (returns a) f = f a

-- A call inside a `try` whose handler exits.
abbrev pub guarded : {A D : Type 0} → Option A → (A → Outcome D) → Outcome D
guarded none f = exits
guarded (some a) f = f a

abbrev pub machine_of : Host → Machine
machine_of h = record { ip = h.ip; port = h.port }

-- `f` for each round of a loop that counts to `n`.
unfoldable pub repeat : {M : Type 0} → ℕ → (M → M) → M → M
repeat zero f m = m
repeat (suc n) f m = repeat n f (f m)

module _ {M : Type 0} (add : M → PerfectLink → M) where
  -- The link to a peer attaches itself to the server, here under the peer's id, and is added to the
  -- manager. This is so for a peer whose id no earlier peer has: for a second one `Add` destroys the first
  -- link, whose address the server keeps and will use, and what happens then is not defined.
  unfoldable pub connect : ℕ → Host → Driver M → Driver M
  connect id peer d = record d {
    server = attach d.server peer.id (machine_of peer);
    manager = add d.manager (new_link id peer.id (machine_of peer));
  }

  -- The loop over the hosts.
  unfoldable pub connect_all : ℕ → List Host → Driver M → Driver M
  unfolding connect
  connect_all id [] d = d
  connect_all id (peer ∷ hosts) d =
      connect_all id hosts (if id == peer.id then d else connect id peer d)

abbrev pub new_basic_manager : BasicManager
new_basic_manager = record { manager = new_manager; lines = [] }

-- `Manager::Add`, `Start` and `Stop`, which BasicManager inherits.
unfoldable pub basic_add : BasicManager → PerfectLink → BasicManager
basic_add m pl = record m { manager = Manager.add m.manager pl }

unfoldable pub basic_start : BasicManager → BasicManager
basic_start m = record m { manager = Manager.start m.manager }

unfoldable pub basic_stop : BasicManager → BasicManager
basic_stop m = record m { manager = Manager.stop m.manager }

-- The branch of `PerfectLinks` for a process that sends, and that for the one which receives.
unfoldable pub perfect_links_sender : ℕ → ℕ → Host → Driver BasicManager → Driver BasicManager
unfolding connect basic_add basic_start repeat
perfect_links_sender id n_messages target d =
    let linked = connect basic_add id target (record d { server = Udp.start d.server }) in
    record linked {
      manager = repeat n_messages (λ m. basic_send m target.id []) (basic_start linked.manager);
    }

unfoldable pub perfect_links_receiver : ℕ → List Host → Driver BasicManager → Driver BasicManager
unfolding connect_all basic_add basic_start
perfect_links_receiver id hosts d =
    let linked = connect_all basic_add id hosts (record d { server = Udp.start d.server }) in
    record linked { manager = basic_start linked.manager }

-- The end of `FIFOBroadcast`, once the objects are made.
unfoldable pub fifo_process : ℕ → List Host → ℕ → Driver UniformFifo → Driver UniformFifo
unfolding connect_all Udp.start Uniform.start repeat
fifo_process id hosts n_messages d =
    let linked = connect_all Uniform.add id hosts d in
    record linked {
      server = Udp.start linked.server;
      manager =
          repeat n_messages (λ u. Uniform.send uniform_fifo u []) (Uniform.start linked.manager);
    }

-- Whether the operating system gives a socket that is bound to the address.
module _ (can_bind : Machine → Bool) where
  -- The `try` block that makes the objects.
  unfoldable pub make : {M : Type 0} → Parser → Host → M → Option (Driver M)
  unfolding open_server
  make p local m = elim (Access.output_path p) [
    | throws e ↦ none
    | undefined ↦ none
    | returns path ↦ elim (open_server can_bind (machine_of local)) [
      | none ↦ none
      | some server ↦ some (record { output_path = path; server = server; manager = m })
    ]
  ]

  -- `PerfectLinks`
  unfoldable pub perfect_links : Parser → Outcome (Driver BasicManager)
  unfolding make perfect_links_sender perfect_links_receiver
  perfect_links p = unguarded (Access.id p) λ id. unguarded (Access.hosts p) λ hosts.
      unguarded (Access.n_messages_to_send p) λ n_messages. unguarded (local_host p) λ local.
        unguarded (target_host p) λ target. guarded (make p local new_basic_manager) λ d. waits (
          if id == target.id
          then perfect_links_receiver id hosts d
          else perfect_links_sender id n_messages target d)

  -- `FIFOBroadcast`
  unfoldable pub fifo_broadcast : Parser → Outcome (Driver UniformFifo)
  unfolding make fifo_process
  fifo_broadcast p = unguarded (Access.id p) λ id. unguarded (Access.hosts p) λ hosts.
      unguarded (Access.n_messages_to_send p) λ n_messages. unguarded (local_host p) λ local.
        guarded (make p local (new_uniform_fifo id)) λ d. waits (fifo_process id hosts n_messages d)

-- `StopExecution`, for the manager that there is. What `Flush` writes is the log so far.
unfoldable pub stop_execution : {M : Type 0} → (M → M) → Driver M → Driver M
unfolding Udp.stop
stop_execution stop d = record d { manager = stop d.manager; server = Udp.stop d.server }

-- The process that `main` leaves, by its mode.
pub data Process : Type 0 where
  links_process : Driver BasicManager → Process
  fifo_process_of : Driver UniformFifo → Process

abbrev pub map_outcome : {A B : Type 0} → (A → B) → Outcome A → Outcome B
map_outcome f (waits a) = waits (f a)
map_outcome f exits = exits
map_outcome f (terminates e) = terminates e
map_outcome f undefined_outcome = undefined_outcome

-- `main`, with what `Parser` and the drivers are given by the operating system. `Localhost`, `Hosts` and
-- `ExecArgs` print what they read from the parser.
module _ (open_file : Text → Option (List Text)) (resolve : Text → Lookup)
    (can_bind : Machine → Bool) where
  -- The switch on `exec_mode()`.
  unfoldable pub run_mode : Parser → Outcome Process
  unfolding perfect_links fifo_broadcast
  run_mode p = elim p.exec_mode [
    | kperfect_links ↦ map_outcome links_process (perfect_links can_bind p)
    | kfifo_broadcast ↦ map_outcome fifo_process_of (fifo_broadcast can_bind p)
  ]

  unfoldable pub main : List Text → Outcome Process
  unfolding run_mode
  main argv = elim (parse open_file resolve (new_parser true) argv) [
    | throws e ↦ exits
    | undefined ↦ undefined_outcome
    | returns p ↦ unguarded (Access.id p) λ id. unguarded (Access.hosts p) λ hosts.
        unguarded (Access.hosts_path p) λ hosts_path.
          unguarded (Access.output_path p) λ output_path.
            if p.requires_config
            then (unguarded (Access.config_path p) λ config_path. run_mode p)
            else run_mode p
  ]
