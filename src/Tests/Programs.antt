-- ===== src/Tests/Programs.antt =====
-- The whole program on a command line, a hosts file and a configuration file.
use distributed_algorithms_p.Prelude.{
  ℕ, ◌≡◌, refl, true, Bool, List, [], ◌∷◌, inl, inr, Option, some, arith, nat_eq, ◌==◌,
  if◌then◌else◌,
}
use distributed_algorithms_p.Prelude.Set.{member, insert}
use distributed_algorithms_p.Prelude.Map.{find, assign, get_or, emplace}
use distributed_algorithms_p.Udp.{Machine, Datagram, machine_eq, new_server, audience, open_server}
use distributed_algorithms_p.PerfectLink.Link.{new_link, subscribe}
use distributed_algorithms_p.Manager.{this, BasicManager}
use distributed_algorithms_p.Fifo.{new_fifo}
use distributed_algorithms_p.Fifo.Order.{Checker, check_process, checker}
use distributed_algorithms_p.Parser.Lex.{
  Text, text_eq, left_trim, right_trim, trim, value, span, read_unsigned, read_word,
  is_positive_number, stoi,
}
use distributed_algorithms_p.Parser.{
  Lookup, looked_up, no_inet, Host, Parser, returns, outside_hosts, new_parser, id_flag, hosts_flag,
  output_flag, mode_flag, fifo_word, parse_id, parse_host_path, parse_output_path,
  parse_config_path, parse_mode, parse_paths, parse_internal, read_host, read_hosts, insert_host,
  sort_hosts, accept_hosts, parse_hosts_file, parse_config_file, parse, host_of, kfifo_broadcast,
}
use distributed_algorithms_p.Parser.Access
use distributed_algorithms_p.Udp
use distributed_algorithms_p.Manager
use distributed_algorithms_p.Uniform
use distributed_algorithms_p.Broadcast
use distributed_algorithms_p.DeliveredSet
use distributed_algorithms_p.PerfectLink.Link
use distributed_algorithms_p.Drivers
use distributed_algorithms_p.Node
use distributed_algorithms_p.Uniform.Window.{own_id}
use distributed_algorithms_p.Broadcast.Types.{id_eq}
use distributed_algorithms_p.Broadcast.Codec.{parse as parse_message}
use distributed_algorithms_p.PerfectLink.Codec
use distributed_algorithms_p.PerfectLink.Codec.{serialize}
use distributed_algorithms_p.Node.{IsFair, receive, NodeReach, node_here, node_next, receives}
use distributed_algorithms_p.Node.Strangers.{stranger-ignored}
use distributed_algorithms_p.UniformFifo.{UniformFifo, uniform_fifo, new_uniform_fifo}
use distributed_algorithms_p.Drivers.{
  connect_all, Driver, machine_of, Outcome, Process, waits, terminates, fifo_process,
  fifo_process_of, fifo_broadcast, make, run_mode, main, new_basic_manager, perfect_links_sender,
  basic_stop, stop_execution,
}
use distributed_algorithms_p.Drivers.Running.{IsFifoRun, fifo_process-IsFifoRun}
use distributed_algorithms_p.Drivers.Connected.{peer-IsConnected, connect_all-n_processes}
use distributed_algorithms_p.Drivers.Program.{main-validates}
use distributed_algorithms_p.Drivers.Links.{IsSending, perfect_links_sender-IsSending}

-- "process --id 1 --hosts h --output o c --mode fifo", and the same for an id without a host.
abbrev command_of : ℕ → Text → List Text
command_of digit mode =
    []
    ∷ id_flag
    ∷ (digit ∷ [])
    ∷ hosts_flag
    ∷ (104 ∷ [])
    ∷ output_flag
    ∷ (111 ∷ [])
    ∷ (99 ∷ [])
    ∷ mode_flag
    ∷ mode
    ∷ []

-- The file "h" with the hosts "1 a 70" and "2 b 80", and "c" with the line "2".
abbrev files : Text → Option (List Text)
files path =
    if path == (104 ∷ [])
    then some ((49 ∷ 32 ∷ 97 ∷ 32 ∷ 55 ∷ 48 ∷ []) ∷ (50 ∷ 32 ∷ 98 ∷ 32 ∷ 56 ∷ 48 ∷ []) ∷ [])
    else some ((50 ∷ []) ∷ [])

abbrev names : Text → Lookup
names [] = no_inet
names (c ∷ s) = looked_up c

abbrev any : Machine → Bool
any m = true

abbrev two_hosts : List Host
two_hosts =
    record { ip = 97; port = 17_920; id = 1 } ∷ record { ip = 98; port = 20_480; id = 2 } ∷ []

abbrev configured : Parser
configured = record {
  requires_config = true;
  parsed = true;
  config_path = 99 ∷ [];
  hosts_path = 104 ∷ [];
  output_path = 111 ∷ [];
  hosts = two_hosts;
  id = 1;
  receiver_id = 0;
  n_messages_to_send = 2;
  exec_mode = kfifo_broadcast;
}

parse-configured :
    parse files names (new_parser true) (command_of 49 fifo_word) ≡ returns configured
unfolding parse parse_internal parse_paths parse_id parse_host_path parse_output_path
    parse_config_path parse_mode stoi value is_positive_number parse_hosts_file read_hosts read_host
    read_unsigned read_word trim left_trim right_trim span accept_hosts sort_hosts insert_host
    parse_config_file
parse-configured = refl

abbrev made : Driver UniformFifo
made = record { output_path = 111 ∷ []; server = new_server; manager = new_uniform_fifo 1 }

main-configured :
    main files names any (command_of 49 fifo_word)
    ≡ waits (fifo_process_of (fifo_process 1 two_hosts 2 made))
unfolding parse parse_internal parse_paths parse_id parse_host_path parse_output_path
    parse_config_path parse_mode stoi value is_positive_number parse_hosts_file read_hosts read_host
    read_unsigned read_word trim left_trim right_trim span accept_hosts sort_hosts insert_host
    parse_config_file main run_mode fifo_broadcast make open_server host_of Access.check_parsed
main-configured = refl

abbrev driven : Driver UniformFifo
driven = fifo_process 1 two_hosts 2 made

-- Message 1 of process 2 comes in over the link, with the link's number 1.
abbrev datagram_of : ℕ → Datagram
datagram_of ip = record {
  machine = record { ip = ip; port = 20_480 };
  bytes = serialize (record { seq = 1; payload = 2 ∷ 0 ∷ 0 ∷ 0 ∷ 1 ∷ 0 ∷ 0 ∷ 0 ∷ [] });
}

datagram_of-IsFair : (ip : ℕ) → IsFair (datagram_of ip)
unfolding Codec.parse Codec.serialize parse_message
datagram_of-IsFair ip packet sender_id m e f = ground (arith, e, f)

node_run : NodeReach uniform_fifo driven (receive uniform_fifo 5 driven (datagram_of 98))
node_run = node_next node_here (receives 5 (datagram_of 98) (datagram_of-IsFair 98))

-- Process 1 then holds the message.
received :
    member
      (own_id 2 1)
      (receive uniform_fifo 5 driven (datagram_of 98)).manager.pending_for_delivery
    ≡ true
unfolding Uniform.add Uniform.notify Uniform.notify_internal parse_message Uniform.send
    Uniform.send_internal Uniform.start Broadcast.log_send Broadcast.best_effort_send
    Broadcast.best_effort_notify Broadcast.best_effort_deliver Broadcast.log_deliver insert member
    DeliveredSet.contains find assign get_or Manager.add Manager.start subscribe new_link
    Broadcast.send_all Link.send emplace Broadcast.Codec.serialize fifo_process Drivers.connect_all
    Drivers.connect Drivers.repeat Udp.attach Udp.receive Udp.notify_all Udp.start receive
    Node.observe_all Node.observe Node.upcalls Link.notify Link.on_packet Link.record_ack
    Link.is_unseen Link.record_delivered Codec.parse Codec.serialize
received = refl

main-validates_example :
    (c : Checker) × (check_process checker
        (receive uniform_fifo 5 driven (datagram_of 98)).manager.upper.lines
      ≡ some c)
    × (c.i ≡ (receive uniform_fifo 5 driven (datagram_of 98)).manager.n_messages_sent)
main-validates_example =
    main-validates files names any (command_of 49 fifo_word) configured driven parse-configured
      (omega arith) main-configured node_run

stranger-ignored_example :
    ((receive uniform_fifo 6
        (receive uniform_fifo 5 driven (datagram_of 98))
        (datagram_of 11)).manager
      ≡ (receive uniform_fifo 5 driven (datagram_of 98)).manager)
    × ((Udp.receive
          (receive uniform_fifo 6
            (receive uniform_fifo 5 driven (datagram_of 98))
            (datagram_of 11)).server
          (datagram_of 98)).1
        ≡ (Udp.receive (receive uniform_fifo 5 driven (datagram_of 98)).server (datagram_of 98)).1)
unfolding member
stranger-ignored_example =
    stranger-ignored 1 two_hosts 2 made refl node_run 6 (datagram_of 11) refl (datagram_of 98)

fifo_process-IsFifoRun_example : IsFifoRun 1 two_hosts 2 driven.manager
fifo_process-IsFifoRun_example = fifo_process-IsFifoRun 1 two_hosts 2 made refl (omega arith)

abbrev second : Host
second = record { ip = 98; port = 20_480; id = 2 }

peer-IsConnected_example :
    (audience driven.server (machine_of second) ≡ 2 ∷ [])
    × (find 2 (connect_all Uniform.add 1 two_hosts made).manager.perfect_links
        ≡ some (subscribe (new_link 1 2 (machine_of second)) this))
unfolding member
peer-IsConnected_example =
    peer-IsConnected 1 two_hosts 2 made refl (refl, (refl, tt)) (refl, (refl, tt)) second
      (inr (inl refl)) (omega arith)

abbrev made_two : Driver UniformFifo
made_two = record { output_path = []; server = new_server; manager = new_uniform_fifo 2 }

abbrev unread : Parser
unread = record (new_parser true) { hosts_path = 104 ∷ [] }

abbrev read : Parser
read = record unread { hosts = two_hosts }

read-two_hosts : parse_hosts_file files names unread ≡ returns read
unfolding parse_hosts_file read_hosts read_host read_unsigned read_word trim left_trim right_trim
    span value accept_hosts sort_hosts insert_host
read-two_hosts = refl

connect_all-n_processes_example :
    (connect_all Uniform.add 2 two_hosts made_two).manager.n_processes ≡ 2
unfolding member
connect_all-n_processes_example =
    connect_all-n_processes files names new_fifo unread read read-two_hosts (refl, (refl, tt))
      (omega arith) 2 (omega arith) (omega arith) made_two refl

-- An id that no host has.
main-outside : main files names any (command_of 51 fifo_word) ≡ terminates outside_hosts
unfolding parse parse_internal parse_paths parse_id parse_host_path parse_output_path
    parse_config_path parse_mode stoi value is_positive_number parse_hosts_file read_hosts read_host
    read_unsigned read_word trim left_trim right_trim span accept_hosts sort_hosts insert_host
    parse_config_file main run_mode fifo_broadcast make open_server host_of Access.check_parsed
main-outside = refl

abbrev outcome : Outcome Process
outcome = main files names any (command_of 51 fifo_word)

perfect_links_sender-IsSending_example :
    IsSending 2 3
      (perfect_links_sender 1 3 second
        (record { output_path = []; server = new_server; manager = new_basic_manager })).manager
perfect_links_sender-IsSending_example =
    perfect_links_sender-IsSending 1 3 second
      (record { output_path = []; server = new_server; manager = new_basic_manager }) refl
      (omega arith)

abbrev sender : Driver BasicManager
sender =
    perfect_links_sender 1 3 second
      (record { output_path = []; server = new_server; manager = new_basic_manager })
