-- ===== src/Tests/Networks.antt =====
-- A network of three processes, of which one never starts: a message is broadcast, relayed, acked and
-- delivered by both others.
use distributed_algorithms_p.Prelude.{
  ℕ, ◌≡◌, refl, sym, ap, subst, inl, inr, ◌⊎◌, true, List, [], ◌∷◌, some, arith, nat_eq, In, All,
  length, ◌≤◌,
}
use distributed_algorithms_p.Prelude.Set.{insert, member, erase}
use distributed_algorithms_p.Prelude.Map.{emplace, find, assign, remove, get_or}
use distributed_algorithms_p.Prelude.SortedSet
use distributed_algorithms_p.Prelude.Runs.{erase_all}
use distributed_algorithms_p.Udp.{Datagram, attach, notify_all}
use distributed_algorithms_p.Udp
use distributed_algorithms_p.PerfectLink.Codec
use distributed_algorithms_p.PerfectLink.Codec.{ack_packet}
use distributed_algorithms_p.PerfectLink.Link.{PerfectLink, new_link, subscribe}
use distributed_algorithms_p.PerfectLink.Link
use distributed_algorithms_p.Manager.{ack_round, send_acks_all, send_round, send_messages_all}
use distributed_algorithms_p.Manager
use distributed_algorithms_p.Broadcast.Types.{MessageId, id_eq}
use distributed_algorithms_p.Broadcast.Codec.{buffer_size, serialize, parse}
use distributed_algorithms_p.Broadcast.{
  send_all, best_effort_send, log_send, log_deliver, best_effort_deliver, best_effort_notify,
}
use distributed_algorithms_p.DeliveredSet
use distributed_algorithms_p.Logger.{broadcast as broadcast_line, deliver as deliver_line}
use distributed_algorithms_p.Fifo
use distributed_algorithms_p.Fifo.{new_fifo}
use distributed_algorithms_p.Uniform.{
  Uniform, add, send_internal, send_next, finish_own, send, notify_internal, notify,
  deliver as deliver_one, try_deliver, majority_seen,
}
use distributed_algorithms_p.Uniform
use distributed_algorithms_p.Parser.{Host, new_parser}
use distributed_algorithms_p.Parser.Lex.{Text}
use distributed_algorithms_p.Drivers.{machine_of, connect, connect_all}
use distributed_algorithms_p.UniformFifo.{uniform_fifo, traced-IsOver}
use distributed_algorithms_p.System.Configured.{configured}
use distributed_algorithms_p.System.{System, SystemReach}
use distributed_algorithms_p.Node.Runs.{some-inj}
use distributed_algorithms_p.Node.{observe, observe_all, upcalls, receive, with_manager, sends_acks}
use distributed_algorithms_p.Network.{
  Network, Flight, becomes, begins, flights, incoming, RoomyReach, roomy_here, roomy_next, HasRoom,
  connected, starts, broadcasts, sends_messages, acks, receives, delivers,
}
use distributed_algorithms_p.Network.Refined.{network-refines}
use distributed_algorithms_p.Network.Fits.{Fits, network-fits}
use distributed_algorithms_p.Network.Logs.{
  noted_log, network-logs, network-logs_arrive, RoomyReach-NetworkReach,
}
use distributed_algorithms_p.Network.Delivers.{IsCalm, HasDelivered, network-delivers}
use distributed_algorithms_p.Tests.Systems.{
  State, layer, hosts_file, names, three, parse-three, first, pair_cases,
}

abbrev host_1 : Host
host_1 = record { ip = 97; port = 17_920; id = 1 }

abbrev host_2 : Host
host_2 = record { ip = 98; port = 20_480; id = 2 }

abbrev no_path : ℕ → Text
no_path i = []

abbrev s0 : Network State
s0 = record { node = connected layer true three.hosts (new_fifo, []) no_path; wire = [] }

-- Processes 1 and 2 start, and process 1 broadcasts.
abbrev s1 : Network State
s1 = becomes s0 1 (begins layer true three.hosts (s0.node 1)) []

abbrev s2 : Network State
s2 = becomes s1 2 (begins layer true three.hosts (s1.node 2)) []

abbrev s3 : Network State
s3 = becomes s2 1 (with_manager layer (s2.node 1) (send layer (s2.node 1).manager [])) []

-- Its message goes out and comes in at process 2, which relays it and acks it.
abbrev s4 : Network State
s4 = becomes s3 1 (s3.node 1) (flights host_1 (send_round (s3.node 1).manager.manager))

abbrev content : List ℕ
content = 1 ∷ 1 ∷ 0 ∷ 0 ∷ 0 ∷ 1 ∷ 0 ∷ 0 ∷ 0 ∷ 1 ∷ 0 ∷ 0 ∷ 0 ∷ []

abbrev to_2 : Flight
to_2 = record { from = host_1; datagram = record { machine = machine_of host_2; bytes = content } }

abbrev s5 : Network State
s5 = becomes s4 2 (receive layer 5 (s4.node 2) (incoming to_2)) []

abbrev s6 : Network State
s6 = becomes s5 2 (s5.node 2) (flights host_2 (send_round (s5.node 2).manager.manager))

abbrev s7 : Network State
s7 =
    becomes s6 2 (with_manager layer (s6.node 2) (sends_acks layer true 6 (s6.node 2).manager))
      (flights host_2 (ack_round true 6 (s6.node 2).manager.manager).1)

-- The relayed copy and the ack come in at process 1, which acks the copy.
abbrev to_1 : Flight
to_1 = record { from = host_2; datagram = record { machine = machine_of host_1; bytes = content } }

abbrev s8 : Network State
s8 = becomes s7 1 (receive layer 6 (s7.node 1) (incoming to_1)) []

abbrev ack_content : List ℕ
ack_content = 0 ∷ 1 ∷ 0 ∷ 0 ∷ 0 ∷ []

abbrev ack_to_1 : Flight
ack_to_1 = record {
  from = host_2;
  datagram = record { machine = machine_of host_1; bytes = ack_content };
}

abbrev s9 : Network State
s9 = becomes s8 1 (receive layer 6 (s8.node 1) (incoming ack_to_1)) []

abbrev s10 : Network State
s10 =
    becomes s9 1 (with_manager layer (s9.node 1) (sends_acks layer true 7 (s9.node 1).manager))
      (flights host_1 (ack_round true 7 (s9.node 1).manager.manager).1)

abbrev ack_to_2 : Flight
ack_to_2 = record {
  from = host_1;
  datagram = record { machine = machine_of host_2; bytes = ack_content };
}

abbrev s11 : Network State
s11 = becomes s10 2 (receive layer 7 (s10.node 2) (incoming ack_to_2)) []

-- Both deliver.
abbrev s12 : Network State
s12 =
    becomes s11 1 (with_manager layer (s11.node 1) (try_deliver layer (s11.node 1).manager first))
      []

abbrev s13 : Network State
s13 =
    becomes s12 2 (with_manager layer (s12.node 2) (try_deliver layer (s12.node 2).manager first))
      []

-- What the states of the run have in them.
record Facts : Type 0 where
  sent_is_on_the_wire : In to_2 s4.wire
  relayed_is_on_the_wire : In to_1 s7.wire × In ack_to_1 s8.wire
  acked_is_on_the_wire : In ack_to_2 s10.wire
  pending :
      (member first (s11.node 1).manager.pending_for_delivery ≡ true)
      × (member first (s12.node 2).manager.pending_for_delivery ≡ true)
  one_sent : (s13.node 1).manager.n_messages_sent ≡ 2
  final :
      ((s13.node 1).manager.pending_for_delivery ≡ [])
      × ((s13.node 2).manager.pending_for_delivery ≡ [])
  logged : In (deliver_line 1 1) (noted_log s13 2) × In (broadcast_line 1) (noted_log s13 1)
  nothing_sent : (s2.node 1).manager.n_messages_sent ≡ 1

facts : Facts
unfolding connect_all connect add Manager.add subscribe new_link attach get_or notify send
    send_internal log_send best_effort_send best_effort_notify best_effort_deliver log_deliver
    insert member erase DeliveredSet.contains find assign emplace remove send_all Link.send
    Codec.serialize serialize parse Codec.parse try_deliver deliver_one finish_own send_next
    DeliveredSet.insert DeliveredSet.peer_insert DeliveredSet.compact erase_all SortedSet.insert
    SortedSet.erase SortedSet.contains Fifo.deliver_internal Fifo.deliver_with Fifo.deliver_peer
    Fifo.release Fifo.round Udp.start Uniform.start Manager.start receive Udp.receive notify_all
    observe observe_all upcalls Link.notify Link.on_packet Link.record_ack Link.is_unseen
    Link.record_delivered Link.receive_ack send_round send_messages_all Link.send_messages ack_round
    send_acks_all Link.send_acks Link.clean_acks Link.expired Link.erase_acks ack_packet
    notify_internal
facts = record {
  sent_is_on_the_wire = inl refl;
  relayed_is_on_the_wire = (inr (inl refl), inl refl);
  acked_is_on_the_wire = inl refl;
  pending = (refl, refl);
  one_sent = refl;
  final = (refl, refl);
  logged = (inl refl, inl refl);
  nothing_sent = refl;
}

room :
    HasRoom three.hosts s2
    × HasRoom three.hosts s3
    × HasRoom three.hosts s4
    × HasRoom three.hosts s7
    × HasRoom three.hosts s8
    × HasRoom three.hosts s10
    × HasRoom three.hosts s11
    × HasRoom three.hosts s12
unfolding connect_all connect add Manager.add subscribe new_link attach get_or notify send
    send_internal log_send best_effort_send best_effort_notify best_effort_deliver log_deliver
    insert member erase DeliveredSet.contains find assign emplace remove send_all Link.send
    Codec.serialize serialize parse Codec.parse try_deliver deliver_one finish_own send_next
    DeliveredSet.insert DeliveredSet.peer_insert DeliveredSet.compact erase_all SortedSet.insert
    SortedSet.erase SortedSet.contains Fifo.deliver_internal Fifo.deliver_with Fifo.deliver_peer
    Fifo.release Fifo.round Udp.start Uniform.start Manager.start receive Udp.receive notify_all
    observe observe_all upcalls Link.notify Link.on_packet Link.record_ack Link.is_unseen
    Link.record_delivered Link.receive_ack send_round send_messages_all Link.send_messages ack_round
    send_acks_all Link.send_acks Link.clean_acks Link.expired Link.erase_acks ack_packet
    notify_internal
room = omega arith

rooms :
    HasRoom three.hosts s0
    × HasRoom three.hosts s1
    × HasRoom three.hosts s5
    × HasRoom three.hosts s6
    × HasRoom three.hosts s9
unfolding connect_all connect add Manager.add subscribe new_link attach get_or notify send
    send_internal log_send best_effort_send best_effort_notify best_effort_deliver log_deliver
    insert member erase DeliveredSet.contains find assign emplace remove send_all Link.send
    Codec.serialize serialize parse Codec.parse try_deliver deliver_one finish_own send_next
    DeliveredSet.insert DeliveredSet.peer_insert DeliveredSet.compact erase_all SortedSet.insert
    SortedSet.erase SortedSet.contains Fifo.deliver_internal Fifo.deliver_with Fifo.deliver_peer
    Fifo.release Fifo.round Udp.start Uniform.start Manager.start receive Udp.receive notify_all
    observe observe_all upcalls Link.notify Link.on_packet Link.record_ack Link.is_unseen
    Link.record_delivered Link.receive_ack send_round send_messages_all Link.send_messages ack_round
    send_acks_all Link.send_acks Link.clean_acks Link.expired Link.erase_acks ack_packet
    notify_internal
rooms = omega arith

in_1 : In host_1 three.hosts
in_1 = inl refl

in_2 : In host_2 three.hosts
in_2 = inr (inl refl)

-- Up to the relay.
first_half : RoomyReach layer true three.hosts (new_fifo, []) no_path s6
first_half =
    roomy_next
      (roomy_next
        (roomy_next
          (roomy_next
            (roomy_next (roomy_next roomy_here (rooms.0) (starts host_1 in_1)) (rooms.1)
              (starts host_2 in_2))
            (room.0) (broadcasts host_1 [] in_1 (omega (arith, facts.nothing_sent)) (omega arith)))
          (room.1) (sends_messages host_1 in_1))
        (room.2) (receives host_2 to_2 5 in_2 facts.sent_is_on_the_wire refl))
      (rooms.2) (sends_messages host_2 in_2)

run : RoomyReach layer true three.hosts (new_fifo, []) no_path s13
run =
    roomy_next
      (roomy_next
        (roomy_next
          (roomy_next
            (roomy_next
              (roomy_next (roomy_next first_half (rooms.3) (acks host_2 6 in_2)) (room.3)
                (receives host_1 to_1 6 in_1 (facts.relayed_is_on_the_wire.0) refl))
              (room.4) (receives host_1 ack_to_1 6 in_1 (facts.relayed_is_on_the_wire.1) refl))
            (rooms.4) (acks host_1 7 in_1))
          (room.5) (receives host_2 ack_to_2 7 in_2 facts.acked_is_on_the_wire refl))
        (room.6) (delivers host_1 first in_1 (facts.pending.0)))
      (room.7) (delivers host_2 first in_2 (facts.pending.1))

emptied :
    ((pl : PerfectLink)
      → find 2 (s13.node 1).manager.perfect_links ≡ some pl
      → pl.messages_to_send ≡ [])
    × ((pl : PerfectLink)
        → find 1 (s13.node 2).manager.perfect_links ≡ some pl
        → pl.messages_to_send ≡ [])
unfolding connect_all connect add Manager.add subscribe new_link attach get_or notify send
    send_internal log_send best_effort_send best_effort_notify best_effort_deliver log_deliver
    insert member erase DeliveredSet.contains find assign emplace remove send_all Link.send
    Codec.serialize serialize parse Codec.parse try_deliver deliver_one finish_own send_next
    DeliveredSet.insert DeliveredSet.peer_insert DeliveredSet.compact erase_all SortedSet.insert
    SortedSet.erase SortedSet.contains Fifo.deliver_internal Fifo.deliver_with Fifo.deliver_peer
    Fifo.release Fifo.round Udp.start Uniform.start Manager.start receive Udp.receive notify_all
    observe observe_all upcalls Link.notify Link.on_packet Link.record_ack Link.is_unseen
    Link.record_delivered Link.receive_ack send_round send_messages_all Link.send_messages ack_round
    send_acks_all Link.send_acks Link.clean_acks Link.expired Link.erase_acks ack_packet
    notify_internal
emptied = (
  λ pl found. ap (λ (q : PerfectLink). q.messages_to_send) (some-inj pl _ (sym found)),
  λ pl found. ap (λ (q : PerfectLink). q.messages_to_send) (some-inj pl _ (sym found)),
)

calm : IsCalm 3 (1 ∷ 2 ∷ []) s13
unfolding member
calm = record {
  distinct = (refl, (refl, tt));
  members = λ i m. ground arith;
  majority = omega arith;
  emptied = λ i j in_i in_j other.
      pair_cases
        (λ i j.
          (pl : PerfectLink)
          → find j (s13.node i).manager.perfect_links ≡ some pl
          → pl.messages_to_send ≡ [])
        (emptied.0) (emptied.1) i j in_i in_j other;
  tried = λ j in_j id p.
      let cases : (j ≡ 1) ⊎ (j ≡ 2) = ground arith in
      elim cases [
        | inl e ↦ absurd (nothing_pending 1 id (facts.final.0) (subst (IsPending id) e p))
        | inr e ↦ absurd (nothing_pending 2 id (facts.final.1) (subst (IsPending id) e p))
      ];
}
  where
    IsPending : MessageId → ℕ → Type 0
    IsPending id k = member id (s13.node k).manager.pending_for_delivery ≡ true

    nothing_pending :
        (k : ℕ) (id : MessageId)
        → (s13.node k).manager.pending_for_delivery ≡ []
        → ¬ (IsPending id k)
    nothing_pending k id e p = ground (arith, e, p)

network-refines_example :
    (system : System State) × SystemReach layer 3 (new_fifo, []) (configured three) system
    × ((i : ℕ) → system.proc i ≡ (s13.node i).manager)
unfolding member
network-refines_example =
    network-refines layer true (new_fifo, []) no_path hosts_file names (new_parser true) three
      parse-three (refl, (refl, (refl, tt))) (refl, (refl, (refl, tt))) (omega arith)
      (RoomyReach-NetworkReach run)

network-delivers_example : HasDelivered s13 2 first
unfolding member
network-delivers_example =
    network-delivers uniform_fifo true new_fifo no_path hosts_file names (new_parser true) three
      parse-three (refl, (refl, (refl, tt))) (refl, (refl, (refl, tt))) (omega arith) run
      (1 ∷ 2 ∷ []) calm first (omega arith) (inr (refl, omega (arith, facts.one_sent))) 2 refl

network-logs_example :
    In (deliver_line 1 1) (noted_log s13 2) × In (broadcast_line 1) (noted_log s13 1)
unfolding member
network-logs_example =
    network-logs layer (λ u. u.0) traced-IsOver true (new_fifo, []) refl no_path hosts_file names
      (new_parser true) three parse-three (refl, (refl, (refl, tt))) (omega arith)
      (RoomyReach-NetworkReach run) 2 1 1 1 (facts.logged.0) (omega arith) (omega arith)

network-logs_arrive_example : In (deliver_line 1 1) (noted_log s13 2)
unfolding member
network-logs_arrive_example =
    network-logs_arrive true no_path hosts_file names (new_parser true) three parse-three
      (refl, (refl, (refl, tt))) (refl, (refl, (refl, tt))) (omega arith) run (1 ∷ 2 ∷ []) calm 1 1
      (inr (refl, facts.logged.1)) 2 refl

network-fits_example :
    All (λ (f : Flight). Fits f.datagram) s13.wire
    × All
        (λ (l : ℕ × PerfectLink).
          All (λ (x : ℕ × List ℕ). length x.1 ≤ buffer_size) l.1.messages_to_send)
        (s13.node 1).manager.perfect_links
network-fits_example =
    network-fits layer true three.hosts (new_fifo, []) no_path (RoomyReach-NetworkReach run) 1
