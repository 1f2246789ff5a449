-- ===== src/Tests/Links.antt =====
-- A link, its wire format and the server below it, on small inputs.
use distributed_algorithms_p.Prelude.{
  if◌then◌else◌, false, nat_eq, ℕ, ◌≡◌, refl, inl, true, List, [], ◌∷◌, none, some, arith, map,
}
use distributed_algorithms_p.Prelude.Set.{Distinct, insert, member}
use distributed_algorithms_p.Prelude.Map.{emplace, find, assign, remove}
use distributed_algorithms_p.Udp.{
  Event, attached_for, Machine, attached, received, serve, new_server, receive, receive-serve,
}
use distributed_algorithms_p.PerfectLink.Codec.{Message, message, serialize, ack_packet, parse}
use distributed_algorithms_p.PerfectLink.Link.{
  PerfectLink, new_link, subscribe, send, send_messages, send_acks, clean_acks, expired, forget,
  erase_acks, notify, on_packet, record_ack, is_unseen, record_delivered, receive_ack,
}
use distributed_algorithms_p.PerfectLink.Life.{Life, made, took}
use distributed_algorithms_p.PerfectLink.Forgetting.{is_old, is_forgotten, clean_acks-forgets}
use distributed_algorithms_p.PerfectLink.Channel.{
  Channel, Reach, here, next, on_left, on_right, sends, sends_messages, sends_acks, receives,
}
use distributed_algorithms_p.PerfectLink.Delivery.{
  Setup, new_channel, IsReliable, AreWhole, reach-IsReliable, reach-Distinct,
}

abbrev left_addr : Machine
left_addr = record { ip = 16_777_343; port = 11_001 }

abbrev right_addr : Machine
right_addr = record { ip = 16_777_343; port = 11_002 }

abbrev setup : Setup
setup = record {
  left_id = 1;
  right_id = 2;
  left_addr = left_addr;
  right_addr = right_addr;
  left_manager = 0;
  right_manager = 0;
}

abbrev hello : Message
hello = record { seq = 258; payload = 7 ∷ 8 ∷ [] }

serialize-hello : serialize hello ≡ 1 ∷ 2 ∷ 1 ∷ 0 ∷ 0 ∷ 7 ∷ 8 ∷ []
unfolding serialize
serialize-hello = refl

parse-short : parse (1 ∷ 2 ∷ 1 ∷ 0 ∷ []) ≡ none
unfolding parse
parse-short = refl

parse-unknown : parse (2 ∷ 2 ∷ 1 ∷ 0 ∷ 0 ∷ []) ≡ none
unfolding parse
parse-unknown = refl

parse-hello : parse (1 ∷ 2 ∷ 1 ∷ 0 ∷ 0 ∷ 7 ∷ 8 ∷ []) ≡ some (message hello)
unfolding parse
parse-hello = refl

-- The packet of the first message, of one byte.
abbrev packet : List ℕ
packet = 1 ∷ 1 ∷ 0 ∷ 0 ∷ 0 ∷ 7 ∷ []

abbrev ack_one : List ℕ
ack_one = 0 ∷ 1 ∷ 0 ∷ 0 ∷ 0 ∷ []

-- A message is sent, its packet comes twice, and the ack comes back.
run : (c : Channel) × Reach true (new_channel setup) c
unfolding new_link subscribe send send_messages send_acks clean_acks expired forget erase_acks
    notify on_packet record_ack is_unseen record_delivered receive_ack serialize ack_packet parse
    emplace insert member find assign remove
run = (
  _,
  next
      (next
        (next
          (next (next (next here (on_left (sends (7 ∷ []) (omega arith)))) (on_left sends_messages))
            (on_right (receives packet 100 (inl refl))))
          (on_right (receives packet 101 (inl refl))))
        (on_right (sends_acks 102)))
      (on_left (receives ack_one 103 (inl refl))),
)

reach-IsReliable_example :
    (AreWhole run.0.left × IsReliable run.0.left run.0.right)
    × (AreWhole run.0.right × IsReliable run.0.right run.0.left)
unfolding send new_link run
reach-IsReliable_example = reach-IsReliable setup run.1 (omega arith) tt

reach-Distinct_example :
    Distinct (map (λ m. m.seq) run.0.left.delivered)
    × Distinct (map (λ m. m.seq) run.0.right.delivered)
reach-Distinct_example = reach-Distinct setup run.1

run_delivers :
    (run.0.right.delivered ≡ record { seq = 1; payload = 7 ∷ [] } ∷ [])
    × (run.0.left.link.messages_to_send ≡ [])
    × (run.0.right.link.messages_delivered ≡ (1, 101) ∷ [])
unfolding run new_link subscribe send send_messages send_acks clean_acks expired forget erase_acks
    notify on_packet record_ack is_unseen record_delivered receive_ack serialize ack_packet parse
    emplace insert member find assign remove
run_delivers = (refl, refl, refl)

abbrev served : List Event
served =
    attached 5 left_addr
    ∷ attached 6 right_addr
    ∷ received (record { machine = left_addr; bytes = [] })
    ∷ attached 7 left_addr
    ∷ []

receive-serve_example :
    (receive (serve new_server served) (record { machine = left_addr; bytes = 1 ∷ [] })).1
    ≡ 5 ∷ 7 ∷ []
unfolding attached_for
receive-serve_example = receive-serve served (record { machine = left_addr; bytes = 1 ∷ [] })

-- A link that has received its peer's message 3 at the time 5, and cleans up at the time 14.
abbrev received_three : PerfectLink
received_three =
    (notify (new_link 1 2 (record { ip = 1; port = 2 }))
      (serialize (record { seq = 3; payload = [] })) 5).0

abbrev life_of_three : Life false received_three
life_of_three =
    took (serialize (record { seq = 3; payload = [] })) 5 (made 1 2 (record { ip = 1; port = 2 }))

forgotten-three : is_unseen (clean_acks false 14 received_three) 3 ≡ true
unfolding notify on_packet parse serialize new_link clean_acks is_unseen expired forget erase_acks
    record_ack record_delivered find assign remove
forgotten-three = refl

clean_acks-forgets_example :
    (member 3 (clean_acks false 14 received_three).acks_to_send ≡ (
      if is_old 1 14 (find 3 received_three.messages_delivered)
      then false
      else member 3 received_three.acks_to_send))
    × (find 3 (clean_acks false 14 received_three).messages_delivered ≡ (
        if is_forgotten false 14 (find 3 received_three.messages_delivered)
        then none
        else find 3 received_three.messages_delivered))
    × (is_unseen (clean_acks false 14 received_three) 3 ≡ (
        if is_forgotten false 14 (find 3 received_three.messages_delivered)
        then true
        else is_unseen received_three 3))
clean_acks-forgets_example = clean_acks-forgets life_of_three 14 3
