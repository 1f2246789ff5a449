-- ===== src/Tests/Systems.antt =====
-- A system of three processes, of which one takes no part: a message is broadcast, relayed, and
-- delivered by both others.
use distributed_algorithms_p.Prelude.{
  Option, In, ℕ, ◌≤◌, ◌<◌, ◌≡◌, ◌≢◌, refl, sym, subst, inl, inr, ◌⊎◌, true, List, [], ◌∷◌, some,
  arith, nat_eq,
}
use distributed_algorithms_p.Prelude.Set.{insert, member, erase}
use distributed_algorithms_p.Prelude.Map.{emplace, find, assign, remove, get_or}
use distributed_algorithms_p.Prelude.SortedSet
use distributed_algorithms_p.Prelude.Runs.{erase_all}
use distributed_algorithms_p.PerfectLink.Codec.{Message as LinkMessage}
use distributed_algorithms_p.PerfectLink.Link.{PerfectLink, new_link, subscribe}
use distributed_algorithms_p.PerfectLink.Link
use distributed_algorithms_p.Manager
use distributed_algorithms_p.Broadcast.Types.{Message, MessageId, id_eq, id_beq_iff}
use distributed_algorithms_p.Broadcast.Codec.{serialize, parse}
use distributed_algorithms_p.Broadcast.{
  Upper, send_all, best_effort_send, log_send, log_deliver, best_effort_deliver, best_effort_notify,
}
use distributed_algorithms_p.DeliveredSet
use distributed_algorithms_p.DeliveredSet.Refinement.{contains-insert, nil-IsValid}
use distributed_algorithms_p.Fifo
use distributed_algorithms_p.Fifo.{Fifo, new_fifo}
use distributed_algorithms_p.Uniform.{
  add, send_internal, send_next, finish_own, send, notify_internal, notify, deliver as deliver_one,
  try_deliver,
}
use distributed_algorithms_p.Uniform.Run.{add_all, sent, notified, sends, notifies, tries}
use distributed_algorithms_p.Uniform.Agreed.{traced}
use distributed_algorithms_p.Uniform.Window.{own_id}
use distributed_algorithms_p.Uniform.Holds.{Holds}
use distributed_algorithms_p.Parser.{
  Lookup, looked_up, no_inet, Parser, returns, new_parser, read_host, read_hosts, insert_host,
  sort_hosts, accept_hosts, parse_hosts_file,
}
use distributed_algorithms_p.Parser.Lex.{
  Text, left_trim, right_trim, trim, value, span, read_unsigned, read_word,
}
use distributed_algorithms_p.System.Configured.{
  configured, configured-HasTracedSize, configured-delivers,
}
use distributed_algorithms_p.UniformFifo.{uniform_fifo}
use distributed_algorithms_p.System.{
  System, update, start, SystemReach, system_here, system_next, acts,
}
use distributed_algorithms_p.System.Origin.{reach-IsAuthored}
use distributed_algorithms_p.System.Holders.{IsWidelyHeld, Given, reach-IsWidelyHeld}
use distributed_algorithms_p.System.Settled.{IsSettled, HasTracedSize}

abbrev pub State : Type 0
State = Fifo × List MessageId

abbrev pub layer : Upper State
layer = traced uniform_fifo

-- The hosts file "1 a 70", "2 b 80", "3 c 90".
abbrev pub hosts_file : Text → Option (List Text)
hosts_file path = some (
    (49 ∷ 32 ∷ 97 ∷ 32 ∷ 55 ∷ 48 ∷ [])
    ∷ (50 ∷ 32 ∷ 98 ∷ 32 ∷ 56 ∷ 48 ∷ [])
    ∷ (51 ∷ 32 ∷ 99 ∷ 32 ∷ 57 ∷ 48 ∷ [])
    ∷ [])

-- An address by the first letter of the name.
abbrev pub names : Text → Lookup
names [] = no_inet
names (c ∷ s) = looked_up c

abbrev pub three : Parser
three = record (new_parser true) {
  hosts =
      record { ip = 97; port = 17_920; id = 1 }
      ∷ record { ip = 98; port = 20_480; id = 2 }
      ∷ record { ip = 99; port = 23_040; id = 3 }
      ∷ [];
}

pub parse-three : parse_hosts_file hosts_file names (new_parser true) ≡ returns three
unfolding parse_hosts_file read_hosts read_host read_unsigned read_word trim left_trim right_trim
    span value accept_hosts sort_hosts insert_host
parse-three = refl

-- Each process's links to the two others.
abbrev ring : ℕ → List PerfectLink
ring = configured three

abbrev pub first : MessageId
first = own_id 1 1

abbrev packet : LinkMessage
packet = record { seq = 1; payload = 1 ∷ 0 ∷ 0 ∷ 0 ∷ 1 ∷ 0 ∷ 0 ∷ 0 ∷ 7 ∷ [] }

-- The message as it comes in from that process.
abbrev copy : ℕ → Message
copy sender = record { id = first; sender = sender; payload = 7 ∷ [] }

packet-parse : (sender : ℕ) → parse sender packet.payload ≡ some (copy sender)
unfolding parse
packet-parse sender = refl

-- Process 1 broadcasts, its message comes in at process 2, and the copy that process 2 relays comes in
-- at process 1; then both deliver.
abbrev s0 : System State
s0 = start layer 3 (new_fifo, []) ring

abbrev s1 : System State
s1 = update s0 1 (sent first ∷ []) (send layer (s0.proc 1) (7 ∷ []))

abbrev s2 : System State
s2 = update s1 2 (notified (copy 1) ∷ []) (notify layer (s1.proc 2) 1 packet)

abbrev s3 : System State
s3 = update s2 1 (notified (copy 2) ∷ []) (notify layer (s2.proc 1) 2 packet)

abbrev s4 : System State
s4 = update s3 1 [] (try_deliver layer (s3.proc 1) first)

abbrev s5 : System State
s5 = update s4 2 [] (try_deliver layer (s4.proc 2) first)

pending :
    (member first (s1.proc 1).pending_for_delivery ≡ true)
    × (member first (s2.proc 2).pending_for_delivery ≡ true)
    × (member first (s3.proc 1).pending_for_delivery ≡ true)
    × (member first (s4.proc 2).pending_for_delivery ≡ true)
unfolding add_all add notify notify_internal parse send send_internal log_send best_effort_send
    best_effort_notify best_effort_deliver log_deliver insert member DeliveredSet.contains find
    assign get_or Manager.add Link.subscribe new_link send_all Link.send emplace serialize
    try_deliver deliver_one finish_own send_next erase remove DeliveredSet.insert
    DeliveredSet.peer_insert DeliveredSet.compact erase_all SortedSet.insert SortedSet.erase
    SortedSet.contains Fifo.deliver_internal Fifo.deliver_with Fifo.deliver_peer Fifo.release
    Fifo.round
pending = (refl, refl, refl, refl)

run : SystemReach layer 3 (new_fifo, []) ring s5
unfolding add_all add
run =
    system_next
      (system_next
        (system_next
          (system_next
            (system_next system_here (acts 1 (omega arith) (sends (7 ∷ []) (omega arith)) (tt, tt)))
            (acts 2 (omega arith) (notifies 1 packet (packet-parse 1) (omega arith))
              ((omega arith, omega arith, inl (pending.0)), tt)))
          (acts 1 (omega arith) (notifies 2 packet (packet-parse 2) (omega arith))
            ((omega arith, omega arith, inl (pending.1)), tt)))
        (acts 1 (omega arith) (tries first (pending.2)) tt))
      (acts 2 (omega arith) (tries first (pending.3)) tt)

-- Both have delivered that message and hold no other.
final :
    ((s5.proc 1).pending_for_delivery ≡ [])
    × ((s5.proc 2).pending_for_delivery ≡ [])
    × ((s5.proc 1).delivered ≡ DeliveredSet.insert [] first)
    × ((s5.proc 2).delivered ≡ DeliveredSet.insert [] first)
unfolding add_all add notify notify_internal parse send send_internal log_send best_effort_send
    best_effort_notify best_effort_deliver log_deliver insert member DeliveredSet.contains find
    assign get_or Manager.add Link.subscribe new_link send_all Link.send emplace serialize
    try_deliver deliver_one finish_own send_next erase remove DeliveredSet.insert
    DeliveredSet.peer_insert DeliveredSet.compact erase_all SortedSet.insert SortedSet.erase
    SortedSet.contains Fifo.deliver_internal Fifo.deliver_with Fifo.deliver_peer Fifo.release
    Fifo.round
final = (refl, refl, refl, refl)

given : Given s5 1 first × Given s5 2 first
unfolding add_all add notify notify_internal parse send send_internal log_send best_effort_send
    best_effort_notify best_effort_deliver log_deliver insert member DeliveredSet.contains find
    assign get_or Manager.add Link.subscribe new_link send_all Link.send emplace serialize
    try_deliver deliver_one finish_own send_next erase remove DeliveredSet.insert
    DeliveredSet.peer_insert DeliveredSet.compact erase_all SortedSet.insert SortedSet.erase
    SortedSet.contains Fifo.deliver_internal Fifo.deliver_with Fifo.deliver_peer Fifo.release
    Fifo.round
given = (refl, refl)

one_sent : (s5.proc 1).n_messages_sent ≡ 2
unfolding add_all add notify notify_internal parse send send_internal log_send best_effort_send
    best_effort_notify best_effort_deliver log_deliver insert member DeliveredSet.contains find
    assign get_or Manager.add Link.subscribe new_link send_all Link.send emplace serialize
    try_deliver deliver_one finish_own send_next erase remove DeliveredSet.insert
    DeliveredSet.peer_insert DeliveredSet.compact erase_all SortedSet.insert SortedSet.erase
    SortedSet.contains Fifo.deliver_internal Fifo.deliver_with Fifo.deliver_peer Fifo.release
    Fifo.round
one_sent = refl

held_by_two : Holds (s5.proc 2) first
unfolding add_all add notify notify_internal parse send send_internal log_send best_effort_send
    best_effort_notify best_effort_deliver log_deliver insert member DeliveredSet.contains find
    assign get_or Manager.add Link.subscribe new_link send_all Link.send emplace serialize
    try_deliver deliver_one finish_own send_next erase remove DeliveredSet.insert
    DeliveredSet.peer_insert DeliveredSet.compact erase_all SortedSet.insert SortedSet.erase
    SortedSet.contains Fifo.deliver_internal Fifo.deliver_with Fifo.deliver_peer Fifo.release
    Fifo.round
held_by_two = inr refl

contains_first :
    (id : MessageId)
    → 1 ≤ id.seq
    → DeliveredSet.contains (DeliveredSet.insert [] first) id ≡ true
    → first ≡ id
unfolding DeliveredSet.contains find
contains_first id lo h =
    ground
      (arith, h, id_beq_iff first id, contains-insert [] first id nil-IsValid (omega arith) refl lo)

-- To prove something of any two of the processes 1 and 2.
pub pair_cases :
    (C : ℕ → ℕ → Type 0)
    → C 1 2
    → C 2 1
    → (i j : ℕ) → member i (1 ∷ 2 ∷ []) ≡ true
    → member j (1 ∷ 2 ∷ []) ≡ true
    → i ≢ j
    → C i j
unfolding member
pair_cases C a b i j in_i in_j other =
    let cases : ((i ≡ 1) × (j ≡ 2)) ⊎ ((i ≡ 2) × (j ≡ 1)) = ground arith in
    elim cases [
      | inl (e, f) ↦ subst (λ k. C k j) (sym e) (subst (C 1) (sym f) a)
      | inr (e, f) ↦ subst (λ k. C k j) (sym e) (subst (C 2) (sym f) b)
    ]

held_first :
    (i : ℕ)
    → member i (1 ∷ 2 ∷ []) ≡ true
    → (id : MessageId) → 1 ≤ id.seq
    → Holds (s5.proc i) id
    → first ≡ id
unfolding member
held_first i in_i id lo h =
    let cases : (i ≡ 1) ⊎ (i ≡ 2) = ground arith in
    elim cases [
      | inl e ↦ by_state 1 final.0 final.2 (subst (λ k. Holds (s5.proc k) id) e h)
      | inr e ↦ by_state 2 final.1 final.3 (subst (λ k. Holds (s5.proc k) id) e h)
    ]
  where
    by_state :
        (k : ℕ)
        → (s5.proc k).pending_for_delivery ≡ []
        → (s5.proc k).delivered ≡ DeliveredSet.insert [] first
        → Holds (s5.proc k) id
        → first ≡ id
    by_state k p d (inl old) = ground (arith, p, old)
    by_state k p d (inr old) =
        contains_first id lo (subst (λ x. DeliveredSet.contains x id ≡ true) d old)

settled : IsSettled 3 (1 ∷ 2 ∷ []) s5
unfolding member
settled = record {
  distinct = (refl, (refl, tt));
  members = λ i m. ground arith;
  majority = omega arith;
  arrived = λ i j in_i in_j other id lo h.
      subst (λ k. (m : Message) × In (notified m) (s5.events j) × (m.id ≡ k) × (m.sender ≡ i))
        (held_first i in_i id lo h)
        (pair_cases
          (λ i j. (m : Message) × In (notified m) (s5.events j) × (m.id ≡ first) × (m.sender ≡ i))
          (copy 1, inl refl, refl, refl) (copy 2, inl refl, refl, refl) i j in_i in_j other);
  tried = λ j in_j id p.
      let cases : (j ≡ 1) ⊎ (j ≡ 2) = ground arith in
      elim cases [
        | inl e ↦ absurd (
            ground
              (arith, final.0, subst (λ k. member id (s5.proc k).pending_for_delivery ≡ true) e p))
        | inr e ↦ absurd (
            ground
              (arith, final.1, subst (λ k. member id (s5.proc k).pending_for_delivery ≡ true) e p))
      ];
}

sizes : HasTracedSize uniform_fifo 3 new_fifo ring
unfolding member
sizes =
    configured-HasTracedSize uniform_fifo new_fifo hosts_file names (new_parser true) three
      parse-three (refl, (refl, (refl, tt))) (omega arith)

reach-IsAuthored_example : (1 < (s5.proc 1).n_messages_sent) × Holds (s5.proc 1) first
reach-IsAuthored_example =
    reach-IsAuthored layer 3 (new_fifo, []) ring run 2 first (omega arith) held_by_two

reach-IsWidelyHeld_example : IsWidelyHeld 3 s5 first
reach-IsWidelyHeld_example =
    reach-IsWidelyHeld uniform_fifo 3 new_fifo ring run 2 (omega arith) (sizes 2 (omega arith))
      first (omega arith) given.1

configured-delivers_example : Given s5 2 first
unfolding member
configured-delivers_example =
    configured-delivers uniform_fifo new_fifo hosts_file names (new_parser true) three parse-three
      (refl, (refl, (refl, tt))) (omega arith) run (1 ∷ 2 ∷ []) settled first (omega arith)
      (inr (refl, omega (arith, one_sent))) 2 refl
