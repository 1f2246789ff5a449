-- ===== src/Tests/Processes.antt =====
-- A process of three, run on a few events.
use distributed_algorithms_p.Prelude.{
  arith, inl, ◌+◌, ℕ, ◌≡◌, refl, inl, true, List, [], ◌∷◌, some, arith, nat_eq,
}
use distributed_algorithms_p.Prelude.Set.{Distinct, insert, member, erase}
use distributed_algorithms_p.Prelude.Map.{emplace, find, assign, remove, get_or}
use distributed_algorithms_p.Prelude.SortedSet
use distributed_algorithms_p.Prelude.Runs.{erase_all}
use distributed_algorithms_p.Logger.{broadcast, deliver}
use distributed_algorithms_p.PerfectLink.Codec.{Message as LinkMessage}
use distributed_algorithms_p.PerfectLink.Link.{PerfectLink, new_link, subscribe}
use distributed_algorithms_p.PerfectLink.Link
use distributed_algorithms_p.Manager
use distributed_algorithms_p.Broadcast.Types.{Message, MessageId, id_eq}
use distributed_algorithms_p.Broadcast.Codec.{serialize, parse}
use distributed_algorithms_p.Broadcast.{
  Upper, send_all, best_effort_send, log_send, log_deliver, best_effort_deliver, best_effort_notify,
}
use distributed_algorithms_p.DeliveredSet
use distributed_algorithms_p.Fifo
use distributed_algorithms_p.Fifo.{Fifo, new_fifo}
use distributed_algorithms_p.Fifo.Order.{Checker, check_process, checker}
use distributed_algorithms_p.Uniform.{
  Uniform, add, send_internal, send_next, finish_own, send, notify_internal, notify,
  deliver as deliver_one, try_deliver, deliver_pending,
}
use distributed_algorithms_p.Uniform.Run.{
  add_all, started, Event, sent, notified, Reach, here, next, sends, notifies, tries, Known,
}
use distributed_algorithms_p.Uniform.Flow.{
  HonestReach, honest_here, honest_next, IsWindowed, IsComplete, reach-IsWindowed, reach-IsComplete,
}
use distributed_algorithms_p.Uniform.Agreed.{traced, trace, HasMajority}
use distributed_algorithms_p.Uniform.Progress.{reach-delivers}
use distributed_algorithms_p.Uniform.Rounds.{deliver_pending-delivers}
use distributed_algorithms_p.Uniform.Agreement.{reach-once, reach-HasMajority}
use distributed_algorithms_p.UniformFifo.{uniform_fifo}
use distributed_algorithms_p.ReliableFifo
use distributed_algorithms_p.ReliableFifo.{
  ReliableFifo, reliable_fifo, new_reliable_fifo, reliable_reach-validates,
}
use distributed_algorithms_p.Broadcast
use distributed_algorithms_p.UniformFifo.Order.{reach-validates}

abbrev link_to : ℕ → PerfectLink
link_to target = new_link 1 target (record { ip = 16_777_343; port = 11_000 + target })

abbrev links : List PerfectLink
links = link_to 2 ∷ link_to 3 ∷ []

abbrev own : MessageId
own = record { seq = 1; author = 1 }

-- Process 2 relays this process's first message.
abbrev relayed : LinkMessage
relayed = record { seq = 1; payload = 1 ∷ 0 ∷ 0 ∷ 0 ∷ 1 ∷ 0 ∷ 0 ∷ 0 ∷ 7 ∷ [] }

abbrev own_message : Message
own_message = record { id = own; sender = 2; payload = 7 ∷ [] }

relayed-parse : parse 2 relayed.payload ≡ some own_message
unfolding parse
relayed-parse = refl

abbrev history : List Event
history = notified own_message ∷ sent own ∷ []

-- The process broadcasts its message, the relayed copy comes in, and the message is delivered.
module _ {U : Type 0} (upper : Upper U) (state : U) where
  abbrev before_delivery : Uniform U
  before_delivery = notify upper (send upper (started 1 state links) (7 ∷ [])) 2 relayed

  own-pending : member own before_delivery.pending_for_delivery ≡ true
  unfolding add_all add notify notify_internal parse send send_internal log_send best_effort_send
      best_effort_notify best_effort_deliver log_deliver insert member DeliveredSet.contains find
      assign get_or Manager.add Link.subscribe new_link send_all Link.send emplace serialize
  own-pending = refl

  run : Reach upper (started 1 state links) history (try_deliver upper before_delivery own)
  unfolding add_all add
  run =
      next
        (next (next here (sends (7 ∷ []) (omega arith)) refl)
          (notifies 2 relayed relayed-parse (omega arith)) refl)
        (tries own own-pending) refl

  abbrev before_relay : Uniform U
  before_relay = send upper (started 1 state links) (7 ∷ [])

  own-sent : member own before_relay.pending_for_delivery ≡ true
  unfolding add_all add notify notify_internal parse send send_internal log_send best_effort_send
      best_effort_notify best_effort_deliver log_deliver insert member DeliveredSet.contains find
      assign get_or Manager.add Link.subscribe new_link send_all Link.send emplace serialize
  own-sent = refl

  honest_run :
      HonestReach upper (started 1 state links) history (try_deliver upper before_delivery own)
  unfolding add_all add
  honest_run =
      honest_next
        (honest_next (honest_next honest_here (sends (7 ∷ []) (omega arith)) (omega arith) refl)
          (notifies 2 relayed relayed-parse (omega arith)) ((λ e. inl own-sent), tt) refl)
        (tries own own-pending) tt refl

  heard_run : Reach upper (started 1 state links) history before_delivery
  unfolding add_all add
  heard_run =
      next (next here (sends (7 ∷ []) (omega arith)) refl)
        (notifies 2 relayed relayed-parse (omega arith)) refl

-- Process 2 and this one are a majority of three.
heard-HasMajority : HasMajority history 3 own
unfolding member
heard-HasMajority =
    (2 ∷ [], (refl, tt), (λ s m. (own_message, inl refl, refl, ground arith)), omega arith)

abbrev last : {U : Type 0} → Upper U → U → Uniform U
last upper state = try_deliver upper (before_delivery upper state) own

reach-validates_example :
    (c : Checker) × (check_process checker (last uniform_fifo new_fifo).upper.lines ≡ some c)
    × (c.i ≡ (last uniform_fifo new_fifo).n_messages_sent)
reach-validates_example = reach-validates 1 links (run uniform_fifo new_fifo)

last-lines : (last uniform_fifo new_fifo).upper.lines ≡ broadcast 1 ∷ deliver 1 1 ∷ []
unfolding add_all add notify notify_internal parse send send_internal log_send best_effort_send
    best_effort_notify best_effort_deliver log_deliver insert member DeliveredSet.contains find
    assign get_or Manager.add Link.subscribe new_link send_all Link.send emplace serialize
    try_deliver deliver_one finish_own send_next erase remove DeliveredSet.insert
    DeliveredSet.peer_insert DeliveredSet.compact erase_all SortedSet.insert SortedSet.erase
    SortedSet.contains Fifo.deliver_internal Fifo.deliver_with Fifo.deliver_peer Fifo.release
    Fifo.round
last-lines = refl

abbrev traced_last : Uniform (Fifo × List MessageId)
traced_last = last (traced uniform_fifo) (new_fifo, [])

reach-once_example : Distinct (trace traced_last)
reach-once_example =
    reach-once uniform_fifo 1 new_fifo links (run (traced uniform_fifo) (new_fifo, []))

own-delivered : member own (trace traced_last) ≡ true
unfolding add_all add notify notify_internal parse send send_internal log_send best_effort_send
    best_effort_notify best_effort_deliver log_deliver insert member DeliveredSet.contains find
    assign get_or Manager.add Link.subscribe new_link send_all Link.send emplace serialize
    try_deliver deliver_one finish_own send_next erase remove DeliveredSet.insert
    DeliveredSet.peer_insert DeliveredSet.compact erase_all SortedSet.insert SortedSet.erase
    SortedSet.contains Fifo.deliver_internal Fifo.deliver_with Fifo.deliver_peer Fifo.release
    Fifo.round
own-delivered = refl

reach-HasMajority_example : Known history own × HasMajority history 3 own
unfolding add_all add Manager.add
reach-HasMajority_example =
    reach-HasMajority uniform_fifo 1 new_fifo links (run (traced uniform_fifo) (new_fifo, [])) own
      own-delivered

reach-IsWindowed_example : IsWindowed uniform_fifo (last uniform_fifo new_fifo)
reach-IsWindowed_example =
    reach-IsWindowed uniform_fifo 1 new_fifo links (honest_run uniform_fifo new_fifo)

reach-IsComplete_example : IsComplete uniform_fifo (last uniform_fifo new_fifo)
reach-IsComplete_example =
    reach-IsComplete uniform_fifo 1 new_fifo links (honest_run uniform_fifo new_fifo)

-- Reliable FIFO broadcast, with message 2 of process 9 before message 1.
abbrev from_nine : ℕ → LinkMessage
from_nine seq = record { seq = 1; payload = 9 ∷ 0 ∷ 0 ∷ 0 ∷ seq ∷ 0 ∷ 0 ∷ 0 ∷ [] }

abbrev of_nine : ℕ → Message
of_nine seq = record { id = record { seq = seq; author = 9 }; sender = 9; payload = [] }

from_nine-parse :
    (parse 9 (from_nine 1).payload ≡ some (of_nine 1))
    × (parse 9 (from_nine 2).payload ≡ some (of_nine 2))
unfolding parse
from_nine-parse = (refl, refl)

abbrev reliable_last : ReliableFifo
reliable_last =
    Broadcast.notify reliable_fifo
      (Broadcast.notify reliable_fifo (Broadcast.send reliable_fifo (new_reliable_fifo 1) []) 9
        (from_nine 2))
      9 (from_nine 1)

reliable_reach-validates_example :
    (c : Checker) × (check_process checker reliable_last.upper.lines ≡ some c)
    × (c.i ≡ reliable_last.n_messages_sent)
reliable_reach-validates_example = reliable_reach-validates 1 (
    ReliableFifo.next
      (ReliableFifo.next (ReliableFifo.next ReliableFifo.here (ReliableFifo.sends [] (omega arith)))
        (ReliableFifo.notifies 9 (from_nine 2) from_nine-parse.1 (omega arith)))
      (ReliableFifo.notifies 9 (from_nine 1) from_nine-parse.0 (omega arith)))

reach-delivers_example :
    DeliveredSet.contains
      (try_deliver uniform_fifo (before_delivery uniform_fifo new_fifo) own).delivered
      own
    ≡ true
unfolding add_all add Manager.add
reach-delivers_example =
    reach-delivers uniform_fifo 1 new_fifo links (heard_run uniform_fifo new_fifo) own_message
      (inl refl) heard-HasMajority

deliver_pending-delivers_example :
    (DeliveredSet.contains
        (deliver_pending uniform_fifo (before_delivery uniform_fifo new_fifo) (own ∷ [])).delivered
        own
      ≡ true)
    × Reach uniform_fifo
        (started 1 new_fifo links)
        history
        (deliver_pending uniform_fifo (before_delivery uniform_fifo new_fifo) (own ∷ []))
unfolding add_all add notify notify_internal parse send send_internal log_send best_effort_send
    best_effort_notify best_effort_deliver log_deliver insert member DeliveredSet.contains find
    assign get_or Manager.add Link.subscribe new_link send_all Link.send emplace serialize
deliver_pending-delivers_example =
    deliver_pending-delivers uniform_fifo 1 new_fifo links (own ∷ [])
      (before_delivery uniform_fifo new_fifo) (refl, tt) (own-pending uniform_fifo new_fifo, tt)
      (heard_run uniform_fifo new_fifo) own (omega arith)
