-- ===== src/ReliableFifo.antt =====
-- `ReliableFIFOBroadcast` of src/src/include/fifo_broadcast.hpp: best effort broadcast, which it asks to
-- deliver to it, with the `DeliverInternal` of `Fifo` for its virtual call.
use distributed_algorithms_p.Prelude.{
  ℕ, ◌+◌, ◌<◌, ◌≡◌, refl, subst, Bool, true, List, some, u32, max_seq, arith,
}
use distributed_algorithms_p.Logger.{write, broadcast}
use distributed_algorithms_p.PerfectLink.Codec.{Message as LinkMessage}
use distributed_algorithms_p.Broadcast.Types.{Message, MessageId}
use distributed_algorithms_p.Broadcast.Codec.{parse}
use distributed_algorithms_p.Broadcast.{
  Upper, Broadcast, new_broadcast, send, notify, best_effort_send, best_effort_notify, log_send,
}
use distributed_algorithms_p.Fifo.{
  Fifo, new_fifo, deliver_peer, deliver_with, deliver_internal, reliable_deliver_internal,
}
use distributed_algorithms_p.Fifo.Release.{release_reliable-release}
use distributed_algorithms_p.Fifo.Order.{
  Checker, checker, check_process, IsOrdered, deliver_internal-IsOrdered, broadcast-IsOrdered,
  new_fifo-IsOrdered,
}

abbrev pub reliable_fifo : Upper Fifo
reliable_fifo = record {
  log = λ f l. record f { lines = write f.lines l };
  deliver_internal = reliable_deliver_internal;
}

abbrev pub ReliableFifo : Type 0
ReliableFifo = Broadcast Fifo

abbrev pub new_reliable_fifo : ℕ → ReliableFifo
new_reliable_fifo id = new_broadcast id true new_fifo

-- The two classes deliver in the same way.
pub reliable_deliver_internal-deliver_internal :
    (f : Fifo) (id : MessageId) (log : Bool)
    → reliable_deliver_internal f id log ≡ deliver_internal f id log
unfolding reliable_deliver_internal deliver_internal deliver_with deliver_peer
reliable_deliver_internal-deliver_internal f id log = rw (release_reliable-release log id.author)

-- One call of a handler, for numbers that can be given out.
pub data Step (b : ReliableFifo) : ReliableFifo → Type 0 where
  sends : (msg : List ℕ) → b.n_messages_sent < max_seq → Step b (send reliable_fifo b msg)
  notifies :
      (sender_id : ℕ) (packet : LinkMessage) {msg : Message}
      → parse sender_id packet.payload ≡ some msg
      → msg.id.seq < max_seq
      → Step b (notify reliable_fifo b sender_id packet)

pub data Reach (b : ReliableFifo) : ReliableFifo → Type 0 where
  here : Reach b b
  next : {c d : ReliableFifo} → Reach b c → Step c d → Reach b d

record InOrder (b : ReliableFifo) : Type 0 where
  ordered : IsOrdered b.n_messages_sent b.upper
  told : b.deliver_to_upper_layer ≡ true

Step-InOrder : {b c : ReliableFifo} → Step b c → InOrder b → InOrder c
unfolding send notify best_effort_send best_effort_notify log_send
Step-InOrder {b} (sends msg small) o = record {
  ordered =
      let e : b.n_messages_sent + 1 ≡ u32 (b.n_messages_sent + 1) = omega arith in
      subst
        (λ i.
          IsOrdered i
            (record (b.upper) { lines = write b.upper.lines (broadcast b.n_messages_sent) }))
        e (broadcast-IsOrdered b.upper o.ordered);
  told = o.told;
}
Step-InOrder {b} (notifies sender_id packet {msg} e small) o =
    rw (e, notify)
      (record {
        ordered =
            rw (o.told, reliable_deliver_internal-deliver_internal b.upper msg.id true)
              (deliver_internal-IsOrdered msg.id b.upper small o.ordered);
        told = o.told;
      })

Reach-InOrder : {b c : ReliableFifo} → Reach b c → InOrder b → InOrder c
Reach-InOrder here o = o
Reach-InOrder (next r st) o = Step-InOrder st (Reach-InOrder r o)

-- In every run of the handlers of a process with reliable FIFO broadcast, in any order of broadcasts
-- and incoming messages with numbers below the largest `unsigned int`, the log passes the check of
-- tools/validate_fifo.py, which then expects the number that the next broadcast will take.
pub reliable_reach-validates :
    (id : ℕ) {b : ReliableFifo}
    → Reach (new_reliable_fifo id) b
    → (c : Checker) × (check_process checker b.upper.lines ≡ some c) × (c.i ≡ b.n_messages_sent)
reliable_reach-validates id r =
    let a =
      (Reach-InOrder r (record { ordered = new_fifo-IsOrdered; told = refl })).ordered.accepted in
    (a.final, a.passes, a.count)
