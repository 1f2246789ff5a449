-- ===== src/Uniform.antt =====
-- `UniformReliableBroadcast`: src/src/src/uniform_reliable_broadcast.cpp and its header. A handler is one
-- function from the members before it to the members after it.
pub mod Run
pub mod Cases
pub mod Sound
mod Acks
mod Origin
pub mod Agreed
pub mod Agreement
pub mod OwnCount
pub mod Window
mod Refill
pub mod Flow
mod Held
pub mod Holds
pub mod Relays
pub mod Progress
pub mod Rounds
use Prim.Native.Nat.{max}
use distributed_algorithms_p.Prelude.{
  ℕ, ◌+◌, ◌*◌, ◌/◌, ◌≡◌, Bool, true, false, not, ◌&&◌, List, [], ◌∷◌, ◌++◌, map, Option, none, some,
  if◌then◌else◌, ltb, leb, ◌==◌, nat_eq, u32, max_seq, length,
}
use distributed_algorithms_p.Prelude.Map.{get_or, assign, remove}
use distributed_algorithms_p.Prelude.Set.{member, insert, erase}
use distributed_algorithms_p.PerfectLink.Codec.{Message as LinkMessage}
use distributed_algorithms_p.PerfectLink.Link.{PerfectLink}
use distributed_algorithms_p.Manager.{Manager}
use distributed_algorithms_p.Manager
use distributed_algorithms_p.Broadcast.Types.{Message, MessageId, id_eq}
use distributed_algorithms_p.Broadcast.Codec.{parse}
use distributed_algorithms_p.Broadcast.{
  Broadcast, Upper, new_broadcast, best_effort_send, best_effort_notify, log_send,
}
use distributed_algorithms_p.DeliveredSet.{DeliveredSet}
use distributed_algorithms_p.DeliveredSet

pub record Uniform (U : Type 0) : Type 0 where
  pub broadcast : Broadcast U
  pub open broadcast use *
  pub n_own_pending_for_delivery : ℕ
  pub n_own_pending_delivery_ideal : ℕ
  pub delivered : DeliveredSet
  -- the front of the queue is the head
  pub own_pending_for_broadcast : List Message
  pub pending_for_delivery : List MessageId
  pub acks : List (MessageId × List ℕ)

abbrev pub new_uniform : {U : Type 0} → ℕ → U → Uniform U
new_uniform id upper = record {
  broadcast = new_broadcast id false upper;
  n_own_pending_for_delivery = 0;
  n_own_pending_delivery_ideal = 1;
  delivered = [];
  own_pending_for_broadcast = [];
  pending_for_delivery = [];
  acks = [];
}

-- URB_MAX_MSGS_IN_NETWORK
abbrev pub max_msgs_in_network : ℕ
max_msgs_in_network = 32_768

-- `Add`
unfoldable pub add : {U : Type 0} → Uniform U → PerfectLink → Uniform U
add u pl =
    let manager = Manager.add u.manager pl in
    record u {
      broadcast = record (u.broadcast) { manager = manager };
      n_own_pending_delivery_ideal =
          max 1 (max_msgs_in_network / (manager.n_processes * manager.n_processes));
    }

-- `Start` and `Stop`, which the thread of `DeliverPending` heeds too.
unfoldable pub start : {U : Type 0} → Uniform U → Uniform U
unfolding Manager.start
start u = record u { broadcast = record (u.broadcast) { manager = Manager.start u.manager } }

unfoldable pub stop : {U : Type 0} → Uniform U → Uniform U
unfolding Manager.stop
stop u =
    if u.on
    then record u { broadcast = record (u.broadcast) { manager = Manager.stop u.manager } }
    else u

-- `SendInternal`
unfoldable pub send_internal : {U : Type 0} → Uniform U → Message → Uniform U
send_internal u msg = record u {
  pending_for_delivery = insert msg.id u.pending_for_delivery;
  broadcast = best_effort_send u.broadcast msg;
}

-- `acks_.data[id].insert(sender)`
abbrev pub add_ack : MessageId → ℕ → List (MessageId × List ℕ) → List (MessageId × List ℕ)
add_ack id sender acks = assign id (insert sender (get_or id [] acks)) acks

-- `majority_seen`: the acks, and the process itself, are more than half of the processes.
abbrev pub majority_seen : {U : Type 0} → Uniform U → MessageId → Bool
majority_seen u id = ltb (u.n_processes / 2) (length (get_or id [] u.acks) + 1)

-- `n_own_pending_for_delivery_.fetch_add(1)`, and that of `static_cast<unsigned int>(-1)`
abbrev pub count_up : {U : Type 0} → Uniform U → Uniform U
count_up u = record u { n_own_pending_for_delivery = u32 (u.n_own_pending_for_delivery + 1) }

abbrev pub count_down : {U : Type 0} → Uniform U → Uniform U
count_down u = record u {
  n_own_pending_for_delivery = u32 (u.n_own_pending_for_delivery + max_seq);
}

abbrev pub with_queue : {U : Type 0} → List Message → Uniform U → Uniform U
with_queue queue u = record u { own_pending_for_broadcast = queue }

abbrev pub erased : {U : Type 0} → MessageId → Uniform U → Uniform U
erased id u = record u { pending_for_delivery = erase id u.pending_for_delivery }

-- The message at the front of the queue, if there is one, is sent.
unfoldable pub send_next : {U : Type 0} → Uniform U → Uniform U
unfolding send_internal
send_next u = elim u.own_pending_for_broadcast [
  | [] ↦ u
  | msg ∷ queue ↦ send_internal (count_up (with_queue queue u)) msg
]

-- The part of `DeliverPending` for a message of the process's own. The test is of the count before
-- it falls.
unfoldable pub finish_own : {U : Type 0} → Uniform U → MessageId → Uniform U
unfolding send_next
finish_own u id =
    if id.author == u.id
    then if leb u.n_own_pending_for_delivery u.n_own_pending_delivery_ideal
      then send_next (count_down u)
      else count_down u
    else u

module _ {U : Type 0} (upper : Upper U) where
  open upper use {deliver_internal}

  -- The message of `Send`, and the state once its number is taken and logged.
  abbrev pub own_message : Uniform U → List ℕ → Message
  own_message u msg = record {
    id = record { seq = u.n_messages_sent; author = u.id };
    sender = u.id;
    payload = msg;
  }

  abbrev pub numbered : Uniform U → Uniform U
  numbered u = record u {
    broadcast = record (u.broadcast) {
      n_messages_sent = u32 (u.n_messages_sent + 1);
      upper = log_send upper u.upper u.n_messages_sent;
    };
  }

  -- `Send`
  unfoldable pub send : Uniform U → List ℕ → Uniform U
  unfolding log_send send_internal
  send u msg =
      if leb u.n_own_pending_delivery_ideal u.n_own_pending_for_delivery
      then with_queue (u.own_pending_for_broadcast ++ own_message u msg ∷ []) (numbered u)
      else send_internal (count_up (numbered u)) (own_message u msg)

  -- `NotifyInternal`
  unfoldable pub notify_internal : Uniform U → Message → Uniform U
  unfolding best_effort_notify send_internal
  notify_internal u msg =
      let told = record u { broadcast = best_effort_notify upper u.broadcast msg } in
      let acked = record told { acks = add_ack msg.id msg.sender u.acks } in
      if DeliveredSet.contains u.delivered msg.id
      then told
      else if member msg.id u.pending_for_delivery
      then acked
      else send_internal acked msg

  -- `Broadcast::Notify`, with the override of `NotifyInternal`.
  unfoldable pub notify : Uniform U → ℕ → LinkMessage → Uniform U
  unfolding notify_internal
  notify u sender_id msg = elim (parse sender_id msg.payload) [
    | none ↦ u
    | some message ↦ notify_internal u message
  ]

  -- The end of the loop's body: the id is recorded as delivered, and handed to the upper layer.
  abbrev pub record_delivery : MessageId → Uniform U → Uniform U
  record_delivery id u = record u {
    delivered = DeliveredSet.insert u.delivered id;
    acks = remove id u.acks;
    broadcast = record (u.broadcast) { upper = deliver_internal u.upper id true };
  }

  -- What `DeliverPending` does with a message that is seen by a majority and not yet delivered.
  unfoldable pub deliver : Uniform U → MessageId → Uniform U
  unfolding finish_own
  deliver u id = record_delivery id (finish_own (erased id u) id)

  -- The body of the loop of `DeliverPending` for one pending id. Reading `acks_.data[id]` makes the
  -- entry.
  unfoldable pub try_deliver : Uniform U → MessageId → Uniform U
  unfolding deliver
  try_deliver u id =
      let looked = record u { acks = assign id (get_or id [] u.acks) u.acks } in
      if majority_seen u id
      then if DeliveredSet.contains u.delivered id then looked else deliver looked id
      else looked

  -- One round of `DeliverPending`, for the ids in the order in which the set lists them.
  unfoldable pub deliver_pending : Uniform U → List MessageId → Uniform U
  unfolding try_deliver
  deliver_pending u [] = u
  deliver_pending u (id ∷ ids) = deliver_pending (try_deliver u id) ids
