-- ===== src/Broadcast.antt =====
-- `Broadcast` and `BestEffortBroadcast`: src/src/src/broadcast.cpp and src/src/src/best_effort_broadcast.cpp.
pub mod Types
pub mod Codec
use distributed_algorithms_p.Prelude.{
  ℕ, ◌+◌, ◌≡◌, Bool, true, false, List, [], ◌∷◌, ◌++◌, map, Option, none, some, if◌then◌else◌, u32,
}
use distributed_algorithms_p.Logger.{Line, broadcast, deliver}
use distributed_algorithms_p.PerfectLink.Codec.{Message as LinkMessage}
use distributed_algorithms_p.PerfectLink.Link.{send as link_send}
use distributed_algorithms_p.Manager.{Manager, Links, new_manager}
use Types.{Message, MessageId}
use Codec.{serialize, parse}

-- What a subclass adds: the state that its `DeliverInternal` works on, with the log, which
-- `logger_ <<` extends. `deliver_internal u id log` is the virtual call `DeliverInternal(id, log)`.
pub record Upper (U : Type 0) : Type 0 where
  pub log : U → Line → U
  pub deliver_internal : U → MessageId → Bool → U

-- The members of `Broadcast`, with those of the base class and `deliver_to_upper_layer_`.
pub record Broadcast (U : Type 0) : Type 0 where
  pub manager : Manager
  pub open manager use *
  pub id : ℕ
  pub n_messages_sent : ℕ
  pub deliver_to_upper_layer : Bool
  pub upper : U

abbrev pub new_broadcast : {U : Type 0} → ℕ → Bool → U → Broadcast U
new_broadcast id deliver_to_upper_layer upper = record {
  manager = new_manager;
  id = id;
  n_messages_sent = 1;
  deliver_to_upper_layer = deliver_to_upper_layer;
  upper = upper;
}

-- `pl->Send(buffer, len)` for every link.
unfoldable pub send_all : List ℕ → Links → Links
send_all bytes = map (λ l. (l.0, (link_send l.1 bytes).0))

-- `BestEffortBroadcast::SendInternal`. It writes the message to a buffer of `buffer_size` bytes and does
-- not check that it fits; for a longer one what happens is not defined, and this is not what happens.
unfoldable pub best_effort_send : {U : Type 0} → Broadcast U → Message → Broadcast U
best_effort_send b msg = record b {
  manager = record (b.manager) { perfect_links = send_all (serialize msg) b.perfect_links };
}

module _ {U : Type 0} (upper : Upper U) where
  open upper use {log, deliver_internal}

  -- `LogSend` and `LogDeliver`
  unfoldable pub log_send : U → ℕ → U
  log_send u seq = log u (broadcast seq)

  unfoldable pub log_deliver : U → MessageId → U
  log_deliver u id = log u (deliver id.author id.seq)

  -- `BestEffortBroadcast::DeliverInternal`, the same as that of UniformReliableBroadcast
  unfoldable pub best_effort_deliver : U → MessageId → Bool → U
  unfolding log_deliver
  best_effort_deliver u id do_log = if do_log then log_deliver u id else u

  -- `BestEffortBroadcast::NotifyInternal`
  unfoldable pub best_effort_notify : Broadcast U → Message → Broadcast U
  unfolding best_effort_deliver
  best_effort_notify b msg = record b {
    upper =
        if b.deliver_to_upper_layer
        then deliver_internal b.upper msg.id true
        else best_effort_deliver b.upper msg.id false;
  }

  -- `Broadcast::Send`, which BestEffortBroadcast and ReliableFIFOBroadcast inherit.
  unfoldable pub send : Broadcast U → List ℕ → Broadcast U
  unfolding log_send best_effort_send
  send b msg =
      let seq = b.n_messages_sent in
      let id : MessageId = record { seq = seq; author = b.id } in
      let message : Message = record { id = id; sender = b.id; payload = msg } in
      best_effort_send (record b { n_messages_sent = u32 (seq + 1); upper = log_send b.upper seq })
        message

  -- `Broadcast::Notify`, for BestEffortBroadcast and ReliableFIFOBroadcast.
  unfoldable pub notify : Broadcast U → ℕ → LinkMessage → Broadcast U
  unfolding best_effort_notify
  notify b sender_id msg = elim (parse sender_id msg.payload) [
    | none ↦ b
    | some message ↦ best_effort_notify b message
  ]
