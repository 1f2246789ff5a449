-- ===== src/PerfectLink/Link.antt =====
-- The state of a `PerfectLink` and its operations. Each returns what it sends or whom it notifies.
use distributed_algorithms_p.Prelude.{
  ℕ, ◌+◌, ◌-◌, ◌*◌, Bool, not, List, [], ◌∷◌, ◌++◌, map, Option, none, some, if◌then◌else◌, leb,
  nat_eq, u32, is_some, is_empty,
}
use distributed_algorithms_p.Prelude.Map.{find, assign, emplace, remove}
use distributed_algorithms_p.Prelude.Set.{insert, erase}
use distributed_algorithms_p.Udp.{Machine, Datagram}
use distributed_algorithms_p.PerfectLink.Codec.{
  Message, Packet, message, ack, serialize, ack_packet, parse,
}

pub record PerfectLink : Type 0 where
  pub id : ℕ
  pub target_id : ℕ
  pub target_addr : Machine
  pub n_messages_sent : ℕ
  -- `std::unordered_set<Ack>`
  pub acks_to_send : List ℕ
  -- `std::unordered_set<Message>`, whose `operator==` compares `seq` alone: payloads by `seq`
  pub messages_to_send : List (ℕ × List ℕ)
  -- when the message was last received
  pub messages_delivered : List (ℕ × ℕ)
  -- the subscribed managers, each named by a number
  pub managers : List ℕ

unfoldable pub new_link : ℕ → ℕ → Machine → PerfectLink
new_link id target_id target_addr = record {
  id = id;
  target_id = target_id;
  target_addr = target_addr;
  n_messages_sent = 1;
  acks_to_send = [];
  messages_to_send = [];
  messages_delivered = [];
  managers = [];
}

unfoldable pub subscribe : PerfectLink → ℕ → PerfectLink
subscribe pl manager = record pl { managers = pl.managers ++ manager ∷ [] }

-- `Send`, with the number that it returns.
unfoldable pub send : PerfectLink → List ℕ → PerfectLink × ℕ
send pl payload = (
  record pl {
    n_messages_sent = u32 (pl.n_messages_sent + 1);
    messages_to_send = emplace pl.n_messages_sent payload pl.messages_to_send;
  },
  pl.n_messages_sent,
)

-- The timeouts, in milliseconds: kFinishSendingAllMsgsMs, kStopSendingAcksTimeoutSec and
-- kRemoveFromDelivered.
abbrev pub finish_sending_all_msgs_ms : ℕ
finish_sending_all_msgs_ms = 100

abbrev pub stop_sending_acks_timeout_ms : ℕ
stop_sending_acks_timeout_ms = finish_sending_all_msgs_ms + 250 + 100

abbrev pub remove_from_delivered_ms : ℕ
remove_from_delivered_ms = stop_sending_acks_timeout_ms * 20

-- `std::difftime(now, then)`. A negative difference is below both timeouts, as 0 is.
abbrev pub delta_ms : ℕ → ℕ → ℕ
delta_ms now then_ = (now - then_) * 1000

pub record AckToRemove : Type 0 where
  pub seq : ℕ
  pub remove_from_delivered : Bool

-- The loop over `messages_delivered_` that fills `acks_to_remove`.
unfoldable pub expired : ℕ → List (ℕ × ℕ) → List AckToRemove
expired now [] = []
expired now ((seq, time) ∷ delivered) =
    let rest = expired now delivered in
    let delta = delta_ms now time in
    if leb stop_sending_acks_timeout_ms delta
    then record { seq = seq; remove_from_delivered = leb remove_from_delivered_ms delta } ∷ rest
    else rest

unfoldable pub forget : List AckToRemove → List (ℕ × ℕ) → List (ℕ × ℕ)
forget [] delivered = delivered
forget (a ∷ acks) delivered =
    forget acks (if a.remove_from_delivered then remove a.seq delivered else delivered)

unfoldable pub erase_acks : List AckToRemove → List ℕ → List ℕ
erase_acks [] to_send = to_send
erase_acks (a ∷ acks) to_send = erase_acks acks (erase a.seq to_send)

-- `CleanAcks`. Compiled with PERFECT_LINKS_STRONG, the link forgets no message.
unfoldable pub clean_acks : Bool → ℕ → PerfectLink → PerfectLink
unfolding expired forget erase_acks
clean_acks strong now pl =
    let acks_to_remove = expired now pl.messages_delivered in
    record pl {
      messages_delivered =
          if strong then pl.messages_delivered else forget acks_to_remove pl.messages_delivered;
      acks_to_send = erase_acks acks_to_remove pl.acks_to_send;
    }

abbrev pub datagram : PerfectLink → List ℕ → Datagram
datagram pl bytes = record { machine = pl.target_addr; bytes = bytes }

-- `SendAcks`, with the datagrams handed to the socket. One that cannot be sent is lost.
unfoldable pub send_acks : Bool → ℕ → PerfectLink → PerfectLink × List Datagram
unfolding clean_acks
send_acks strong now pl =
    if is_empty pl.acks_to_send
    then (pl, [])
    else (clean_acks strong now pl, map (λ i. datagram pl (ack_packet i)) pl.acks_to_send)

-- `SendMessages` changes nothing. It writes each packet to a buffer of `max_send_size` bytes and does not
-- check that it fits; for a longer one what happens is not defined, and this is not what happens.
unfoldable pub send_messages : PerfectLink → List Datagram
send_messages pl =
    map (λ m. datagram pl (serialize (record { seq = m.0; payload = m.1 }))) pl.messages_to_send

-- The steps of `Notify` on a message: before the managers are told, the test, and after.
unfoldable pub record_ack : PerfectLink → ℕ → PerfectLink
record_ack pl seq = record pl { acks_to_send = insert seq pl.acks_to_send }

unfoldable pub is_unseen : PerfectLink → ℕ → Bool
is_unseen pl seq = not (is_some (find seq pl.messages_delivered))

unfoldable pub record_delivered : PerfectLink → ℕ → ℕ → PerfectLink
record_delivered pl seq now = record pl {
  messages_delivered = assign seq now pl.messages_delivered;
}

-- A received ack ends the sending of its message.
unfoldable pub receive_ack : PerfectLink → ℕ → PerfectLink
receive_ack pl ack_id = elim (find ack_id pl.messages_to_send) [
  | none ↦ pl
  | some payload ↦ record pl { messages_to_send = remove ack_id pl.messages_to_send }
]

-- A call of `manager->Notify(sender_id, msg)`.
pub record Upcall : Type 0 where
  pub manager : ℕ
  pub sender_id : ℕ
  pub msg : Message

-- What `Notify` does with a parsed packet.
unfoldable pub on_packet : PerfectLink → Option Packet → ℕ → PerfectLink × List Upcall
unfolding record_ack is_unseen record_delivered receive_ack
on_packet pl none now = (pl, [])
on_packet pl (some (message m)) now = (
  record_delivered (record_ack pl m.seq) m.seq now,
  if is_unseen (record_ack pl m.seq) m.seq
      then map (λ manager. record { manager = manager; sender_id = pl.target_id; msg = m })
          pl.managers
      else [],
)
on_packet pl (some (ack ack_id)) now = (receive_ack pl ack_id, [])

-- `Notify`
unfoldable pub notify : PerfectLink → List ℕ → ℕ → PerfectLink × List Upcall
unfolding on_packet
notify pl bytes now = on_packet pl (parse bytes) now
