-- ===== src/Broadcast/Codec.antt =====
-- `Broadcast::Serialize` and `Broadcast::Parse`, and the room that they need.
use distributed_algorithms_p.Prelude.{
  ℕ, ◌+◌, ◌-◌, ◌≤◌, ◌≡◌, List, ◌∷◌, ◌++◌, Option, none, some, arith, max_seq, All, length,
}
use distributed_algorithms_p.Bytes.{to_bytes, from_bytes, IsByte}
use distributed_algorithms_p.PerfectLink.Codec.{Message as LinkMessage, message}
use distributed_algorithms_p.PerfectLink.Codec
use distributed_algorithms_p.Broadcast.Types.{Message}

-- kPacketPrefixSize: the author and the sequence number.
abbrev pub packet_prefix_size : ℕ
packet_prefix_size = 8

-- The size of the buffer in `BestEffortBroadcast::SendInternal`.
abbrev pub buffer_size : ℕ
buffer_size = Codec.max_send_size - Codec.packet_prefix_size

-- The bytes written to the buffer; their number is what the function returns.
unfoldable pub serialize : Message → List ℕ
serialize m = to_bytes m.id.author ++ to_bytes m.id.seq ++ m.payload

-- The sender is not on the wire: it is the process at the link's other end.
unfoldable pub parse : ℕ → List ℕ → Option Message
parse sender_id (a ∷ b ∷ c ∷ d ∷ s ∷ t ∷ u ∷ v ∷ payload) = some (record {
  id = record { seq = from_bytes s t u v; author = from_bytes a b c d };
  sender = sender_id;
  payload = payload;
})
parse sender_id _ = none

pub parse-serialize :
    (sender_id : ℕ) (m : Message)
    → m.id.author ≤ max_seq
    → m.id.seq ≤ max_seq
    → parse sender_id (serialize m) ≡ some (record m { sender = sender_id })
unfolding parse serialize
parse-serialize sender_id m ha hs = ground arith

pub length-serialize : (m : Message) → length (serialize m) ≡ packet_prefix_size + length m.payload
unfolding serialize
length-serialize m = omega arith

-- A broadcast message whose payload leaves room for the id in the buffer of
-- `BestEffortBroadcast::SendInternal`: what is written to that buffer fits it, the packet of the link fits
-- what the link writes it to and the server reads, and it is parsed, by the link and then by the
-- broadcast layer at the other end, to the same id and payload; its sender is the process at the
-- link's other end. The author, the number and the link's number are `unsigned int`s.
pub wire :
    (sender_id link_seq : ℕ) (m : Message)
    → m.id.author ≤ max_seq
    → m.id.seq ≤ max_seq
    → link_seq ≤ max_seq
    → packet_prefix_size + length m.payload ≤ buffer_size
    → (length (serialize m) ≤ buffer_size)
      × (length (Codec.serialize (record { seq = link_seq; payload = serialize m }))
          ≤ Codec.max_send_size)
      × (Codec.parse (Codec.serialize (record { seq = link_seq; payload = serialize m }))
          ≡ some (message (record { seq = link_seq; payload = serialize m })))
      × (parse sender_id (serialize m) ≡ some (record m { sender = sender_id }))
wire sender_id link_seq m ha hs hl small = (
  omega (arith, small, length-serialize m),
  omega (
    arith,
    small,
    length-serialize m,
    Codec.length-serialize (record { seq = link_seq; payload = serialize m }),
  ),
  Codec.parse-serialize _ hl,
  parse-serialize sender_id m ha hs,
)

pub serialize-parse :
    (sender_id : ℕ) (bytes : List ℕ) (m : Message)
    → All IsByte bytes
    → parse sender_id bytes ≡ some m
    → (serialize m ≡ bytes) × (m.sender ≡ sender_id)
unfolding parse serialize
serialize-parse sender_id (a ∷ b ∷ c ∷ d ∷ s ∷ t ∷ u ∷ v ∷ payload) m h e = ground arith
serialize-parse sender_id _ m h e = ground arith

pub length-parse :
    (sender_id : ℕ) (bytes : List ℕ) (m : Message)
    → parse sender_id bytes ≡ some m
    → length bytes ≡ packet_prefix_size + length m.payload
unfolding parse
length-parse sender_id (a ∷ b ∷ c ∷ d ∷ s ∷ t ∷ u ∷ v ∷ payload) m e = ground arith
length-parse sender_id _ m e = ground arith

-- A message that came in a packet fits the buffers when it is relayed: that of the broadcast layer,
-- and that of the link, whatever number the link gives it.
pub relay_fits :
    (sender_id link_seq : ℕ) (bytes : List ℕ) (packet : LinkMessage) (m : Message)
    → length bytes ≤ Codec.max_send_size
    → Codec.parse bytes ≡ some (message packet)
    → parse sender_id packet.payload ≡ some m
    → (length (serialize m) ≤ buffer_size)
      × (length (Codec.serialize (record { seq = link_seq; payload = serialize m }))
          ≤ Codec.max_send_size)
unfolding serialize Codec.serialize
relay_fits sender_id link_seq bytes packet m fits e p =
    omega (arith, Codec.length-parse bytes packet e, length-parse sender_id packet.payload m p)
