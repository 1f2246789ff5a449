-- ===== src/PerfectLink/Codec.antt =====
-- `PerfectLink::Serialize`, `PerfectLink::Parse` and the packet that `SendAcks` builds.
use distributed_algorithms_p.Prelude.{
  ℕ, ◌+◌, ◌≤◌, ◌≡◌, List, ◌∷◌, ◌++◌, Option, none, some, arith, if◌then◌else◌, ◌==◌, nat_eq,
  max_seq, All, length,
}
use distributed_algorithms_p.Bytes.{to_bytes, from_bytes, IsByte}

-- UDP_SERVER_MAX_MSG_SIZE, the size of a packet's buffer.
abbrev pub max_send_size : ℕ
max_send_size = 14

-- kPacketPrefixSize: the packet's type and the sequence number.
abbrev pub packet_prefix_size : ℕ
packet_prefix_size = 5

-- `PacketType`
abbrev pub kack : ℕ
kack = 0

abbrev pub kmsg : ℕ
kmsg = 1

pub record Message : Type 0 where
  pub seq : ℕ
  pub payload : List ℕ

-- `std::variant<Message, Ack>`
pub data Packet : Type 0 where
  message : Message → Packet
  ack : ℕ → Packet

-- The bytes written to the buffer; their number is what the function returns.
unfoldable pub serialize : Message → List ℕ
serialize m = kmsg ∷ to_bytes m.seq ++ m.payload

-- The buffer that `SendAcks` fills.
unfoldable pub ack_packet : ℕ → List ℕ
ack_packet ack_id = kack ∷ to_bytes ack_id

-- Fewer bytes than the prefix, or another type, are no packet. An ack's further bytes are not read.
unfoldable pub parse : List ℕ → Option Packet
parse (t ∷ a ∷ b ∷ c ∷ d ∷ payload) =
    if t == kmsg
    then some (message (record { seq = from_bytes a b c d; payload = payload }))
    else if t == kack
    then some (ack (from_bytes a b c d))
    else none
parse _ = none

-- A message whose number is an `unsigned int` is parsed from its serialization, whatever its payload.
pub parse-serialize : (m : Message) → m.seq ≤ max_seq → parse (serialize m) ≡ some (message m)
unfolding parse serialize
parse-serialize m h = ground arith

pub parse-ack_packet : (n : ℕ) → n ≤ max_seq → parse (ack_packet n) ≡ some (ack n)
unfolding parse ack_packet
parse-ack_packet n h = ground arith

-- Bytes that are parsed as a message are that message's serialization: no two packets are read as
-- the same message.
pub serialize-parse :
    (bytes : List ℕ) (m : Message)
    → All IsByte bytes
    → parse bytes ≡ some (message m)
    → serialize m ≡ bytes
unfolding parse serialize
serialize-parse (t ∷ a ∷ b ∷ c ∷ d ∷ payload) m h e = ground arith
serialize-parse _ m h e = ground arith

pub parse-seq_bound :
    (bytes : List ℕ) (m : Message)
    → All IsByte bytes
    → parse bytes ≡ some (message m)
    → m.seq ≤ max_seq
unfolding parse
parse-seq_bound (t ∷ a ∷ b ∷ c ∷ d ∷ payload) m h e = ground arith
parse-seq_bound _ m h e = ground arith

-- The length of what was read.
pub length-parse :
    (bytes : List ℕ) (m : Message)
    → parse bytes ≡ some (message m)
    → length bytes ≡ packet_prefix_size + length m.payload
unfolding parse
length-parse (t ∷ a ∷ b ∷ c ∷ d ∷ payload) m e = ground arith
length-parse _ m e = ground arith

pub length-serialize : (m : Message) → length (serialize m) ≡ packet_prefix_size + length m.payload
unfolding serialize
length-serialize m = omega arith

-- The two kinds of packet are told apart.
pub not-message-ack_packet : (n : ℕ) (m : Message) → ¬ (parse (ack_packet n) ≡ some (message m))
unfolding parse ack_packet
not-message-ack_packet n m e = ground arith

pub not-ack-serialize : (m : Message) (n : ℕ) → ¬ (parse (serialize m) ≡ some (ack n))
unfolding parse serialize
not-ack-serialize m n e = ground arith
