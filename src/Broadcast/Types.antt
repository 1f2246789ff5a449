-- ===== src/Broadcast/Types.antt =====
-- `Broadcast::Message` and its `Id`, of src/src/include/broadcast.hpp.
use distributed_algorithms_p.Prelude.{
  ℕ, ◌≡◌, ◌↔◌, Bool, true, ◌&&◌, List, arith, Eq, ltb, if◌then◌else◌, ◌==◌, nat_eq,
}

-- A message is named by its author and the author's own count.
pub record MessageId : Type 0 where
  pub seq : ℕ
  pub author : ℕ

pub record Message : Type 0 where
  pub id : MessageId
  pub sender : ℕ
  pub payload : List ℕ

-- `operator==`
abbrev pub id_beq : MessageId → MessageId → Bool
id_beq id1 id2 = id1.author == id2.author && id1.seq == id2.seq

pub id_beq_iff : (a b : MessageId) → (id_beq a b ≡ true) ↔ (a ≡ b)
id_beq_iff a b = ground arith

instance abbrev pub id_eq : Eq MessageId
id_eq = record { equals = id_beq; equals_iff = id_beq_iff }

-- `operator<`
unfoldable pub id_lt : MessageId → MessageId → Bool
id_lt id1 id2 = if id1.seq == id2.seq then ltb id1.author id2.author else ltb id1.seq id2.seq
