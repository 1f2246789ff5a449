-- ===== src/Uniform/OwnCount.antt =====
-- How many ids of a set have a given author.
use distributed_algorithms_p.Prelude.{
  ◌≤◌, Bool-cases, inl, inr, nat_beq_iff, ℕ, suc, ◌≡◌, refl, true, false, List, [], ◌∷◌, arith,
  if◌then◌else◌, ◌==◌, nat_eq,
}
use distributed_algorithms_p.Prelude.Set.{member, insert, erase, Distinct}
use distributed_algorithms_p.Broadcast.Types.{MessageId, id_eq, id_beq_iff}

-- How many of the ids have that author.
unfoldable pub own_count : ℕ → List MessageId → ℕ
own_count author [] = 0
own_count author (id ∷ ids) =
    let rest = own_count author ids in if id.author == author then suc rest else rest

pub own_count-insert :
    (author : ℕ) (id : MessageId) (ids : List MessageId)
    → own_count author (insert id ids) ≡ (
        if member id ids
        then own_count author ids
        else if id.author == author
        then suc (own_count author ids)
        else own_count author ids)
unfolding own_count insert
own_count-insert author id ids = ground arith

own_count-erase_absent :
    (author : ℕ) (id : MessageId) (ids : List MessageId)
    → member id ids ≡ false
    → own_count author (erase id ids) ≡ own_count author ids
unfolding own_count erase member
own_count-erase_absent author id [] h = refl
own_count-erase_absent author id (x ∷ ids) h = ground (arith, own_count-erase_absent author id ids)

pub own_count-erase :
    (author : ℕ) (id : MessageId) (ids : List MessageId)
    → Distinct ids
    → member id ids ≡ true
    → own_count author ids ≡ (
        if id.author == author
        then suc (own_count author (erase id ids))
        else own_count author (erase id ids))
unfolding own_count erase member
own_count-erase author id [] d h = cc
own_count-erase author id (x ∷ ids) d h = ground (
  arith,
  own_count-erase author id ids d.1,
  own_count-erase_absent author id ids,
  id_beq_iff x id,
)

-- One of them, when there is one.
pub own_count-member :
    (author : ℕ) (ids : List MessageId)
    → 1 ≤ own_count author ids
    → (id : MessageId) × (member id ids ≡ true) × (id.author ≡ author)
unfolding own_count member
own_count-member author [] h = absurd (omega arith)
own_count-member author (x ∷ ids) h = elim (Bool-cases (x.author == author)) [
  | inl own ↦ (x, ground (arith, id_beq_iff x x), (nat_beq_iff x.author author).0 own)
  | inr other ↦ let (id, m, a) = own_count-member author ids (ground arith) in (id, ground arith, a)
]
