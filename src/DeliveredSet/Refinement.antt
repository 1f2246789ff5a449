-- ===== src/DeliveredSet/Refinement.antt =====
-- The compressed set is a set of message ids.
use distributed_algorithms_p.Prelude.{
  ℕ, ◌≤◌, ◌<◌, ◌≡◌, refl, sym, ◌∙◌, true, false, List, [], ◌∷◌, arith, if◌then◌else◌, ltb, ◌==◌,
  nat_eq, max_seq, Bool-cases, All, inl, inr,
}
use distributed_algorithms_p.Prelude.Map.{find, get_or, assign, get_or-assign}
use distributed_algorithms_p.Prelude.Set.{member}
use distributed_algorithms_p.Prelude.SortedSet
use distributed_algorithms_p.Broadcast.Types.{MessageId, id_eq, id_beq_iff}
use distributed_algorithms_p.DeliveredSet.{
  PeerState, DeliveredSet, new_peer, peer_contains, peer_insert, contains, insert,
}
use distributed_algorithms_p.DeliveredSet.Peer.{
  IsCompact, new_peer-IsCompact, peer_insert-IsCompact, peer_contains-peer_insert, delivered-eq-nil,
}

-- A sequence number that a process gives out: they start from 1, and do not wrap around.
abbrev pub IsNumbered : MessageId → Type 0
IsNumbered id = (1 ≤ id.seq) × (id.seq < max_seq)

abbrev pub IsValid : DeliveredSet → Type 0
IsValid s = (author : ℕ) → IsCompact (get_or author new_peer s)

pub nil-IsValid : IsValid []
unfolding get_or find
nil-IsValid author = new_peer-IsCompact

-- An author with no entry has delivered nothing that it could have sent.
contains-get_or :
    (s : DeliveredSet) (id : MessageId)
    → 1 ≤ id.seq
    → contains s id ≡ peer_contains (get_or id.author new_peer s) id.seq
unfolding contains get_or SortedSet.contains
contains-get_or s id h = ground arith

pub insert-IsValid :
    (s : DeliveredSet) (id : MessageId)
    → IsValid s
    → IsNumbered id
    → contains s id ≡ false
    → IsValid (insert s id)
unfolding insert
insert-IsValid s id v n fresh author =
    rw (get_or-assign id.author author new_peer (peer_insert p id.seq) s)
      (elim (Bool-cases (id.author == author)) [
        | inl same ↦ rw same (
            peer_insert-IsCompact id.seq (v id.author) n.1 (sym (contains-get_or s id n.0) ∙ fresh))
        | inr other ↦ rw other (v author)
      ])
  where
    p : PeerState
    p = get_or id.author new_peer s

pub contains-insert :
    (s : DeliveredSet) (id j : MessageId)
    → IsValid s
    → IsNumbered id
    → contains s id ≡ false
    → 1 ≤ j.seq
    → contains (insert s id) j ≡ (if id == j then true else contains s j)
unfolding insert
contains-insert s id j v n fresh h =
    let p : PeerState = get_or id.author new_peer s in
    ground (
      arith,
      contains-get_or (assign id.author (peer_insert p id.seq) s) j,
      contains-get_or s j,
      contains-get_or s id n.0,
      get_or-assign id.author j.author new_peer (peer_insert p id.seq) s,
      peer_contains-peer_insert id.seq (v id.author) n.1 (sym (contains-get_or s id n.0) ∙ fresh)
          j.seq,
    )

-- The guarded insertion of `DeliverPending`, for one id after the other.
abbrev pub insert_new : DeliveredSet → MessageId → DeliveredSet
insert_new s id = if contains s id then s else insert s id

unfoldable pub insert_all : DeliveredSet → List MessageId → DeliveredSet
insert_all s [] = s
insert_all s (id ∷ ids) = insert_all (insert_new s id) ids

insert_new-IsValid :
    (s : DeliveredSet) (id : MessageId) → IsValid s → IsNumbered id → IsValid (insert_new s id)
insert_new-IsValid s id v n = elim (Bool-cases (contains s id)) [
  | inl old ↦ rw old v
  | inr fresh ↦ rw fresh (insert-IsValid s id v n fresh)
]

contains-insert_new :
    (s : DeliveredSet) (id j : MessageId)
    → IsValid s
    → IsNumbered id
    → 1 ≤ j.seq
    → contains (insert_new s id) j ≡ (if id == j then true else contains s j)
contains-insert_new s id j v n h = elim (Bool-cases (contains s id)) [
  | inl old ↦ rw old (elim (Bool-cases (id == j)) [
    | inl same ↦ rw (same, ← (id_beq_iff id j).0 same) old
    | inr other ↦ rw other
  ])
  | inr fresh ↦ rw fresh (contains-insert s id j v n fresh h)
]

contains-insert_all_from :
    (s : DeliveredSet) (ids : List MessageId) (j : MessageId)
    → IsValid s
    → All IsNumbered ids
    → 1 ≤ j.seq
    → contains (insert_all s ids) j ≡ (if member j ids then true else contains s j)
unfolding insert_all member
contains-insert_all_from s [] j v n h = refl
contains-insert_all_from s (id ∷ ids) j v n h = ground (
  arith,
  contains-insert_all_from (insert_new s id) ids j (insert_new-IsValid s id v n.0) n.1 h,
  contains-insert_new s id j v n.0 h,
)

insert_all-IsValid :
    (s : DeliveredSet) (ids : List MessageId)
    → IsValid s
    → All IsNumbered ids
    → IsValid (insert_all s ids)
unfolding insert_all
insert_all-IsValid s [] v n = v
insert_all-IsValid s (id ∷ ids) v n =
    insert_all-IsValid (insert_new s id) ids (insert_new-IsValid s id v n.0) n.1

-- After any numbered ids have been put in, each if it was not yet there, the compressed set holds
-- exactly those ids among the numbered ones; and an author whose delivered numbers are 1 to n - 1
-- takes no room for them.
pub insert_all-refines :
    (ids : List MessageId)
    → All IsNumbered ids
    → ((j : MessageId) → 1 ≤ j.seq → contains (insert_all [] ids) j ≡ member j ids)
      × ((author n : ℕ)
          → ((m : ℕ) → peer_contains (get_or author new_peer (insert_all [] ids)) m ≡ ltb m n)
          → (get_or author new_peer (insert_all [] ids)).delivered ≡ [])
unfolding contains find
insert_all-refines ids n = (
  λ j h. contains-insert_all_from [] ids j nil-IsValid n h ∙ ground arith,
  λ author k h. delivered-eq-nil _ k (insert_all-IsValid [] ids nil-IsValid n author) h,
)
