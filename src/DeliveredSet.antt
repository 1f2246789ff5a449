-- ===== src/DeliveredSet.antt =====
-- `UniformReliableBroadcast::DeliveredSet` of src/src/include/uniform_reliable_broadcast.hpp and
-- src/src/src/uniform_reliable_broadcast.cpp: for each author a bound below which all is delivered, and
-- the numbers delivered above it.
pub mod Peer
pub mod Refinement
use distributed_algorithms_p.Prelude.{
  ℕ, ◌+◌, ◌≡◌, Bool, true, false, List, [], ◌∷◌, ◌++◌, Option, none, some, if◌then◌else◌, ltb, ◌==◌,
  nat_eq, u32, length,
}
use distributed_algorithms_p.Prelude.Map.{find, get_or, assign}
use distributed_algorithms_p.Prelude.SortedSet
use distributed_algorithms_p.Prelude.Runs.{erase_all}
use distributed_algorithms_p.Broadcast.Types.{MessageId}

pub record PeerState : Type 0 where
  pub bottom : ℕ
  pub delivered : List ℕ

abbrev pub new_peer : PeerState
new_peer = record { bottom = 1; delivered = [] }

-- `PeerState::Size`
unfoldable pub peer_size : PeerState → ℕ
peer_size s = length s.delivered

-- `PeerState::Contains`
abbrev pub peer_contains : PeerState → ℕ → Bool
peer_contains s seq = if ltb seq s.bottom then true else SortedSet.contains seq s.delivered

-- The loop over `delivered_`: how far `bottom_` goes, and what `to_remove` collects.
unfoldable pub compact : List ℕ → ℕ → List ℕ → ℕ × List ℕ
compact [] bottom to_remove = (bottom, to_remove)
compact (seq ∷ delivered) bottom to_remove =
    let rest = compact delivered (u32 (bottom + 1)) (to_remove ++ seq ∷ []) in
    if seq == bottom then rest else (bottom, to_remove)

-- `PeerState::Insert`
unfoldable pub peer_insert : PeerState → ℕ → PeerState
unfolding compact
peer_insert s seq =
    let (bottom, to_remove) = compact s.delivered (u32 (s.bottom + 1)) [] in
    if seq == s.bottom
    then record { bottom = bottom; delivered = erase_all to_remove s.delivered }
    else record s { delivered = SortedSet.insert seq s.delivered }

-- `state_`
abbrev pub DeliveredSet : Type 0
DeliveredSet = List (ℕ × PeerState)

-- `DeliveredSet::Contains`
unfoldable pub contains : DeliveredSet → MessageId → Bool
contains s id = elim (find id.author s) [ none ↦ false | some p ↦ peer_contains p id.seq ]

-- `DeliveredSet::Insert`
unfoldable pub insert : DeliveredSet → MessageId → DeliveredSet
unfolding peer_insert
insert s id = assign id.author (peer_insert (get_or id.author new_peer s) id.seq) s

-- `DeliveredSet::Size`
unfoldable pub size : DeliveredSet → ℕ
size [] = 0
size ((author, p) ∷ s) = peer_size p + size s
