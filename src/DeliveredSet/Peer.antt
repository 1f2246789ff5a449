-- ===== src/DeliveredSet/Peer.antt =====
-- One author's entry as a set of numbers.
use distributed_algorithms_p.Prelude.{
  ℕ, suc, ◌+◌, ◌≤◌, ◌<◌, ◌≡◌, refl, ap, true, false, List, [], ◌∷◌, ◌++◌, arith, if◌then◌else◌, ltb,
  ◌==◌, nat_eq, max_seq,
}
use distributed_algorithms_p.Prelude.SortedSet.{
  contains, contains-insert, insert-Ascends, insert-Below, contains-Ascends, Ascends, Below,
}
use distributed_algorithms_p.Prelude.Runs.{
  count_from, run_length, drop_run, run_length-Below, drop_run-Ascends, drop_run-Below,
  contains-drop_run, contains-run_length, erase_all-drop_run,
}
use distributed_algorithms_p.Prelude.SortedSet
use distributed_algorithms_p.DeliveredSet.{PeerState, new_peer, peer_contains, compact, peer_insert}
use mathlib.Core.List.{append_assoc, append-nil}

-- What is kept apart lies beyond `bottom_`, which is the least number not delivered.
pub record IsCompact (s : PeerState) : Type 0 where
  pub positive : 1 ≤ s.bottom
  pub bounded : s.bottom ≤ max_seq
  pub ascends : Ascends (suc s.bottom) s.delivered
  pub below : Below max_seq s.delivered

pub new_peer-IsCompact : IsCompact new_peer
new_peer-IsCompact = omega arith

compact_lem :
    (delivered : List ℕ) (bottom : ℕ) (to_remove : List ℕ)
    → Below max_seq delivered
    → bottom ≤ max_seq
    → compact delivered bottom to_remove ≡ (
      bottom + run_length bottom delivered,
      to_remove ++ count_from bottom (run_length bottom delivered),
    )
unfolding compact run_length
compact_lem [] bottom to_remove b h = ground (arith, append-nil to_remove)
compact_lem (seq ∷ delivered) bottom to_remove b h = ground (
  arith,
  compact_lem delivered (suc bottom) (to_remove ++ seq ∷ []),
  append_assoc to_remove (seq ∷ []) (count_from (suc seq) (run_length (suc seq) delivered)),
  append-nil to_remove,
)

module _ {s : PeerState} (seq : ℕ) (v : IsCompact s) (small : seq < max_seq) where
  abbrev gain : ℕ
  gain = run_length (suc s.bottom) s.delivered

  peer_insert_lem : peer_insert s seq ≡ (
      if seq == s.bottom
      then record { bottom = suc s.bottom + gain; delivered = drop_run (suc s.bottom) s.delivered }
      else record s { delivered = SortedSet.insert seq s.delivered })
  unfolding peer_insert
  peer_insert_lem = ground (
    arith,
    compact_lem s.delivered (suc s.bottom) [],
    erase_all-drop_run (suc s.bottom) s.delivered,
    v,
  )

  pub peer_insert-IsCompact : peer_contains s seq ≡ false → IsCompact (peer_insert s seq)
  peer_insert-IsCompact fresh = ground (
    arith,
    peer_insert_lem,
    run_length-Below (suc s.bottom) max_seq s.delivered,
    drop_run-Ascends (suc s.bottom) (suc s.bottom + gain) s.delivered,
    drop_run-Below (suc s.bottom) max_seq s.delivered,
    insert-Ascends seq (suc s.bottom) s.delivered,
    insert-Below seq max_seq s.delivered,
    v,
  )

  pub peer_contains-peer_insert :
      peer_contains s seq ≡ false
      → (m : ℕ)
      → peer_contains (peer_insert s seq) m ≡ (if seq == m then true else peer_contains s m)
  peer_contains-peer_insert fresh m = ground (
    arith,
    peer_insert_lem,
    contains-drop_run (suc s.bottom) m s.delivered,
    contains-run_length (suc s.bottom) m s.delivered,
    contains-insert seq m s.delivered,
    v,
  )

-- Where no number is missing, none is kept apart.
pub delivered-eq-nil :
    (s : PeerState) (n : ℕ)
    → IsCompact s
    → ((m : ℕ) → peer_contains s m ≡ ltb m n)
    → s.delivered ≡ []
unfolding contains
delivered-eq-nil s n v h = from_list s.delivered refl
  where
    from_list : (xs : List ℕ) → s.delivered ≡ xs → s.delivered ≡ []
    from_list [] e = e
    from_list (x ∷ xs) e = ground (
      arith,
      h s.bottom,
      h x,
      ap (contains x) e,
      v,
      contains-Ascends s.bottom (suc s.bottom) s.delivered,
      ap (Ascends (suc s.bottom)) e,
    )
