-- ===== src/Fifo.antt =====
-- The delivery of FIFO broadcast: `PeerState` and `DeliverInternal` of src/src/src/fifo_broadcast.cpp, for
-- both of its classes. `std::set<unsigned>` is `Prelude.SortedSet`.
pub mod Release
pub mod Peer
pub mod Prefix
pub mod Order
pub mod Accepted
use distributed_algorithms_p.Prelude.{
  ℕ, ◌+◌, ◌≡◌, Bool, true, false, List, [], ◌∷◌, ◌++◌, if◌then◌else◌, ltb, u32, nat_eq,
}
use distributed_algorithms_p.Prelude.Map.{get_or, assign}
use distributed_algorithms_p.Prelude.SortedSet.{insert}
use distributed_algorithms_p.Prelude.Runs.{erase_all}
use distributed_algorithms_p.Logger.{Line, deliver, write}
use distributed_algorithms_p.Broadcast.Types.{MessageId}

pub record PeerState : Type 0 where
  pub next : ℕ
  pub pending : List ℕ

abbrev pub new_peer : PeerState
new_peer = record { next = 1; pending = [] }

-- The members that `DeliverInternal` reads and writes: `peer_state_` and the logger.
pub record Fifo : Type 0 where
  pub lines : List Line
  pub peer_state : List (ℕ × PeerState)

abbrev pub new_fifo : Fifo
new_fifo = record { lines = []; peer_state = [] }

-- The variables of the loop over `pending`.
pub record Loop : Type 0 where
  pub next : ℕ
  pub to_remove : List ℕ
  pub lines : List Line

-- One round of the loop that does not break.
unfoldable pub round : Bool → ℕ → ℕ → Loop → Loop
round log author seq s = record {
  next = u32 (s.next + 1);
  to_remove = s.to_remove ++ seq ∷ [];
  lines = if log then write s.lines (deliver author seq) else s.lines;
}

-- `for (const auto seq : state.pending)` of UniformFIFOBroadcast
unfoldable pub release : Bool → ℕ → List ℕ → Loop → Loop
unfolding round
release log author [] s = s
release log author (seq ∷ pending) s =
    let rest = release log author pending (round log author seq s) in
    if ltb s.next seq then s else rest

-- The same of ReliableFIFOBroadcast, which makes the test a second time.
unfoldable pub release_reliable : Bool → ℕ → List ℕ → Loop → Loop
unfolding round
release_reliable log author [] s = s
release_reliable log author (seq ∷ pending) s =
    let rest = release_reliable log author pending (round log author seq s) in
    if ltb s.next seq then s else if ltb s.next seq then s else rest

-- The body of `DeliverInternal` for the peer's state and the log, around one of the two loops.
unfoldable pub deliver_peer :
    (Bool → ℕ → List ℕ → Loop → Loop)
    → MessageId
    → Bool
    → PeerState
    → List Line
    → PeerState × List Line
unfolding erase_all
deliver_peer loop id log state lines =
    let pending = insert id.seq state.pending in
    let out =
      loop log id.author pending (record { next = state.next; to_remove = []; lines = lines }) in
    if ltb id.seq state.next
    then (state, lines)
    else (record { next = out.next; pending = erase_all out.to_remove pending }, out.lines)

-- `peer_state_[id.author]` makes the entry if it is missing.
unfoldable pub deliver_with : (Bool → ℕ → List ℕ → Loop → Loop) → Fifo → MessageId → Bool → Fifo
unfolding deliver_peer
deliver_with loop f id log =
    let (state, lines) =
      deliver_peer loop id log (get_or id.author new_peer f.peer_state) f.lines in
    record { lines = lines; peer_state = assign id.author state f.peer_state }

-- UniformFIFOBroadcast::DeliverInternal
unfoldable pub deliver_internal : Fifo → MessageId → Bool → Fifo
unfolding deliver_with release
deliver_internal = deliver_with release

-- ReliableFIFOBroadcast::DeliverInternal
unfoldable pub reliable_deliver_internal : Fifo → MessageId → Bool → Fifo
unfolding deliver_with release_reliable
reliable_deliver_internal = deliver_with release_reliable
