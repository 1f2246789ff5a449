-- ===== src/Fifo/Peer.antt =====
-- One peer's state: which numbers it has been given, and which it has released to the log.
use distributed_algorithms_p.Prelude.{
  ℕ, suc, ◌+◌, ◌-◌, ◌≤◌, ◌<◌, ◌≡◌, refl, ◌∙◌, Bool, true, List, [], ◌∷◌, arith, if◌then◌else◌, ltb,
  ◌==◌, nat_eq, max_seq, All, Bool-cases, inl, inr,
}
use distributed_algorithms_p.Prelude.SortedSet.{
  insert, contains, contains-insert, insert-Ascends, insert-Below, Ascends, Below, Ascends-lower,
}
use distributed_algorithms_p.Logger.{Line}
use distributed_algorithms_p.Broadcast.Types.{MessageId}
use distributed_algorithms_p.Fifo.{PeerState, new_peer, release, deliver_peer}
use distributed_algorithms_p.Fifo.Release.{write_all, release_lem, write_all-count_from}
use distributed_algorithms_p.Prelude.Runs.{
  count_from, run_length, drop_run, run_length-Below, drop_run-Ascends, drop_run-Below,
  contains-drop_run, contains-run_length, erase_all-drop_run,
}

-- All that waits lies beyond the next number.
pub record IsValid (s : PeerState) : Type 0 where
  pub positive : 1 ≤ s.next
  pub bounded : s.next ≤ max_seq
  pub ascends : Ascends (suc s.next) s.pending
  pub below : Below max_seq s.pending

-- The numbers that the peer has been given, and those before 1.
abbrev pub received : PeerState → ℕ → Bool
received s m = if ltb m s.next then true else contains m s.pending

pub new_peer-IsValid : IsValid new_peer
new_peer-IsValid = omega arith

module _ (id : MessageId) (log : Bool) {s : PeerState} (lines : List Line) (v : IsValid s)
    (small : id.seq < max_seq) where
  abbrev accepted : List ℕ
  accepted = insert id.seq s.pending

  abbrev gain : ℕ
  gain = run_length s.next accepted

  accepted-Ascends : s.next ≤ id.seq → Ascends s.next accepted
  accepted-Ascends h =
      insert-Ascends id.seq s.next s.pending h
        (Ascends-lower s.next (suc s.next) s.pending (omega arith) v.ascends)

  accepted-Below : Below max_seq accepted
  accepted-Below = insert-Below id.seq max_seq s.pending small v.below

  -- The state and the log after a call that does not return at once.
  abbrev after : PeerState × List Line
  after = (
    record { next = s.next + gain; pending = drop_run s.next accepted },
    write_all log id.author (count_from s.next gain) lines,
  )

  pub deliver_peer_lem :
      deliver_peer release id log s lines ≡ (if ltb id.seq s.next then (s, lines) else after)
  unfolding deliver_peer
  deliver_peer_lem = elim (Bool-cases (ltb id.seq s.next)) [
    | inl old ↦ rw old
    | inr fresh ↦ rw (
      fresh,
      release_lem log id.author accepted (record { next = s.next; to_remove = []; lines = lines })
          (accepted-Ascends (ground arith)) accepted-Below,
      erase_all-drop_run s.next accepted (accepted-Ascends (ground arith)),
    )
  ]

  -- The peer's state after the call.
  abbrev next_state : PeerState
  next_state = (deliver_peer release id log s lines).0

  pub deliver_peer-IsValid : IsValid next_state
  deliver_peer-IsValid = ground (
    arith,
    deliver_peer_lem,
    v,
    run_length-Below s.next max_seq accepted,
    accepted-Below,
    drop_run-Ascends s.next (s.next + gain) accepted,
    drop_run-Below s.next max_seq accepted,
    λ (h : s.next ≤ id.seq). accepted-Ascends h,
  )

  -- A call adds its own number to those received, and no other.
  pub received-deliver_peer :
      (m : ℕ) → received next_state m ≡ (if id.seq == m then true else received s m)
  received-deliver_peer m = ground (
    arith,
    deliver_peer_lem,
    contains-drop_run s.next m accepted,
    contains-run_length s.next m accepted,
    λ (h : s.next ≤ id.seq). accepted-Ascends h,
    contains-insert id.seq m s.pending,
  )

  -- The log grows by the numbers from the old `next` up to the new one.
  pub deliver_peer-lines :
      (s.next ≤ next_state.next)
      × ((deliver_peer release id log s lines).1
          ≡ write_all log id.author (count_from s.next (next_state.next - s.next)) lines)
  unfolding write_all
  deliver_peer-lines = ground (arith, deliver_peer_lem)

-- The calls for one author, in the order in which they come.
unfoldable pub deliver_seqs : ℕ → List ℕ → PeerState → List Line → PeerState × List Line
deliver_seqs author [] s lines = (s, lines)
deliver_seqs author (seq ∷ seqs) s lines =
    let (s', lines') = deliver_peer release (record { seq = seq; author = author }) true s lines in
    deliver_seqs author seqs s' lines'

-- The number is in the list, or the state has it already.
abbrev pub known : List ℕ → PeerState → ℕ → Bool
known [] s m = received s m
known (seq ∷ seqs) s m = if seq == m then true else known seqs s m

known-step :
    (seq m : ℕ) (seqs : List ℕ) (s t : PeerState)
    → received t m ≡ (if seq == m then true else received s m)
    → known seqs t m ≡ (if seq == m then true else known seqs s m)
known-step seq m [] s t h = h
known-step seq m (x ∷ seqs) s t h = ground (arith, known-step seq m seqs s t h)

module _ (author : ℕ) where
  abbrev pub final : List ℕ → PeerState → List Line → PeerState
  final seqs s lines = (deliver_seqs author seqs s lines).0

  pub deliver_seqs-IsValid :
      (seqs : List ℕ) (s : PeerState) (lines : List Line)
      → IsValid s
      → All (λ seq. seq < max_seq) seqs
      → IsValid (final seqs s lines)
  unfolding deliver_seqs
  deliver_seqs-IsValid [] s lines v small = v
  deliver_seqs-IsValid (seq ∷ seqs) s lines v small =
      deliver_seqs-IsValid seqs _ _ (deliver_peer-IsValid _ true lines v small.0) small.1

  pub received-deliver_seqs :
      (seqs : List ℕ) (s : PeerState) (lines : List Line)
      → IsValid s
      → All (λ seq. seq < max_seq) seqs
      → (m : ℕ) → received (final seqs s lines) m ≡ known seqs s m
  unfolding deliver_seqs
  received-deliver_seqs [] s lines v small m = refl
  received-deliver_seqs (seq ∷ seqs) s lines v small m =
      received-deliver_seqs seqs _ _ (deliver_peer-IsValid _ true lines v small.0) small.1 m
      ∙ known-step seq m seqs s _ (received-deliver_peer _ true lines v small.0 m)

  pub deliver_seqs-lines :
      (seqs : List ℕ) (s : PeerState) (lines : List Line)
      → IsValid s
      → All (λ seq. seq < max_seq) seqs
      → (s.next ≤ (final seqs s lines).next)
        × ((deliver_seqs author seqs s lines).1
            ≡ write_all true author (count_from s.next ((final seqs s lines).next - s.next)) lines)
  unfolding deliver_seqs write_all
  deliver_seqs-lines [] s lines v small = ground arith
  deliver_seqs-lines (seq ∷ seqs) s lines v small =
      let id : MessageId = record { seq = seq; author = author } in
      let s' : PeerState = (deliver_peer release id true s lines).0 in
      let lines' : List Line = (deliver_peer release id true s lines).1 in
      ground (
        arith,
        deliver_peer-lines id true lines v small.0,
        deliver_seqs-lines seqs s' lines' (deliver_peer-IsValid id true lines v small.0) small.1,
        write_all-count_from true author (s'.next - s.next) s.next s'.next
            ((final seqs s' lines').next - s'.next) lines,
      )
