-- ===== src/Fifo/Prefix.antt =====
-- What one author's deliveries come to, whatever the order in which they are handed over.
use distributed_algorithms_p.Prelude.{
  ℕ, suc, ◌-◌, ◌≤◌, ◌<◌, ◌≡◌, ◌∙◌, sym, true, List, [], ◌∷◌, ◌++◌, map, arith, nat_eq, max_seq, All,
  In,
}
use distributed_algorithms_p.Prelude.SortedSet.{contains, contains-Ascends}
use distributed_algorithms_p.Logger.{Line, deliver}
use distributed_algorithms_p.Fifo.{PeerState, new_peer}
use distributed_algorithms_p.Fifo.Release.{write_all}
use distributed_algorithms_p.Prelude.Runs.{count_from}
use distributed_algorithms_p.Fifo.Peer.{
  IsValid, new_peer-IsValid, received, known, final, deliver_seqs, deliver_seqs-IsValid,
  received-deliver_seqs, deliver_seqs-lines,
}
use mathlib.Core.List.{append_assoc, append-nil}

pub write_all-append :
    (author : ℕ) (seqs : List ℕ) (lines : List Line)
    → write_all true author seqs lines ≡ lines ++ map (deliver author) seqs
unfolding write_all
write_all-append author [] lines = sym (append-nil lines)
write_all-append author (seq ∷ seqs) lines =
    write_all-append author seqs _ ∙ append_assoc lines (deliver author seq ∷ []) _

known-In : (m : ℕ) (seqs : List ℕ) → 1 ≤ m → known seqs new_peer m ≡ true → In m seqs
unfolding contains
known-In m [] h k = ground arith
known-In m (x ∷ seqs) h k = ground (arith, known-In m seqs h)

In-known : (m : ℕ) (seqs : List ℕ) (s : PeerState) → In m seqs → known seqs s m ≡ true
In-known m [] s h = absurd h
In-known m (x ∷ seqs) s h = ground (arith, In-known m seqs s)

-- The numbers written are 1, 2, 3 and so on up to the state's next number, which is the least that
-- was not handed over: nothing is skipped, repeated or held back.
abbrev pub IsLongestPrefix : ℕ → List ℕ → PeerState × List Line → Type 0
IsLongestPrefix author seqs (s, lines) =
    (lines ≡ map (deliver author) (count_from 1 (s.next - 1)))
    × ((m : ℕ) → 1 ≤ m → m < s.next → In m seqs)
    × ¬ (In s.next seqs)

-- For any list of sequence numbers below the largest `unsigned int`, handed to a fresh peer state in
-- any order and with any repetitions, the log has exactly the longest run 1, 2, 3, ... of numbers
-- that were all handed over, in ascending order, and the next number was not handed over.
pub deliver_seqs-IsLongestPrefix :
    (author : ℕ) (seqs : List ℕ)
    → All (λ seq. seq < max_seq) seqs
    → IsLongestPrefix author seqs (deliver_seqs author seqs new_peer [])
deliver_seqs-IsLongestPrefix author seqs small = (
  (deliver_seqs-lines author seqs new_peer [] new_peer-IsValid small).1
      ∙ write_all-append author _ [],
  λ m h k. known-In m seqs h (sym (got m) ∙ ground arith),
  λ m. ground (
    arith,
    got s.next,
    In-known s.next seqs new_peer m,
    v,
    contains-Ascends s.next (suc s.next) s.pending,
  ),
)
  where
    s : PeerState
    s = final author seqs new_peer []

    v : IsValid s
    v = deliver_seqs-IsValid author seqs new_peer [] new_peer-IsValid small

    got : (m : ℕ) → received s m ≡ known seqs new_peer m
    got = received-deliver_seqs author seqs new_peer [] new_peer-IsValid small
