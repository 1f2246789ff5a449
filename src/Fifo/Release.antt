-- ===== src/Fifo/Release.antt =====
-- The loops of `DeliverInternal` in closed form: the run of consecutive numbers at the head of
-- `pending` is released, and no more.
use distributed_algorithms_p.Prelude.{
  ℕ, suc, zero, ◌+◌, ◌≡◌, refl, sym, Bool, List, [], ◌∷◌, ◌++◌, arith, if◌then◌else◌, nat_eq,
  max_seq,
}
use distributed_algorithms_p.Prelude.SortedSet.{Ascends, Below}
use distributed_algorithms_p.Logger.{Line, deliver, write}
use distributed_algorithms_p.Fifo.{Loop, round, release, release_reliable}
use distributed_algorithms_p.Prelude.Runs.{count_from, run_length}
use mathlib.Core.List.{append_assoc, append-nil}

unfoldable pub write_all : Bool → ℕ → List ℕ → List Line → List Line
write_all log author [] lines = lines
write_all log author (seq ∷ seqs) lines =
    write_all log author seqs (if log then write lines (deliver author seq) else lines)

abbrev released : Bool → ℕ → ℕ → Loop → Loop
released log author k s = record {
  next = s.next + k;
  to_remove = s.to_remove ++ count_from s.next k;
  lines = write_all log author (count_from s.next k) s.lines;
}

Loop-eq : {s t : Loop} → s.next ≡ t.next → s.to_remove ≡ t.to_remove → s.lines ≡ t.lines → s ≡ t
Loop-eq p q r = λ i. record { next = p i; to_remove = q i; lines = r i }

pub release_lem :
    (log : Bool) (author : ℕ) (pending : List ℕ) (s : Loop)
    → Ascends s.next pending
    → Below max_seq pending
    → release log author pending s ≡ released log author (run_length s.next pending) s
unfolding round release run_length write_all
release_lem log author [] s a b = Loop-eq (omega arith) (sym (append-nil s.to_remove)) refl
release_lem log author (seq ∷ pending) s a b = ground (
  arith,
  release_lem log author pending (round log author seq s),
  append_assoc s.to_remove (seq ∷ []) (count_from (suc seq) (run_length (suc seq) pending)),
  append-nil s.to_remove,
)

-- The loops of ReliableFIFOBroadcast and UniformFIFOBroadcast, which differ by a repeated test, leave
-- the same next number, list of numbers to remove and log, from any state and for any pending numbers.
pub release_reliable-release :
    (log : Bool) (author : ℕ) (pending : List ℕ) (s : Loop)
    → release_reliable log author pending s ≡ release log author pending s
unfolding release release_reliable
release_reliable-release log author [] s = refl
release_reliable-release log author (seq ∷ pending) s =
    ground (arith, release_reliable-release log author pending (round log author seq s))

pub write_all-count_from :
    (log : Bool) (author j n m k : ℕ) (lines : List Line)
    → m ≡ n + j
    → write_all log author (count_from n (j + k)) lines
      ≡ write_all log author (count_from m k) (write_all log author (count_from n j) lines)
unfolding write_all
write_all-count_from log author zero n m k lines e =
    let e' : m ≡ n = omega arith in let z : zero + k ≡ k = omega arith in rw (e', z)
write_all-count_from log author (suc j) n m k lines e =
    let z : suc j + k ≡ suc (j + k) = omega arith in
    rw z (write_all-count_from log author j (suc n) m k _ (omega arith))
