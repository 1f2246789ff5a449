-- ===== src/Fifo/Accepted.antt =====
-- What the lines of a log are that the check of tools/validate_fifo.py accepts.
use distributed_algorithms_p.Prelude.{
  ℕ, ◌+◌, ◌≤◌, ◌<◌, ◌≡◌, ◌↔◌, List, [], ◌∷◌, arith, ◌==◌, nat_eq, if◌then◌else◌, some, In, inl, inr,
  Option-cases,
}
use distributed_algorithms_p.Logger.{Line, broadcast, deliver}
use distributed_algorithms_p.Fifo.Order.{Checker, check_line, check_process}

-- A line that the check accepts is the broadcast that it expects, or the delivery.
abbrev IsTaken : Checker → Checker → Line → Type 0
IsTaken c d (broadcast msg) =
    (msg ≡ c.i) × (d.i ≡ c.i + 1) × ((a : ℕ) → d.next_message a ≡ c.next_message a)
IsTaken c d (deliver sender msg) =
    (msg ≡ c.next_message sender)
    × (d.i ≡ c.i)
    × ((a : ℕ) → d.next_message a ≡ (if sender == a then msg + 1 else c.next_message a))

check_line-IsTaken : (c d : Checker) (l : Line) → check_line c l ≡ some d → IsTaken c d l
unfolding check_line
check_line-IsTaken c d (broadcast msg) e = ground (arith, e)
check_line-IsTaken c d (deliver sender msg) e = ground (arith, e)

-- The first line is taken, and the others are checked after it.
check_process-first :
    (l : Line) (lines : List Line) (c d : Checker)
    → check_process c (l ∷ lines) ≡ some d
    → (b : Checker) × IsTaken c b l × (check_process b lines ≡ some d)
unfolding check_process
check_process-first l lines c d e = elim (Option-cases (check_line c l)) [
  | inl stop ↦ ground (arith, e, stop)
  | inr (b, go) ↦ (b, check_line-IsTaken c b l go, ground (arith, e, go))
]

-- A log from one state of the check to another has the broadcasts of the numbers between.
pub check_process-broadcasts :
    (lines : List Line) (c d : Checker) (seq : ℕ)
    → check_process c lines ≡ some d
    → (c.i ≤ d.i) × (In (broadcast seq) lines ↔ ((c.i ≤ seq) × (seq < d.i)))
unfolding check_process
check_process-broadcasts [] c d seq e = ground (arith, e)
check_process-broadcasts (broadcast msg ∷ lines) c d seq e =
    let (b, taken, after) = check_process-first (broadcast msg) lines c d e in
    let rest = check_process-broadcasts lines b d seq after in ground (arith, taken, rest)
check_process-broadcasts (deliver sender msg ∷ lines) c d seq e =
    let (b, taken, after) = check_process-first (deliver sender msg) lines c d e in
    let rest = check_process-broadcasts lines b d seq after in ground (arith, taken, rest)

-- And, of each author, the deliveries.
pub check_process-delivers :
    (lines : List Line) (c d : Checker) (author seq : ℕ)
    → check_process c lines ≡ some d
    → (c.next_message author ≤ d.next_message author)
      × (In (deliver author seq) lines
          ↔ ((c.next_message author ≤ seq) × (seq < d.next_message author)))
unfolding check_process
check_process-delivers [] c d author seq e = ground (arith, e)
check_process-delivers (broadcast msg ∷ lines) c d author seq e =
    let (b, taken, after) = check_process-first (broadcast msg) lines c d e in
    let rest = check_process-delivers lines b d author seq after in
    ground (arith, taken, taken.2 author, rest)
check_process-delivers (deliver sender msg ∷ lines) c d author seq e =
    let (b, taken, after) = check_process-first (deliver sender msg) lines c d e in
    let rest = check_process-delivers lines b d author seq after in
    ground (arith, taken, taken.2 author, rest)
