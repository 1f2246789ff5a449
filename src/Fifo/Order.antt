-- ===== src/Fifo/Order.antt =====
-- The whole log, of all authors, against the check of tools/validate_fifo.py.
use distributed_algorithms_p.Prelude.{
  ℕ, zero, suc, ◌+◌, ◌-◌, ◌<◌, ◌≡◌, refl, ◌∙◌, true, List, [], ◌∷◌, arith, if◌then◌else◌, ◌==◌,
  nat_eq, max_seq, inl, inr, Option, some, none, ==_refl, Bool-cases, Option-cases,
}
use distributed_algorithms_p.Prelude.Map.{get_or, get_or-assign, find}
use distributed_algorithms_p.Logger.{Line, broadcast, deliver, write}
use distributed_algorithms_p.Broadcast.Types.{MessageId}
use distributed_algorithms_p.Fifo.{
  PeerState, new_peer, Fifo, new_fifo, release, deliver_peer, deliver_internal,
}
use distributed_algorithms_p.Fifo.Release.{write_all}
use distributed_algorithms_p.Prelude.Runs.{count_from}
use distributed_algorithms_p.Fifo.Peer.{
  IsValid, new_peer-IsValid, deliver_peer-IsValid, deliver_peer-lines,
}

-- The variables of `checkProcess`: the next number to broadcast, and `nextMessage` for each sender.
pub record Checker : Type 0 where
  pub i : ℕ
  pub next_message : ℕ → ℕ

abbrev pub checker : Checker
checker = record { i = 1; next_message = λ sender. 1 }

unfoldable pub check_line : Checker → Line → Option Checker
check_line c (broadcast msg) = if msg == c.i then some (record c { i = c.i + 1 }) else none
check_line c (deliver sender msg) =
    if msg == c.next_message sender
    then some (record c { next_message = λ s. if sender == s then msg + 1 else c.next_message s })
    else none

-- `none` is the return of `False`.
unfoldable pub check_process : Checker → List Line → Option Checker
unfolding check_line
check_process c [] = some c
check_process c (l ∷ lines) = elim (check_line c l) [ none ↦ none | some d ↦ check_process d lines ]

-- The log passes the check, which then expects broadcast `i` and from each sender `next`.
pub record Accepts (lines : List Line) (i : ℕ) (next : ℕ → ℕ) : Type 0 where
  pub final : Checker
  pub passes : check_process checker lines ≡ some final
  pub count : final.i ≡ i
  pub nexts : (sender : ℕ) → final.next_message sender ≡ next sender

check_process-write :
    (lines : List Line) (l : Line) (c d : Checker)
    → check_process c lines ≡ some d
    → check_process c (write lines l) ≡ check_line d l
unfolding check_process
check_process-write [] l c d e = ground arith
check_process-write (m ∷ lines) l c d e = elim (Option-cases (check_line c m)) [
  | inl stop ↦ ground arith
  | inr (c', go) ↦ ground (arith, check_process-write lines l c' d)
]

pub write-broadcast-Accepts :
    {lines : List Line} {i : ℕ} {next : ℕ → ℕ}
    → Accepts lines i next
    → Accepts (write lines (broadcast i)) (i + 1) next
unfolding check_line
write-broadcast-Accepts {lines} {i} a = record {
  final = record a.final { i = i + 1 };
  passes =
      ground (arith, check_process-write lines (broadcast i) checker a.final, a.passes, a.count);
  count = refl;
  nexts = a.nexts;
}

pub write-deliver-Accepts :
    {lines : List Line} {i : ℕ} {next : ℕ → ℕ} (author n : ℕ) (next' : ℕ → ℕ)
    → Accepts lines i next
    → next author ≡ n
    → ((s : ℕ) → next' s ≡ (if author == s then n + 1 else next s))
    → Accepts (write lines (deliver author n)) i next'
unfolding check_line
write-deliver-Accepts {lines} {i} {next} author n next' a e h = record {
  final = record a.final {
    next_message = λ s. if author == s then n + 1 else a.final.next_message s;
  };
  passes =
      check_process-write lines (deliver author n) checker a.final a.passes
      ∙ rw (a.nexts author, e, ==_refl n);
  count = a.count;
  nexts = λ s. ground (arith, h s, a.nexts s);
}

abbrev pub next_of : List (ℕ × PeerState) → ℕ → ℕ
next_of peers author = (get_or author new_peer peers).next

-- Every peer's state is valid, and the log is one that the check accepts, at the peers' numbers.
pub record IsOrdered (i : ℕ) (f : Fifo) : Type 0 where
  pub peers : (author : ℕ) → IsValid (get_or author new_peer f.peer_state)
  pub accepted : Accepts f.lines i (next_of f.peer_state)

pub write_all-Accepts :
    (k : ℕ) {lines : List Line} {i : ℕ} (author n : ℕ) (next next' : ℕ → ℕ)
    → Accepts lines i next
    → next author ≡ n
    → ((s : ℕ) → next' s ≡ (if author == s then n + k else next s))
    → Accepts (write_all true author (count_from n k) lines) i next'
unfolding write_all
write_all-Accepts zero author n next next' a e h = record {
  final = a.final;
  passes = a.passes;
  count = a.count;
  nexts = λ s. ground (arith, h s, a.nexts s);
}
write_all-Accepts (suc k) author n next next' a e h =
    write_all-Accepts k author (suc n) (λ s. if author == s then suc n else next s) next'
      (write-deliver-Accepts author n (λ s. if author == s then suc n else next s) a e
        (λ s. ground arith))
      (rw (==_refl author)) (λ s. ground (arith, h s))

-- A call of UniformFIFOBroadcast::DeliverInternal, for a number below the largest `unsigned int`, keeps
-- every peer's state valid and the log one that tools/validate_fifo.py accepts, expecting next the same
-- broadcast and, of each author, that author's next number.
pub deliver_internal-IsOrdered :
    (id : MessageId) {i : ℕ} (f : Fifo)
    → id.seq < max_seq
    → IsOrdered i f
    → IsOrdered i (deliver_internal f id true)
unfolding deliver_internal
deliver_internal-IsOrdered id {i} f small o = record {
  peers = λ a.
      rw (get_or-assign id.author a new_peer s' f.peer_state) (elim (Bool-cases (id.author == a)) [
        | inl same ↦ rw same (deliver_peer-IsValid id true f.lines (o.peers id.author) small)
        | inr other ↦ rw other (o.peers a)
      ]);
  accepted = rw (deliver_peer-lines id true f.lines (o.peers id.author) small).1 (
      write_all-Accepts (s'.next - s.next) id.author s.next (next_of f.peer_state) _ o.accepted refl
        λ a. ground (
          arith,
          get_or-assign id.author a new_peer s' f.peer_state,
          (deliver_peer-lines id true f.lines (o.peers id.author) small).0,
        ));
}
  where
    s : PeerState
    s = get_or id.author new_peer f.peer_state

    s' : PeerState
    s' = (deliver_peer release id true s f.lines).0

pub broadcast-IsOrdered :
    {i : ℕ} (f : Fifo)
    → IsOrdered i f
    → IsOrdered (i + 1) (record f { lines = write f.lines (broadcast i) })
broadcast-IsOrdered f o = record { peers = o.peers; accepted = write-broadcast-Accepts o.accepted }

pub new_fifo-IsOrdered : IsOrdered 1 new_fifo
unfolding check_process get_or find
new_fifo-IsOrdered = record {
  peers = λ a. new_peer-IsValid;
  accepted = record { final = checker; passes = refl; count = refl; nexts = λ s. refl };
}
