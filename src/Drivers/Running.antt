-- ===== src/Drivers/Running.antt =====
-- The process that the driver for FIFO broadcast starts, as a run of the handlers of `Uniform`.
use distributed_algorithms_p.Prelude.{
  ℕ, zero, suc, ◌+◌, ◌≤◌, ◌<◌, ◌≡◌, refl, sym, ap, subst, ◌∙◌, true, List, [], ◌∷◌, ◌++◌, arith,
  ◌==◌, nat_eq, if◌then◌else◌, Bool-cases, inl, inr, max_seq, u32,
}
use mathlib.Core.List.{append_assoc, append-nil}
use distributed_algorithms_p.Logger.{Line, broadcast}
use distributed_algorithms_p.PerfectLink.Link.{PerfectLink, new_link}
use distributed_algorithms_p.Manager
use distributed_algorithms_p.Broadcast.{best_effort_send, log_send}
use distributed_algorithms_p.Fifo.{new_fifo}
use distributed_algorithms_p.Parser.{Host}
use distributed_algorithms_p.Uniform.{Uniform, send, send_internal}
use distributed_algorithms_p.Uniform
use distributed_algorithms_p.Uniform.Cases.{send_cases}
use distributed_algorithms_p.Uniform.Run.{
  Event, Reach, here, next, sends, relinks, add_all, started,
}
use distributed_algorithms_p.UniformFifo.{UniformFifo, uniform_fifo, new_uniform_fifo}
use distributed_algorithms_p.Drivers.{
  Driver, machine_of, connect, connect_all, repeat, fifo_process,
}

-- The links to all hosts but the process itself.
abbrev pub peer_links : ℕ → List Host → List PerfectLink
peer_links id [] = []
peer_links id (h ∷ hosts) =
    if id == h.id
    then peer_links id hosts
    else new_link id h.id (machine_of h) ∷ peer_links id hosts

pub connect_all-manager :
    {U : Type 0} (id : ℕ) (hosts : List Host) (d : Driver (Uniform U))
    → (connect_all Uniform.add id hosts d).manager ≡ add_all d.manager (peer_links id hosts)
unfolding connect_all connect add_all
connect_all-manager id [] d = refl
connect_all-manager id (h ∷ hosts) d = elim (Bool-cases (id == h.id)) [
  | inl own ↦ rw (own, connect_all) (connect_all-manager id hosts d)
  | inr other ↦
      rw (other, connect_all, add_all) (connect_all-manager id hosts (connect Uniform.add id h d))
]

-- A broadcast takes the next number and logs it.
abbrev IsNextSent : UniformFifo → UniformFifo → Type 0
IsNextSent u v =
    (v.n_messages_sent ≡ u32 (u.n_messages_sent + 1))
    × (v.upper.lines ≡ u.upper.lines ++ broadcast u.n_messages_sent ∷ [])

send-IsNextSent : (u : UniformFifo) (msg : List ℕ) → IsNextSent u (send uniform_fifo u msg)
unfolding send_internal best_effort_send log_send
send-IsNextSent u msg =
    send_cases (IsNextSent u) uniform_fifo u msg (λ _. (refl, refl)) (λ _. (refl, refl))

-- The lines of `n` broadcasts, from number `seq` on.
abbrev pub broadcasts : ℕ → ℕ → List Line
broadcasts seq zero = []
broadcasts seq (suc n) = broadcast seq ∷ broadcasts (suc seq) n

-- What a loop of calls of `Send` leaves, from the state `u` on.
record IsSent (start u : UniformFifo) (n : ℕ) (v : UniformFifo) : Type 0 where
  events : List Event
  run : Reach uniform_fifo start events v
  count : v.n_messages_sent ≡ u.n_messages_sent + n
  lines : v.upper.lines ≡ u.upper.lines ++ broadcasts u.n_messages_sent n

repeat-IsSent :
    (n : ℕ) {start u : UniformFifo} {events : List Event}
    → Reach uniform_fifo start events u
    → u.n_messages_sent + n ≤ max_seq
    → IsSent start u n (repeat n (λ w. send uniform_fifo w []) u)
unfolding repeat
repeat-IsSent zero r small = record {
  events = _;
  run = r;
  count = omega arith;
  lines = sym (append-nil _);
}
repeat-IsSent (suc n) {start} {u} r small =
    let (count, lines) = send-IsNextSent u [] in
    let s = repeat-IsSent n (next r (sends [] (omega arith)) refl) (omega (arith, count)) in
    let first : (send uniform_fifo u []).n_messages_sent ≡ suc u.n_messages_sent =
      omega (arith, count) in
    record {
      events = s.events;
      run = s.run;
      count = omega (arith, first, s.count);
      lines = ground (
        arith,
        s.lines,
        lines,
        first,
        append_assoc u.upper.lines (broadcast u.n_messages_sent ∷ [])
            (broadcasts (suc u.n_messages_sent) n),
      );
    }

-- The state of a process with links but without any message.
add_all-fresh :
    (u : UniformFifo) (links : List PerfectLink)
    → ((add_all u links).n_messages_sent ≡ u.n_messages_sent) × ((add_all u links).upper ≡ u.upper)
unfolding add_all Uniform.add
add_all-fresh u [] = (refl, refl)
add_all-fresh u (pl ∷ links) = add_all-fresh (Uniform.add u pl) links

-- A run of the process with that id and those hosts, in which it has broadcast `n` messages and nothing
-- else is logged.
abbrev pub IsFifoRun : ℕ → List Host → ℕ → UniformFifo → Type 0
IsFifoRun id hosts n v =
    (events : List Event) × Reach uniform_fifo (started id new_fifo (peer_links id hosts)) events v
    × (v.n_messages_sent ≡ suc n)
    × (v.upper.lines ≡ broadcasts 1 n)

-- When the driver's main thread has made its calls, fewer than 2^32 - 1 of them, before any other
-- thread takes a step: the process is in a run of the handlers of a process with a link to each host
-- other than itself, and its log has the lines of the broadcasts 1 to `n`.
pub fifo_process-IsFifoRun :
    (id : ℕ) (hosts : List Host) (n : ℕ) (d : Driver UniformFifo)
    → d.manager ≡ new_uniform_fifo id
    → n < max_seq
    → IsFifoRun id hosts n (fifo_process id hosts n d).manager
unfolding fifo_process Uniform.start Manager.start
fifo_process-IsFifoRun id hosts n d e small =
    let links = peer_links id hosts in
    let linked : UniformFifo = (connect_all Uniform.add id hosts d).manager in
    let at_start : linked ≡ started id new_fifo links =
      connect_all-manager id hosts d ∙ ap (λ u. add_all u links) e in
    let (fresh, empty) = add_all-fresh (new_uniform_fifo id) links in
    let first : linked.n_messages_sent ≡ 1 = ap (λ u. u.n_messages_sent) at_start ∙ fresh in
    let begun : Reach uniform_fifo (started id new_fifo links) [] (Uniform.start linked) =
      subst (λ u. Reach uniform_fifo u [] (Uniform.start linked)) at_start
        (next here (relinks true linked.perfect_links) refl) in
    let s = repeat-IsSent n begun (omega (arith, first)) in
    (
      s.events,
      s.run,
      omega (arith, s.count, first),
      ground (arith, s.lines, first, ap (λ u. u.upper.lines) at_start, ap (λ f. f.lines) empty),
    )
