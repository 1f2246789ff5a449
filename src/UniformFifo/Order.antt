-- ===== src/UniformFifo/Order.antt =====
-- The log of a process, for every run of its handlers.
use distributed_algorithms_p.Prelude.{
  ℕ, ◌+◌, ◌<◌, ◌≡◌, refl, sym, subst, false, List, [], ◌∷◌, arith, u32, max_seq, some,
}
use distributed_algorithms_p.Logger.{broadcast}
use distributed_algorithms_p.Broadcast.Types.{Message, MessageId, id_eq}
use distributed_algorithms_p.Broadcast.{
  Upper, best_effort_notify, best_effort_deliver, best_effort_send, log_send,
}
use distributed_algorithms_p.PerfectLink.Link.{PerfectLink}
use distributed_algorithms_p.Fifo.{Fifo, new_fifo}
use distributed_algorithms_p.Fifo.Order.{
  IsOrdered, new_fifo-IsOrdered, deliver_internal-IsOrdered, broadcast-IsOrdered, Checker, checker,
  check_process,
}
use distributed_algorithms_p.Uniform.{
  Uniform, add, send_internal, finish_own, send, notify_internal, deliver, try_deliver, erased,
}
use distributed_algorithms_p.Uniform.Run.{
  add_all, started, Event, Step, sends, notifies, tries, relinks, with_links, Reach, here, next,
}
use distributed_algorithms_p.Uniform.Cases.{
  finish_own_cases, send_cases, notify_internal_cases, try_deliver_cases, looked, told,
}
use distributed_algorithms_p.Uniform.Sound.{
  notify_lem, IsSound, Step-IsSound, add-IsSound, new_uniform-IsSound,
}
use distributed_algorithms_p.UniformFifo.{UniformFifo, uniform_fifo, uniform_fifo-IsOver, IsOver}

-- What the log depends on.
abbrev pub SameLog : {U : Type 0} → Uniform U → Uniform U → Type 0
SameLog u v = (v.n_messages_sent ≡ u.n_messages_sent) × (v.upper ≡ u.upper)

pub finish_own-SameLog : {U : Type 0} (u : Uniform U) (id : MessageId) → SameLog u (finish_own u id)
unfolding send_internal best_effort_send
finish_own-SameLog u id =
    finish_own_cases (SameLog u) u id (λ _. (refl, refl)) (λ _ _. (refl, refl))
      (λ _ _. (refl, refl)) (λ msg queue own few e. (refl, refl))

module _ {U : Type 0} (upper : Upper U) (fifo : U → Fifo) (over : IsOver upper fifo) where
  -- The log is in order, at the number that the next broadcast takes.
  abbrev pub InOrder : Uniform U → Type 0
  InOrder u = IsOrdered u.n_messages_sent (fifo u.upper)

  same-InOrder : (u v : Uniform U) → SameLog u v → InOrder u → InOrder v
  same-InOrder u v e o =
      subst (λ i. IsOrdered i (fifo v.upper)) (sym e.0)
        (subst (λ x. IsOrdered u.n_messages_sent (fifo x)) (sym e.1) o)

  send-InOrder :
      (u : Uniform U) (msg : List ℕ)
      → u.n_messages_sent < max_seq
      → InOrder u
      → InOrder (send upper u msg)
  unfolding send_internal best_effort_send log_send
  send-InOrder u msg small o =
      let e : u.n_messages_sent + 1 ≡ u32 (u.n_messages_sent + 1) = omega arith in
      let f : Fifo = fifo (upper.log u.upper (broadcast u.n_messages_sent)) in
      let o' : IsOrdered (u32 (u.n_messages_sent + 1)) f =
        subst (λ i. IsOrdered i f) e
          (subst (IsOrdered _) (sym (over.logs u.upper _))
            (broadcast-IsOrdered (fifo u.upper) o)) in
      send_cases InOrder upper u msg (λ _. o') (λ _. o')

  notify_internal-SameLog :
      (u : Uniform U) (msg : Message)
      → u.deliver_to_upper_layer ≡ false
      → SameLog u (notify_internal upper u msg)
  unfolding send_internal best_effort_send best_effort_notify best_effort_deliver
  notify_internal-SameLog u msg quiet =
      let t : (told upper u msg).upper ≡ u.upper = rw quiet in
      notify_internal_cases (SameLog u) upper u msg (λ _. (refl, t)) (λ _ _. (refl, t))
        (λ _ _. (refl, t))

  try_deliver-InOrder :
      (u : Uniform U) (id : MessageId)
      → id.seq < max_seq
      → InOrder u
      → InOrder (try_deliver upper u id)
  unfolding deliver
  try_deliver-InOrder u id small o = try_deliver_cases InOrder upper u id o λ many fresh.
      let w : Uniform U = erased id (looked u id) in
      subst (IsOrdered _) (sym (over.gives (finish_own w id).upper id)) (
        deliver_internal-IsOrdered id _ small
          (same-InOrder w (finish_own w id) (finish_own-SameLog w id) o))

  pub Step-InOrder :
      {u v : Uniform U} {events : List Event}
      → Step upper u events v
      → IsSound u
      → InOrder u
      → InOrder v
  Step-InOrder {u} (sends msg small) s o = send-InOrder u msg small o
  Step-InOrder {u} (notifies sender_id packet {msg} e numbered) s o =
      subst InOrder (sym (notify_lem upper u sender_id packet e))
        (same-InOrder u (notify_internal upper u msg) (notify_internal-SameLog u msg s.quiet) o)
  Step-InOrder {u} (tries id pending) s o = try_deliver-InOrder u id (s.pending id pending).1 o
  Step-InOrder {u} (relinks on links) s o = same-InOrder u (with_links on links u) (refl, refl) o

  add-InOrder : (u : Uniform U) (pl : PerfectLink) → InOrder u → InOrder (add u pl)
  unfolding add
  add-InOrder u pl o = o

  add_all-InOrder :
      (u : Uniform U) (links : List PerfectLink)
      → IsSound u × InOrder u
      → IsSound (add_all u links) × InOrder (add_all u links)
  unfolding add_all
  add_all-InOrder u [] w = w
  add_all-InOrder u (pl ∷ links) w =
      add_all-InOrder (add u pl) links (add-IsSound pl w.0, add-InOrder u pl w.1)

  -- In every run of a process.
  pub Reach-InOrder :
      (id : ℕ) (state : U) (links : List PerfectLink)
      → fifo state ≡ new_fifo
      → {u : Uniform U} {events : List Event} → Reach upper (started id state links) events u
      → IsSound u × InOrder u
  Reach-InOrder id state links e here =
      add_all-InOrder _ links
        (new_uniform-IsSound upper id state, subst (IsOrdered 1) (sym e) new_fifo-IsOrdered)
  Reach-InOrder id state links e (next r st _) =
      let (s, o) = Reach-InOrder id state links e r in
      (Step-IsSound upper st s, Step-InOrder st s o)

-- In every run of a process's handlers with numbers from 1 to 2^32 - 2 the log passes the check of
-- tools/validate_fifo.py: its broadcasts are numbered 1, 2, 3, ... and so are, for each author,
-- the deliveries of that author's messages. The check then expects the number that the next
-- broadcast will take.
pub reach-validates :
    (id : ℕ) (links : List PerfectLink) {u : UniformFifo} {events : List Event}
    → Reach uniform_fifo (started id new_fifo links) events u
    → (c : Checker) × (check_process checker u.upper.lines ≡ some c) × (c.i ≡ u.n_messages_sent)
reach-validates id links r =
    let (s, o) = Reach-InOrder uniform_fifo (λ f. f) uniform_fifo-IsOver id new_fifo links refl r in
    (o.accepted.final, o.accepted.passes, o.accepted.count)
