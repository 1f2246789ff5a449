-- ===== src/Drivers/Links.antt =====
-- The driver for perfect links: what the sending process has logged and handed to its link, and that a
-- process that was stopped sends no more.
use distributed_algorithms_p.Prelude.{
  ℕ, zero, suc, ◌+◌, ◌≤◌, ◌<◌, ◌≡◌, refl, sym, ap, subst, ◌∙◌, Bool, false, [], ◌∷◌, ◌++◌, some,
  none, arith, ==_refl, nat_eq, nat_beq_iff, max_seq, Bool-cases, inl, inr,
}
use distributed_algorithms_p.Prelude.Map.{find, assign, find-assign, find-emplace}
use distributed_algorithms_p.Logger.{broadcast}
use distributed_algorithms_p.Udp
use distributed_algorithms_p.PerfectLink.Link.{PerfectLink, new_link, subscribe}
use distributed_algorithms_p.PerfectLink.Link
use distributed_algorithms_p.Manager.{
  Manager, BasicManager, basic_send, Links, ack_round, send_round,
}
use distributed_algorithms_p.Manager
use distributed_algorithms_p.Udp.{UdpServer}
use distributed_algorithms_p.Uniform
use distributed_algorithms_p.UniformFifo.{UniformFifo}
use distributed_algorithms_p.Parser.{Host}
use distributed_algorithms_p.Drivers.{
  Driver, machine_of, connect, basic_add, basic_start, basic_stop, repeat, new_basic_manager,
  perfect_links_sender, stop_execution,
}
use distributed_algorithms_p.Drivers.Running.{broadcasts}

broadcasts-suc : (seq n : ℕ) → broadcasts seq (suc n) ≡ broadcasts seq n ++ broadcast (seq + n) ∷ []
broadcasts-suc seq zero = ap (λ s. broadcast s ∷ []) (omega arith)
broadcasts-suc seq (suc n) =
    ap (λ l. broadcast seq ∷ l)
      (broadcasts-suc (suc seq) n
        ∙ ap (λ s. broadcasts (suc seq) n ++ broadcast s ∷ []) (omega arith))

-- After `n` empty messages to `target`: they are logged with their numbers and wait in the link's set.
pub record IsSending (target n : ℕ) (m : BasicManager) : Type 0 where
  pub pl : PerfectLink
  pub found : find target m.manager.perfect_links ≡ some pl
  pub count : pl.n_messages_sent ≡ suc n
  pub queued : (seq : ℕ) → 1 ≤ seq → seq ≤ n → find seq pl.messages_to_send ≡ some []
  pub unused : (seq : ℕ) → n < seq → find seq pl.messages_to_send ≡ none
  pub lines : m.lines ≡ broadcasts 1 n

basic_send-IsSending :
    (target n : ℕ) (m : BasicManager)
    → suc n < max_seq
    → IsSending target n m
    → IsSending target (suc n) (basic_send m target [])
unfolding basic_send Link.send
basic_send-IsSending target n m small s =
    let new = s.unused s.pl.n_messages_sent (omega (arith, s.count)) in
    let inserted =
      λ (seq : ℕ). find-emplace s.pl.n_messages_sent seq [] s.pl.messages_to_send new in
    record {
      pl = (Link.send s.pl []).0;
      found = ground (
        arith,
        s.found,
        ==_refl target,
        find-assign target target (Link.send s.pl []).0 m.manager.perfect_links,
      );
      count = omega (arith, s.count);
      queued = λ seq lo hi.
          ground (arith, s.count, inserted seq, s.queued seq, nat_beq_iff s.pl.n_messages_sent seq);
      unused = λ seq hi.
          ground (arith, s.count, inserted seq, s.unused seq, nat_beq_iff s.pl.n_messages_sent seq);
      lines = ground (arith, s.found, s.lines, s.count, broadcasts-suc 1 n);
    }

repeat-IsSending :
    (target k n : ℕ) (m : BasicManager)
    → k + n < max_seq
    → IsSending target k m
    → IsSending target (k + n) (repeat n (λ b. basic_send b target []) m)
unfolding repeat
repeat-IsSending target k zero m small s =
    subst (λ j. IsSending target j m) {x = k} {y = k + 0} (omega arith) s
repeat-IsSending target k (suc n) m small s =
    subst
      (λ j. IsSending target j (repeat n (λ b. basic_send b target []) (basic_send m target [])))
      {x = suc k + n} {y = k + suc n} (omega arith)
      (repeat-IsSending target (suc k) n (basic_send m target []) (omega arith)
        (basic_send-IsSending target k m (omega arith) s))

-- The manager when the loop begins.
abbrev begun : ℕ → Host → BasicManager → BasicManager
begun id target m = basic_start (basic_add m (new_link id target.id (machine_of target)))

begun-IsSending :
    (id : ℕ) (target : Host) → IsSending target.id 0 (begun id target new_basic_manager)
unfolding basic_add basic_start Manager.add Manager.start new_link subscribe find assign
begun-IsSending id target = record {
  pl = subscribe (new_link id target.id (machine_of target)) 0;
  found = ground (arith, ==_refl target.id);
  count = refl;
  queued = λ seq lo hi. absurd (omega arith);
  unused = λ seq hi. refl;
  lines = refl;
}

-- A process in the mode for perfect links that is not the receiver, and which the configuration gives
-- fewer than 2^32 - 1 messages: when its main thread has made its calls, before any other thread
-- takes a step, the log has the lines of the broadcasts 1 to `n`, the manager has the link to the
-- target, and exactly the numbers from 1 to `n` wait in the link's set, each with the empty message.
pub perfect_links_sender-IsSending :
    (id n : ℕ) (target : Host) (d : Driver BasicManager)
    → d.manager ≡ new_basic_manager
    → n < max_seq
    → IsSending target.id n (perfect_links_sender id n target d).manager
unfolding perfect_links_sender connect
perfect_links_sender-IsSending id n target d e small =
    let loop =
      λ (m : BasicManager). repeat n (λ b. basic_send b target.id []) (begun id target m) in
    let sent : IsSending target.id (0 + n) (loop new_basic_manager) =
      repeat-IsSending target.id 0 n (begun id target new_basic_manager) (omega arith)
        (begun-IsSending id target) in
    subst (λ m. IsSending target.id n (loop m)) (sym e)
      (subst (λ k. IsSending target.id k (loop new_basic_manager)) {x = 0 + n} {y = n} (omega arith)
        sent)

-- The server is off, no round of the loops of the manager `m`, at that time, sends anything or changes
-- the links, and these are the given ones.
abbrev pub IsAtRest : Bool → ℕ → UdpServer → Manager → Links → Type 0
IsAtRest strong now server m links =
    (server.on ≡ false)
    × (send_round m ≡ [])
    × (ack_round strong now m ≡ (m, []))
    × (m.perfect_links ≡ links)

-- The two drivers' processes once they were stopped.
abbrev pub AreQuiet : Bool → ℕ → Driver BasicManager → Driver UniformFifo → Type 0
AreQuiet strong now d f =
    let d' = stop_execution basic_stop d in
    let f' = stop_execution Uniform.stop f in
    IsAtRest strong now d'.server d'.manager.manager d.manager.manager.perfect_links
    × (d'.manager.lines ≡ d.manager.lines)
    × IsAtRest strong now f'.server f'.manager.manager f.manager.perfect_links
    × (f'.manager.upper.lines ≡ f.manager.upper.lines)

rest-basic :
    (strong : Bool) (now : ℕ) (d : Driver BasicManager)
    → let e = stop_execution basic_stop d in
      IsAtRest strong now e.server e.manager.manager d.manager.manager.perfect_links
      × (e.manager.lines ≡ d.manager.lines)
unfolding stop_execution basic_stop Udp.stop Manager.stop send_round ack_round
rest-basic strong now d = elim (Bool-cases d.manager.manager.on) [
  | inl on ↦ ground arith
  | inr off ↦ ground arith
]

rest-uniform :
    (strong : Bool) (now : ℕ) (f : Driver UniformFifo)
    → let e = stop_execution Uniform.stop f in
      IsAtRest strong now e.server e.manager.manager f.manager.perfect_links
      × (e.manager.upper.lines ≡ f.manager.upper.lines)
unfolding stop_execution Uniform.stop Udp.stop Manager.stop send_round ack_round
rest-uniform strong now f = elim (Bool-cases f.manager.on) [
  | inl on ↦ ground arith
  | inr off ↦ ground arith
]

-- `StopExecution`, whatever the process of either driver has done: `on_` of the server is unset, no round
-- of the manager's two loops, at any time, sends anything or changes the links, which stay as they are,
-- and nothing is added to the log.
pub stop_execution-AreQuiet :
    (strong : Bool) (now : ℕ) (d : Driver BasicManager) (f : Driver UniformFifo)
    → AreQuiet strong now d f
stop_execution-AreQuiet strong now d f =
    let (a, b) = rest-basic strong now d in let (x, y) = rest-uniform strong now f in (a, b, x, y)
