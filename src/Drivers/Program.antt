-- ===== src/Drivers/Program.antt =====
-- What `main` leaves, from the command line on.
use distributed_algorithms_p.Prelude.{
  ◌<◌, ◌≡◌, refl, sym, subst, ◌∙◌, Bool, true, List, Option, none, some, arith, Bool-cases, inl,
  inr, ◌⊎◌, max_seq, nat_eq,
}
use distributed_algorithms_p.Udp.{Machine, open_server}
use distributed_algorithms_p.Fifo.Order.{Checker, check_process, checker}
use distributed_algorithms_p.Parser.Lex.{Text}
use distributed_algorithms_p.Parser.{
  Lookup, Parser, Host, Result, Exception, returns, throws, undefined, local_host, parse,
  new_parser,
}
use distributed_algorithms_p.Parser.Access
use distributed_algorithms_p.Manager.{BasicManager}
use distributed_algorithms_p.Uniform.Run.{Reach-append}
use distributed_algorithms_p.UniformFifo.{UniformFifo, uniform_fifo, new_uniform_fifo}
use distributed_algorithms_p.UniformFifo.Order.{reach-validates}
use distributed_algorithms_p.Drivers.{
  Driver, machine_of, Outcome, waits, exits, terminates, undefined_outcome, unguarded, guarded,
  make, fifo_process, fifo_broadcast, perfect_links, Process, fifo_process_of, links_process,
  map_outcome, run_mode, main,
}
use distributed_algorithms_p.Node.{NodeReach}
use distributed_algorithms_p.Node.Runs.{NodeReach-Reach}
use distributed_algorithms_p.Drivers.Running.{IsFifoRun, fifo_process-IsFifoRun, peer_links}

unguarded-waits :
    {A D : Type 0} (r : Result A) (f : A → Outcome D) (d : D)
    → unguarded r f ≡ waits d
    → (a : A) × (r ≡ returns a) × (f a ≡ waits d)
unguarded-waits (throws e) f d h = cc
unguarded-waits undefined f d h = cc
unguarded-waits (returns a) f d h = (a, refl, h)

guarded-waits :
    {A D : Type 0} (o : Option A) (f : A → Outcome D) (d : D)
    → guarded o f ≡ waits d
    → (a : A) × (o ≡ some a) × (f a ≡ waits d)
guarded-waits none f d h = cc
guarded-waits (some a) f d h = (a, refl, h)

waits-inj : {D : Type 0} (a b : D) → ◌≡◌ {A = Outcome D} (waits a) (waits b) → a ≡ b
waits-inj a b e = cc

module _ (can_bind : Machine → Bool) where
  make-some :
      (p : Parser) (local : Host) (m : UniformFifo) (d : Driver UniformFifo)
      → make can_bind p local m ≡ some d
      → d.manager ≡ m
  unfolding make open_server Access.check_parsed
  make-some p local m d h = elim (Bool-cases p.parsed) [
    | inr early ↦ ground arith
    | inl parsed ↦ elim (Bool-cases (can_bind (machine_of local))) [
      | inl bound ↦ ground arith
      | inr taken ↦ ground arith
    ]
  ]

  -- Once the parser has parsed, only its `local_host` can throw.
  parsed-fifo_broadcast :
      (p : Parser)
      → p.parsed ≡ true
      → fifo_broadcast can_bind p ≡ (
          unguarded (local_host p) λ local.
            guarded
              (make can_bind p local (new_uniform_fifo p.id))
              λ d. waits (fifo_process p.id p.hosts p.n_messages_to_send d))
  unfolding fifo_broadcast Access.check_parsed
  parsed-fifo_broadcast p h = rw (h, fifo_broadcast)

  not_parsed-fifo_broadcast :
      (p : Parser) (d : Driver UniformFifo) → fifo_broadcast can_bind p ≡ waits d → p.parsed ≡ true
  unfolding fifo_broadcast Access.check_parsed
  not_parsed-fifo_broadcast p d h = elim (Bool-cases p.parsed) [
    | inl parsed ↦ parsed
    | inr early ↦ ground arith
  ]

  fifo_broadcast-waits :
      (p : Parser) (d : Driver UniformFifo)
      → fifo_broadcast can_bind p ≡ waits d
      → (made : Driver UniformFifo) × (made.manager ≡ new_uniform_fifo p.id)
        × (fifo_process p.id p.hosts p.n_messages_to_send made ≡ d)
  fifo_broadcast-waits p d h =
      let parsed = not_parsed-fifo_broadcast p d h in
      let (local, _, h1) =
        unguarded-waits (local_host p) _ d (sym (parsed-fifo_broadcast p parsed) ∙ h) in
      let (made, m, h2) = guarded-waits (make can_bind p local (new_uniform_fifo p.id)) _ d h1 in
      (made, make-some p local (new_uniform_fifo p.id) made m, waits-inj _ _ h2)

pub Result-cases :
    {A : Type 0} (r : Result A)
    → ((e : Exception) × (r ≡ throws e)) ⊎ (r ≡ undefined) ⊎ ((a : A) × (r ≡ returns a))
Result-cases (throws e) = inl (e, refl)
Result-cases undefined = inr (inl refl)
Result-cases (returns a) = inr (inr (a, refl))

map_outcome-fifo :
    (o : Outcome (Driver UniformFifo)) (d : Driver UniformFifo)
    → map_outcome fifo_process_of o ≡ waits (fifo_process_of d)
    → o ≡ waits d
map_outcome-fifo (waits a) d h = cc
map_outcome-fifo exits d h = cc
map_outcome-fifo (terminates e) d h = cc
map_outcome-fifo undefined_outcome d h = cc

map_outcome-links :
    (o : Outcome (Driver BasicManager)) (d : Driver UniformFifo)
    → ¬ (map_outcome links_process o ≡ waits (fifo_process_of d))
map_outcome-links (waits a) d h = cc
map_outcome-links exits d h = cc
map_outcome-links (terminates e) d h = cc
map_outcome-links undefined_outcome d h = cc

module _ (open_file : Text → Option (List Text)) (resolve : Text → Lookup)
    (can_bind : Machine → Bool) where
  abbrev parsed_as : List Text → Result Parser
  parsed_as argv = parse open_file resolve (new_parser true) argv

  -- What `main` does once the parser has parsed.
  pub main-parsed :
      (argv : List Text) (p : Parser)
      → parsed_as argv ≡ returns p
      → p.parsed ≡ true
      → main open_file resolve can_bind argv ≡ run_mode open_file resolve can_bind p
  unfolding main Access.check_parsed
  main-parsed argv p e h = elim (Bool-cases p.requires_config) [
    | inl config ↦ rw (e, main) ground arith
    | inr plain ↦ ground arith
  ]

  main-early :
      (argv : List Text) (p : Parser) (d : Process)
      → parsed_as argv ≡ returns p
      → main open_file resolve can_bind argv ≡ waits d
      → p.parsed ≡ true
  unfolding main Access.check_parsed
  main-early argv p d e h = ground arith

  run_mode-fifo :
      (p : Parser) (d : Driver UniformFifo)
      → run_mode open_file resolve can_bind p ≡ waits (fifo_process_of d)
      → fifo_broadcast can_bind p ≡ waits d
  unfolding run_mode
  run_mode-fifo p d h = ground (
    arith,
    map_outcome-fifo (fifo_broadcast can_bind p) d,
    map_outcome-links (perfect_links can_bind p) d,
  )

  main-waits :
      (argv : List Text) (p : Parser) (d : Driver UniformFifo)
      → parsed_as argv ≡ returns p
      → main open_file resolve can_bind argv ≡ waits (fifo_process_of d)
      → fifo_broadcast can_bind p ≡ waits d
  main-waits argv p d e h =
      run_mode-fifo p d (sym (main-parsed argv p e (main-early argv p (fifo_process_of d) e h)) ∙ h)

  -- If `main` accepts a command line and its files and starts the driver for FIFO broadcast, which calls
  -- `Send` fewer than 2^32 - 1 times: then after these calls and any further run of the whole process,
  -- with datagrams that come in, rounds of acks and of `DeliverPending`, and messages with numbers from 1
  -- to 2^32 - 2, the log passes the check of tools/validate_fifo.py, which then expects the number
  -- that the next broadcast will take.
  pub main-validates :
      (argv : List Text) (p : Parser) (d : Driver UniformFifo)
      → parsed_as argv ≡ returns p
      → p.n_messages_to_send < max_seq
      → main open_file resolve can_bind argv ≡ waits (fifo_process_of d)
      → {e : Driver UniformFifo} → NodeReach uniform_fifo d e
      → (c : Checker) × (check_process checker e.manager.upper.lines ≡ some c)
        × (c.i ≡ e.manager.n_messages_sent)
  main-validates argv p d parsed small h r =
      let (made, m, same) = fifo_broadcast-waits can_bind p d (main-waits argv p d parsed h) in
      let (_, run, _, _) : IsFifoRun p.id p.hosts p.n_messages_to_send d.manager =
        subst (λ x. IsFifoRun p.id p.hosts p.n_messages_to_send x.manager) same
          (fifo_process-IsFifoRun p.id p.hosts p.n_messages_to_send made m small) in
      let (_, further) = NodeReach-Reach uniform_fifo r in
      reach-validates p.id (peer_links p.id p.hosts) (Reach-append run further)
