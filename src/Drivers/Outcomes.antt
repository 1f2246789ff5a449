-- ===== src/Drivers/Outcomes.antt =====
-- Whether the program starts: what can stop it, and that nothing else does.
use distributed_algorithms_p.Prelude.{◌≡◌, Bool, List, Option, ◌⊎◌, nat_eq}
use distributed_algorithms_p.Udp.{Machine, new_server}
use distributed_algorithms_p.Parser.Lex.{Text}
use distributed_algorithms_p.Parser.{
  Lookup, Parser, Host, returns, throws, local_host, target_host, outside_hosts, kperfect_links,
  kfifo_broadcast,
}
use distributed_algorithms_p.Parser.Access
use distributed_algorithms_p.Drivers.{Driver, Outcome, waits, Process}

-- The process runs: its main thread waits for ever.
abbrev pub IsRunning : Outcome Process → Type 0
IsRunning o = (d : Process) × (o ≡ waits d)

module _ (open_file : Text → Option (List Text)) (resolve : Text → Lookup)
    (can_bind : Machine → Bool) where
  -- The hosts that the mode asks for: the process itself, and in the mode for perfect links the
  -- receiver.
  abbrev pub IsHosted : Parser → Host → Type 0
  IsHosted p local =
      (local_host p ≡ returns local)
      × ((p.exec_mode ≡ kfifo_broadcast) ⊎ ((h : Host) × (target_host p ≡ returns h)))

  abbrev pub IsUnhosted : Parser → Type 0
  IsUnhosted p =
      (local_host p ≡ throws outside_hosts)
      ⊎ ((p.exec_mode ≡ kperfect_links) × (target_host p ≡ throws outside_hosts))

  -- The objects that a driver begins with.
  abbrev new_driver : {M : Type 0} → Parser → M → Driver M
  new_driver p m = record { output_path = p.output_path; server = new_server; manager = m }
