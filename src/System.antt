-- ===== src/System.antt =====
-- Several processes and what they send one another: `n` processes with the ids 1 to `n`, each of which
-- has links to the others and runs the handlers of `Uniform`. What a link hands over is something that
-- the process at its other end has sent, as `PerfectLink.Delivery` proves of links; a process has sent,
-- over all its links, whatever it holds. Any process may stop at any time: it takes no more steps.
pub mod Origin
pub mod Holders
pub mod Settled
pub mod Configured
use distributed_algorithms_p.Prelude.{
  ℕ, ◌≤◌, ◌≡◌, ◌≢◌, List, [], ◌++◌, ◌==◌, nat_eq, if◌then◌else◌, All,
}
use distributed_algorithms_p.PerfectLink.Link.{PerfectLink}
use distributed_algorithms_p.Broadcast.{Upper}
use distributed_algorithms_p.Uniform.{Uniform}
use distributed_algorithms_p.Uniform.Run.{Event, sent, notified, Step, started}
use distributed_algorithms_p.Uniform.Holds.{Holds}

-- The processes by id, and what each has been told so far.
pub record System (U : Type 0) : Type 0 where
  pub proc : ℕ → Uniform U
  pub events : ℕ → List Event

abbrev pub IsMember : ℕ → ℕ → Type 0
IsMember n i = (1 ≤ i) × (i ≤ n)

-- What comes in at a process was sent by another process, which holds it.
abbrev pub IsFrom : {U : Type 0} → ℕ → System U → ℕ → Event → Type 0
IsFrom n s i (sent id) = Unit
IsFrom n s i (notified m) = IsMember n m.sender × (m.sender ≢ i) × Holds (s.proc m.sender) m.id

abbrev pub update : {U : Type 0} → System U → ℕ → List Event → Uniform U → System U
update s i new v = record {
  proc = λ k. if k == i then v else s.proc k;
  events = λ k. if k == i then new ++ s.events k else s.events k;
}

module _ {U : Type 0} (upper : Upper U) (n : ℕ) (state : U) (links : ℕ → List PerfectLink) where
  abbrev pub start : System U
  start = record { proc = λ i. started i state (links i); events = λ i. [] }

  -- One step of one process.
  pub data SystemStep (s : System U) : System U → Type 0 where
    acts :
        (i : ℕ) {v : Uniform U} {new : List Event}
        → IsMember n i
        → Step upper (s.proc i) new v
        → All (IsFrom n s i) new
        → SystemStep s (update s i new v)

  pub data SystemReach : System U → Type 0 where
    system_here : SystemReach start
    system_next : {s t : System U} → SystemReach s → SystemStep s t → SystemReach t
