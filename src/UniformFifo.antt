-- ===== src/UniformFifo.antt =====
-- `UniformFIFOBroadcast` of src/src/include/fifo_broadcast.hpp: uniform reliable broadcast, with the
-- `DeliverInternal` of `Fifo` for its virtual call.
pub mod Order
pub mod Backed
use distributed_algorithms_p.Prelude.{Bool, ℕ, ◌≡◌, refl, List, true, []}
use distributed_algorithms_p.Logger.{Line, write}
use distributed_algorithms_p.Fifo.{Fifo, new_fifo, deliver_internal, reliable_deliver_internal}
use distributed_algorithms_p.Broadcast.{Upper, Broadcast, new_broadcast}
use distributed_algorithms_p.Broadcast.Types.{MessageId}
use distributed_algorithms_p.Uniform.{Uniform, new_uniform}
use distributed_algorithms_p.Uniform.Agreed.{traced}

-- UniformFIFOBroadcast
abbrev pub uniform_fifo : Upper Fifo
uniform_fifo = record {
  log = λ f l. record f { lines = write f.lines l };
  deliver_internal = deliver_internal;
}

abbrev pub UniformFifo : Type 0
UniformFifo = Uniform Fifo

abbrev pub new_uniform_fifo : ℕ → UniformFifo
new_uniform_fifo id = new_uniform id new_fifo

-- A layer that keeps the members of FIFO delivery among its own, and does with them what UniformFIFOBroadcast
-- does.
pub record IsOver {U : Type 0} (upper : Upper U) (fifo : U → Fifo) : Type 0 where
  pub logs :
      (u : U) (l : Line) → fifo (upper.log u l) ≡ record (fifo u) { lines = write (fifo u).lines l }
  pub gives :
      (u : U) (id : MessageId)
      → fifo (upper.deliver_internal u id true) ≡ deliver_internal (fifo u) id true

pub uniform_fifo-IsOver : IsOver uniform_fifo (λ f. f)
uniform_fifo-IsOver = record { logs = λ f l. refl; gives = λ f id. refl }

-- Also with the note of the ids that were given to it.
pub traced-IsOver : IsOver (traced uniform_fifo) (λ u. u.0)
traced-IsOver = record { logs = λ u l. refl; gives = λ u id. refl }
