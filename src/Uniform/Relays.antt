-- ===== src/Uniform/Relays.antt =====
-- Whatever a process holds it has sent over all its links: each message newly held is sent by the same
-- call of a handler.
use distributed_algorithms_p.Prelude.{◌≤◌, ◌≡◌, nat_eq, ◌⊎◌}
use distributed_algorithms_p.PerfectLink.Link.{PerfectLink}
use distributed_algorithms_p.Broadcast.Types.{Message, MessageId, id_eq}
use distributed_algorithms_p.Broadcast.Codec.{serialize}
use distributed_algorithms_p.Broadcast.{send_all}
use distributed_algorithms_p.DeliveredSet
use distributed_algorithms_p.Uniform.{Uniform}
use distributed_algorithms_p.Uniform.Holds.{Holds}

module _ {U : Type 0} where
  -- The links of `v` are those of `u` after a message of that id was sent over each of them.
  abbrev pub IsSentBy : Uniform U → Uniform U → MessageId → Type 0
  IsSentBy u v id =
      (m : Message) × (m.id ≡ id)
      × (v.broadcast.manager.perfect_links
          ≡ send_all (serialize m) u.broadcast.manager.perfect_links)

  abbrev Relaying : Uniform U → Uniform U → Type 0
  Relaying u v = (j : MessageId) → 1 ≤ j.seq → Holds v j → Holds u j ⊎ IsSentBy u v j
