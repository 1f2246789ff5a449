-- ===== src/Uniform/Run.antt =====
-- Runs of a process: the calls of its handlers, in any order that the threads and the network make.
use mathlib.Core.List.{append_assoc}
use distributed_algorithms_p.Prelude.{
  ap, ◌∙◌, Bool, ℕ, ◌<◌, ◌≡◌, true, List, [], ◌∷◌, ◌++◌, max_seq, some, In, In-append_right, ◌⊎◌,
  inl, inr,
}
use distributed_algorithms_p.Prelude.Set.{member}
use distributed_algorithms_p.PerfectLink.Codec.{Message as LinkMessage}
use distributed_algorithms_p.PerfectLink.Link.{PerfectLink}
use distributed_algorithms_p.Broadcast.Types.{Message, MessageId, id_eq}
use distributed_algorithms_p.Broadcast.Codec.{parse}
use distributed_algorithms_p.Manager.{Links}
use distributed_algorithms_p.Broadcast.{Upper}
use distributed_algorithms_p.DeliveredSet.Refinement.{IsNumbered}
use distributed_algorithms_p.Uniform.{Uniform, new_uniform, add, send, notify, try_deliver}

-- A process to which links to the others were added.
unfoldable pub add_all : {U : Type 0} → Uniform U → List PerfectLink → Uniform U
add_all u [] = u
add_all u (pl ∷ links) = add_all (add u pl) links

abbrev pub started : {U : Type 0} → ℕ → U → List PerfectLink → Uniform U
started id state links = add_all (new_uniform id state) links

-- What a process has been told: that it is to broadcast, and the messages that came in.
pub data Event : Type 0 where
  sent : (id : MessageId) → Event
  notified : (msg : Message) → Event

-- The members of the links are not the broadcast layer's, nor is `on_`, which `Start` and `Stop` set:
-- they change between its handlers.
abbrev pub with_links : {U : Type 0} → Bool → Links → Uniform U → Uniform U
with_links on links u = record u {
  broadcast = record (u.broadcast) {
    manager = record (u.manager) { on = on; perfect_links = links };
  };
}

module _ {U : Type 0} (upper : Upper U) where
  -- One call of a handler; or a change of the links by their own threads, which send messages and acks
  -- and take acks in, or of `on_`. A sender gives out fewer than 2^32 - 1 numbers, and a message that
  -- comes in has a number that can have been given out. The loop of `DeliverPending` comes to a
  -- pending id.
  pub data Step (u : Uniform U) : List Event → Uniform U → Type 0 where
    sends :
        (msg : List ℕ)
        → u.n_messages_sent < max_seq
        → Step u (sent (record { seq = u.n_messages_sent; author = u.id }) ∷ []) (send upper u msg)
    notifies :
        (sender_id : ℕ) (packet : LinkMessage) {msg : Message}
        → parse sender_id packet.payload ≡ some msg
        → IsNumbered msg.id
        → Step u (notified msg ∷ []) (notify upper u sender_id packet)
    tries :
        (id : MessageId)
        → member id u.pending_for_delivery ≡ true
        → Step u [] (try_deliver upper u id)
    relinks : (on : Bool) (links : Links) → Step u [] (with_links on links u)

  -- The events of a run, the latest first.
  pub data Reach (u : Uniform U) : List Event → Uniform U → Type 0 where
    here : Reach u [] u
    next :
        {v w : Uniform U} {old new events : List Event}
        → Reach u old v
        → Step v new w
        → events ≡ new ++ old
        → Reach u events w

-- A message of that id came in from that process.
abbrev pub Heard : List Event → MessageId → ℕ → Type 0
Heard events id sender = (m : Message) × In (notified m) events × (m.id ≡ id) × (m.sender ≡ sender)

-- The id was broadcast here, or it came in.
abbrev pub Known : List Event → MessageId → Type 0
Known events id = In (sent id) events ⊎ ((sender : ℕ) × Heard events id sender)

pub Heard-append :
    (new old : List Event) (id : MessageId) (sender : ℕ)
    → Heard old id sender
    → Heard (new ++ old) id sender
Heard-append new old id sender (m, i, p, q) = (m, In-append_right _ new old i, p, q)

pub Known-append : (new old : List Event) (id : MessageId) → Known old id → Known (new ++ old) id
Known-append new old id (inl i) = inl (In-append_right _ new old i)
Known-append new old id (inr (s, h)) = inr (s, Heard-append new old id s h)

-- One run after another.
pub Reach-append :
    {U : Type 0} {upper : Upper U} {u v w : Uniform U} {old new : List Event}
    → Reach upper u old v
    → Reach upper v new w
    → Reach upper u (new ++ old) w
Reach-append r here = r
Reach-append {old = old} r (next {old = middle} {new = new} q st e) =
    next (Reach-append r q) st (ap (λ l. l ++ old) e ∙ append_assoc new middle old)
