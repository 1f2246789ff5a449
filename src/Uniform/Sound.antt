-- ===== src/Uniform/Sound.antt =====
-- The well-formedness of a process's state, kept by every step.
use distributed_algorithms_p.Prelude.{
  Bool, ℕ, ◌+◌, ◌≤◌, ◌<◌, ◌≡◌, refl, sym, ap, subst, ◌∙◌, true, false, List, ◌∷◌, some, arith,
  nat_eq, u32, max_seq, All, All-append,
}
use distributed_algorithms_p.Prelude.Set.{member, member-insert, member-erase}
use distributed_algorithms_p.PerfectLink.Codec.{Message as LinkMessage}
use distributed_algorithms_p.PerfectLink.Link.{PerfectLink}
use distributed_algorithms_p.Manager.{Links}
use distributed_algorithms_p.Broadcast.Types.{Message, MessageId, id_eq, id_beq_iff}
use distributed_algorithms_p.Broadcast.Codec.{parse}
use distributed_algorithms_p.Broadcast.{Upper, best_effort_send, best_effort_notify}
use distributed_algorithms_p.DeliveredSet
use distributed_algorithms_p.DeliveredSet.Refinement.{
  IsNumbered, IsValid, nil-IsValid, insert-IsValid,
}
use distributed_algorithms_p.Uniform.{
  Uniform, new_uniform, add, send_internal, finish_own, send, notify, notify_internal,
  record_delivery, deliver, try_deliver, with_queue, erased, own_message, numbered,
}
use distributed_algorithms_p.Uniform.Cases.{
  finish_own_cases, send_cases, notify_internal_cases, try_deliver_cases, told, looked,
}
use distributed_algorithms_p.Uniform.Run.{Event, Step, sends, notifies, tries, relinks, with_links}

pub record IsSound {U : Type 0} (u : Uniform U) : Type 0 where
  pub valid : IsValid u.delivered
  pub quiet : u.deliver_to_upper_layer ≡ false
  pub first : 1 ≤ u.n_messages_sent
  pub last : u.n_messages_sent ≤ max_seq
  pub pending : (id : MessageId) → member id u.pending_for_delivery ≡ true → IsNumbered id
  pub queue : All (λ m. IsNumbered m.id) u.own_pending_for_broadcast

module _ {U : Type 0} where
  -- Finishing a message of the process's own delivers nothing.
  pub delivered-finish_own :
      (u : Uniform U) (id : MessageId) → (finish_own u id).delivered ≡ u.delivered
  unfolding send_internal
  delivered-finish_own u id =
      finish_own_cases (λ v. v.delivered ≡ u.delivered) u id (λ _. refl) (λ _ _. refl) (λ _ _. refl)
        (λ msg queue own few e. refl)

  send_internal-IsSound :
      {u : Uniform U} (msg : Message)
      → IsNumbered msg.id
      → IsSound u
      → IsSound (send_internal u msg)
  unfolding send_internal best_effort_send
  send_internal-IsSound {u} msg n s = record {
    valid = s.valid;
    quiet = s.quiet;
    first = s.first;
    last = s.last;
    pending = λ id h.
        ground (
          arith,
          member-insert msg.id id u.pending_for_delivery,
          id_beq_iff msg.id id,
          s.pending id,
        );
    queue = s.queue;
  }

  count-IsSound :
      {u : Uniform U} (n : ℕ) → IsSound u → IsSound (record u { n_own_pending_for_delivery = n })
  count-IsSound n s = record {
    valid = s.valid;
    quiet = s.quiet;
    first = s.first;
    last = s.last;
    pending = s.pending;
    queue = s.queue;
  }

  queue-IsSound :
      {u : Uniform U} (queue : List Message)
      → All (λ m. IsNumbered m.id) queue
      → IsSound u
      → IsSound (with_queue queue u)
  queue-IsSound queue q s = record {
    valid = s.valid;
    quiet = s.quiet;
    first = s.first;
    last = s.last;
    pending = s.pending;
    queue = q;
  }

  finish_own-IsSound : {u : Uniform U} (id : MessageId) → IsSound u → IsSound (finish_own u id)
  finish_own-IsSound {u} id s =
      finish_own_cases IsSound u id (λ _. s) (λ _ _. count-IsSound _ s) (λ _ _. count-IsSound _ s)
        λ msg queue own few e.
          let q : All (λ m. IsNumbered m.id) (msg ∷ queue) = subst (All _) e s.queue in
          send_internal-IsSound msg q.0 (
            count-IsSound _ (
              queue-IsSound queue q.1
                (count-IsSound (u32 (u.n_own_pending_for_delivery + max_seq)) s)))

  erase-IsSound : {u : Uniform U} (id : MessageId) → IsSound u → IsSound (erased id u)
  erase-IsSound {u} id s = record {
    valid = s.valid;
    quiet = s.quiet;
    first = s.first;
    last = s.last;
    pending = λ j h. s.pending j (ground (arith, member-erase id j u.pending_for_delivery));
    queue = s.queue;
  }

  pub acks-IsSound :
      {u : Uniform U} (acks : List (MessageId × List ℕ))
      → IsSound u
      → IsSound (record u { acks = acks })
  acks-IsSound acks s = record {
    valid = s.valid;
    quiet = s.quiet;
    first = s.first;
    last = s.last;
    pending = s.pending;
    queue = s.queue;
  }

  links-IsSound :
      {u : Uniform U} (on : Bool) (links : Links) → IsSound u → IsSound (with_links on links u)
  links-IsSound on links s = record {
    valid = s.valid;
    quiet = s.quiet;
    first = s.first;
    last = s.last;
    pending = s.pending;
    queue = s.queue;
  }

  pub add-IsSound : {u : Uniform U} (pl : PerfectLink) → IsSound u → IsSound (add u pl)
  unfolding add
  add-IsSound pl s = record {
    valid = s.valid;
    quiet = s.quiet;
    first = s.first;
    last = s.last;
    pending = s.pending;
    queue = s.queue;
  }

  module _ (upper : Upper U) where
    numbered-IsSound :
        {u : Uniform U} → u.n_messages_sent < max_seq → IsSound u → IsSound (numbered upper u)
    numbered-IsSound small s = record {
      valid = s.valid;
      quiet = s.quiet;
      first = omega arith;
      last = omega arith;
      pending = s.pending;
      queue = s.queue;
    }

    send-IsSound :
        {u : Uniform U} (msg : List ℕ)
        → u.n_messages_sent < max_seq
        → IsSound u
        → IsSound (send upper u msg)
    send-IsSound {u} msg small s =
        send_cases IsSound upper u msg
          (λ _.
            queue-IsSound _ (All-append _ u.own_pending_for_broadcast _ s.queue (own, tt))
              (numbered-IsSound small s))
          (λ _.
            send_internal-IsSound (own_message upper u msg) own
              (count-IsSound _ (numbered-IsSound small s)))
      where
        own : IsNumbered (own_message upper u msg).id
        own = (s.first, small)

    told-IsSound : {u : Uniform U} (msg : Message) → IsSound u → IsSound (told upper u msg)
    unfolding best_effort_notify
    told-IsSound msg s = record {
      valid = s.valid;
      quiet = s.quiet;
      first = s.first;
      last = s.last;
      pending = s.pending;
      queue = s.queue;
    }

    notify_internal-IsSound :
        {u : Uniform U} (msg : Message)
        → IsNumbered msg.id
        → IsSound u
        → IsSound (notify_internal upper u msg)
    notify_internal-IsSound {u} msg n s =
        let t = told-IsSound msg s in
        notify_internal_cases IsSound upper u msg (λ _. t) (λ _ _. acks-IsSound _ t)
          (λ _ _. send_internal-IsSound msg n (acks-IsSound _ t))

    record_delivery-IsSound :
        {u : Uniform U} (id : MessageId)
        → IsNumbered id
        → DeliveredSet.contains u.delivered id ≡ false
        → IsSound u
        → IsSound (record_delivery upper id u)
    record_delivery-IsSound {u} id n fresh s = record {
      valid = insert-IsValid u.delivered id s.valid n fresh;
      quiet = s.quiet;
      first = s.first;
      last = s.last;
      pending = s.pending;
      queue = s.queue;
    }

    try_deliver-IsSound :
        {u : Uniform U} (id : MessageId)
        → member id u.pending_for_delivery ≡ true
        → IsSound u
        → IsSound (try_deliver upper u id)
    unfolding deliver
    try_deliver-IsSound {u} id pending s =
        try_deliver_cases IsSound upper u id (acks-IsSound _ s) λ many fresh.
          record_delivery-IsSound id (s.pending id pending)
            (ap (λ d. DeliveredSet.contains d id)
                (delivered-finish_own (erased id (looked u id)) id)
              ∙ fresh)
            (finish_own-IsSound id (erase-IsSound id (acks-IsSound _ s)))

    -- `notify` on a packet that parses is `notify_internal`.
    pub notify_lem :
        (u : Uniform U) (sender_id : ℕ) (packet : LinkMessage) {msg : Message}
        → parse sender_id packet.payload ≡ some msg
        → notify upper u sender_id packet ≡ notify_internal upper u msg
    unfolding notify
    notify_lem u sender_id packet e = rw (e, notify)

    pub Step-IsSound :
        {u v : Uniform U} {events : List Event} → Step upper u events v → IsSound u → IsSound v
    Step-IsSound (sends msg small) s = send-IsSound msg small s
    Step-IsSound {u} (notifies sender_id packet {msg} e n) s =
        subst IsSound (sym (notify_lem u sender_id packet e)) (notify_internal-IsSound msg n s)
    Step-IsSound (tries id pending) s = try_deliver-IsSound id pending s
    Step-IsSound (relinks on links) s = links-IsSound on links s

    pub new_uniform-IsSound : (id : ℕ) (state : U) → IsSound (new_uniform id state)
    unfolding member
    new_uniform-IsSound id state = record {
      valid = nil-IsValid;
      quiet = refl;
      first = omega arith;
      last = omega arith;
      pending = λ j h. cc;
      queue = tt;
    }
