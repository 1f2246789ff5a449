-- ===== src/Network/Fitting.antt =====
-- The sizes of what a process sends: no message outgrows the buffers of src/src/src/perfect_link.cpp and
-- src/src/src/best_effort_broadcast.cpp that it is written to.
use distributed_algorithms_p.Prelude.{
  ℕ, ◌+◌, ◌≤◌, ◌≡◌, refl, sym, subst, Bool, List, [], ◌∷◌, Option, none, some, arith, nat_eq, In,
  In-append, inl, inr, All, All-append, Bool-cases, Option-cases, length, map,
}
use distributed_algorithms_p.Prelude.Map.{find}
use distributed_algorithms_p.Udp.{Datagram}
use distributed_algorithms_p.PerfectLink.Codec
use distributed_algorithms_p.PerfectLink.Codec.{Packet, message, ack, ack_packet, max_send_size}
use distributed_algorithms_p.PerfectLink.Link.{
  PerfectLink, Upcall, on_packet, is_unseen, record_ack, send_messages, send_acks,
}
use distributed_algorithms_p.PerfectLink.Link
use distributed_algorithms_p.PerfectLink.Packets.{In-packets-send_messages, In-packets-send_acks}
use distributed_algorithms_p.Manager.{Links, send_acks_all, send_messages_all}
use distributed_algorithms_p.Broadcast.Types.{Message, MessageId}
use distributed_algorithms_p.Broadcast.Codec.{
  buffer_size, packet_prefix_size, serialize, parse, length-serialize, length-parse,
}
use distributed_algorithms_p.Broadcast.{Upper, best_effort_send, best_effort_notify}
use distributed_algorithms_p.Uniform.{
  Uniform, send_internal, finish_own, deliver, erased, own_message, send, notify, try_deliver,
}
use distributed_algorithms_p.Uniform.Cases.{
  finish_own_cases, send_cases, notify_internal_cases, try_deliver_cases, looked,
}
use distributed_algorithms_p.Parser.{Host}
use distributed_algorithms_p.Node.{upcalls, observe, observe_all}
use distributed_algorithms_p.Network.Queues.{
  AllCarry, send_all-AllCarry, find-Carries, notify-Carries, assign-AllCarry, In-bytes,
}

-- The payload of a link's message, which is a broadcast message, fits the buffer that it is written to.
abbrev pub IsSmall : List ℕ → Type 0
IsSmall payload = length payload ≤ buffer_size

abbrev IsSmallMessage : Message → Type 0
IsSmallMessage m = IsSmall (serialize m)

abbrev AreSmall : List Upcall → Type 0
AreSmall = All (λ (c : Upcall). IsSmall c.msg.payload)

module _ {U : Type 0} (hosts : List Host) where
  -- All that waits to be sent fits: in the links, and in the queue of own messages.
  pub record IsFitting (u : Uniform U) : Type 0 where
    pub links : AllCarry hosts IsSmall u.perfect_links
    pub queue : All IsSmallMessage u.own_pending_for_broadcast

  pub same-IsFitting :
      (u v : Uniform U)
      → v.perfect_links ≡ u.perfect_links
      → v.own_pending_for_broadcast ≡ u.own_pending_for_broadcast
      → IsFitting u
      → IsFitting v
  same-IsFitting u v l q f = record {
    links = subst (AllCarry hosts IsSmall) (sym l) f.links;
    queue = subst (All IsSmallMessage) (sym q) f.queue;
  }

  send_internal-IsFitting :
      (u : Uniform U) (m : Message) → IsSmallMessage m → IsFitting u → IsFitting (send_internal u m)
  unfolding send_internal best_effort_send
  send_internal-IsFitting u m small f = record {
    links = send_all-AllCarry hosts IsSmall (serialize m) u.perfect_links small f.links;
    queue = f.queue;
  }

  finish_own-IsFitting :
      (u : Uniform U) (id : MessageId) → IsFitting u → IsFitting (finish_own u id)
  finish_own-IsFitting u id f =
      finish_own_cases IsFitting u id (λ _. f) (λ _ _. same-IsFitting u _ refl refl f)
        (λ _ _. same-IsFitting u _ refl refl f)
        λ m queue _ _ e.
          let all : All IsSmallMessage (m ∷ queue) = subst (All IsSmallMessage) e f.queue in
          send_internal-IsFitting _ m all.0 (record { links = f.links; queue = all.1 })

  module _ (upper : Upper U) where
    pub send-IsFitting :
        (u : Uniform U) (msg : List ℕ)
        → packet_prefix_size + length msg ≤ buffer_size
        → IsFitting u
        → IsFitting (send upper u msg)
    send-IsFitting u msg fits f =
        let own = own_message upper u msg in
        let small : IsSmallMessage own = omega (arith, length-serialize own) in
        send_cases IsFitting upper u msg
          (λ _. record {
            links = f.links;
            queue = All-append IsSmallMessage u.own_pending_for_broadcast _ f.queue (small, tt);
          })
          (λ _. send_internal-IsFitting _ own small (record { links = f.links; queue = f.queue }))

    notify-IsFitting :
        (u : Uniform U) (sender_id : ℕ) (packet : Codec.Message)
        → IsSmall packet.payload
        → IsFitting u
        → IsFitting (notify upper u sender_id packet)
    unfolding notify best_effort_notify
    notify-IsFitting u sender_id packet small f =
        elim (Option-cases (parse sender_id packet.payload)) [
          | inl bad ↦ rw (bad, notify) f
          | inr (m, e) ↦
              rw (e, notify)
                (notify_internal_cases IsFitting upper u m (λ _. same-IsFitting u _ refl refl f)
                  (λ _ _. same-IsFitting u _ refl refl f)
                  λ _ _.
                    send_internal-IsFitting _ m
                      (omega (
                        arith,
                        small,
                        length-parse sender_id packet.payload m e,
                        length-serialize m,
                      ))
                      (same-IsFitting u _ refl refl f))
        ]

    pub try_deliver-IsFitting :
        (u : Uniform U) (id : MessageId) → IsFitting u → IsFitting (try_deliver upper u id)
    unfolding deliver
    try_deliver-IsFitting u id f =
        try_deliver_cases IsFitting upper u id (same-IsFitting u _ refl refl f) λ _ _.
          let done : IsFitting (finish_own (erased id (looked u id)) id) =
            finish_own-IsFitting (erased id (looked u id)) id (same-IsFitting u _ refl refl f) in
          same-IsFitting (finish_own (erased id (looked u id)) id) _ refl refl done

    upcalls-IsFitting :
        (u : Uniform U) (calls : List Upcall)
        → AreSmall calls
        → IsFitting u
        → IsFitting (upcalls upper u calls)
    unfolding upcalls
    upcalls-IsFitting u [] small f = f
    upcalls-IsFitting u (c ∷ calls) small f =
        upcalls-IsFitting (notify upper u c.sender_id c.msg) calls small.1
          (notify-IsFitting u c.sender_id c.msg small.0 f)

    observe-IsFitting :
        (now : ℕ) (bytes : List ℕ) (u : Uniform U) (obs : ℕ)
        → length bytes ≤ max_send_size
        → IsFitting u
        → IsFitting (observe upper now bytes u obs)
    unfolding observe Link.notify on_packet
    observe-IsFitting now bytes u obs fits f = elim (Option-cases (find obs u.perfect_links)) [
      | inl absent ↦ rw (absent, observe) f
      | inr (pl, e) ↦
          rw (e, observe)
            (upcalls-IsFitting _ _ (notify_calls-small pl bytes now fits) (record {
              links =
                  assign-AllCarry hosts IsSmall obs (Link.notify pl bytes now).0 u.perfect_links
                    (notify-Carries hosts IsSmall obs pl bytes now
                      (find-Carries hosts IsSmall obs pl u.perfect_links f.links e))
                    f.links;
              queue = f.queue;
            }))
    ]
      where
        all_small :
            (sender_id : ℕ) (m : Codec.Message) (managers : List ℕ)
            → IsSmall m.payload
            → AreSmall (
                map
                  (λ manager. record { manager = manager; sender_id = sender_id; msg = m })
                  managers)
        all_small sender_id m [] small = tt
        all_small sender_id m (x ∷ managers) small = (small, all_small sender_id m managers small)

        by_packet :
            (pl : PerfectLink) (o : Option Packet) (now : ℕ)
            → ((m : Codec.Message) → o ≡ some (message m) → IsSmall m.payload)
            → AreSmall (on_packet pl o now).1
        by_packet pl none now small = tt
        by_packet pl (some (ack n)) now small = tt
        by_packet pl (some (message m)) now small =
            elim (Bool-cases (is_unseen (record_ack pl m.seq) m.seq)) [
              | inr seen ↦ rw seen tt
              | inl unseen ↦ rw unseen (all_small pl.target_id m pl.managers (small m refl))
            ]

        notify_calls-small :
            (pl : PerfectLink) (bytes : List ℕ) (now : ℕ)
            → length bytes ≤ max_send_size
            → AreSmall (Link.notify pl bytes now).1
        notify_calls-small pl bytes now fits =
            by_packet pl (Codec.parse bytes) now
              λ m e. omega (arith, fits, Codec.length-parse bytes m e)

    pub observe_all-IsFitting :
        (now : ℕ) (bytes : List ℕ) (u : Uniform U) (observers : List ℕ)
        → length bytes ≤ max_send_size
        → IsFitting u
        → IsFitting (observe_all upper now bytes u observers)
    unfolding observe_all
    observe_all-IsFitting now bytes u [] fits f = f
    observe_all-IsFitting now bytes u (obs ∷ observers) fits f =
        observe_all-IsFitting now bytes (observe upper now bytes u obs) observers fits
          (observe-IsFitting now bytes u obs fits f)

-- What goes out fits the buffers of the links.
pub send_messages_all-fits :
    (hosts : List Host) (links : Links) (d : Datagram)
    → AllCarry hosts IsSmall links
    → In d (send_messages_all links)
    → length d.bytes ≤ max_send_size
unfolding send_messages_all
send_messages_all-fits hosts [] d c at = absurd at
send_messages_all-fits hosts ((k, pl) ∷ links) d c at =
    elim (In-append d (send_messages pl) (send_messages_all links) at) [
      | inr later ↦ send_messages_all-fits hosts links d c.1 later
      | inl now ↦
          let (x, on, same) = In-packets-send_messages pl d.bytes (In-bytes d _ now) in
          subst (λ b. length b ≤ max_send_size) (sym same)
            (omega
              (arith, c.0.3 x on, Codec.length-serialize (record { seq = x.0; payload = x.1 })))
    ]

pub send_acks_all-fits :
    (strong : Bool) (now : ℕ) (links : Links) (d : Datagram)
    → In d (send_acks_all strong now links).1
    → length d.bytes ≤ max_send_size
unfolding send_acks_all ack_packet
send_acks_all-fits strong now [] d at = absurd at
send_acks_all-fits strong now ((k, pl) ∷ links) d at =
    elim (In-append d (send_acks strong now pl).1 (send_acks_all strong now links).1 at) [
      | inr later ↦ send_acks_all-fits strong now links d later
      | inl now_ ↦
          let (n, _, same) = In-packets-send_acks strong now pl d.bytes (In-bytes d _ now_) in
          subst (λ b. length b ≤ max_send_size) (sym same) (omega arith)
    ]
