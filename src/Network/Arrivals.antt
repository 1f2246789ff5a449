-- ===== src/Network/Arrivals.antt =====
-- What a datagram that comes in makes of a process's ends of the links.
use distributed_algorithms_p.Prelude.{
  ℕ, ◌<◌, ◌≡◌, ◌≢◌, sym, ap, subst, ◌∙◌, Bool, List, Option, none, some, arith, ◌==◌, ==_refl,
  nat_eq, nat_beq_iff, if◌then◌else◌, max_seq, In, In-map, In-append, inl, inr, ◌⊎◌, Bool-cases,
}
use distributed_algorithms_p.Prelude.Map.{find, assign, find-assign}
use distributed_algorithms_p.PerfectLink.Codec
use distributed_algorithms_p.PerfectLink.Codec.{Packet, message, ack}
use distributed_algorithms_p.PerfectLink.Link.{PerfectLink, Upcall, is_unseen, record_ack}
use distributed_algorithms_p.PerfectLink.Link
use distributed_algorithms_p.PerfectLink.Channel.{End, receiving, receives}
use distributed_algorithms_p.PerfectLink.Sender.{on_packet-queue}
use distributed_algorithms_p.Broadcast.{Upper}
use distributed_algorithms_p.Broadcast.Types.{Message}
use distributed_algorithms_p.Broadcast.Codec.{parse}
use distributed_algorithms_p.Uniform.{Uniform}
use distributed_algorithms_p.Uniform.Run.{Event, notified, with_links}
use distributed_algorithms_p.Parser.{Host}
use distributed_algorithms_p.Drivers.{machine_of}
use distributed_algorithms_p.Node.{observe, upcalls}
use distributed_algorithms_p.Node.Runs.{Tells}
use distributed_algorithms_p.Network.{Network, Flight}
use distributed_algorithms_p.Network.Queues.{AllCarry, find-Carries}
use distributed_algorithms_p.Network.Sending.{notify-SendsPending}
use distributed_algorithms_p.Network.Incoming.{notify_calls}
use distributed_algorithms_p.Network.Ends.{keys-assign-Distinct, Moves, stays, then_move}
use distributed_algorithms_p.Network.Phases.{AreLinkedUp, IsPhase}
use distributed_algorithms_p.Network.Moving.{sends-Phase, Room}

-- Each call is made under the id of the link's other end.
notify-sender_id :
    (pl : PerfectLink) (bytes : List ℕ) (now : ℕ) (c : Upcall)
    → In c (Link.notify pl bytes now).1
    → c.sender_id ≡ pl.target_id
unfolding Link.notify Link.on_packet
notify-sender_id pl bytes now c = by_packet (Codec.parse bytes)
  where
    by_packet : (o : Option Packet) → In c (Link.on_packet pl o now).1 → c.sender_id ≡ pl.target_id
    by_packet none at = absurd at
    by_packet (some (ack i)) at = absurd at
    by_packet (some (message packet)) at =
        elim (Bool-cases (is_unseen (record_ack pl packet.seq) packet.seq)) [
          | inr seen ↦ absurd (rw (seen, Link.on_packet) at at)
          | inl unseen ↦
              let (k, _, e) = In-map _ c pl.managers (rw (unseen, Link.on_packet) at at) in
              ap (λ (x : Upcall). x.sender_id) e
        ]

module _ {U : Type 0} (upper : Upper U) (strong : Bool) (hosts : List Host) (s : Network U)
    (events : ℕ → List Event) (l : AreLinkedUp strong hosts s events) (h : Host) (f : Flight)
    (now : ℕ) (P : List ℕ → Type 0) (Q : Event → Type 0)
    (c : AllCarry hosts P (s.node h.id).manager.perfect_links) (in_f : In f.from hosts)
    (on : In f s.wire) (at : In h hosts) (to : f.datagram.machine ≡ machine_of h)
    (apart : h.id ≢ f.from.id) (new : List Event)
    (tells : (pl : PerfectLink)
      → find f.from.id (s.node h.id).manager.perfect_links ≡ some pl
      → Tells upper Q (Link.notify pl f.datagram.bytes now).1 new)
    (room : Room strong hosts s events l h new (l.ends h.id)) where
  abbrev u : Uniform U
  u = (s.node h.id).manager

  abbrev bytes : List ℕ
  bytes = f.datagram.bytes

  abbrev self : End
  self = l.ends h.id f.from.id

  abbrev received : ℕ → End
  received k = if k == f.from.id then receiving self bytes now else l.ends h.id k

  abbrev relinked : Uniform U
  relinked =
      with_links u.on (assign f.from.id (Link.notify self.link bytes now).0 u.perfect_links) u

  its_link : find f.from.id u.perfect_links ≡ some self.link
  its_link = l.found h.id f.from in_f apart

  -- To prove something of each end after it.
  received_cases :
      (C : ℕ → End → Type 0) (k : ℕ)
      → C f.from.id (receiving self bytes now)
      → (k ≢ f.from.id → C k (l.ends h.id k))
      → C k (received k)
  received_cases C k this others = elim (Bool-cases (k == f.from.id)) [
    | inr k_other ↦ rw k_other (others λ e. cc (k_other, (nat_beq_iff k f.from.id).1 e))
    | inl same ↦
        rw same (
          subst (λ j. C j (receiving self bytes now)) (sym ((nat_beq_iff k f.from.id).0 same)) this)
  ]

  received-told :
      (m : Codec.Message)
      → In m (receiving self bytes now).delivered
      → In m self.delivered
        ⊎ ((b : Message) → parse f.from.id m.payload ≡ some b → In (notified b) new)
  received-told m i = elim (In-append m _ self.delivered i) [
    | inr old ↦ inl old
    | inl fresh ↦
        let calls = (Link.notify self.link bytes now).1 in
        let (call, made, e) = In-map (λ (x : Upcall). x.msg) m calls fresh in
        let sender : f.from.id ≡ call.sender_id = sym (
          notify-sender_id self.link bytes now call made
          ∙ (find-Carries hosts P f.from.id self.link u.perfect_links c its_link).0) in
        inr λ b read. tells self.link its_link call made b (
          ap (λ j. parse j call.msg.payload) (sym sender)
          ∙ (ap (λ (x : Codec.Message). parse f.from.id x.payload) (sym e) ∙ read))
  ]

  received-IsPhase : IsPhase strong hosts s events l h new relinked received
  received-IsPhase = record {
    moves = λ k in_k apart_k.
        received_cases (λ j e. Moves strong (l.ends h.id j) (l.ends j h.id) e) k.id
          (then_move stays (receives bytes now (l.posted f on h at to (λ q. apart (sym q)))))
          (λ _. stays);
    distinct = keys-assign-Distinct f.from.id _ u.perfect_links (l.distinct h.id);
    found = λ k in_k apart_k.
        received_cases (λ j e. find j relinked.perfect_links ≡ some e.link) k.id
          (ground (
            arith,
            ==_refl f.from.id,
            find-assign f.from.id f.from.id (Link.notify self.link bytes now).0 u.perfect_links,
          ))
          (λ k_other. ground (
            arith,
            k_other,
            nat_beq_iff f.from.id k.id,
            find-assign f.from.id k.id (Link.notify self.link bytes now).0 u.perfect_links,
            l.found h.id k in_k apart_k,
          ));
    told = λ k in_k apart_k m.
        received_cases
          (λ j e.
            In m e.delivered
            → In m (l.ends h.id j).delivered
              ⊎ ((b : Message) → parse j m.payload ≡ some b → In (notified b) new))
          k.id (received-told m) (λ _ i. inl i);
    sent = λ k in_k apart_k id lo holds. inl holds;
  }

  received-Room : Room strong hosts s events l h new received
  unfolding Link.notify
  received-Room k in_k apart_k =
      received_cases (λ j e. e.link.n_messages_sent < max_seq) k.id
        (subst (λ n. n < max_seq) (sym (on_packet-queue self.link (Codec.parse bytes) now).0)
          (room f.from in_f apart))
        (λ _. room k in_k apart_k)

  pub observe-IsPhase :
      (after : ℕ → End) × IsPhase strong hosts s events l h new
        (observe upper now bytes u f.from.id)
        after
  unfolding observe upcalls
  observe-IsPhase =
      let held = find-Carries hosts P f.from.id self.link u.perfect_links c its_link in
      rw (its_link, observe)
        (elim (notify_calls self.link bytes now held.2) [
          | inl nothing ↦ rw (nothing, upcalls) (received, received-IsPhase)
          | inr (call, one) ↦
              rw (one, upcalls)
                (sends-Phase strong hosts s events l h new relinked _ received
                  (notify-SendsPending upper relinked call.sender_id call.msg) received-Room
                  received-IsPhase)
        ])
