-- ===== src/Network/Incoming.antt =====
-- A datagram from the wire at a process: what the broadcast layer is told comes from the process whose
-- address the datagram has.
use distributed_algorithms_p.Prelude.{
  ℕ, ◌≤◌, ◌≡◌, ◌≢◌, refl, sym, subst, ◌∙◌, List, [], ◌∷◌, Option, none, some, arith, ◌==◌, nat_eq,
  true, nat_beq_iff, max_seq, map, In, Bool-cases, Option-cases, inl, inr, ◌⊎◌, is_empty,
}
use distributed_algorithms_p.Prelude.Map.{find, assign}
use distributed_algorithms_p.Prelude.Set.{Distinct}
use distributed_algorithms_p.Udp.{Machine, machine_eq, audience, notify_all}
use distributed_algorithms_p.Udp
use distributed_algorithms_p.PerfectLink.Codec
use distributed_algorithms_p.PerfectLink.Codec.{Packet, message, ack}
use distributed_algorithms_p.PerfectLink.Link.{PerfectLink, Upcall, is_unseen, record_ack}
use distributed_algorithms_p.PerfectLink.Link
use distributed_algorithms_p.Manager.{this}
use distributed_algorithms_p.Broadcast.{Upper}
use distributed_algorithms_p.Broadcast.Types.{MessageId}
use distributed_algorithms_p.Broadcast.Codec.{parse, parse-serialize}
use distributed_algorithms_p.DeliveredSet.Refinement.{IsNumbered}
use distributed_algorithms_p.Uniform.{Uniform}
use distributed_algorithms_p.Uniform.Run.{here, notified, with_links}
use distributed_algorithms_p.Uniform.Sound.{IsSound}
use distributed_algorithms_p.Uniform.Holds.{Holds}
use distributed_algorithms_p.Parser.{Host}
use distributed_algorithms_p.Drivers.{machine_of}
use distributed_algorithms_p.Drivers.Connected.{peers_at-own, peers_at-one}
use distributed_algorithms_p.System.{IsFrom}
use distributed_algorithms_p.System.Origin.{SystemReach-IsLive}
use distributed_algorithms_p.Node.{observe, observe_all, upcalls, receive}
use distributed_algorithms_p.Node.Runs.{some-inj, IsTold, Tells, Leads, observe-Leads}
use distributed_algorithms_p.Network.{Network, Flight, incoming}
use distributed_algorithms_p.Network.Queues.{
  AllCarry, find-Carries, notify-Carries, assign-AllCarry,
}
use distributed_algorithms_p.Network.Sending.{IsHeldBy, notify-SendsPending, SendsPending-AllCarry}
use distributed_algorithms_p.Network.Walks.{holder-IsMember}
use distributed_algorithms_p.Network.Covered.{AreMembers, IsCovered, links}

-- A link tells its one manager at most once.
pub notify_calls :
    (pl : PerfectLink) (bytes : List ℕ) (now : ℕ)
    → pl.managers ≡ this ∷ []
    → ((Link.notify pl bytes now).1 ≡ [])
      ⊎ ((call : Upcall) × ((Link.notify pl bytes now).1 ≡ call ∷ []))
unfolding Link.notify Link.on_packet
notify_calls pl bytes now one = by_packet (Codec.parse bytes)
  where
    by_packet :
        (o : Option Packet)
        → ((Link.on_packet pl o now).1 ≡ [])
          ⊎ ((call : Upcall) × ((Link.on_packet pl o now).1 ≡ call ∷ []))
    by_packet none = inl refl
    by_packet (some (ack i)) = inl refl
    by_packet (some (message packet)) =
        elim (Bool-cases (is_unseen (record_ack pl packet.seq) packet.seq)) [
          | inr seen ↦ inl (rw (seen, Link.on_packet))
          | inl unseen ↦ inr (
            record { manager = this; sender_id = pl.target_id; msg = packet },
            rw (unseen, one, Link.on_packet),
          )
        ]

module _ {U : Type 0} (upper : Upper U) (hosts : List Host) where
  -- What a datagram leaves of the links' contents, at a process whose links carry what it holds.
  abbrev pub KeepsCarried : Uniform U → Uniform U → Type 0
  KeepsCarried u v =
      IsSound v
      → ((id : MessageId) → IsNumbered id → Holds u id → Holds v id)
      → AllCarry hosts (IsHeldBy v) v.perfect_links

  observe-KeepsCarried :
      (now : ℕ) (bytes : List ℕ) (u : Uniform U) (obs : ℕ)
      → AllCarry hosts (IsHeldBy u) u.perfect_links
      → KeepsCarried u (observe upper now bytes u obs)
  unfolding observe upcalls
  observe-KeepsCarried now bytes u obs c = elim (Option-cases (find obs u.perfect_links)) [
    | inl absent ↦ rw (absent, observe) (λ sound kept. c)
    | inr (pl, e) ↦
        let held = find-Carries hosts (IsHeldBy u) obs pl u.perfect_links c e in
        let after : Uniform U =
          with_links u.on (assign obs (Link.notify pl bytes now).0 u.perfect_links) u in
        let c' : AllCarry hosts (IsHeldBy after) after.perfect_links =
          assign-AllCarry hosts (IsHeldBy u) obs (Link.notify pl bytes now).0 u.perfect_links
            (notify-Carries hosts (IsHeldBy u) obs pl bytes now held) c in
        rw (e, observe)
          (elim (notify_calls pl bytes now held.2) [
            | inl nothing ↦ rw (nothing, upcalls) (λ sound kept. c')
            | inr (call, one) ↦
                rw (one, upcalls)
                  (λ sound kept.
                    SendsPending-AllCarry hosts after _
                      (notify-SendsPending upper after call.sender_id call.msg) sound kept c')
          ])
  ]

module _ {U : Type 0} (upper : Upper U) (hosts : List Host) (n : ℕ) (state : U)
    (members : AreMembers n hosts) (few : n ≤ max_seq) (addresses : Distinct (map machine_of hosts))
    (s : Network U) (c : IsCovered upper hosts n state s) (h : Host) (f : Flight)
    (on : In f s.wire) where
  -- The message in it, if there is one, is held by the sender.
  sender-IsTold :
      (packet : Codec.Message)
      → Codec.parse f.datagram.bytes ≡ some (message packet)
      → h.id ≢ f.from.id
      → IsTold (IsFrom n c.system h.id) f.from.id packet.payload
  sender-IsTold packet e other m p =
      let from = f.from.id in
      let (m', form, numbered, holds) = c.wired f on packet e in
      let holds' : Holds (c.system.proc from) m'.id =
        subst (λ v. Holds v m'.id) (sym (c.same from)) holds in
      let l = SystemReach-IsLive upper n state (links upper hosts n state) c.reached in
      let (_, top) =
        holder-IsMember upper n state (links upper hosts n state) c.reached m'.id.author m'.id
          (l.known from m'.id numbered.0 holds') in
      let read : parse from packet.payload ≡ some (record m' { sender = from }) =
        subst (λ b. parse from b ≡ some (record m' { sender = from })) (sym form)
          (parse-serialize from m' (omega arith) (omega arith)) in
      subst (λ x. IsNumbered x.id × IsFrom n c.system h.id (notified x))
        (some-inj (record m' { sender = from }) m (sym read ∙ p))
        (numbered, (members f.from (c.sender f on), (λ q. other (sym q)), holds'))

  -- The server hands it to nobody, or to the link to the sender.
  pub receive_cases :
      (C : Uniform U → Type 0) (now : ℕ)
      → ((h.id ≢ f.from.id → is_empty f.datagram.bytes ≡ true) → C (s.node h.id).manager)
      → (h.id ≢ f.from.id → C (observe upper now f.datagram.bytes (s.node h.id).manager f.from.id))
      → C (receive upper now (s.node h.id) (incoming f)).manager
  unfolding receive Udp.receive observe_all
  receive_cases C now nobody link = elim (Bool-cases (is_empty f.datagram.bytes)) [
    | inl empty ↦ rw (empty, Udp.receive) (nobody λ _. empty)
    | inr some_bytes ↦
        let heard = c.heard h.id (machine_of f.from) in
        let sender = c.sender f on in
        elim (Bool-cases (h.id == f.from.id)) [
          | inl own ↦
              let own_id : h.id ≡ f.from.id = (nat_beq_iff h.id f.from.id).0 own in
              rw (some_bytes, Udp.receive)
                (rw (heard ∙ peers_at-own h.id hosts f.from addresses sender own_id)
                  (nobody λ other. absurd (other own_id)))
          | inr apart ↦
              let other : h.id ≢ f.from.id = λ e. cc (apart, (nat_beq_iff h.id f.from.id).1 e) in
              rw (some_bytes, Udp.receive)
                (rw (heard ∙ peers_at-one h.id hosts f.from addresses sender other) (link other))
        ]
  ]

  -- The run of the handlers that it sets off. What the link to the sender hands over is among the
  -- events.
  pub record Receipt (now : ℕ) (u v : Uniform U) : Type 0 where
    pub leads : Leads upper (IsFrom n c.system h.id) u v
    pub carries : KeepsCarried upper hosts u v
    pub tells :
        h.id ≢ f.from.id
        → (pl : PerfectLink) → find f.from.id u.perfect_links ≡ some pl
        → Tells upper (IsFrom n c.system h.id) (Link.notify pl f.datagram.bytes now).1 leads.0

  pub receive-Receipt :
      (now : ℕ)
      → Receipt now (s.node h.id).manager (receive upper now (s.node h.id) (incoming f)).manager
  unfolding Link.notify Link.on_packet Codec.parse
  receive-Receipt now =
      let u = (s.node h.id).manager in
      receive_cases (Receipt now u) now
        (λ why. record {
          leads = ([], here, tt);
          carries = λ sound kept. c.carried h.id;
          tells = λ other pl found. no_calls f.datagram.bytes (why other) pl now;
        })
        λ other.
          let (events, run, from, tells) =
            observe-Leads upper (IsFrom n c.system h.id) now f.datagram.bytes u f.from.id
              (λ pl found packet e.
                subst (λ k. IsTold (IsFrom n c.system h.id) k packet.payload)
                  (sym
                    (find-Carries hosts (IsHeldBy u) f.from.id pl u.perfect_links (c.carried h.id)
                      found).0)
                  (sender-IsTold packet e other)) in
          record {
            leads = (events, run, from);
            carries =
                observe-KeepsCarried upper hosts now f.datagram.bytes u f.from.id (c.carried h.id);
            tells = λ _. tells;
          }
    where
      no_calls :
          (bytes : List ℕ)
          → is_empty bytes ≡ true
          → (pl : PerfectLink) (now : ℕ)
          → Tells upper (IsFrom n c.system h.id) (Link.notify pl bytes now).1 []
      no_calls [] e pl now call at = absurd at
      no_calls (b ∷ bytes) e pl now call at = cc
