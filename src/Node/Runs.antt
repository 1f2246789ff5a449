-- ===== src/Node/Runs.antt =====
-- The runs of a whole process are runs of the handlers of `Uniform`.
use distributed_algorithms_p.Prelude.{
  ℕ, ◌≡◌, refl, subst, Bool, List, [], ◌∷◌, ◌++◌, map, Option, none, some, nat_eq, arith,
  Option-cases, Bool-cases, inl, inr, All, All-append, In, In-append_left, In-append_right, sym, ap,
  ◌∙◌,
}
use distributed_algorithms_p.Prelude.Map.{find, assign}
use distributed_algorithms_p.Udp.{Datagram, Machine, audience, audience-receive}
use distributed_algorithms_p.Udp
use distributed_algorithms_p.PerfectLink.Codec
use distributed_algorithms_p.PerfectLink.Codec.{Packet, message, ack}
use distributed_algorithms_p.PerfectLink.Link.{PerfectLink, Upcall, is_unseen, record_ack}
use distributed_algorithms_p.PerfectLink.Link
use distributed_algorithms_p.Manager.{ack_round, send_acks_all}
use distributed_algorithms_p.Broadcast.{Upper}
use distributed_algorithms_p.Broadcast.Types.{Message}
use distributed_algorithms_p.Broadcast.Codec.{parse}
use distributed_algorithms_p.DeliveredSet.Refinement.{IsNumbered}
use distributed_algorithms_p.Uniform.{Uniform, notify}
use distributed_algorithms_p.Uniform.Run.{
  Event, notified, Step, Reach, here, next, Reach-append, sends, notifies, tries, relinks,
  with_links,
}
use distributed_algorithms_p.Drivers.{Driver}
use distributed_algorithms_p.Node.{
  IsFair, upcalls, observe, observe_all, receive, NodeStep, NodeReach, node_here, node_next,
  broadcasts, receives, delivers, acks, sends_acks,
}

-- What a message that comes in under `sender_id` is: it has a number that can have been given out, and
-- `P` holds of it.
abbrev pub IsTold : (Event → Type 0) → ℕ → List ℕ → Type 0
IsTold P sender_id payload =
    (m : Message) → parse sender_id payload ≡ some m → IsNumbered m.id × P (notified m)

abbrev IsFairCall : (Event → Type 0) → Upcall → Type 0
IsFairCall P c = IsTold P c.sender_id c.msg.payload

All-same :
    (P : Upcall → Type 0) (f : ℕ → Upcall) (managers : List ℕ)
    → ((k : ℕ) → P (f k))
    → All P (map f managers)
All-same P f [] h = tt
All-same P f (k ∷ managers) h = (h k, All-same P f managers h)

Link-notify-IsFairCall :
    (P : Event → Type 0) (pl : PerfectLink) (now : ℕ) (bytes : List ℕ)
    → ((packet : Codec.Message)
        → Codec.parse bytes ≡ some (message packet)
        → IsTold P pl.target_id packet.payload)
    → All (IsFairCall P) (Link.notify pl bytes now).1
unfolding Link.notify Link.on_packet
Link-notify-IsFairCall P pl now bytes fair = by_packet (Codec.parse bytes) refl
  where
    by_packet :
        (o : Option Packet) → Codec.parse bytes ≡ o → All (IsFairCall P) (Link.on_packet pl o now).1
    by_packet none e = tt
    by_packet (some (ack i)) e = tt
    by_packet (some (message packet)) e =
        elim (Bool-cases (is_unseen (record_ack pl packet.seq) packet.seq)) [
          | inr seen ↦ rw (seen, Link.on_packet) tt
          | inl unseen ↦
              rw (unseen, Link.on_packet) (All-same (IsFairCall P) _ pl.managers λ k. fair packet e)
        ]

pub some-inj : {A : Type 0} (x y : A) → some x ≡ some y → x ≡ y
some-inj x y e = cc

none-ne-some : {A : Type 0} (x : A) → ¬ (none ≡ some x)
none-ne-some x e = cc

module _ {U : Type 0} (upper : Upper U) (P : Event → Type 0) where
  -- Some run leads from the one state to the other, with events of which `P` holds.
  abbrev pub Leads : Uniform U → Uniform U → Type 0
  Leads u v = (events : List Event) × Reach upper u events v × All P events

  pub then_Leads : {u v w : Uniform U} → Leads u v → Leads v w → Leads u w
  then_Leads (old, r, a) (new, s, b) = (new ++ old, Reach-append r s, All-append P new old b a)

  pub Step-Leads : {u v : Uniform U} {new : List Event} → Step upper u new v → All P new → Leads u v
  Step-Leads {new = new} st a = (new ++ [], next here st refl, All-append P new [] a tt)

  -- Of each call, the message that it hands over is among the events.
  abbrev pub Tells : List Upcall → List Event → Type 0
  Tells calls events =
      (c : Upcall)
      → In c calls
      → (m : Message) → parse c.sender_id c.msg.payload ≡ some m
      → In (notified m) events

  upcalls-Leads :
      (u : Uniform U) (calls : List Upcall)
      → All (IsFairCall P) calls
      → (events : List Event) × Reach upper u events (upcalls upper u calls)
        × All P events
        × Tells calls events
  unfolding upcalls notify
  upcalls-Leads u [] fair = ([], here, tt, λ c i. absurd i)
  upcalls-Leads u (c ∷ calls) fair =
      let (events, run, a, tells) = upcalls-Leads (notify upper u c.sender_id c.msg) calls fair.1 in
      elim (Option-cases (parse c.sender_id c.msg.payload)) [
        | inl bad ↦ (
          events,
          subst (λ v. Reach upper v events (upcalls upper (notify upper u c.sender_id c.msg) calls))
              (rw (bad, notify)) run,
          a,
          λ c' i m e. elim i [
            | inl same ↦ absurd (
                none-ne-some m (
                  sym bad
                  ∙ subst (λ (x : Upcall). parse x.sender_id x.msg.payload ≡ some m) same e))
            | inr later ↦ tells c' later m e
          ],
        )
        | inr (m, e) ↦
            let (numbered, p) = fair.0 m e in
            (
              events ++ notified m ∷ [],
              Reach-append (next here (notifies c.sender_id c.msg e numbered) refl) run,
              All-append P events (notified m ∷ []) a (p, tt),
              λ c' i m' e'. elim i [
                | inl same ↦ In-append_right (notified m') events (notified m ∷ []) (
                    inl (
                      ap notified (
                        some-inj m' m (
                          sym (
                            subst (λ (x : Upcall). parse x.sender_id x.msg.payload ≡ some m') same
                              e')
                          ∙ e))))
                | inr later ↦
                    In-append_left (notified m') events (notified m ∷ []) (tells c' later m' e')
              ],
            )
      ]

  pub relinks-Leads :
      (u : Uniform U) (on : Bool) (links : List (ℕ × PerfectLink)) → Leads u (with_links on links u)
  relinks-Leads u on links = Step-Leads (relinks on links) tt

  pub observe-Leads :
      (now : ℕ) (bytes : List ℕ) (u : Uniform U) (obs : ℕ)
      → ((pl : PerfectLink)
          → find obs u.perfect_links ≡ some pl
          → (packet : Codec.Message) → Codec.parse bytes ≡ some (message packet)
          → IsTold P pl.target_id packet.payload)
      → (events : List Event) × Reach upper u events (observe upper now bytes u obs)
        × All P events
        × ((pl : PerfectLink)
            → find obs u.perfect_links ≡ some pl
            → Tells (Link.notify pl bytes now).1 events)
  unfolding observe
  observe-Leads now bytes u obs fair = elim (Option-cases (find obs u.perfect_links)) [
    | inl absent ↦ rw (absent, observe) ([], here, tt, λ pl e. absurd (none-ne-some pl e))
    | inr (pl, e) ↦
        let links = assign obs (Link.notify pl bytes now).0 u.perfect_links in
        let (events, run, a, tells) =
          upcalls-Leads (with_links u.on links u) (Link.notify pl bytes now).1
            (Link-notify-IsFairCall P pl now bytes (fair pl e)) in
        rw (e, observe)
          (
            events ++ [],
            Reach-append (next here (relinks u.on links) refl) run,
            All-append P events [] a tt,
            λ pl' e' c i m p.
                In-append_left (notified m) events []
                  (tells c (rw (some-inj pl' pl (sym e')) at i) m p),
          )
  ]

  pub acks-Leads :
      (strong : Bool) (now : ℕ) (u : Uniform U) → Leads u (sends_acks upper strong now u)
  unfolding ack_round
  acks-Leads strong now u = elim (Bool-cases u.on) [
    | inr off ↦ subst (Leads u) (ground arith) ([], here, tt)
    | inl on ↦
        subst (Leads u) (ground arith)
          (relinks-Leads u u.on (send_acks_all strong now u.perfect_links).0)
  ]

-- Nothing more is asked of the events.
abbrev Any : Event → Type 0
Any e = Unit

module _ {U : Type 0} (upper : Upper U) where
  observe_all-Leads :
      (now : ℕ) (d : Datagram) (u : Uniform U) (observers : List ℕ)
      → IsFair d
      → Leads upper Any u (observe_all upper now d.bytes u observers)
  unfolding observe_all
  observe_all-Leads now d u [] fair = ([], here, tt)
  observe_all-Leads now d u (obs ∷ observers) fair =
      let (events, run, a, _) =
        observe-Leads upper Any now d.bytes u obs
          (λ pl _ packet e m p. (fair packet pl.target_id m e p, tt)) in
      then_Leads upper Any (events, run, a)
        (observe_all-Leads now d (observe upper now d.bytes u obs) observers fair)

  NodeStep-Leads :
      {d e : Driver (Uniform U)} → NodeStep upper d e → Leads upper Any d.manager e.manager
  unfolding receive ack_round
  NodeStep-Leads {d} (broadcasts msg small) = Step-Leads upper Any (sends msg small) (tt, tt)
  NodeStep-Leads {d} (receives now datagram fair) =
      observe_all-Leads now datagram d.manager (Udp.receive d.server datagram).1 fair
  NodeStep-Leads {d} (delivers id pending) = Step-Leads upper Any (tries id pending) tt
  NodeStep-Leads {d} (acks strong now) = acks-Leads upper Any strong now d.manager

  NodeReach-Leads :
      {d e : Driver (Uniform U)} → NodeReach upper d e → Leads upper Any d.manager e.manager
  NodeReach-Leads node_here = ([], here, tt)
  NodeReach-Leads (node_next r st) = then_Leads upper Any (NodeReach-Leads r) (NodeStep-Leads st)

  -- Every run of a whole process, in which datagrams come in at its server and go through its links,
  -- messages are broadcast, pending ones are gone through and acks are sent, in any order and at any
  -- times, and the messages that come in and go out have numbers from 1 to 2^32 - 2, is a run of the
  -- handlers of `Uniform`.
  pub NodeReach-Reach :
      {d e : Driver (Uniform U)}
      → NodeReach upper d e
      → (events : List Event) × Reach upper d.manager events e.manager
  NodeReach-Reach r = let (events, run, _) = NodeReach-Leads r in (events, run)
