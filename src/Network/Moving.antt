-- ===== src/Network/Moving.antt =====
-- What a step of a process makes of its ends of the links, but for a datagram that comes in.
use distributed_algorithms_p.Prelude.{
  In-All, ℕ, ◌<◌, ◌≡◌, ◌≢◌, refl, sym, ap, subst, ◌∙◌, false, Bool, List, [], ◌∷◌, map, some, arith,
  nat_eq, max_seq, In, In-map, In-append_left, inl, inr, Bool-cases,
}
use distributed_algorithms_p.Prelude.Map.{find}
use distributed_algorithms_p.Prelude.Set.{Distinct, member}
use distributed_algorithms_p.Udp.{Datagram, machine_eq, machine_beq_iff}
use distributed_algorithms_p.PerfectLink.Link.{PerfectLink, send_acks, send_messages}
use distributed_algorithms_p.PerfectLink.Channel.{
  End, packets, sending, sending_messages, sending_acks, sends, sends_messages, sends_acks,
}
use distributed_algorithms_p.Manager.{Links, ack_round, send_round}
use distributed_algorithms_p.Broadcast.{Upper}
use distributed_algorithms_p.Broadcast.Codec.{serialize}
use distributed_algorithms_p.Uniform.{Uniform}
use distributed_algorithms_p.Uniform.Run.{Event}
use distributed_algorithms_p.Parser.{Host}
use distributed_algorithms_p.Drivers.{machine_of}
use distributed_algorithms_p.Node.{sends_acks as sends_acks_of}
use distributed_algorithms_p.Node.Runs.{some-inj}
use distributed_algorithms_p.Network.{Network, Flight, flights}
use distributed_algorithms_p.Network.Queues.{Carries, AllCarry, In-bytes}
use distributed_algorithms_p.Network.Sending.{HoldsOnly, SendsPending}
use distributed_algorithms_p.Network.Ends.{
  keys, keys-send_all, keys-send_acks_all, find-send_all, find-send_acks_all, find-of_In,
  send_messages_all-from, send_acks_all-from, stays, then_move,
}
use distributed_algorithms_p.Network.Phases.{AreLinkedUp, IsPhase}

apart :
    (g k : Host) (hosts : List Host)
    → member (machine_of g) (map machine_of hosts) ≡ false
    → In k hosts
    → ¬ (machine_of g ≡ machine_of k)
unfolding member
apart g k [] m on e = absurd on
apart g k (h ∷ hosts) m (inl same) e =
    ground (arith, same, e, m, machine_beq_iff (machine_of h) (machine_of g))
apart g k (h ∷ hosts) m (inr on) e =
    apart g k hosts (ground (arith, machine_beq_iff (machine_of h) (machine_of g))) on e

-- With different addresses, an address names one host.
pub same_host :
    (hosts : List Host) (g k : Host)
    → Distinct (map machine_of hosts)
    → In g hosts
    → In k hosts
    → machine_of g ≡ machine_of k
    → g ≡ k
same_host [] g k d in_g in_k e = absurd in_g
same_host (h ∷ hosts) g k d (inl p) (inl q) e = p ∙ sym q
same_host (h ∷ hosts) g k d (inl p) (inr q) e =
    absurd (apart h k hosts d.0 q (ap machine_of (sym p) ∙ e))
same_host (h ∷ hosts) g k d (inr p) (inl q) e =
    absurd (apart h g hosts d.0 p (ap machine_of (sym q) ∙ sym e))
same_host (h ∷ hosts) g k d (inr p) (inr q) e = same_host hosts g k d.1 p q e

module _ {U : Type 0} (strong : Bool) (hosts : List Host) (s : Network U) (events : ℕ → List Event)
    (l : AreLinkedUp strong hosts s events) (h : Host) (new : List Event) where
  abbrev pub Phase : Uniform U → (ℕ → End) → Type 0
  Phase = IsPhase strong hosts s events l h new

  -- Its beginning.
  pub start-Phase : Phase (s.node h.id).manager (l.ends h.id)
  start-Phase = record {
    moves = λ k in_k apart. stays;
    distinct = l.distinct h.id;
    found = λ k in_k apart. l.found h.id k in_k apart;
    told = λ k in_k apart m on. inl on;
    sent = λ k in_k apart id lo holds. inl holds;
  }

  pub same-Phase :
      (u v : Uniform U) (fam : ℕ → End)
      → v.perfect_links ≡ u.perfect_links
      → HoldsOnly (λ j. ⊥) u v
      → Phase u fam
      → Phase v fam
  same-Phase u v fam links only p = record {
    moves = p.moves;
    distinct = subst (λ m. Distinct (keys m)) (sym links) p.distinct;
    found = λ k in_k apart. ap (find k.id) links ∙ p.found k in_k apart;
    told = p.told;
    sent = λ k in_k apart id lo holds. elim (only id lo holds) [
      | inl old ↦ p.sent k in_k apart id lo old
      | inr never ↦ absurd never
    ];
  }

  -- The ends that are used have numbers left.
  abbrev pub Room : (ℕ → End) → Type 0
  Room fam = (k : Host) → In k hosts → h.id ≢ k.id → (fam k.id).link.n_messages_sent < max_seq

  pub sends-Phase :
      (u v : Uniform U) (fam : ℕ → End)
      → SendsPending u v
      → Room fam
      → Phase u fam
      → (after : ℕ → End) × Phase v after
  sends-Phase u v fam (inl (links, only)) room p = (fam, same-Phase u v fam links only p)
  sends-Phase u v fam (inr (b, links, pending, only)) room p = (
    λ k. sending (fam k) (serialize b),
    record {
      moves = λ k in_k apart.
          then_move (p.moves k in_k apart) (sends (serialize b) (room k in_k apart));
      distinct =
          subst (λ ks. Distinct ks)
            (sym (ap keys links ∙ keys-send_all (serialize b) u.perfect_links)) p.distinct;
      found = λ k in_k apart.
          ap (find k.id) links
          ∙ find-send_all (serialize b) u.perfect_links k.id (fam k.id).link (p.found k in_k apart);
      told = p.told;
      sent = λ k in_k apart id lo holds. elim (only id lo holds) [
        | inr same ↦ inr (b, _, same, refl, inl refl)
        | inl old ↦ elim (p.sent k in_k apart id lo old) [
          | inl before ↦ inl before
          | inr (b', m, i, form, on) ↦ inr (b', m, i, form, inr on)
        ]
      ];
    },
  )

-- A link that sends to the address of host `k` is the one to `k`.
link-to :
    (hosts : List Host) (P : List ℕ → Type 0) (links : Links) (j : ℕ) (pl : PerfectLink) (k : Host)
    → Distinct (map machine_of hosts)
    → Distinct (keys links)
    → AllCarry hosts P links
    → In (j, pl) links
    → In k hosts
    → pl.target_addr ≡ machine_of k
    → find k.id links ≡ some pl
link-to hosts P links j pl k addresses distinct c on in_k to =
    let (_, (g, in_g, e, aims), _, _) = In-All (Carries hosts P) links (j, pl) c on in
    let same : g ≡ k = same_host hosts g k addresses in_g in_k (sym aims ∙ to) in
    subst (λ i. find i links ≡ some pl) (sym e ∙ ap (λ (x : Host). x.id) same)
      (find-of_In j pl links distinct on)

-- What a host sends in one round.
In-flights :
    (P : Datagram → Type 0) (h : Host) (out : List Datagram)
    → ((d : Datagram) → In d out → P d)
    → (f : Flight) → In f (flights h out)
    → (f.from ≡ h) × P f.datagram
In-flights P h out each f i =
    let (d, at, e) = In-map (λ (d : Datagram). record { from = h; datagram = d }) f out i in
    subst (λ (g : Flight). (g.from ≡ h) × P g.datagram) (sym e) (refl, each d at)

module _ {U : Type 0} (upper : Upper U) (strong : Bool) (hosts : List Host)
    (addresses : Distinct (map machine_of hosts)) (s : Network U) (events : ℕ → List Event)
    (l : AreLinkedUp strong hosts s events) (h : Host) (P : List ℕ → Type 0)
    (c : AllCarry hosts P (s.node h.id).manager.perfect_links) where
  abbrev u : Uniform U
  u = (s.node h.id).manager

  -- What goes out is on record at the end of the link that it goes to.
  abbrev pub IsPosted : (ℕ → End) → Datagram → Type 0
  IsPosted fam d =
      (k : Host) → In k hosts → d.machine ≡ machine_of k → h.id ≢ k.id → In d.bytes (fam k.id).out

  -- The link that has sent something to host `k`.
  its_link :
      (j : ℕ) (pl : PerfectLink) (d : Datagram) (k : Host)
      → In (j, pl) u.perfect_links
      → d.machine ≡ pl.target_addr
      → In k hosts
      → d.machine ≡ machine_of k
      → h.id ≢ k.id
      → pl ≡ (l.ends h.id k.id).link
  its_link j pl d k on aims in_k to apart_k = some-inj pl _ (
      sym (
        link-to hosts P u.perfect_links j pl k addresses (l.distinct h.id) c on in_k
          (sym aims ∙ to))
      ∙ l.found h.id k in_k apart_k)

  pub messages-IsPhase :
      (new : List Event)
      → (fam : ℕ → End) × IsPhase strong hosts s events l h new u fam
        × ((f : Flight)
            → In f (flights h (send_round u.manager))
            → (f.from ≡ h) × IsPosted fam f.datagram)
  unfolding send_round
  messages-IsPhase new = elim (Bool-cases u.on) [
    | inr off ↦
        (l.ends h.id, start-Phase strong hosts s events l h new, λ f i. absurd (rw off at i))
    | inl on ↦ (
      λ k. sending_messages (l.ends h.id k),
      record {
        moves = λ k in_k apart. then_move stays sends_messages;
        distinct = l.distinct h.id;
        found = λ k in_k apart. l.found h.id k in_k apart;
        told = λ k in_k apart m i. inl i;
        sent = λ k in_k apart id lo holds. inl holds;
      },
      λ f i.
          In-flights (IsPosted (λ k. sending_messages (l.ends h.id k))) h _
            (λ d at k in_k to apart_k.
              let (j, pl, mine, out, aims) = send_messages_all-from u.perfect_links d at in
              In-append_left d.bytes _ _ (
                subst (λ (q : PerfectLink). In d.bytes (packets (send_messages q)))
                  (its_link j pl d k mine aims in_k to apart_k) (In-bytes d _ out)))
            f (rw on at i),
    )
  ]

  pub acks-IsPhase :
      (new : List Event) (now : ℕ)
      → (fam : ℕ → End) × IsPhase strong hosts s events l h new
          (sends_acks_of upper strong now u)
          fam
        × ((f : Flight)
            → In f (flights h (ack_round strong now u.manager).1)
            → (f.from ≡ h) × IsPosted fam f.datagram)
  unfolding ack_round
  acks-IsPhase new now = elim (Bool-cases u.on) [
    | inr off ↦ (
      l.ends h.id,
      same-Phase strong hosts s events l h new u _ (l.ends h.id) (rw off) (λ j lo held. inl held)
          (start-Phase strong hosts s events l h new),
      λ f i. absurd (rw off at i),
    )
    | inl on ↦ (
      λ k. sending_acks strong now (l.ends h.id k),
      record {
        moves = λ k in_k apart. then_move stays (sends_acks now);
        distinct = rw on (
            subst (λ ks. Distinct ks) (sym (keys-send_acks_all strong now u.perfect_links))
              (l.distinct h.id));
        found = λ k in_k apart. rw on (
            find-send_acks_all strong now u.perfect_links k.id (l.ends h.id k.id).link
              (l.found h.id k in_k apart));
        told = λ k in_k apart m i. inl i;
        sent = λ k in_k apart id lo holds. inl holds;
      },
      λ f i.
          In-flights (IsPosted (λ k. sending_acks strong now (l.ends h.id k))) h _
            (λ d at k in_k to apart_k.
              let (j, pl, mine, out, aims) = send_acks_all-from strong now u.perfect_links d at in
              In-append_left d.bytes _ _ (
                subst (λ (q : PerfectLink). In d.bytes (packets (send_acks strong now q).1))
                  (its_link j pl d k mine aims in_k to apart_k) (In-bytes d _ out)))
            f (rw on at i),
    )
  ]
