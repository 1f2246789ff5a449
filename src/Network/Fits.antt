-- ===== src/Network/Fits.antt =====
-- Whatever the processes of a network send, it fits the buffers that it is written to.
use distributed_algorithms_p.Prelude.{
  ℕ, ◌≤◌, ◌≡◌, refl, sym, subst, Bool, List, [], ◌∷◌, nat_eq, In, In-map, In-append, All-from_In,
  inl, inr, All, Bool-cases, length,
}
use distributed_algorithms_p.Udp.{Datagram}
use distributed_algorithms_p.Udp
use distributed_algorithms_p.PerfectLink.Codec.{max_send_size}
use distributed_algorithms_p.PerfectLink.Link.{PerfectLink}
use distributed_algorithms_p.Manager.{ack_round, send_round}
use distributed_algorithms_p.Manager
use distributed_algorithms_p.Broadcast.{Upper}
use distributed_algorithms_p.Broadcast.Codec.{buffer_size}
use distributed_algorithms_p.Uniform.{Uniform, new_uniform, add}
use distributed_algorithms_p.Uniform
use distributed_algorithms_p.Uniform.Run.{add_all}
use distributed_algorithms_p.Parser.{Host}
use distributed_algorithms_p.Parser.Lex.{Text}
use distributed_algorithms_p.Drivers.{Driver, stop_execution}
use distributed_algorithms_p.Drivers.Running.{connect_all-manager, peer_links}
use distributed_algorithms_p.Node.{receive, sends_acks}
use distributed_algorithms_p.Network.{
  Network, Flight, becomes, incoming, flights, connected, NetworkStep, NetworkReach, network_here,
  network_next, starts, broadcasts, sends_messages, acks, receives, delivers, stops,
}
use distributed_algorithms_p.Network.Queues.{AllCarry}
use distributed_algorithms_p.Network.Fitting.{
  IsSmall, IsFitting, same-IsFitting, send-IsFitting, try_deliver-IsFitting, observe_all-IsFitting,
  send_messages_all-fits, send_acks_all-fits,
}
use distributed_algorithms_p.Network.Covered.{becomes_cases}
use distributed_algorithms_p.Network.Steps.{sends_acks-AllCarry}
use distributed_algorithms_p.Network.Refined.{add_all-AllCarry}

-- A datagram of at most the size that a socket's buffer takes.
abbrev pub Fits : Datagram → Type 0
Fits d = length d.bytes ≤ max_send_size

module _ {U : Type 0} (upper : Upper U) (strong : Bool) (hosts : List Host) where
  record AllFit (s : Network U) : Type 0 where
    nodes : (i : ℕ) → IsFitting hosts (s.node i).manager
    wire : (f : Flight) → In f s.wire → Fits f.datagram

  moves-AllFit :
      (s : Network U) (h : Host) (d : Driver (Uniform U)) (out : List Datagram)
      → IsFitting hosts d.manager
      → ((x : Datagram) → In x out → Fits x)
      → AllFit s
      → AllFit (becomes s h.id d (flights h out))
  moves-AllFit s h d out small sent all = record {
    nodes =
        becomes_cases (λ k e. IsFitting hosts e.manager) s h.id d (flights h out) small
          (λ k _. all.nodes k);
    wire = λ f at. elim (In-append f (flights h out) s.wire at) [
      | inr old ↦ all.wire f old
      | inl new ↦
          let (x, on, e) = In-map (λ (x : Datagram). record { from = h; datagram = x }) f out new in
          subst (λ (g : Flight). Fits g.datagram) (sym e) (sent x on)
    ];
  }

  sends_acks-IsFitting :
      (now : ℕ) (u : Uniform U)
      → IsFitting hosts u
      → IsFitting hosts (sends_acks upper strong now u)
  unfolding ack_round
  sends_acks-IsFitting now u f = record {
    links = sends_acks-AllCarry upper hosts IsSmall strong now u f.links;
    queue = f.queue;
  }

  stop-IsFitting : (u : Uniform U) → IsFitting hosts u → IsFitting hosts (Uniform.stop u)
  unfolding Uniform.stop Manager.stop
  stop-IsFitting u f = elim (Bool-cases u.on) [
    | inl on ↦ rw (on, Uniform.stop, Manager.stop) (same-IsFitting hosts u _ refl refl f)
    | inr off ↦ rw (off, Uniform.stop) (same-IsFitting hosts u _ refl refl f)
  ]

  ack_round-fits :
      (now : ℕ) (u : Uniform U) (d : Datagram) → In d (ack_round strong now u.manager).1 → Fits d
  unfolding ack_round
  ack_round-fits now u d at = elim (Bool-cases u.on) [
    | inl on ↦ send_acks_all-fits strong now u.perfect_links d (rw on at at)
    | inr off ↦ absurd (rw off at at)
  ]

  send_round-fits :
      (u : Uniform U) → IsFitting hosts u → (d : Datagram) → In d (send_round u.manager) → Fits d
  unfolding send_round
  send_round-fits u f d at = elim (Bool-cases u.on) [
    | inl on ↦ send_messages_all-fits hosts u.perfect_links d f.links (rw on at at)
    | inr off ↦ absurd (rw off at at)
  ]

  receive-IsFitting :
      (now : ℕ) (d : Driver (Uniform U)) (x : Datagram)
      → Fits x
      → IsFitting hosts d.manager
      → IsFitting hosts (receive upper now d x).manager
  unfolding receive
  receive-IsFitting now d x fits f =
      observe_all-IsFitting hosts upper now x.bytes d.manager ((Udp.receive d.server x).1) fits f

  NetworkStep-AllFit : {s t : Network U} → NetworkStep upper strong hosts s t → AllFit s → AllFit t
  unfolding stop_execution Uniform.start Manager.start
  NetworkStep-AllFit {s} (starts h at) all =
      moves-AllFit s h _ []
        (same-IsFitting hosts (s.node h.id).manager _ refl refl (all.nodes h.id))
        (λ x on. absurd on) all
  NetworkStep-AllFit {s} (broadcasts h msg at small fits) all =
      moves-AllFit s h _ []
        (send-IsFitting hosts upper (s.node h.id).manager msg fits (all.nodes h.id))
        (λ x on. absurd on) all
  NetworkStep-AllFit {s} (sends_messages h at) all =
      moves-AllFit s h _ _ (all.nodes h.id) (send_round-fits (s.node h.id).manager (all.nodes h.id))
        all
  NetworkStep-AllFit {s} (acks h now at) all =
      moves-AllFit s h _ _ (sends_acks-IsFitting now (s.node h.id).manager (all.nodes h.id))
        (ack_round-fits now (s.node h.id).manager) all
  NetworkStep-AllFit {s} (receives h f now at on to) all =
      moves-AllFit s h (receive upper now (s.node h.id) (incoming f)) []
        (receive-IsFitting now (s.node h.id) (incoming f) (all.wire f on) (all.nodes h.id))
        (λ x on. absurd on) all
  NetworkStep-AllFit {s} (delivers h id at pending) all =
      moves-AllFit s h _ []
        (try_deliver-IsFitting hosts upper (s.node h.id).manager id (all.nodes h.id))
        (λ x on. absurd on) all
  NetworkStep-AllFit {s} (stops h at) all =
      moves-AllFit s h _ [] (stop-IsFitting (s.node h.id).manager (all.nodes h.id))
        (λ x on. absurd on) all

  module _ (state : U) (output_path : ℕ → Text) where
    add_all-queue :
        (u : Uniform U) (links : List PerfectLink)
        → (add_all u links).own_pending_for_broadcast ≡ u.own_pending_for_broadcast
    unfolding add_all add
    add_all-queue u [] = refl
    add_all-queue u (pl ∷ links) = add_all-queue (add u pl) links

    connected-IsFitting :
        (i : ℕ) → IsFitting hosts (connected upper strong hosts state output_path i).manager
    connected-IsFitting i = subst (IsFitting hosts) (sym (connect_all-manager i hosts _)) (record {
      links = add_all-AllCarry upper hosts IsSmall i hosts (new_uniform i state) (λ g at. at) tt;
      queue = subst (All _) (sym (add_all-queue (new_uniform i state) (peer_links i hosts))) tt;
    })

    NetworkReach-AllFit :
        {s : Network U} → NetworkReach upper strong hosts state output_path s → AllFit s
    NetworkReach-AllFit network_here = record {
      nodes = connected-IsFitting;
      wire = λ f on. absurd on;
    }
    NetworkReach-AllFit (network_next r st) = NetworkStep-AllFit st (NetworkReach-AllFit r)

    Carries-small :
        (links : List (ℕ × PerfectLink))
        → AllCarry hosts IsSmall links
        → All
            (λ (l : ℕ × PerfectLink).
              All (λ (x : ℕ × List ℕ). length x.1 ≤ buffer_size) l.1.messages_to_send)
            links
    Carries-small [] c = tt
    Carries-small (l ∷ links) c =
        (All-from_In _ l.1.messages_to_send c.0.3, Carries-small links c.1)

    -- In every run of the processes of some hosts over a network that may lose, repeat, delay and
    -- reorder datagrams, in which they broadcast, with numbers from 1 to 2^32 - 2, messages that the
    -- buffer of `BestEffortBroadcast::SendInternal` holds together with their ids: each datagram that was
    -- ever sent is at most as long as the buffer that `Serialize` of the link writes it to, which is
    -- also the size that the server reads; and each message that waits in a link of a process fits the
    -- buffer of `SendInternal`.
    pub network-fits :
        {s : Network U}
        → NetworkReach upper strong hosts state output_path s
        → (i : ℕ)
        → All (λ (f : Flight). Fits f.datagram) s.wire
          × All
              (λ (l : ℕ × PerfectLink).
                All (λ (x : ℕ × List ℕ). length x.1 ≤ buffer_size) l.1.messages_to_send)
              (s.node i).manager.perfect_links
    network-fits {s} r i =
        let all = NetworkReach-AllFit r in
        (All-from_In _ s.wire all.wire, Carries-small _ (all.nodes i).links)
