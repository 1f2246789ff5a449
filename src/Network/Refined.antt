-- ===== src/Network/Refined.antt =====
-- The runs of the whole program on several hosts are runs of the system of `System`, in which what comes
-- in at a process was sent by another that holds it.
use distributed_algorithms_p.Prelude.{
  ℕ, ◌≤◌, ◌≡◌, refl, sym, subst, Bool, List, [], ◌∷◌, Option, ◌==◌, nat_eq, max_seq, map, In,
  Bool-cases, inl, inr, All, length,
}
use distributed_algorithms_p.Prelude.Map.{find, get_or}
use distributed_algorithms_p.Prelude.Set.{Distinct}
use distributed_algorithms_p.Udp.{machine_eq, notify_all}
use distributed_algorithms_p.PerfectLink.Link.{new_link, subscribe}
use distributed_algorithms_p.Manager.{ack_round, send_round}
use distributed_algorithms_p.Manager
use distributed_algorithms_p.Broadcast.{Upper}
use distributed_algorithms_p.Uniform.{Uniform, new_uniform, add}
use distributed_algorithms_p.Uniform.Run.{add_all}
use distributed_algorithms_p.Broadcast.Types.{id_eq}
use distributed_algorithms_p.Parser.{Lookup, Host, Parser, returns, parse_hosts_file}
use distributed_algorithms_p.Parser.Hosts.{ids, parse_hosts_file-IsIndexed}
use distributed_algorithms_p.Parser.Lex.{Text}
use distributed_algorithms_p.Drivers.{machine_of}
use distributed_algorithms_p.Drivers.Running.{peer_links, connect_all-manager}
use distributed_algorithms_p.Drivers.Connected.{audience-connect_all}
use distributed_algorithms_p.System.{System, SystemReach, system_here}
use distributed_algorithms_p.System.Configured.{configured}
use distributed_algorithms_p.Network.{
  Network, NetworkStep, NetworkReach, network_here, network_next, connected, starts, broadcasts,
  sends_messages, acks, receives, delivers, stops,
}
use distributed_algorithms_p.Network.Queues.{AllCarry, assign-AllCarry}
use distributed_algorithms_p.Network.Sending.{IsHeldBy}
use distributed_algorithms_p.Network.Covered.{AreMembers, IsCovered}
use distributed_algorithms_p.Network.Steps.{
  starts-After, broadcasts-After, sends_messages-After, acks-After, receives-After, delivers-After,
  stops-After,
}

pub In-All : (P : Host → Type 0) (hosts : List Host) → All P hosts → (h : Host) → In h hosts → P h
In-All P [] a h i = absurd i
In-All P (g ∷ hosts) a h (inl same) = subst P (sym same) a.0
In-All P (g ∷ hosts) a h (inr later) = In-All P hosts a.1 h later

module _ {U : Type 0} (upper : Upper U) where
  -- The links that a driver has just made carry nothing.
  pub add_all-AllCarry :
      (all : List Host) (P : List ℕ → Type 0) (id : ℕ) (hosts : List Host) (u : Uniform U)
      → ((g : Host) → In g hosts → In g all)
      → AllCarry all P u.perfect_links
      → AllCarry all P (add_all u (peer_links id hosts)).perfect_links
  unfolding add_all add Manager.add subscribe new_link
  add_all-AllCarry all P id [] u among c = c
  add_all-AllCarry all P id (h ∷ hosts) u among c = elim (Bool-cases (id == h.id)) [
    | inl own ↦ rw own (add_all-AllCarry all P id hosts u (λ g at. among g (inr at)) c)
    | inr other ↦
        let pl = new_link id h.id (machine_of h) in
        rw other (
          add_all-AllCarry all P id hosts (add u pl) (λ g at. among g (inr at))
            (assign-AllCarry all P h.id (subscribe pl Manager.this) u.perfect_links
              (refl, (h, among h (inl refl), refl, refl), refl, λ x i. absurd i) c))
  ]

  module _ (strong : Bool) (hosts : List Host) (n : ℕ) (state : U) (output_path : ℕ → Text)
      (members : AreMembers n hosts) (few : n ≤ max_seq)
      (addresses : Distinct (map machine_of hosts)) where
    abbrev Covered : Network U → Type 0
    Covered = IsCovered upper hosts n state

    pub connected-IsCovered :
        Covered (record { node = connected upper strong hosts state output_path; wire = [] })
    unfolding notify_all get_or find
    connected-IsCovered = record {
      system = _;
      reached = system_here;
      same = λ i. sym (connect_all-manager i hosts _);
      carried = λ i.
          subst (λ (u : Uniform U). AllCarry hosts (IsHeldBy u) u.perfect_links)
            (sym (connect_all-manager i hosts _))
            (add_all-AllCarry hosts _ i hosts (new_uniform i state) (λ g at. at) tt);
      sender = λ f on. absurd on;
      wired = λ f on. absurd on;
      heard = λ i addr. audience-connect_all add i hosts _ addr;
    }

    NetworkStep-IsCovered :
        {s t : Network U} → NetworkStep upper strong hosts s t → Covered s → Covered t
    NetworkStep-IsCovered {s} (starts h at) c =
        (starts-After upper strong hosts n state members few addresses s c h at).0
    NetworkStep-IsCovered {s} (broadcasts h msg at small fits) c =
        (broadcasts-After upper strong hosts n state members few addresses s c h at msg small).1.0
    NetworkStep-IsCovered {s} (sends_messages h at) c =
        (sends_messages-After upper strong hosts n state members few addresses s c h at).0
    NetworkStep-IsCovered {s} (acks h now at) c =
        (acks-After upper strong hosts n state members few addresses s c h at now).1.0
    NetworkStep-IsCovered {s} (receives h f now at on to) c =
        (receives-After upper strong hosts n state members few addresses s c h at f now on).0
    NetworkStep-IsCovered {s} (delivers h id at pending) c =
        (delivers-After upper strong hosts n state members few addresses s c h at id pending).1.0
    NetworkStep-IsCovered {s} (stops h at) c =
        (stops-After upper strong hosts n state members few addresses s c h at).1.0

    pub NetworkReach-IsCovered :
        {s : Network U} → NetworkReach upper strong hosts state output_path s → Covered s
    NetworkReach-IsCovered network_here = connected-IsCovered
    NetworkReach-IsCovered (network_next r st) = NetworkStep-IsCovered st (NetworkReach-IsCovered r)

-- Each process's links are to the peers.
module _ {U : Type 0} (upper : Upper U) (strong : Bool) (state : U) (output_path : ℕ → Text)
    (open_file : Text → Option (List Text)) (resolve : Text → Lookup) where
  -- Also when two hosts of the file have the same id, where a process is that of the id.
  pub reach-refines :
      (p q : Parser)
      → parse_hosts_file open_file resolve p ≡ returns q
      → Distinct (map machine_of q.hosts)
      → length q.hosts ≤ max_seq
      → {s : Network U} → NetworkReach upper strong q.hosts state output_path s
      → (system : System U) × SystemReach upper (length q.hosts) state (configured q) system
        × ((i : ℕ) → system.proc i ≡ (s.node i).manager)
  reach-refines p q e addresses few r =
      let within = (parse_hosts_file-IsIndexed open_file resolve p q e).within in
      let c =
        NetworkReach-IsCovered upper strong q.hosts (length q.hosts) state output_path
          (In-All _ q.hosts within) few addresses r in
      (c.system, c.reached, c.same)

  -- The processes of an accepted hosts file whose hosts have different ids and addresses and are fewer
  -- than 2^32, from the time at which their drivers have connected their links. In every run of them,
  -- in which their managers start and stop, broadcast messages that the buffers hold and numbers from 1
  -- to 2^32 - 2, send messages and acks, go through what is pending, and take in, in any order, any
  -- number of times or never, what was sent to their address: there is a run of `System`, with the
  -- links that the drivers make, whose processes have the same states. So what comes in at a process
  -- was sent by another that holds it.
  pub network-refines :
      (p q : Parser)
      → parse_hosts_file open_file resolve p ≡ returns q
      → Distinct (ids q.hosts)
      → Distinct (map machine_of q.hosts)
      → length q.hosts ≤ max_seq
      → {s : Network U} → NetworkReach upper strong q.hosts state output_path s
      → (system : System U) × SystemReach upper (length q.hosts) state (configured q) system
        × ((i : ℕ) → system.proc i ≡ (s.node i).manager)
  network-refines p q e names addresses few r = reach-refines p q e addresses few r
