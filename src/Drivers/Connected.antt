-- ===== src/Drivers/Connected.antt =====
-- Which links a driver makes: one to each host but the process itself, at that host's address.
use distributed_algorithms_p.Prelude.{
  ℕ, zero, suc, ◌+◌, ◌≤◌, ◌≡◌, ◌≢◌, refl, sym, ap, subst, ◌∙◌, true, false, List, [], ◌∷◌, ◌++◌,
  map, Option, some, arith, ◌==◌, ==_refl, nat_eq, nat_beq_iff, if◌then◌else◌, Bool-cases, In,
  Option-cases, inl, inr, max_seq, u32, length,
}
use mathlib.Core.List.{append_assoc, append-nil}
use distributed_algorithms_p.Prelude.Set.{member, Distinct}
use distributed_algorithms_p.Prelude.Map.{find, find-assign, get_or}
use distributed_algorithms_p.Udp.{
  Machine, machine_eq, machine_beq_iff, UdpServer, new_server, attach, audience, audience-attach,
  notify_all,
}
use distributed_algorithms_p.PerfectLink.Link.{PerfectLink, new_link, subscribe}
use distributed_algorithms_p.Manager
use distributed_algorithms_p.Manager.{this}
use distributed_algorithms_p.Parser.{
  Lookup, Host, Parser, returns, parse_hosts_file, host_at, host_of,
}
use distributed_algorithms_p.Parser.Lex.{Text}
use distributed_algorithms_p.Parser.Hosts.{ids, parse_hosts_file-host_of}
use distributed_algorithms_p.Uniform.{Uniform, new_uniform}
use distributed_algorithms_p.Uniform
use distributed_algorithms_p.Uniform.Run.{add_all, started}
use distributed_algorithms_p.UniformFifo.{UniformFifo}
use distributed_algorithms_p.Udp
use distributed_algorithms_p.Drivers.{Driver, machine_of, connect, connect_all, fifo_process}
use distributed_algorithms_p.Drivers.Running.{peer_links, connect_all-manager}

module _ {U : Type 0} where
  add_all-n_processes :
      (u : Uniform U) (links : List PerfectLink)
      → u.n_processes + length links ≤ max_seq
      → (add_all u links).n_processes ≡ u.n_processes + length links
  unfolding add_all Uniform.add Manager.add
  add_all-n_processes u [] h = omega arith
  add_all-n_processes u (pl ∷ links) h = omega (arith, add_all-n_processes (Uniform.add u pl) links)

length-peer_links_absent :
    (id : ℕ) (hosts : List Host)
    → member id (ids hosts) ≡ false
    → length (peer_links id hosts) ≡ length hosts
unfolding member
length-peer_links_absent id [] h = refl
length-peer_links_absent id (g ∷ hosts) h =
    ground (arith, nat_beq_iff id g.id, nat_beq_iff g.id id, length-peer_links_absent id hosts)

length-peer_links :
    (id : ℕ) (hosts : List Host)
    → Distinct (ids hosts)
    → member id (ids hosts) ≡ true
    → suc (length (peer_links id hosts)) ≡ length hosts
unfolding member
length-peer_links id [] d m = cc
length-peer_links id (g ∷ hosts) d m = ground (
  arith,
  nat_beq_iff id g.id,
  nat_beq_iff g.id id,
  d.0,
  length-peer_links id hosts d.1,
  length-peer_links_absent id hosts,
)

host_at-member :
    (i : ℕ) (hosts : List Host) (h : Host)
    → host_at i hosts ≡ some h
    → member h.id (ids hosts) ≡ true
unfolding member
host_at-member i [] h e = cc
host_at-member zero (g ∷ hosts) h e = ground (arith, ==_refl h.id)
host_at-member (suc i) (g ∷ hosts) h e = ground (arith, host_at-member i hosts h e)

pub host_of-member :
    (id : ℕ) (p : Parser) (h : Host) → host_of id p ≡ returns h → member h.id (ids p.hosts) ≡ true
unfolding host_of
host_of-member id p h e = elim (Option-cases (host_at (u32 (id + max_seq)) p.hosts)) [
  | inl outside ↦ ground arith
  | inr (g, at) ↦ ground (arith, host_at-member (u32 (id + max_seq)) p.hosts g at)
]

module _ (open_file : Text → Option (List Text)) (resolve : Text → Lookup) where
  pub parse_hosts_file-n_processes :
      {U : Type 0} (state : U) (p q : Parser)
      → parse_hosts_file open_file resolve p ≡ returns q
      → Distinct (ids q.hosts)
      → length q.hosts ≤ max_seq
      → (id : ℕ) → 1 ≤ id
      → id ≤ length q.hosts
      → (started id state (peer_links id q.hosts)).n_processes ≡ length q.hosts
  parse_hosts_file-n_processes state p q e d few id lo hi =
      let (h, of, same) = parse_hosts_file-host_of open_file resolve p q e d few id lo hi in
      let known : member id (ids q.hosts) ≡ true =
        subst (λ i. member i (ids q.hosts) ≡ true) same (host_of-member id q h of) in
      let count = length-peer_links id q.hosts d known in
      add_all-n_processes (new_uniform id state) (peer_links id q.hosts) (omega (arith, count, few))
      ∙ omega (arith, count)

  -- If the hosts file is accepted, no two of its hosts have the same id and there are fewer than 2^32:
  -- for each id from 1 to the number of hosts, a new manager counts, once the loop of the FIFO driver over
  -- the hosts has made its links, as many processes as there are hosts.
  pub connect_all-n_processes :
      {U : Type 0} (state : U) (p q : Parser)
      → parse_hosts_file open_file resolve p ≡ returns q
      → Distinct (ids q.hosts)
      → length q.hosts ≤ max_seq
      → (id : ℕ) → 1 ≤ id
      → id ≤ length q.hosts
      → (d : Driver (Uniform U)) → d.manager ≡ new_uniform id state
      → (connect_all Uniform.add id q.hosts d).manager.n_processes ≡ length q.hosts
  connect_all-n_processes state p q e names few id lo hi d made =
      ap (λ u. u.n_processes)
        (connect_all-manager id q.hosts d ∙ ap (λ u. add_all u (peer_links id q.hosts)) made)
      ∙ parse_hosts_file-n_processes state p q e names few id lo hi

-- The hosts other than the process itself with a given address, by id.
abbrev pub peers_at : ℕ → Machine → List Host → List ℕ
peers_at id addr [] = []
peers_at id addr (h ∷ hosts) =
    if id == h.id
    then peers_at id addr hosts
    else if machine_of h == addr
    then h.id ∷ peers_at id addr hosts
    else peers_at id addr hosts

module _ {M : Type 0} (add : M → PerfectLink → M) where
  pub audience-connect_all :
      (id : ℕ) (hosts : List Host) (d : Driver M) (addr : Machine)
      → audience (connect_all add id hosts d).server addr
        ≡ audience d.server addr ++ peers_at id addr hosts
  unfolding connect_all connect
  audience-connect_all id [] d addr = sym (append-nil _)
  audience-connect_all id (h ∷ hosts) d addr = elim (Bool-cases (id == h.id)) [
    | inl own ↦ rw (own, connect_all) (audience-connect_all id hosts d addr)
    | inr other ↦
        rw (other, connect_all)
          (audience-connect_all id hosts (connect add id h d) addr
            ∙ ground (
              arith,
              audience-attach d.server h.id (machine_of h) addr,
              append_assoc (audience d.server addr) (h.id ∷ []) (peers_at id addr hosts),
            ))
  ]

-- With different addresses, an address names one host.
pub peers_at-absent :
    (id : ℕ) (addr : Machine) (hosts : List Host)
    → member addr (map machine_of hosts) ≡ false
    → peers_at id addr hosts ≡ []
unfolding member
peers_at-absent id addr [] m = refl
peers_at-absent id addr (h ∷ hosts) m = ground (arith, peers_at-absent id addr hosts)

member-machine_of :
    (h : Host) (hosts : List Host)
    → In h hosts
    → member (machine_of h) (map machine_of hosts) ≡ true
unfolding member
member-machine_of h [] m = absurd m
member-machine_of h (g ∷ hosts) m =
    ground (arith, machine_beq_iff (machine_of g) (machine_of h), member-machine_of h hosts)

pub peers_at-own :
    (id : ℕ) (hosts : List Host) (h : Host)
    → Distinct (map machine_of hosts)
    → In h hosts
    → id ≡ h.id
    → peers_at id (machine_of h) hosts ≡ []
unfolding member
peers_at-own id [] h d m own = absurd m
peers_at-own id (g ∷ hosts) h d (inl same) own =
    ground (arith, same, own, d.0, ==_refl id, peers_at-absent id (machine_of h) hosts)
peers_at-own id (g ∷ hosts) h d (inr later) own = ground (
  arith,
  own,
  d.0,
  member-machine_of h hosts later,
  machine_beq_iff (machine_of g) (machine_of h),
  peers_at-own id hosts h d.1 later own,
)

pub peers_at-one :
    (id : ℕ) (hosts : List Host) (h : Host)
    → Distinct (map machine_of hosts)
    → In h hosts
    → id ≢ h.id
    → peers_at id (machine_of h) hosts ≡ h.id ∷ []
unfolding member
peers_at-one id [] h d m other = absurd m
peers_at-one id (g ∷ hosts) h d (inl same) other = ground (
  arith,
  same,
  other,
  d.0,
  nat_beq_iff id g.id,
  machine_beq_iff (machine_of g) (machine_of h),
  peers_at-absent id (machine_of h) hosts,
)
peers_at-one id (g ∷ hosts) h d (inr later) other = ground (
  arith,
  other,
  d.0,
  member-machine_of h hosts later,
  machine_beq_iff (machine_of g) (machine_of h),
  peers_at-one id hosts h d.1 later other,
)

module _ {U : Type 0} where
  find-add_all_absent :
      (id k : ℕ) (hosts : List Host) (u : Uniform U)
      → member k (ids hosts) ≡ false
      → find k (add_all u (peer_links id hosts)).perfect_links ≡ find k u.perfect_links
  unfolding add_all Uniform.add Manager.add member subscribe new_link
  find-add_all_absent id k [] u m = refl
  find-add_all_absent id k (h ∷ hosts) u m = elim (Bool-cases (id == h.id)) [
    | inl own ↦ rw own (find-add_all_absent id k hosts u (ground arith))
    | inr other ↦ rw other (
        find-add_all_absent id k hosts (Uniform.add u (new_link id h.id (machine_of h)))
          (ground arith)
        ∙ ground (
          arith,
          m,
          find-assign h.id k (subscribe (new_link id h.id (machine_of h)) this) u.perfect_links,
        ))
  ]

  pub find-add_all :
      (id : ℕ) (hosts : List Host) (u : Uniform U) (h : Host)
      → Distinct (ids hosts)
      → In h hosts
      → id ≢ h.id
      → find h.id (add_all u (peer_links id hosts)).perfect_links
        ≡ some (subscribe (new_link id h.id (machine_of h)) this)
  unfolding add_all Uniform.add Manager.add member subscribe new_link
  find-add_all id [] u h d m other = absurd m
  find-add_all id (g ∷ hosts) u h d m other = elim (Bool-cases (id == g.id)) [
    | inl own ↦
        rw own
          (find-add_all id hosts u h d.1 (ground (arith, m, own, other, nat_beq_iff id g.id)) other)
    | inr apart ↦
        let after = Uniform.add u (new_link id g.id (machine_of g)) in
        rw apart (elim m [
          | inr later ↦ find-add_all id hosts after h d.1 later other
          | inl same ↦
              subst
                (λ k.
                  find k.id (add_all after (peer_links id hosts)).perfect_links
                  ≡ some (subscribe (new_link id k.id (machine_of k)) this))
                (sym same)
                (find-add_all_absent id g.id hosts after d.0
                  ∙ ground (
                    arith,
                    ==_refl g.id,
                    find-assign g.id g.id (subscribe (new_link id g.id (machine_of g)) this)
                        u.perfect_links,
                  ))
        ])
  ]

pub audience-fifo_process :
    (id : ℕ) (hosts : List Host) (n : ℕ) (d : Driver UniformFifo) (addr : Machine)
    → d.server ≡ new_server
    → audience (fifo_process id hosts n d).server addr ≡ peers_at id addr hosts
unfolding fifo_process Udp.start notify_all get_or find
audience-fifo_process id hosts n d addr e =
    audience-connect_all Uniform.add id hosts d addr ∙ ground (arith, e)

-- If no two hosts have the same id or the same address: the server of the FIFO driver's process hands
-- a datagram from another host's address to exactly one observer, the link to that host; and once the
-- driver's loop over the hosts has made the links, its manager holds under that host's id the link made
-- for its address, to which the manager alone is subscribed.
pub peer-IsConnected :
    (id : ℕ) (hosts : List Host) (n : ℕ) (d : Driver UniformFifo)
    → d.server ≡ new_server
    → Distinct (ids hosts)
    → Distinct (map machine_of hosts)
    → (h : Host) → In h hosts
    → id ≢ h.id
    → (audience (fifo_process id hosts n d).server (machine_of h) ≡ h.id ∷ [])
      × (find h.id (connect_all Uniform.add id hosts d).manager.perfect_links
          ≡ some (subscribe (new_link id h.id (machine_of h)) this))
peer-IsConnected id hosts n d e names addresses h m other = (
  audience-fifo_process id hosts n d (machine_of h) e ∙ peers_at-one id hosts h addresses m other,
  ap (λ u. find h.id u.perfect_links) (connect_all-manager id hosts d)
      ∙ find-add_all id hosts d.manager h names m other,
)
