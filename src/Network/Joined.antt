-- ===== src/Network/Joined.antt =====
-- The processes and the links between them in every run.
use distributed_algorithms_p.Prelude.{
  ℕ, ◌≤◌, ◌<◌, ◌≡◌, ◌≢◌, refl, sym, ap, subst, ◌∙◌, true, Bool, List, [], ◌∷◌, some, arith, ◌==◌,
  ==_refl, nat_eq, nat_beq_iff, if◌then◌else◌, max_seq, map, In, In-All, inl, inr, Bool-cases,
}
use distributed_algorithms_p.Prelude.Map.{find, find-In}
use distributed_algorithms_p.Prelude.Set.{Distinct, member}
use distributed_algorithms_p.Udp.{Machine, machine_eq}
use distributed_algorithms_p.PerfectLink.Link.{new_link, subscribe}
use distributed_algorithms_p.PerfectLink.Channel.{End}
use distributed_algorithms_p.PerfectLink.Linked.{new_end, new_end-IsLinked}
use distributed_algorithms_p.Manager.{this}
use distributed_algorithms_p.Manager
use distributed_algorithms_p.Broadcast.{Upper}
use distributed_algorithms_p.Broadcast.Types.{MessageId}
use distributed_algorithms_p.Uniform.{Uniform, new_uniform, add}
use distributed_algorithms_p.Uniform
use distributed_algorithms_p.Uniform.Run.{Event, add_all}
use distributed_algorithms_p.Uniform.Holds.{Holds}
use distributed_algorithms_p.Parser.{Host}
use distributed_algorithms_p.Parser.Hosts.{ids}
use distributed_algorithms_p.Parser.Lex.{Text}
use distributed_algorithms_p.Drivers.{Driver, machine_of}
use distributed_algorithms_p.Drivers.Running.{peer_links, connect_all-manager}
use distributed_algorithms_p.Drivers.Connected.{find-add_all}
use distributed_algorithms_p.System.Origin.{start-empty}
use distributed_algorithms_p.Network.{Network, Flight, becomes, HasRoom, connected}
use distributed_algorithms_p.Network.Covered.{AreMembers, IsCovered}
use distributed_algorithms_p.Network.Steps.{After}
use distributed_algorithms_p.Network.Refined.{connected-IsCovered}
use distributed_algorithms_p.Network.Ends.{keys, keys-assign-Distinct}
use distributed_algorithms_p.Network.Phases.{AreLinkedUp, IsPhase, phase-AreLinkedUp}
use distributed_algorithms_p.Network.Moving.{Room}

-- The address of the host with that id.
address_of : ℕ → List Host → Machine
address_of k [] = record { ip = 0; port = 0 }
address_of k (h ∷ hosts) = if h.id == k then machine_of h else address_of k hosts

member-ids : (h : Host) (hosts : List Host) → In h hosts → member h.id (ids hosts) ≡ true
unfolding member
member-ids h [] i = absurd i
member-ids h (g ∷ hosts) i = ground (arith, i, ==_refl h.id, member-ids h hosts)

address_of-In :
    (hosts : List Host) (h : Host)
    → Distinct (ids hosts)
    → In h hosts
    → address_of h.id hosts ≡ machine_of h
unfolding address_of member
address_of-In [] h d i = absurd i
address_of-In (g ∷ hosts) h d (inl e) = ground (arith, e, ==_refl h.id)
address_of-In (g ∷ hosts) h d (inr i) =
    ground (arith, d.0, member-ids h hosts i, nat_beq_iff g.id h.id, address_of-In hosts h d.1 i)

module _ {U : Type 0} where
  keys-add_all-Distinct :
      (id : ℕ) (hosts : List Host) (u : Uniform U)
      → Distinct (keys u.perfect_links)
      → Distinct (keys (add_all u (peer_links id hosts)).perfect_links)
  unfolding add_all add Manager.add
  keys-add_all-Distinct id [] u d = d
  keys-add_all-Distinct id (h ∷ hosts) u d = elim (Bool-cases (id == h.id)) [
    | inl own ↦ rw own (keys-add_all-Distinct id hosts u d)
    | inr other ↦
        let pl = new_link id h.id (machine_of h) in
        rw other (
          keys-add_all-Distinct id hosts (add u pl)
            (keys-assign-Distinct pl.target_id (subscribe pl this) u.perfect_links d))
  ]

  -- `Stop` leaves the links and what is held.
  pub stop-same :
      (u : Uniform U)
      → ((Uniform.stop u).perfect_links ≡ u.perfect_links)
        × ((j : MessageId) → Holds (Uniform.stop u) j → Holds u j)
  unfolding Uniform.stop Manager.stop
  stop-same u = elim (Bool-cases u.on) [
    | inl on ↦ rw (on, Uniform.stop, Manager.stop) (refl, λ j h. h)
    | inr off ↦ rw (off, Uniform.stop) (refl, λ j h. h)
  ]

module _ {U : Type 0} (upper : Upper U) (strong : Bool) (hosts : List Host) (n : ℕ) (state : U)
    (members : AreMembers n hosts) (few : n ≤ max_seq)
    (addresses : Distinct (map machine_of hosts)) where
  pub record IsJoined (s : Network U) : Type 0 where
    pub covered : IsCovered upper hosts n state s
    pub linked : AreLinkedUp strong hosts s covered.system.events

  module _ (output_path : ℕ → Text) (names : Distinct (ids hosts)) where
    pub connected-IsJoined :
        IsJoined (record { node = connected upper strong hosts state output_path; wire = [] })
    connected-IsJoined = record {
      covered = connected-IsCovered upper strong hosts n state output_path members few addresses;
      linked = record {
        ends = λ i k. new_end i k (address_of k hosts) this;
        linked = λ g k in_g in_k apart. new_end-IsLinked _ _ _ _ _ _ _ _;
        distinct = λ i.
            subst (λ (u : Uniform U). Distinct (keys u.perfect_links))
              (sym (connect_all-manager i hosts _))
              (keys-add_all-Distinct i hosts (new_uniform i state) tt);
        found = λ i k in_k apart.
            ap (λ (u : Uniform U). find k.id u.perfect_links) (connect_all-manager i hosts _)
            ∙ find-add_all i hosts (new_uniform i state) k names in_k apart
            ∙ ap (λ a. some (subscribe (new_link i k.id a) this))
                (sym (address_of-In hosts k names in_k));
        posted = λ f on. absurd on;
        told = λ g k in_g in_k apart m on. absurd on;
        sent = λ g k in_g in_k apart id lo holds. absurd (
            start-empty upper n state (λ i. peer_links i hosts) g.id id
              (subst (λ (u : Uniform U). Holds u id) (connect_all-manager g.id hosts _) holds));
      };
    }

  module _ (s : Network U) (j : IsJoined s) (h : Host) (at : In h hosts) where
    -- A step whose ends are known.
    pub joined :
        (new : List Event) (d : Driver (Uniform U)) (out : List Flight)
        → After upper strong hosts n state members few addresses j.covered h.id new
            (becomes s h.id d out)
        → (fam : ℕ → End)
        → IsPhase strong hosts s j.covered.system.events j.linked h new d.manager fam
        → ((f : Flight)
            → In f out
            → (f.from ≡ h)
              × ((k : Host)
                  → In k hosts
                  → f.datagram.machine ≡ machine_of k
                  → h.id ≢ k.id
                  → In f.datagram.bytes (fam k.id).out))
        → IsJoined (becomes s h.id d out)
    joined new d out after fam p posted' = record {
      covered = after.0;
      linked =
          phase-AreLinkedUp strong hosts s j.covered.system.events j.linked h at new d fam out p
            posted' after.0.system.events after.1.recalls after.1.told;
    }

    pub found-Room :
        (new : List Event)
        → HasRoom hosts s
        → Room strong hosts s j.covered.system.events j.linked h new (j.linked.ends h.id)
    found-Room new room k in_k apart =
        In-All (λ l. l.1.n_messages_sent < max_seq) (s.node h.id).manager.perfect_links
          (k.id, (j.linked.ends h.id k.id).link) (In-All _ hosts h room at)
          (find-In k.id _ _ (j.linked.found h.id k in_k apart))
