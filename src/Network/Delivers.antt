-- ===== src/Network/Delivers.antt =====
-- What becomes of a message in a network: once the links between the processes that do not fail have
-- nothing left to send, all of those have delivered the same messages.
use distributed_algorithms_p.Prelude.{
  ℕ, ◌*◌, ◌≤◌, ◌<◌, ◌≡◌, ◌≢◌, refl, sym, ap, subst, ◌∙◌, true, false, Bool, List, [], ◌∷◌, Option,
  some, arith, ◌==◌, nat_eq, nat_beq_iff, max_seq, map, In, inl, inr, ◌⊎◌, Bool-cases, length,
}
use distributed_algorithms_p.Prelude.Map.{find}
use distributed_algorithms_p.Prelude.Set.{Distinct, member}
use distributed_algorithms_p.Udp.{machine_eq}
use distributed_algorithms_p.PerfectLink.Link.{PerfectLink}
use distributed_algorithms_p.Broadcast.{Upper}
use distributed_algorithms_p.Broadcast.Types.{Message, MessageId, id_eq}
use distributed_algorithms_p.Broadcast.Codec.{parse, parse-serialize, serialize}
use distributed_algorithms_p.Uniform.{Uniform, majority_seen}
use distributed_algorithms_p.Uniform.Run.{notified}
use distributed_algorithms_p.Uniform.Agreed.{traced}
use distributed_algorithms_p.Uniform.Holds.{Holds}
use distributed_algorithms_p.Parser.{Lookup, Host, Parser, returns, parse_hosts_file}
use distributed_algorithms_p.Parser.Hosts.{
  ids, parse_hosts_file-IsIndexed, parse_hosts_file-host_of,
}
use distributed_algorithms_p.Parser.Lex.{Text}
use distributed_algorithms_p.Drivers.{machine_of}
use distributed_algorithms_p.Drivers.Running.{peer_links}
use distributed_algorithms_p.Drivers.Connected.{host_of-member}
use distributed_algorithms_p.System.{IsMember}
use distributed_algorithms_p.System.Origin.{reach-IsAuthored}
use distributed_algorithms_p.System.Settled.{IsSettled}
use distributed_algorithms_p.System.Configured.{configured-delivers}
use distributed_algorithms_p.Network.{Network, RoomyReach}
use distributed_algorithms_p.Network.Walks.{holder-IsMember}
use distributed_algorithms_p.Network.Covered.{AreMembers, reached-IsSound}
use distributed_algorithms_p.Network.Refined.{In-All}
use distributed_algorithms_p.Network.Joined.{IsJoined}
use distributed_algorithms_p.Network.Roomy.{RoomyReach-IsJoined}

-- The processes `correct` are more than half of all `n`; their links to one another have nothing left to
-- send, that is, all has been acked; and the rounds of `DeliverPending` have come to all that is pending
-- at them, which leaves pending only what no majority has sent.
pub record IsCalm {U : Type 0} (n : ℕ) (correct : List ℕ) (s : Network U) : Type 0 where
  pub distinct : Distinct correct
  pub members : (i : ℕ) → member i correct ≡ true → IsMember n i
  pub majority : n < 2 * length correct
  pub emptied :
      (i j : ℕ)
      → member i correct ≡ true
      → member j correct ≡ true
      → i ≢ j
      → (pl : PerfectLink) → find j (s.node i).manager.perfect_links ≡ some pl
      → pl.messages_to_send ≡ []
  pub tried :
      (j : ℕ)
      → member j correct ≡ true
      → (id : MessageId) → member id (s.node j).manager.pending_for_delivery ≡ true
      → majority_seen (s.node j).manager id ≡ false

-- The id was given to `DeliverInternal` at process `i`.
abbrev pub HasDelivered : {U : Type 0} → Network (U × List MessageId) → ℕ → MessageId → Type 0
HasDelivered s i id = member id ((s.node i).manager.upper.1) ≡ true

-- The message was delivered somewhere, or a correct process was asked to broadcast it.
abbrev pub MustArrive :
    {U : Type 0} → ℕ → List ℕ → Network (U × List MessageId) → MessageId → Type 0
MustArrive n correct s id =
    ((i : ℕ) × IsMember n i × HasDelivered s i id)
    ⊎ ((member id.author correct ≡ true) × (id.seq < (s.node id.author).manager.n_messages_sent))

host_named :
    (i : ℕ) (hosts : List Host) → member i (ids hosts) ≡ true → (g : Host) × In g hosts × (g.id ≡ i)
unfolding member
host_named i [] m = cc
host_named i (h ∷ hosts) m = elim (Bool-cases (h.id == i)) [
  | inl same ↦ (h, inl refl, (nat_beq_iff h.id i).0 same)
  | inr other ↦ let (g, at, e) = host_named i hosts (rw other at m) in (g, inr at, e)
]

module _ {U : Type 0} (upper : Upper U) (strong : Bool) (hosts : List Host) (n : ℕ) (state : U)
    (members : AreMembers n hosts) (few : n ≤ max_seq) (addresses : Distinct (map machine_of hosts))
    (s : Network U) (j : IsJoined upper strong hosts n state members few addresses s) where
  -- What a process holds has come in at each other process to which its link is empty.
  emptied-told :
      (g k : Host)
      → In g hosts
      → In k hosts
      → g.id ≢ k.id
      → ((pl : PerfectLink)
          → find k.id (s.node g.id).manager.perfect_links ≡ some pl
          → pl.messages_to_send ≡ [])
      → (id : MessageId) → 1 ≤ id.seq
      → Holds (j.covered.system.proc g.id) id
      → (m : Message) × In (notified m) (j.covered.system.events k.id)
        × (m.id ≡ id)
        × (m.sender ≡ g.id)
  unfolding find
  emptied-told g k in_g in_k apart empty id lo holds =
      let c = j.covered in
      let l = j.linked in
      let links : ℕ → List PerfectLink = λ i. peer_links i hosts in
      let (b, m, same, form, on) =
        l.sent g k in_g in_k apart id lo (subst (λ u. Holds u id) (c.same g.id) holds) in
      let (small, authored) = reach-IsAuthored upper n state links c.reached g.id id lo holds in
      let (_, top) = holder-IsMember upper n state links c.reached id.author id authored in
      let sound = reached-IsSound upper hosts n state c.reached id.author in
      let read : parse g.id (serialize b) ≡ some (record b { sender = g.id }) =
        parse-serialize g.id b
          (subst (λ (x : MessageId). x.author ≤ max_seq) (sym same) (omega arith))
          (subst (λ (x : MessageId). x.seq ≤ max_seq) (sym same) (omega (arith, sound.last))) in
      elim ((l.linked g k in_g in_k apart).kept m on) [
        | inl waits ↦
            absurd (nothing_waits m.seq m.payload _ (empty _ (l.found g.id k in_k apart)) waits)
        | inr got ↦ (
          record b { sender = g.id },
          l.told g k in_g in_k apart m got _ (ap (parse g.id) form ∙ read),
          same,
          refl,
        )
      ]
    where
      nothing_waits :
          (seq : ℕ) (payload : List ℕ) (queue : List (ℕ × List ℕ))
          → queue ≡ []
          → ¬ (find seq queue ≡ some payload)
      nothing_waits seq payload queue e w = ground (arith, e, w)

  -- A calm network is a settled system.
  calm-IsSettled :
      ((i : ℕ) → IsMember n i → (g : Host) × In g hosts × (g.id ≡ i))
      → (correct : List ℕ) → IsCalm n correct s
      → IsSettled n correct j.covered.system
  calm-IsSettled named correct calm = record {
    distinct = calm.distinct;
    members = calm.members;
    majority = calm.majority;
    arrived = λ i k in_i in_k apart id lo holds.
        let (g, at_g, e) = named i (calm.members i in_i) in
        let (h, at_h, q) = named k (calm.members k in_k) in
        let (m, on, same, from) =
          emptied-told g h at_g at_h (λ p. apart (sym e ∙ p ∙ q))
            (λ pl found. calm.emptied i k in_i in_k apart pl (
              subst (λ x. find x (s.node i).manager.perfect_links ≡ some pl) q
                (subst (λ x. find h.id (s.node x).manager.perfect_links ≡ some pl) e found)))
            id lo (subst (λ x. Holds (j.covered.system.proc x) id) (sym e) holds) in
        (m, subst (λ x. In (notified m) (j.covered.system.events x)) q on, same, from ∙ e);
    tried = λ k in_k id pending.
        subst (λ u. majority_seen u id ≡ false) (sym (j.covered.same k))
          (calm.tried k in_k id (
            subst (λ (u : Uniform U). member id u.pending_for_delivery ≡ true) (j.covered.same k)
              pending));
  }

module _ {U : Type 0} (upper : Upper U) (strong : Bool) (state : U) (output_path : ℕ → Text)
    (open_file : Text → Option (List Text)) (resolve : Text → Lookup) where
  -- The processes of an accepted hosts file whose hosts have different ids and addresses and are fewer
  -- than 2^32, over a network that may lose, repeat, delay and reorder the datagrams between them; they
  -- broadcast messages that the buffers hold, each may stop at any time, and neither a process nor a
  -- link gives out 2^32 - 1 numbers. At any point of a run at which the network is calm for some
  -- processes that are more than half of all (the links between them have nothing left to send, and
  -- `DeliverPending` has come to all that is pending at them): each of those has given to
  -- `DeliverInternal` each message id that any process of the file has given to it, also one that
  -- stopped, and each that one of them was asked to broadcast.
  pub network-delivers :
      (p q : Parser)
      → parse_hosts_file open_file resolve p ≡ returns q
      → Distinct (ids q.hosts)
      → Distinct (map machine_of q.hosts)
      → length q.hosts ≤ max_seq
      → {s : Network (U × List MessageId)}
      → RoomyReach (traced upper) strong q.hosts (state, []) output_path s
      → (correct : List ℕ) → IsCalm (length q.hosts) correct s
      → (id : MessageId) → 1 ≤ id.seq
      → MustArrive (length q.hosts) correct s id
      → (k : ℕ) → member k correct ≡ true
      → HasDelivered s k id
  network-delivers p q e names addresses few {s} r correct calm id lo due k in_k =
      let n = length q.hosts in
      let within = (parse_hosts_file-IsIndexed open_file resolve p q e).within in
      let members : AreMembers n q.hosts = In-All _ q.hosts within in
      let j =
        RoomyReach-IsJoined (traced upper) strong q.hosts n (state, []) members few addresses
          output_path names r in
      let settled =
        calm-IsSettled (traced upper) strong q.hosts n (state, []) members few addresses s j
          (λ i mem.
            let (h, of, same) =
              parse_hosts_file-host_of open_file resolve p q e names few i mem.0 mem.1 in
            host_named i q.hosts
              (subst (λ x. member x (ids q.hosts) ≡ true) same (host_of-member i q h of)))
          correct calm in
      let same = j.covered.same in
      subst (λ (u : Uniform (U × List MessageId)). member id (u.upper.1) ≡ true) (same k)
        (configured-delivers upper state open_file resolve p q e names few j.covered.reached correct
          settled id lo
          (elim due [
            | inl (i, mem, given) ↦ inl (
              i,
              mem,
              subst (λ (u : Uniform (U × List MessageId)). member id (u.upper.1) ≡ true)
                  (sym (same i)) given,
            )
            | inr (in_a, hi) ↦ inr (
              in_a,
              subst (λ (u : Uniform (U × List MessageId)). id.seq < u.n_messages_sent)
                  (sym (same id.author)) hi,
            )
          ])
          k in_k)
