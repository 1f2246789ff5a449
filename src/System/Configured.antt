-- ===== src/System/Configured.antt =====
-- Systems whose processes have the links that their drivers make from the hosts file.
use distributed_algorithms_p.Prelude.{
  ℕ, ◌≤◌, ◌<◌, ◌≡◌, true, List, [], Option, nat_eq, length, max_seq, inl, inr, ◌⊎◌,
}
use distributed_algorithms_p.Prelude.Set.{member, Distinct}
use distributed_algorithms_p.PerfectLink.Link.{PerfectLink}
use distributed_algorithms_p.Broadcast.{Upper}
use distributed_algorithms_p.Broadcast.Types.{MessageId, id_eq}
use distributed_algorithms_p.Parser.{Lookup, Parser, returns, parse_hosts_file}
use distributed_algorithms_p.Parser.Lex.{Text}
use distributed_algorithms_p.Parser.Hosts.{ids}
use distributed_algorithms_p.Uniform.Agreed.{traced}
use distributed_algorithms_p.Drivers.Running.{peer_links}
use distributed_algorithms_p.Drivers.Connected.{parse_hosts_file-n_processes}
use distributed_algorithms_p.System.{System, IsMember, SystemReach}
use distributed_algorithms_p.System.Holders.{Given}
use distributed_algorithms_p.System.Settled.{
  IsSettled, HasTracedSize, settled-agreement, settled-validity,
}

-- Each process's links.
abbrev pub configured : Parser → ℕ → List PerfectLink
configured q i = peer_links i q.hosts

-- The message was delivered somewhere, or a correct process was asked to broadcast it.
abbrev pub IsDue : {U : Type 0} → ℕ → List ℕ → System (U × List MessageId) → MessageId → Type 0
IsDue n correct s id =
    ((i : ℕ) × IsMember n i × Given s i id)
    ⊎ ((member id.author correct ≡ true) × (id.seq < (s.proc id.author).n_messages_sent))

module _ {U : Type 0} (upper : Upper U) (state : U) (open_file : Text → Option (List Text))
    (resolve : Text → Lookup) where
  pub configured-HasTracedSize :
      (p q : Parser)
      → parse_hosts_file open_file resolve p ≡ returns q
      → Distinct (ids q.hosts)
      → length q.hosts ≤ max_seq
      → HasTracedSize upper (length q.hosts) state (configured q)
  configured-HasTracedSize p q e d few i mem =
      parse_hosts_file-n_processes open_file resolve (state, []) p q e d few i mem.0 mem.1

  -- A system of the processes of an accepted hosts file with different ids, fewer than 2^32, whose
  -- drivers have made their links; any of them may stop. In every run, with numbers from 1 to 2^32 - 2,
  -- in which what comes in at a process was sent by another that holds it, and that is settled for
  -- some processes that are more than half of all (each message that one of them holds has come in
  -- from it at the others, and `DeliverPending` has come to all that is pending at them): each of
  -- those has given to `DeliverInternal` each message id that any process of the file has given to it,
  -- and each that one of them was asked to broadcast.
  pub configured-delivers :
      (p q : Parser)
      → parse_hosts_file open_file resolve p ≡ returns q
      → Distinct (ids q.hosts)
      → length q.hosts ≤ max_seq
      → {s : System (U × List MessageId)}
      → SystemReach (traced upper) (length q.hosts) (state, []) (configured q) s
      → (correct : List ℕ) → IsSettled (length q.hosts) correct s
      → (id : MessageId) → 1 ≤ id.seq
      → IsDue (length q.hosts) correct s id
      → (j : ℕ) → member j correct ≡ true
      → Given s j id
  configured-delivers p q e d few {s} r correct settled id lo due j in_j =
      let size = configured-HasTracedSize p q e d few in
      let n = length q.hosts in
      elim due [
        | inl (i, mem, g) ↦
            settled-agreement upper n state (configured q) r size correct settled i mem id lo g j
              in_j
        | inr (in_i, hi) ↦
            settled-validity upper n state (configured q) r size correct settled id.author in_i
              id.seq lo hi j in_j
      ]
