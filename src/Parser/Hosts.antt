-- ===== src/Parser/Hosts.antt =====
-- The hosts after `ParseHostsFile`: in order, and found by their ids.
use Prim.Native.Nat.{min, max}
use distributed_algorithms_p.Prelude.{
  ℕ, zero, suc, ◌+◌, ◌≤◌, ◌<◌, ◌≡◌, refl, ◌∙◌, sym, ap, subst, true, false, List, [], ◌∷◌, ◌++◌,
  map, Option, some, arith, nat_eq, leb, ltb, length, All, All-map, u32, max_seq, Bool-cases,
  Option-cases, inl, inr,
}
use distributed_algorithms_p.Prelude.Set.{Distinct, member}
use distributed_algorithms_p.Parser.Lex.{Text}
use distributed_algorithms_p.Parser.{
  Lookup, Host, Parser, Result, returns, throws, undefined, min_id, max_id, is_compact, insert_host,
  sort_hosts, read_hosts, accept_hosts, and_then_try, parse_hosts_file, host_at, host_of,
}

-- The ids ascend, from at least `from`.
abbrev pub IsSortedFrom : ℕ → List Host → Type 0
IsSortedFrom from [] = Unit
IsSortedFrom from (h ∷ hosts) = (from ≤ h.id) × IsSortedFrom h.id hosts

insert_host-IsSortedFrom :
    (from : ℕ) (h : Host) (hosts : List Host)
    → from ≤ h.id
    → IsSortedFrom from hosts
    → IsSortedFrom from (insert_host h hosts)
unfolding insert_host
insert_host-IsSortedFrom from h [] lo s = (lo, tt)
insert_host-IsSortedFrom from h (g ∷ hosts) lo s = elim (Bool-cases (leb h.id g.id)) [
  | inl before ↦ rw before (lo, (ground arith, s.1))
  | inr after ↦ rw after (s.0, insert_host-IsSortedFrom g.id h hosts (ground arith) s.1)
]

sort_hosts-IsSortedFrom : (hosts : List Host) → IsSortedFrom 0 (sort_hosts hosts)
unfolding sort_hosts
sort_hosts-IsSortedFrom [] = tt
sort_hosts-IsSortedFrom (h ∷ hosts) =
    insert_host-IsSortedFrom 0 h (sort_hosts hosts) (omega arith) (sort_hosts-IsSortedFrom hosts)

insert_host-All :
    (P : Host → Type 0) (h : Host) (hosts : List Host)
    → P h
    → All P hosts
    → All P (insert_host h hosts)
unfolding insert_host
insert_host-All P h [] p a = (p, tt)
insert_host-All P h (g ∷ hosts) p a = elim (Bool-cases (leb h.id g.id)) [
  | inl before ↦ rw before (p, a)
  | inr after ↦ rw after (a.0, insert_host-All P h hosts p a.1)
]

sort_hosts-All : (P : Host → Type 0) (hosts : List Host) → All P hosts → All P (sort_hosts hosts)
unfolding sort_hosts
sort_hosts-All P [] a = tt
sort_hosts-All P (h ∷ hosts) a = insert_host-All P h _ a.0 (sort_hosts-All P hosts a.1)

length-insert_host :
    (h : Host) (hosts : List Host) → length (insert_host h hosts) ≡ suc (length hosts)
unfolding insert_host
length-insert_host h [] = refl
length-insert_host h (g ∷ hosts) = ground (arith, length-insert_host h hosts)

length-sort_hosts : (hosts : List Host) → length (sort_hosts hosts) ≡ length hosts
unfolding sort_hosts
length-sort_hosts [] = refl
length-sort_hosts (h ∷ hosts) =
    length-insert_host h (sort_hosts hosts) ∙ ap suc (length-sort_hosts hosts)

min_id-bounds :
    (m : ℕ) (hosts : List Host) → (min_id m hosts ≤ m) × All (λ h. min_id m hosts ≤ h.id) hosts
min_id-bounds m [] = omega arith
min_id-bounds m (h ∷ hosts) =
    let (b, a) = min_id-bounds (min m h.id) hosts in (omega arith, (omega arith, a))

max_id-bounds :
    (m : ℕ) (hosts : List Host) → (m ≤ max_id m hosts) × All (λ h. h.id ≤ max_id m hosts) hosts
max_id-bounds m [] = omega arith
max_id-bounds m (h ∷ hosts) =
    let (b, a) = max_id-bounds (max m h.id) hosts in (omega arith, (omega arith, a))

abbrev pub IsWithin : ℕ → Host → Type 0
IsWithin n h = (1 ≤ h.id) × (h.id ≤ n)

both-IsWithin :
    (lo hi n : ℕ) (hosts : List Host)
    → lo ≡ 1
    → hi ≡ n
    → All (λ h. lo ≤ h.id) hosts
    → All (λ h. h.id ≤ hi) hosts
    → All (IsWithin n) hosts
both-IsWithin lo hi n [] e f a b = tt
both-IsWithin lo hi n (h ∷ hosts) e f a b =
    ((omega arith, omega arith), both-IsWithin lo hi n hosts e f a.1 b.1)

-- The test makes all ids lie between 1 and the number of hosts.
is_compact-IsWithin :
    (hosts : List Host) → is_compact hosts ≡ true → All (IsWithin (length hosts)) hosts
is_compact-IsWithin [] e = tt
is_compact-IsWithin (h ∷ hosts) e =
    let (b, a) = min_id-bounds h.id hosts in
    let (d, c) = max_id-bounds h.id hosts in
    let first : min_id h.id hosts ≡ 1 = ground arith in
    let last : max_id h.id hosts ≡ suc (length hosts) = ground arith in
    both-IsWithin (min_id h.id hosts) (max_id h.id hosts) (length (h ∷ hosts)) (h ∷ hosts) first
      last (b, a) (d, c)

-- Distinct ids that ascend do so by at least one.
abbrev IsRising : ℕ → List Host → Type 0
IsRising from [] = Unit
IsRising from (h ∷ hosts) = (from ≤ h.id) × IsRising (suc h.id) hosts

abbrev pub ids : List Host → List ℕ
ids = map (λ h. h.id)

IsSortedFrom-IsRising :
    (from : ℕ) (hosts : List Host)
    → IsSortedFrom from hosts
    → Distinct (ids hosts)
    → IsRising from hosts
unfolding member
IsSortedFrom-IsRising from [] s d = tt
IsSortedFrom-IsRising from (h ∷ []) s d = (s.0, tt)
IsSortedFrom-IsRising from (h ∷ g ∷ hosts) s d =
    (s.0, IsSortedFrom-IsRising (suc h.id) (g ∷ hosts) (ground arith, s.1.1) d.1)

IsSortedFrom-raise :
    (n : ℕ) (hosts : List Host)
    → IsSortedFrom 0 hosts
    → All (IsWithin n) hosts
    → IsSortedFrom 1 hosts
IsSortedFrom-raise n [] s w = tt
IsSortedFrom-raise n (h ∷ hosts) s w = (w.0.0, s.1)

IsRising-length :
    (from top : ℕ) (hosts : List Host)
    → IsRising from hosts
    → All (λ h. h.id ≤ top) hosts
    → from ≤ suc top
    → from + length hosts ≤ suc top
IsRising-length from top [] r a h = omega arith
IsRising-length from top (g ∷ hosts) r a h =
    omega (arith, IsRising-length (suc g.id) top hosts r.1 a.1 (omega arith))

-- As many as there is room for leave no gap.
host_at-IsRising :
    (from top i : ℕ) (hosts : List Host)
    → IsRising from hosts
    → All (λ h. h.id ≤ top) hosts
    → from + length hosts ≡ suc top
    → i < length hosts
    → (h : Host) × (host_at i hosts ≡ some h) × (h.id ≡ from + i)
host_at-IsRising from top i [] r a e lt = absurd (omega arith)
host_at-IsRising from top zero (g ∷ hosts) r a e lt =
    (g, refl, omega (arith, IsRising-length (suc g.id) top hosts r.1 a.1 (omega arith)))
host_at-IsRising from top (suc i) (g ∷ hosts) r a e lt =
    let same : g.id ≡ from =
      omega (arith, IsRising-length (suc g.id) top hosts r.1 a.1 (omega arith)) in
    let (h, f, n) = host_at-IsRising (suc g.id) top i hosts r.1 a.1 (omega arith) (omega arith) in
    (h, f, omega arith)

-- What the file leaves: the hosts in order, with ids between 1 and their number, of which there are
-- two at least.
pub record IsIndexed (p : Parser) : Type 0 where
  pub sorted : IsSortedFrom 0 p.hosts
  pub within : All (IsWithin (length p.hosts)) p.hosts
  pub many : 2 ≤ length p.hosts

sort_hosts-IsIndexed :
    (p : Parser) (hosts : List Host)
    → ltb (length hosts) 2 ≡ false
    → is_compact hosts ≡ true
    → IsIndexed (record p { hosts = sort_hosts hosts })
sort_hosts-IsIndexed p hosts many compact = record {
  sorted = sort_hosts-IsSortedFrom hosts;
  within =
      subst (λ n. All (IsWithin n) (sort_hosts hosts)) (sym (length-sort_hosts hosts))
        (sort_hosts-All _ hosts (is_compact-IsWithin hosts compact));
  many = ground (arith, length-sort_hosts hosts);
}

returns-inj : (p q : Parser) → ◌≡◌ {A = Result Parser} (returns p) (returns q) → p ≡ q
returns-inj p q e = cc

accept_hosts-IsIndexed :
    (p q : Parser) (hosts : List Host) → accept_hosts p hosts ≡ returns q → IsIndexed q
unfolding accept_hosts
accept_hosts-IsIndexed p q hosts e = elim (Bool-cases (ltb (length hosts) 2)) [
  | inl few ↦ ground arith
  | inr many ↦ elim (Bool-cases (is_compact hosts)) [
    | inr gap ↦ ground arith
    | inl compact ↦
        subst IsIndexed (returns-inj _ q (ground (arith, e)))
          (sort_hosts-IsIndexed p hosts many compact)
  ]
]

pub and_then_try-returns :
    {A : Type 0} (r : Result A) (f : A → Result Parser) (q : Parser)
    → and_then_try r f ≡ returns q
    → (a : A) × (r ≡ returns a) × (f a ≡ returns q)
and_then_try-returns (throws x) f q e = cc
and_then_try-returns undefined f q e = cc
and_then_try-returns (returns a) f q e = (a, refl, e)

host_of-host_at :
    (id : ℕ) (p : Parser) (h : Host)
    → host_at (u32 (id + max_seq)) p.hosts ≡ some h
    → host_of id p ≡ returns h
unfolding host_of
host_of-host_at id p h e = rw (e, host_of)

module _ (open_file : Text → Option (List Text)) (resolve : Text → Lookup) where
  pub parse_hosts_file-IsIndexed :
      (p q : Parser) → parse_hosts_file open_file resolve p ≡ returns q → IsIndexed q
  unfolding parse_hosts_file
  parse_hosts_file-IsIndexed p q e = elim (Option-cases (open_file p.hosts_path)) [
    | inl missing ↦ ground arith
    | inr (lines, found) ↦
        let (hosts, _, accepted) =
          and_then_try-returns (read_hosts open_file resolve 0 lines)
            (λ read. accept_hosts p (p.hosts ++ read)) q (ground (arith, e)) in
        accept_hosts-IsIndexed p q (p.hosts ++ hosts) accepted
  ]

  -- If the hosts file is accepted, and no two of its hosts have the same id, then `local_host` and
  -- `target_host` give for each id from 1 to the number of hosts the host with that id.
  pub parse_hosts_file-host_of :
      (p q : Parser)
      → parse_hosts_file open_file resolve p ≡ returns q
      → Distinct (ids q.hosts)
      → length q.hosts ≤ max_seq
      → (id : ℕ) → 1 ≤ id
      → id ≤ length q.hosts
      → (h : Host) × (host_of id q ≡ returns h) × (h.id ≡ id)
  parse_hosts_file-host_of p q e d few id lo hi =
      let i = parse_hosts_file-IsIndexed p q e in
      let rising : IsRising 1 q.hosts =
        IsSortedFrom-IsRising 1 q.hosts (IsSortedFrom-raise _ q.hosts i.sorted i.within) d in
      let (h, at, same) =
        host_at-IsRising 1 (length q.hosts) (u32 (id + max_seq)) q.hosts rising
          (All-map (λ g w. w.1) q.hosts i.within) (omega arith) (omega arith) in
      (h, host_of-host_at id q h at, omega arith)
