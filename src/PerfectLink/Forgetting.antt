-- ===== src/PerfectLink/Forgetting.antt =====
-- What `CleanAcks` forgets: how long a link knows a message that it has received, and how long it
-- acknowledges it.
use distributed_algorithms_p.Prelude.{
  ℕ, ◌+◌, ◌≡◌, refl, Bool, true, false, List, [], ◌∷◌, Option, none, some, arith, if◌then◌else◌,
  leb, ◌==◌, nat_eq, nat_beq_iff, Bool-cases, inl, inr,
}
use distributed_algorithms_p.Prelude.Map.{find, remove, find-remove}
use distributed_algorithms_p.Prelude.Set.{member, Distinct, erase, member-erase}
use distributed_algorithms_p.PerfectLink.Link.{
  PerfectLink, is_unseen, AckToRemove, expired, forget, erase_acks, clean_acks,
}
use distributed_algorithms_p.PerfectLink.Life.{keys, Life, Life-IsKeyed}

-- Was the entry, if there is one, set `limit` seconds before `now`, or earlier?
abbrev pub is_old : ℕ → ℕ → Option ℕ → Bool
is_old limit now none = false
is_old limit now (some time) = leb (time + limit) now

-- Whether the list of acks to remove names `seq`, and whether it is to be forgotten.
abbrev names : ℕ → List AckToRemove → Bool
names seq [] = false
names seq (a ∷ acks) = if a.seq == seq then true else names seq acks

abbrev forgets : ℕ → List AckToRemove → Bool
forgets seq [] = false
forgets seq (a ∷ acks) =
    if a.seq == seq
    then (if a.remove_from_delivered then true else forgets seq acks)
    else forgets seq acks

find-forget :
    (seq : ℕ) (acks : List AckToRemove) (m : List (ℕ × ℕ))
    → find seq (forget acks m) ≡ (if forgets seq acks then none else find seq m)
unfolding forget
find-forget seq [] m = refl
find-forget seq (a ∷ acks) m = elim (Bool-cases a.remove_from_delivered) [
  | inl old ↦ ground (arith, find-forget seq acks (remove a.seq m), find-remove a.seq seq m)
  | inr young ↦ ground (arith, find-forget seq acks m)
]

member-erase_acks :
    (seq : ℕ) (acks : List AckToRemove) (s : List ℕ)
    → member seq (erase_acks acks s) ≡ (if names seq acks then false else member seq s)
unfolding erase_acks
member-erase_acks seq [] s = refl
member-erase_acks seq (a ∷ acks) s =
    ground (arith, member-erase_acks seq acks (erase a.seq s), member-erase a.seq seq s)

names-absent :
    (now seq : ℕ) (m : List (ℕ × ℕ))
    → member seq (keys m) ≡ false
    → (names seq (expired now m) ≡ false) × (forgets seq (expired now m) ≡ false)
unfolding expired member
names-absent now seq [] h = (refl, refl)
names-absent now seq ((j, time) ∷ m) h = ground (arith, names-absent now seq m)

expired-lem :
    (now seq : ℕ) (m : List (ℕ × ℕ))
    → Distinct (keys m)
    → (names seq (expired now m) ≡ is_old 1 now (find seq m))
      × (forgets seq (expired now m) ≡ is_old 9 now (find seq m))
unfolding expired member find
expired-lem now seq [] d = (refl, refl)
expired-lem now seq ((j, time) ∷ m) d =
    ground (arith, d.0, nat_beq_iff j seq, names-absent now seq m, expired-lem now seq m d.1)

-- The age at which a link, compiled so, forgets.
abbrev pub is_forgotten : Bool → ℕ → Option ℕ → Bool
is_forgotten strong now time = if strong then false else is_old 9 now time

-- `CleanAcks` at the time `now`, in every life of a link: the acks that it drops are exactly those of
-- messages that were last received, by a clock that shows whole seconds, at least one second ago, which
-- is when 450 milliseconds have passed on it; with PERFECT_LINKS_STRONG it forgets no message, and
-- without it exactly those that were last received at least 9 seconds ago, whose next copy is then
-- taken for a new message. What is younger stays known, and a copy of it is not.
pub clean_acks-forgets :
    {strong : Bool} {pl : PerfectLink}
    → Life strong pl
    → (now seq : ℕ)
    → (member seq (clean_acks strong now pl).acks_to_send ≡ (
        if is_old 1 now (find seq pl.messages_delivered)
        then false
        else member seq pl.acks_to_send))
      × (find seq (clean_acks strong now pl).messages_delivered ≡ (
          if is_forgotten strong now (find seq pl.messages_delivered)
          then none
          else find seq pl.messages_delivered))
      × (is_unseen (clean_acks strong now pl) seq ≡ (
          if is_forgotten strong now (find seq pl.messages_delivered)
          then true
          else is_unseen pl seq))
unfolding clean_acks is_unseen
clean_acks-forgets {strong} {pl} l now seq =
    let (named, forgotten) = expired-lem now seq pl.messages_delivered (Life-IsKeyed l) in
    let acks = member-erase_acks seq (expired now pl.messages_delivered) pl.acks_to_send in
    let found = find-forget seq (expired now pl.messages_delivered) pl.messages_delivered in
    elim (Bool-cases strong) [
      | inl keeps ↦ ground (arith, named, forgotten, acks, found)
      | inr drops ↦ ground (arith, named, forgotten, acks, found)
    ]
