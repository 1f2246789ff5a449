-- ===== src/Uniform/Agreement.antt =====
-- What is delivered over whole runs: each message once, and only what a majority has seen.
use distributed_algorithms_p.Prelude.{
  ℕ, ◌≤◌, ◌≡◌, refl, sym, subst, true, List, [], ◌∷◌, ◌++◌, nat_eq, inl, inr,
}
use distributed_algorithms_p.Prelude.Map.{get_or, find}
use distributed_algorithms_p.Prelude.Set.{member, Distinct}
use distributed_algorithms_p.Broadcast.Types.{MessageId, id_eq}
use distributed_algorithms_p.PerfectLink.Link.{PerfectLink}
use distributed_algorithms_p.Broadcast.{Upper}
use distributed_algorithms_p.DeliveredSet
use distributed_algorithms_p.Uniform.{Uniform, new_uniform, add}
use distributed_algorithms_p.Uniform.Run.{
  add_all, started, Event, Step, sends, notifies, tries, relinks, with_links, Reach, here, next,
  Known,
}
use distributed_algorithms_p.Uniform.Sound.{
  notify_lem, IsSound, add-IsSound, Step-IsSound, new_uniform-IsSound,
}
use distributed_algorithms_p.Uniform.Acks.{IsCounted, Step-IsCounted}
use distributed_algorithms_p.Uniform.Origin.{IsKnown, Step-IsKnown}
use distributed_algorithms_p.Uniform.Agreed.{
  traced, HasMajority, trace, IsAgreed, append-IsAgreed, same-IsAgreed, send-SameTop,
  notify_internal-SameTop, try_deliver-IsAgreed,
}

module _ {U : Type 0} (upper : Upper U) where
  -- All that a step keeps.
  record IsWell (events : List Event) (n : ℕ) (u : Uniform (U × List MessageId)) : Type 0 where
    sound : IsSound u
    counted : IsCounted events u.acks
    known : IsKnown events u
    agreed : IsAgreed events n u

  Step-IsWell :
      {new old : List Event} {n : ℕ} {u v : Uniform (U × List MessageId)}
      → Step (traced upper) u new v
      → IsWell old n u
      → IsWell (new ++ old) n v
  Step-IsWell {new} {old} {n} {u} {v} st w = record {
    sound = Step-IsSound (traced upper) st w.sound;
    counted = Step-IsCounted (traced upper) old st w.counted;
    known = Step-IsKnown (traced upper) st w.known;
    agreed = agreed st;
  }
    where
      agreed :
          {new' : List Event} {v' : Uniform (U × List MessageId)}
          → Step (traced upper) u new' v'
          → IsAgreed (new' ++ old) n v'
      agreed (sends msg small) =
          same-IsAgreed _ (send-SameTop upper u msg) (append-IsAgreed (_ ∷ []) w.agreed)
      agreed (notifies sender_id packet {msg} e numbered) =
          subst (IsAgreed _ n) (sym (notify_lem (traced upper) u sender_id packet e)) (
            same-IsAgreed _ (notify_internal-SameTop upper u msg w.sound.quiet)
              (append-IsAgreed (_ ∷ []) w.agreed))
      agreed (tries id pending) =
          try_deliver-IsAgreed upper u id pending w.sound w.counted w.known w.agreed
      agreed (relinks on links) = same-IsAgreed (with_links on links u) (refl, refl, refl) w.agreed

  add-IsWell :
      {n : ℕ} {u : Uniform (U × List MessageId)} (pl : PerfectLink)
      → IsWell [] n u
      → IsWell [] (add u pl).n_processes (add u pl)
  unfolding add
  add-IsWell {n} {u} pl w = record {
    sound = add-IsSound pl w.sound;
    counted = w.counted;
    known = record { pending = w.known.pending; queue = w.known.queue };
    agreed = record {
      size = refl;
      same = w.agreed.same;
      once = w.agreed.once;
      known = w.agreed.known;
      backed = λ j h. absurd (nothing j (w.agreed.known j h));
    };
  }
    where
      nothing : (j : MessageId) → ¬ (Known [] j)
      nothing j (inl i) = absurd i
      nothing j (inr (_, (_, i, _, _))) = absurd i

  abbrev pub traced_start : ℕ → U → List PerfectLink → Uniform (U × List MessageId)
  traced_start id state = started {U = U × List MessageId} id (state, [])

  new_uniform-IsWell : (id : ℕ) (state : U) → IsWell [] 1 (new_uniform id (state, []))
  unfolding member get_or find DeliveredSet.contains
  new_uniform-IsWell id state = record {
    sound = new_uniform-IsSound (traced upper) id (state, []);
    counted = record { heard = λ j s h. cc; distinct = λ j. tt };
    known = record { pending = λ j h. cc; queue = tt };
    agreed = record {
      size = refl;
      same = λ j h. refl;
      once = tt;
      known = λ j h. cc;
      backed = λ j h. cc;
    };
  }

  add_all-IsWell :
      (u : Uniform (U × List MessageId)) (links : List PerfectLink) {n : ℕ}
      → IsWell [] n u
      → IsWell [] (add_all u links).n_processes (add_all u links)
  unfolding add_all
  add_all-IsWell u [] w = record {
    sound = w.sound;
    counted = w.counted;
    known = w.known;
    agreed = record {
      size = refl;
      same = w.agreed.same;
      once = w.agreed.once;
      known = w.agreed.known;
      backed =
          subst (λ n. (j : MessageId) → member j (trace u) ≡ true → HasMajority [] n j)
            (sym w.agreed.size) w.agreed.backed;
    };
  }
  add_all-IsWell u (pl ∷ links) w = add_all-IsWell (add u pl) links (add-IsWell pl w)

  Reach-IsWell :
      {n : ℕ} {u v : Uniform (U × List MessageId)} {events : List Event}
      → Reach (traced upper) u events v
      → IsWell [] n u
      → IsWell events n v
  Reach-IsWell here w = w
  Reach-IsWell {n} {v = z} (next r st e) w =
      subst (λ es. IsWell es n z) (sym e) (Step-IsWell st (Reach-IsWell r w))

  started-IsWell :
      (id : ℕ) (state : U) (links : List PerfectLink) {u : Uniform (U × List MessageId)}
      {events : List Event}
      → Reach (traced upper) (traced_start id state links) events u
      → IsWell events (traced_start id state links).n_processes u
  started-IsWell id state links r =
      Reach-IsWell r (add_all-IsWell _ links (new_uniform-IsWell id state))

  -- What was given to `DeliverInternal` is what stands as delivered.
  pub reach-trace :
      (id : ℕ) (state : U) (links : List PerfectLink) {u : Uniform (U × List MessageId)}
      {events : List Event}
      → Reach (traced upper) (traced_start id state links) events u
      → (j : MessageId) → 1 ≤ j.seq
      → member j (trace u) ≡ DeliveredSet.contains u.delivered j
  reach-trace id state links r = (started-IsWell id state links r).agreed.same

  -- In every run of a process's handlers with numbers from 1 to 2^32 - 2, in any order of
  -- broadcasts, incoming messages and rounds of `DeliverPending`, no message id is given to
  -- `DeliverInternal` twice.
  pub reach-once :
      (id : ℕ) (state : U) (links : List PerfectLink) {u : Uniform (U × List MessageId)}
      {events : List Event}
      → Reach (traced upper) (traced_start id state links) events u
      → Distinct (trace u)
  reach-once id state links r = (started-IsWell id state links r).agreed.once

  -- In every run of a process's handlers with numbers from 1 to 2^32 - 2, in any order of
  -- broadcasts, incoming messages and rounds of `DeliverPending`, a message id is given to
  -- `DeliverInternal` only if the process broadcast it or it came in from outside, and only after
  -- copies of it came in from different processes which, with this process, are more than half of
  -- all.
  pub reach-HasMajority :
      (id : ℕ) (state : U) (links : List PerfectLink) {u : Uniform (U × List MessageId)}
      {events : List Event}
      → Reach (traced upper) (traced_start id state links) events u
      → (j : MessageId) → member j (trace u) ≡ true
      → Known events j × HasMajority events (traced_start id state links).n_processes j
  reach-HasMajority id state links r j h =
      let a = (started-IsWell id state links r).agreed in (a.known j h, a.backed j h)
