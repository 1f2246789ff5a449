-- ===== src/Uniform/Flow.antt =====
-- Flow control over whole runs: the window is kept, and no message of the process's own is lost.
use distributed_algorithms_p.Prelude.{
  Bool, map, ℕ, suc, ◌/◌, ◌≤◌, ◌<◌, ◌≡◌, refl, sym, subst, true, List, [], ◌∷◌, ◌++◌, arith, nat_eq,
  In, inl, inr, ◌⊎◌, All,
}
use Prim.Native.Nat.{max}
use native.Mathlib.Nat.{div-le_self}
use distributed_algorithms_p.Prelude.Map.{find}
use distributed_algorithms_p.Prelude.Set.{member}
use distributed_algorithms_p.PerfectLink.Link.{PerfectLink}
use distributed_algorithms_p.Manager.{Links}
use distributed_algorithms_p.Broadcast.Types.{Message, MessageId, id_eq}
use distributed_algorithms_p.Broadcast.{Upper}
use distributed_algorithms_p.DeliveredSet
use distributed_algorithms_p.Uniform.{Uniform, new_uniform, add, max_msgs_in_network}
use distributed_algorithms_p.Uniform.Run.{
  Event, Step, sends, notifies, tries, relinks, with_links, Reach, here, next, add_all, started,
}
use distributed_algorithms_p.Uniform.Cases.{try_deliver_cases, looked}
use distributed_algorithms_p.Uniform.Sound.{
  notify_lem, IsSound, acks-IsSound, add-IsSound, new_uniform-IsSound, Step-IsSound,
}
use distributed_algorithms_p.Uniform.OwnCount.{own_count}
use distributed_algorithms_p.Uniform.Window.{
  IsFlowing, own_id, Queued, IsGenuine, acks-IsFlowing, send-IsFlowing, notify_internal-IsFlowing,
}
use distributed_algorithms_p.Uniform.Refill.{deliver-IsFlowing}

lt-cases : (a b : ℕ) → (a < b) ⊎ (b ≤ a)
lt-cases a b = omega arith

module _ {U : Type 0} (upper : Upper U) where
  links-IsFlowing :
      {u : Uniform U} (on : Bool) (links : Links) → IsFlowing u → IsFlowing (with_links on links u)
  links-IsFlowing on links f = record {
    distinct = f.distinct;
    counted = f.counted;
    within = f.within;
    positive = f.positive;
    small = f.small;
    full = f.full;
    front = f.front;
    queued = f.queued;
    before = f.before;
    accounted = f.accounted;
    past = f.past;
    apart = f.apart;
  }

  Step-IsFlowing :
      {u v : Uniform U} {events : List Event}
      → Step upper u events v
      → All (IsGenuine u) events
      → IsSound u
      → IsFlowing u
      → IsFlowing v
  Step-IsFlowing {u} (sends msg small) g s f = send-IsFlowing upper u msg small f
  Step-IsFlowing {u} (notifies sender_id packet {msg} e n) g s f =
      subst IsFlowing (sym (notify_lem upper u sender_id packet e))
        (notify_internal-IsFlowing upper u msg g.0 f)
  Step-IsFlowing {u} (tries id pending) g s f =
      let l : IsFlowing (looked u id) = acks-IsFlowing upper u _ f in
      try_deliver_cases IsFlowing upper u id l
        λ many fresh. deliver-IsFlowing upper (looked u id) id (acks-IsSound _ s) l pending fresh
  Step-IsFlowing {u} (relinks on links) g s f = links-IsFlowing on links f

  -- A run in which each message that comes in under the process's own name is one that it has sent.
  pub data HonestReach (u : Uniform U) : List Event → Uniform U → Type 0 where
    honest_here : HonestReach u [] u
    honest_next :
        {v w : Uniform U} {old new events : List Event}
        → HonestReach u old v
        → Step upper v new w
        → All (IsGenuine v) new
        → events ≡ new ++ old
        → HonestReach u events w

  Reach-IsFlowing :
      {u v : Uniform U} {events : List Event}
      → HonestReach u events v
      → IsSound u × IsFlowing u
      → IsSound v × IsFlowing v
  Reach-IsFlowing honest_here w = w
  Reach-IsFlowing (honest_next r st g e) w =
      let (s, f) = Reach-IsFlowing r w in (Step-IsSound upper st s, Step-IsFlowing st g s f)

Queued-In :
    (author seq from to : ℕ) (queue : List Message)
    → Queued author from queue to
    → from ≤ seq
    → seq < to
    → In (own_id author seq) (map (λ m. m.id) queue)
Queued-In author seq from to [] q lo hi = ground arith
Queued-In author seq from to (m ∷ queue) q lo hi = elim (lt-cases from seq) [
  | inl later ↦ inr (Queued-In author seq (suc from) to queue q.1 later hi)
  | inr at_front ↦ inl (ground (arith, q.0))
]

-- A process that has not yet sent.
record IsIdle {U : Type 0} (u : Uniform U) : Type 0 where
  sound : IsSound u
  flowing : IsFlowing u
  none_pending : u.n_own_pending_for_delivery ≡ 0
  none_queued : u.own_pending_for_broadcast ≡ []

-- The size of the window, for any number of processes.
ideal-bounds :
    (n : ℕ)
    → (1 ≤ max 1 (max_msgs_in_network / n))
      × (max 1 (max_msgs_in_network / n) ≤ max_msgs_in_network)
ideal-bounds n =
    let h : max_msgs_in_network / n ≤ max_msgs_in_network = div-le_self _ n in
    (omega arith, omega arith)

module _ {U : Type 0} (upper : Upper U) where
  new_uniform-IsIdle : (id : ℕ) (state : U) → IsIdle (new_uniform id state)
  unfolding member own_count DeliveredSet.contains find
  new_uniform-IsIdle id state = record {
    sound = new_uniform-IsSound upper id state;
    flowing = record {
      distinct = tt;
      counted = refl;
      within = omega arith;
      positive = omega arith;
      small = omega arith;
      full = inl refl;
      front = 1;
      queued = refl;
      before = λ j h e. cc;
      accounted = λ seq lo hi. ground arith;
      past = λ j d lo own. cc;
      apart = λ j lo h. cc;
    };
    none_pending = refl;
    none_queued = refl;
  }

  add-IsIdle : {u : Uniform U} (pl : PerfectLink) → IsIdle u → IsIdle (add u pl)
  unfolding add
  add-IsIdle {u} pl i = record {
    sound = add-IsSound pl i.sound;
    flowing = record {
      distinct = i.flowing.distinct;
      counted = i.flowing.counted;
      within = ground (arith, i.none_pending);
      positive = (ideal-bounds _).0;
      small = (ideal-bounds _).1;
      full = inl i.none_queued;
      front = i.flowing.front;
      queued = i.flowing.queued;
      before = i.flowing.before;
      accounted = i.flowing.accounted;
      past = i.flowing.past;
      apart = i.flowing.apart;
    };
    none_pending = i.none_pending;
    none_queued = i.none_queued;
  }

  add_all-IsIdle : (u : Uniform U) (links : List PerfectLink) → IsIdle u → IsIdle (add_all u links)
  unfolding add_all
  add_all-IsIdle u [] i = i
  add_all-IsIdle u (pl ∷ links) i = add_all-IsIdle (add u pl) links (add-IsIdle pl i)

  pub honest-IsFlowing :
      (id : ℕ) (state : U) (links : List PerfectLink) {u : Uniform U} {events : List Event}
      → HonestReach upper (started id state links) events u
      → IsSound u × IsFlowing u
  honest-IsFlowing id state links r =
      let i = add_all-IsIdle _ links (new_uniform-IsIdle id state) in
      Reach-IsFlowing upper r (i.sound, i.flowing)

  -- Such a run is a run.
  pub HonestReach-Reach :
      {u v : Uniform U} {events : List Event}
      → HonestReach upper u events v
      → Reach upper u events v
  HonestReach-Reach honest_here = here
  HonestReach-Reach (honest_next r st g e) = next (HonestReach-Reach r) st e

  -- The count of a process's own pending messages, and what it means for the queue.
  abbrev pub IsWindowed : Uniform U → Type 0
  IsWindowed u =
      (u.n_own_pending_for_delivery ≡ own_count u.id u.pending_for_delivery)
      × (u.n_own_pending_for_delivery ≤ u.n_own_pending_delivery_ideal)
      × (u.n_own_pending_delivery_ideal ≤ max_msgs_in_network)
      × ((u.own_pending_for_broadcast ≡ [])
          ⊎ ((u.n_own_pending_for_delivery ≡ u.n_own_pending_delivery_ideal)
              × (1 ≤ u.n_own_pending_for_delivery)))

  -- In every run with numbers from 1 to 2^32 - 2 in which the messages that come in under the
  -- process's own name are ones that it has sent, `n_own_pending_for_delivery_` is the number of
  -- the process's own pending ids and at most `n_own_pending_delivery_ideal_`, which is at most
  -- URB_MAX_MSGS_IN_NETWORK; and messages wait in the queue only while the window is full, with a
  -- pending message whose delivery sends the next.
  pub reach-IsWindowed :
      (id : ℕ) (state : U) (links : List PerfectLink) {u : Uniform U} {events : List Event}
      → HonestReach upper (started id state links) events u
      → IsWindowed u
  reach-IsWindowed id state links r =
      let f = (honest-IsFlowing id state links r).1 in
      (
        f.counted,
        f.within,
        f.small,
        elim f.full [ inl e ↦ inl e | inr e ↦ inr (e, ground (arith, f.positive)) ],
      )

  -- Where a message that the process sent can be.
  abbrev pub IsHeld : Uniform U → MessageId → Type 0
  IsHeld u id =
      (member id u.pending_for_delivery ≡ true)
      ⊎ (DeliveredSet.contains u.delivered id ≡ true)
      ⊎ In id (map (λ m. m.id) u.own_pending_for_broadcast)

  -- Each message that the process numbered is somewhere, and the queue is in order.
  abbrev pub IsComplete : Uniform U → Type 0
  IsComplete u =
      ((seq : ℕ) → 1 ≤ seq → seq < u.n_messages_sent → IsHeld u (own_id u.id seq))
      × ((front : ℕ) × Queued u.id front u.own_pending_for_broadcast u.n_messages_sent
          × ((j : MessageId)
              → member j u.pending_for_delivery ≡ true
              → j.author ≡ u.id
              → j.seq < front))

  -- In every run with numbers from 1 to 2^32 - 2 in which the messages that come in under the
  -- process's own name are ones that it has sent, each message that the process was asked to
  -- broadcast is delivered, or pending, or waits in the queue; and the queue's messages follow one
  -- another in the order of their numbers, after every own message that is pending and up to the
  -- last that was numbered.
  pub reach-IsComplete :
      (id : ℕ) (state : U) (links : List PerfectLink) {u : Uniform U} {events : List Event}
      → HonestReach upper (started id state links) events u
      → IsComplete u
  reach-IsComplete id state links {u} r =
      let f = (honest-IsFlowing id state links r).1 in
      (
        λ seq lo hi. elim (lt-cases seq f.front) [
          | inl before ↦ elim (f.accounted seq lo before) [ inl p ↦ inl p | inr d ↦ inr (inl d) ]
          | inr after ↦
              inr (inr (Queued-In u.id seq f.front _ u.own_pending_for_broadcast f.queued after hi))
        ],
        (f.front, f.queued, f.before),
      )
