-- ===== src/Uniform/Progress.antt =====
-- What is heard is never forgotten: once a majority's copies of a message have come in, the next round
-- of `DeliverPending` for the message delivers it.
use distributed_algorithms_p.Prelude.{
  ℕ, ◌≤◌, ◌≡◌, refl, sym, subst, ◌∙◌, true, false, List, [], ◌∷◌, ◌++◌, arith, ==_refl, nat_eq,
  Bool-cases, In, inl, inr, length,
}
use distributed_algorithms_p.Prelude.Map.{get_or}
use distributed_algorithms_p.Prelude.Counting.{length-Distinct}
use distributed_algorithms_p.Prelude.Set.{member}
use distributed_algorithms_p.PerfectLink.Link.{PerfectLink}
use distributed_algorithms_p.Broadcast.Types.{Message, MessageId, id_eq}
use distributed_algorithms_p.Broadcast.{Upper}
use distributed_algorithms_p.DeliveredSet
use distributed_algorithms_p.DeliveredSet.Refinement.{contains-insert}
use distributed_algorithms_p.Uniform.{Uniform, add, try_deliver, majority_seen}
use distributed_algorithms_p.Uniform.Run.{
  add_all, started, Event, sent, notified, Step, sends, notifies, tries, relinks, Reach, here, next,
}
use distributed_algorithms_p.Uniform.Cases.{looked}
use distributed_algorithms_p.Uniform.Sound.{
  notify_lem, IsSound, add-IsSound, new_uniform-IsSound, Step-IsSound,
}
use distributed_algorithms_p.Uniform.Agreed.{HasMajority}
use distributed_algorithms_p.Uniform.Held.{
  IsAckedBy, Keeps, send-Keeps, notify_internal-Keeps, notify_internal-new, deliver-pending,
  try_deliver-Keeps,
}

notified-inj : (m k : Message) → ◌≡◌ {A = Event} (notified m) (notified k) → m ≡ k
notified-inj m k e = cc

module _ {U : Type 0} (upper : Upper U) where
  -- All that came in is held.
  record IsHolding (events : List Event) (n : ℕ) (u : Uniform U) : Type 0 where
    sound : IsSound u
    size : u.n_processes ≡ n
    numbered : (m : Message) → In (notified m) events → 1 ≤ m.id.seq
    held : (m : Message) → In (notified m) events → IsAckedBy u m.id m.sender

  kept-IsHolding :
      {events : List Event} {n : ℕ} {u v : Uniform U}
      → Keeps u v
      → IsSound v
      → IsHolding events n u
      → IsHolding events n v
  kept-IsHolding k s h = record {
    sound = s;
    size = k.0 ∙ h.size;
    numbered = h.numbered;
    held = λ m i. k.1 m.id m.sender (h.numbered m i) (h.held m i);
  }

  notified-IsHolding :
      {events : List Event} {n : ℕ} {v : Uniform U} (msg : Message)
      → 1 ≤ msg.id.seq
      → IsAckedBy v msg.id msg.sender
      → IsHolding events n v
      → IsHolding (notified msg ∷ events) n v
  notified-IsHolding {v} msg lo new h = record {
    sound = h.sound;
    size = h.size;
    numbered = λ m i. elim i [ inl e ↦ ground (arith, e) | inr old ↦ h.numbered m old ];
    held = λ m i. elim i [
      | inl e ↦ subst (λ k. IsAckedBy v k.id k.sender) (sym (notified-inj m msg e)) new
      | inr old ↦ h.held m old
    ];
  }

  sent-IsHolding :
      {events : List Event} {n : ℕ} {v : Uniform U} (id : MessageId)
      → IsHolding events n v
      → IsHolding (sent id ∷ events) n v
  sent-IsHolding id h = record {
    sound = h.sound;
    size = h.size;
    numbered = λ m i. elim i [ inl e ↦ cc | inr old ↦ h.numbered m old ];
    held = λ m i. elim i [ inl e ↦ cc | inr old ↦ h.held m old ];
  }

  Step-IsHolding :
      {u v : Uniform U} {new old : List Event} {n : ℕ}
      → Step upper u new v
      → IsHolding old n u
      → IsHolding (new ++ old) n v
  Step-IsHolding {u} (sends msg small) h =
      sent-IsHolding _
        (kept-IsHolding (send-Keeps upper u msg) (Step-IsSound upper (sends msg small) h.sound) h)
  Step-IsHolding {u} {old = old} {n = n} (notifies sender_id packet {msg} e numbered) h =
      let s = Step-IsSound upper (notifies sender_id packet {msg = msg} e numbered) h.sound in
      let f = sym (notify_lem upper u sender_id packet e) in
      subst (IsHolding (notified msg ∷ old) n) f (
        notified-IsHolding msg numbered.0 (notify_internal-new upper u msg)
          (kept-IsHolding (notify_internal-Keeps upper u msg) (subst IsSound (sym f) s) h))
  Step-IsHolding {u} (tries id pending) h =
      kept-IsHolding (try_deliver-Keeps upper u id h.sound pending)
        (Step-IsSound upper (tries id pending) h.sound) h
  Step-IsHolding {u} (relinks on links) h =
      kept-IsHolding (refl, λ id s n k. k) (Step-IsSound upper (relinks on links) h.sound) h

  Reach-IsHolding :
      {u v : Uniform U} {events : List Event} {n : ℕ}
      → Reach upper u events v
      → IsHolding [] n u
      → IsHolding events n v
  Reach-IsHolding here h = h
  Reach-IsHolding {v = z} {n = n} (next r st e) h =
      subst (λ es. IsHolding es n z) (sym e) (Step-IsHolding st (Reach-IsHolding r h))

  add_all-IsSound :
      (u : Uniform U) (links : List PerfectLink) → IsSound u → IsSound (add_all u links)
  unfolding add_all
  add_all-IsSound u [] s = s
  add_all-IsSound u (pl ∷ links) s = add_all-IsSound (add u pl) links (add-IsSound pl s)

  started-IsHolding :
      (id : ℕ) (state : U) (links : List PerfectLink) {u : Uniform U} {events : List Event}
      → Reach upper (started id state links) events u
      → IsHolding events (started id state links).n_processes u
  started-IsHolding id state links r = Reach-IsHolding r (record {
    sound = add_all-IsSound _ links (new_uniform-IsSound upper id state);
    size = refl;
    numbered = λ m i. absurd i;
    held = λ m i. absurd i;
  })

  -- A majority that came in is counted as one.
  IsHolding-majority_seen :
      {events : List Event} {n : ℕ} {u : Uniform U} (j : MessageId)
      → IsHolding events n u
      → DeliveredSet.contains u.delivered j ≡ false
      → HasMajority events n j
      → majority_seen u j ≡ true
  IsHolding-majority_seen {events} {n} {u} j h fresh (senders, distinct, heard, many) =
      let enough : length senders ≤ length (get_or j [] u.acks) =
        length-Distinct senders (get_or j [] u.acks) distinct
          λ s m. let (k, i, e, f) = heard s m in ground (arith, e, f, fresh, h.held k i) in
      ground (arith, h.size)

  -- What came in is held.
  pub reach-IsAckedBy :
      (id : ℕ) (state : U) (links : List PerfectLink) {u : Uniform U} {events : List Event}
      → Reach upper (started id state links) events u
      → (m : Message) → In (notified m) events
      → IsAckedBy u m.id m.sender
  reach-IsAckedBy id state links r = (started-IsHolding id state links r).held

  pub reach-majority_seen :
      (id : ℕ) (state : U) (links : List PerfectLink) {u : Uniform U} {events : List Event}
      → Reach upper (started id state links) events u
      → (j : MessageId) → DeliveredSet.contains u.delivered j ≡ false
      → HasMajority events (started id state links).n_processes j
      → majority_seen u j ≡ true
  reach-majority_seen id state links r j =
      IsHolding-majority_seen j (started-IsHolding id state links r)

  -- In every run of a process's handlers with numbers from 1 to 2^32 - 2: once copies of a message
  -- have come in from at least one process, and from different processes which, with this process,
  -- are more than half of all, the next round of `DeliverPending` for that message leaves it
  -- delivered.
  pub reach-delivers :
      (id : ℕ) (state : U) (links : List PerfectLink) {u : Uniform U} {events : List Event}
      → Reach upper (started id state links) events u
      → (m : Message) → In (notified m) events
      → HasMajority events (started id state links).n_processes m.id
      → DeliveredSet.contains (try_deliver upper u m.id).delivered m.id ≡ true
  unfolding try_deliver
  reach-delivers id state links {u} r m i majority =
      let h = started-IsHolding id state links r in
      elim (Bool-cases (DeliveredSet.contains u.delivered m.id)) [
        | inl old ↦ ground arith
        | inr fresh ↦
            let pending : member m.id u.pending_for_delivery ≡ true =
              ground (arith, fresh, h.held m i) in
            let many = IsHolding-majority_seen m.id h fresh majority in
            let (size, d, a, kept) = deliver-pending upper (looked u m.id) m.id in
            ground (
              arith,
              many,
              d,
              ==_refl m.id,
              contains-insert u.delivered m.id m.id h.sound.valid (h.sound.pending m.id pending)
                  fresh (h.numbered m i),
            )
      ]
