-- ===== src/UniformFifo/Backed.antt =====
-- What the log of a process says was delivered is in its delivered set.
use distributed_algorithms_p.Prelude.{
  ltb, ℕ, suc, ◌≤◌, ◌<◌, ◌≡◌, refl, sym, ap, subst, ◌∙◌, ◌↔◌, true, false, List, [], ◌∷◌, arith,
  nat_eq, In, inl, inr, Bool-cases,
}
use distributed_algorithms_p.Prelude.Map.{get_or, get_or-assign, assign, find}
use distributed_algorithms_p.Prelude.SortedSet.{contains, contains-Ascends}
use distributed_algorithms_p.Logger.{broadcast, deliver as deliver_line}
use distributed_algorithms_p.PerfectLink.Link.{PerfectLink}
use distributed_algorithms_p.Broadcast.Types.{Message, MessageId, id_eq, id_beq_iff}
use distributed_algorithms_p.Broadcast.{
  Upper, best_effort_notify, best_effort_deliver, best_effort_send, log_send,
}
use distributed_algorithms_p.DeliveredSet.{DeliveredSet}
use distributed_algorithms_p.DeliveredSet
use distributed_algorithms_p.DeliveredSet.Refinement.{contains-insert, IsValid, IsNumbered}
use distributed_algorithms_p.Fifo.{
  Fifo, new_fifo, new_peer, PeerState, deliver_internal, deliver_peer, release,
}
use distributed_algorithms_p.Fifo.Peer
use distributed_algorithms_p.Fifo.Peer.{received, received-deliver_peer}
use distributed_algorithms_p.Fifo.Order.{next_of, checker, IsOrdered}
use distributed_algorithms_p.Fifo.Accepted.{check_process-broadcasts, check_process-delivers}
use distributed_algorithms_p.Uniform.{
  Uniform, add, send_internal, finish_own, send, notify_internal, deliver, erased, new_uniform,
}
use distributed_algorithms_p.Uniform.Run.{
  add_all, started, Event, Step, sends, notifies, tries, relinks, Reach, here, next,
}
use distributed_algorithms_p.Uniform.Cases.{
  send_cases, notify_internal_cases, try_deliver_cases, looked, told,
}
use distributed_algorithms_p.Uniform.Sound.{notify_lem, IsSound, acks-IsSound, delivered-finish_own}
use distributed_algorithms_p.Uniform.Window.{own_id}
use distributed_algorithms_p.UniformFifo.{IsOver}
use distributed_algorithms_p.UniformFifo.Order.{finish_own-SameLog, InOrder, Reach-InOrder}

-- The numbers that a peer's state has received are those that the layer below has delivered.
abbrev Backs : DeliveredSet → Fifo → Type 0
Backs d f =
    (author seq : ℕ)
    → 1 ≤ seq
    → received (get_or author new_peer f.peer_state) seq
      ≡ DeliveredSet.contains d (own_id author seq)

-- A delivery puts the same id into both.
deliver_internal-Backs :
    (d : DeliveredSet) (f : Fifo) (id : MessageId) {i : ℕ}
    → IsValid d
    → IsOrdered i f
    → IsNumbered id
    → DeliveredSet.contains d id ≡ false
    → Backs d f
    → Backs (DeliveredSet.insert d id) (deliver_internal f id true)
unfolding deliver_internal
deliver_internal-Backs d f id v o numbered fresh b author seq lo =
    let old : PeerState = get_or id.author new_peer f.peer_state in
    let new : PeerState = (deliver_peer release id true old f.lines).0 in
    let look : received (get_or author new_peer (assign id.author new f.peer_state)) seq
        ≡ DeliveredSet.contains (DeliveredSet.insert d id) (own_id author seq) =
      ground (
        arith,
        contains-insert d id (own_id author seq) v numbered fresh lo,
        get_or-assign id.author author new_peer new f.peer_state,
        received-deliver_peer id true f.lines (o.peers id.author) numbered.1 seq,
        b author seq lo,
        id_beq_iff id (own_id author seq),
      ) in
    look

module _ {U : Type 0} (upper : Upper U) (fifo : U → Fifo) (over : IsOver upper fifo) where
  abbrev IsBacked : Uniform U → Type 0
  IsBacked u = Backs u.delivered (fifo u.upper)

  -- Only these members matter.
  abbrev SameBack : Uniform U → Uniform U → Type 0
  SameBack u v =
      ((fifo v.upper).peer_state ≡ (fifo u.upper).peer_state) × (v.delivered ≡ u.delivered)

  same-IsBacked : (u v : Uniform U) → SameBack u v → IsBacked u → IsBacked v
  same-IsBacked u v (p, d) b author seq lo = ground (arith, p, d, b author seq lo)

  send-SameBack : (u : Uniform U) (msg : List ℕ) → SameBack u (send upper u msg)
  unfolding send_internal best_effort_send log_send
  send-SameBack u msg =
      let e = ap (λ (f : Fifo). f.peer_state) (over.logs u.upper (broadcast u.n_messages_sent)) in
      send_cases (SameBack u) upper u msg (λ _. (e, refl)) (λ _. (e, refl))

  notify_internal-SameBack :
      (u : Uniform U) (msg : Message)
      → u.deliver_to_upper_layer ≡ false
      → SameBack u (notify_internal upper u msg)
  unfolding send_internal best_effort_send best_effort_notify best_effort_deliver
  notify_internal-SameBack u msg quiet =
      let t : (fifo (told upper u msg).upper).peer_state ≡ (fifo u.upper).peer_state = rw quiet in
      notify_internal_cases (SameBack u) upper u msg (λ _. (t, refl)) (λ _ _. (t, refl))
        (λ _ _. (t, refl))

  deliver-IsBacked :
      (u : Uniform U) (id : MessageId)
      → IsSound u
      → InOrder upper fifo over u
      → IsNumbered id
      → DeliveredSet.contains u.delivered id ≡ false
      → IsBacked u
      → IsBacked (deliver upper u id)
  unfolding deliver
  deliver-IsBacked u id s o numbered fresh b =
      let w : Uniform U = finish_own (erased id u) id in
      let same : w.upper ≡ u.upper = (finish_own-SameLog (erased id u) id).1 in
      subst (Backs _) (sym (over.gives w.upper id)) (
        subst (λ x. Backs (DeliveredSet.insert w.delivered id) (deliver_internal (fifo x) id true))
          (sym same)
          (subst (λ d. Backs (DeliveredSet.insert d id) (deliver_internal (fifo u.upper) id true))
            (sym (delivered-finish_own (erased id u) id))
            (deliver_internal-Backs u.delivered (fifo u.upper) id s.valid o numbered fresh b)))

  Step-IsBacked :
      {u v : Uniform U} {events : List Event}
      → Step upper u events v
      → IsSound u
      → InOrder upper fifo over u
      → IsBacked u
      → IsBacked v
  Step-IsBacked {u} (sends msg small) s o b =
      same-IsBacked u (send upper u msg) (send-SameBack u msg) b
  Step-IsBacked {u} (notifies sender_id packet {msg} e numbered) s o b =
      subst IsBacked (sym (notify_lem upper u sender_id packet e))
        (same-IsBacked u (notify_internal upper u msg) (notify_internal-SameBack u msg s.quiet) b)
  Step-IsBacked {u} (tries id pending) s o b = try_deliver_cases IsBacked upper u id b λ many fresh.
      deliver-IsBacked (looked u id) id (acks-IsSound _ s) o (s.pending id pending) fresh b
  Step-IsBacked {u} (relinks on links) s o b = b

  add_all-IsBacked :
      (u : Uniform U) (links : List PerfectLink) → IsBacked u → IsBacked (add_all u links)
  unfolding add_all add
  add_all-IsBacked u [] b = b
  add_all-IsBacked u (pl ∷ links) b = add_all-IsBacked (add u pl) links b

  module _ (id : ℕ) (state : U) (links : List PerfectLink) (new : fifo state ≡ new_fifo) where
    start-IsBacked : IsBacked (new_uniform id state)
    unfolding get_or find DeliveredSet.contains contains
    start-IsBacked author seq lo = ground (arith, new)

    Reach-IsBacked :
        {u : Uniform U} {events : List Event}
        → Reach upper (started id state links) events u
        → IsBacked u
    Reach-IsBacked here = add_all-IsBacked _ links start-IsBacked
    Reach-IsBacked (next r st e) =
        let (s, o) = Reach-InOrder upper fifo over id state links new r in
        Step-IsBacked st s o (Reach-IsBacked r)

    -- The log of a process has the broadcasts of the numbers that it has given out; and of each author
    -- the deliveries of the numbers before the next one.
    pub Reach-lines :
        {u : Uniform U} {events : List Event}
        → Reach upper (started id state links) events u
        → (author seq : ℕ)
        → (In (broadcast seq) (fifo u.upper).lines ↔ ((1 ≤ seq) × (seq < u.n_messages_sent)))
          × (In (deliver_line author seq) (fifo u.upper).lines
              ↔ ((1 ≤ seq) × (seq < next_of (fifo u.upper).peer_state author)))
    Reach-lines {u} r author seq =
        let (s, o) = Reach-InOrder upper fifo over id state links new r in
        let a = o.accepted in
        let lines = (fifo u.upper).lines in
        let told = check_process-broadcasts lines checker a.final seq a.passes in
        let given = check_process-delivers lines checker a.final author seq a.passes in
        ground (arith, told, given, a.count, a.nexts author)

    -- What the log says was delivered was.
    pub Reach-delivered :
        {u : Uniform U} {events : List Event}
        → Reach upper (started id state links) events u
        → (author seq : ℕ) → In (deliver_line author seq) (fifo u.upper).lines
        → DeliveredSet.contains u.delivered (own_id author seq) ≡ true
    Reach-delivered {u} r author seq at =
        let (lo, hi) = (Reach-lines r author seq).1.0 at in
        sym (Reach-IsBacked r author seq lo) ∙ ground arith

    -- When all of an author's messages up to one were delivered, the log says so.
    pub Reach-logged :
        {u : Uniform U} {events : List Event}
        → Reach upper (started id state links) events u
        → (author seq : ℕ) → 1 ≤ seq
        → ((m : ℕ) → 1 ≤ m → m ≤ seq → DeliveredSet.contains u.delivered (own_id author m) ≡ true)
        → In (deliver_line author seq) (fifo u.upper).lines
    Reach-logged {u} r author seq lo all =
        let (s, o) = Reach-InOrder upper fifo over id state links new r in
        let peer : PeerState = get_or author new_peer (fifo u.upper).peer_state in
        let v : Peer.IsValid peer = o.peers author in
        (Reach-lines r author seq).1.1 (
          lo,
          elim (Bool-cases (ltb seq peer.next)) [
            | inl past ↦ ground arith
            | inr waits ↦
                let d =
                  Reach-IsBacked r author peer.next v.positive
                  ∙ all peer.next v.positive (ground arith) in
                let none =
                  contains-Ascends peer.next (suc peer.next) peer.pending (omega arith) v.ascends in
                ground (arith, d, none)
          ],
        )
