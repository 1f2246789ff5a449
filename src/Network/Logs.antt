-- ===== src/Network/Logs.antt =====
-- What the logs of the processes of a network say of one another.
use distributed_algorithms_p.Prelude.{
  ℕ, ◌≤◌, ◌<◌, ◌≡◌, refl, sym, subst, ◌∙◌, ◌↔◌, true, Bool, List, [], Option, arith, nat_eq,
  max_seq, map, In, inl, inr, ◌⊎◌, length,
}
use distributed_algorithms_p.Prelude.Set.{Distinct, member}
use distributed_algorithms_p.Udp.{machine_eq}
use distributed_algorithms_p.Logger.{Line, broadcast, deliver}
use distributed_algorithms_p.Broadcast.{Upper}
use distributed_algorithms_p.Broadcast.Types.{MessageId, id_eq}
use distributed_algorithms_p.DeliveredSet
use distributed_algorithms_p.Fifo.{Fifo, new_fifo}
use distributed_algorithms_p.Fifo.Order.{next_of}
use distributed_algorithms_p.Uniform.{Uniform}
use distributed_algorithms_p.Uniform.Run.{Event, Reach, started}
use distributed_algorithms_p.Uniform.Agreed.{traced}
use distributed_algorithms_p.Uniform.Agreement.{reach-trace}
use distributed_algorithms_p.Uniform.Flow.{HonestReach-Reach}
use distributed_algorithms_p.Uniform.Window.{own_id}
use distributed_algorithms_p.UniformFifo.{uniform_fifo, IsOver, traced-IsOver}
use distributed_algorithms_p.UniformFifo.Backed.{Reach-lines, Reach-delivered, Reach-logged}
use distributed_algorithms_p.Parser.{Lookup, Parser, returns, parse_hosts_file}
use distributed_algorithms_p.Parser.Hosts.{ids}
use distributed_algorithms_p.Parser.Lex.{Text}
use distributed_algorithms_p.Drivers.{machine_of}
use distributed_algorithms_p.System.{IsMember}
use distributed_algorithms_p.System.Origin.{SystemReach-IsLive, reach-IsAuthored}
use distributed_algorithms_p.System.Configured.{configured}
use distributed_algorithms_p.Network.{
  Network, NetworkReach, network_here, network_next, RoomyReach, roomy_here, roomy_next,
}
use distributed_algorithms_p.Network.Refined.{reach-refines}
use distributed_algorithms_p.Network.Delivers.{IsCalm, HasDelivered, MustArrive, network-delivers}

-- The runs in which no link gives a number out twice are runs.
pub RoomyReach-NetworkReach :
    {U : Type 0} {upper : Upper U} {strong : Bool} {hosts : List _} {state : U}
    {output_path : ℕ → Text} {s : Network U}
    → RoomyReach upper strong hosts state output_path s
    → NetworkReach upper strong hosts state output_path s
RoomyReach-NetworkReach roomy_here = network_here
RoomyReach-NetworkReach (roomy_next r room st) = network_next (RoomyReach-NetworkReach r) st

-- The log of a process.
abbrev pub log_of : {U : Type 0} → (U → Fifo) → Network U → ℕ → List Line
log_of fifo s k = (fifo (s.node k).manager.upper).lines

module _ {U : Type 0} (upper : Upper U) (fifo : U → Fifo) (over : IsOver upper fifo) (strong : Bool)
    (state : U) (new : fifo state ≡ new_fifo) (output_path : ℕ → Text)
    (open_file : Text → Option (List Text)) (resolve : Text → Lookup) where
  module _ (p q : Parser) (e : parse_hosts_file open_file resolve p ≡ returns q)
      (addresses : Distinct (map machine_of q.hosts)) (few : length q.hosts ≤ max_seq)
      {s : Network U} (r : NetworkReach upper strong q.hosts state output_path s) where
    -- Each process has run its own handlers.
    node-Reach :
        (k : ℕ)
        → (events : List Event) × Reach upper
            (started k state (configured q k))
            events
            (s.node k).manager
    node-Reach k =
        let (system, run, same) =
          reach-refines upper strong state output_path open_file resolve p q e addresses few r in
        let l = SystemReach-IsLive upper (length q.hosts) state (configured q) run in
        (_, subst (Reach upper _ _) (same k) (HonestReach-Reach upper (l.honest k)))

    -- What comes from an author was sent by it.
    node-authored :
        (k author seq : ℕ)
        → 1 ≤ seq
        → DeliveredSet.contains (s.node k).manager.delivered (own_id author seq) ≡ true
        → seq < (s.node author).manager.n_messages_sent
    node-authored k author seq lo d =
        let (system, run, same) =
          reach-refines upper strong state output_path open_file resolve p q e addresses few r in
        subst (λ (u : Uniform U). seq < u.n_messages_sent) (same author)
          (reach-IsAuthored upper (length q.hosts) state (configured q) run k (own_id author seq) lo
            (inr (
              subst
                (λ (u : Uniform U). DeliveredSet.contains u.delivered (own_id author seq) ≡ true)
                (sym (same k)) d))).0

    -- The processes of an accepted hosts file whose hosts have different addresses and are fewer than
    -- 2^32, each with the delivery of UniformFIFOBroadcast, also if it keeps more beside it, over a network
    -- that may lose, repeat, delay and reorder the datagrams between them; they broadcast messages that
    -- the buffers hold, with numbers from 1 to 2^32 - 2. At any time, if the log of a process says that a
    -- message of some author was delivered, then for each number from 1 up to that message's: it says
    -- so of the author's message of that number, and the author's own log says that it was broadcast.
    pub network-logs :
        (k author seq earlier : ℕ)
        → In (deliver author seq) (log_of fifo s k)
        → 1 ≤ earlier
        → earlier ≤ seq
        → In (deliver author earlier) (log_of fifo s k)
          × In (broadcast earlier) (log_of fifo s author)
    network-logs k author seq earlier at lo hi =
        let (_, mine) = node-Reach k in
        let (_, theirs) = node-Reach author in
        let before =
          (Reach-lines upper fifo over k state (configured q k) new mine author seq).1.0 at in
        let on : In (deliver author earlier) (log_of fifo s k) =
          (Reach-lines upper fifo over k state (configured q k) new mine author earlier).1.1
            (omega (arith, before)) in
        let d =
          Reach-delivered upper fifo over k state (configured q k) new mine author earlier on in
        (
          on,
          (Reach-lines upper fifo over author state (configured q author) new theirs author
                earlier).0.1
              (lo, node-authored k author earlier lo d),
        )

-- The same, with the note of the ids.
abbrev pub Fifos : Type 0
Fifos = Network (Fifo × List MessageId)

abbrev pub noted_log : Fifos → ℕ → List Line
noted_log = log_of (λ u. u.0)

-- Some log says that the message was delivered, or the log of a correct process that it was broadcast.
abbrev pub IsLogged : ℕ → List ℕ → Fifos → ℕ → ℕ → Type 0
IsLogged n correct s author seq =
    ((i : ℕ) × IsMember n i × In (deliver author seq) (noted_log s i))
    ⊎ ((member author correct ≡ true) × In (broadcast seq) (noted_log s author))

module _ (strong : Bool) (output_path : ℕ → Text) (open_file : Text → Option (List Text))
    (resolve : Text → Lookup) (p q : Parser) (e : parse_hosts_file open_file resolve p ≡ returns q)
    (names : Distinct (ids q.hosts)) (addresses : Distinct (map machine_of q.hosts))
    (few : length q.hosts ≤ max_seq) {s : Fifos}
    (r : RoomyReach (traced uniform_fifo) strong q.hosts (new_fifo, []) output_path s) where
  abbrev upper : Upper (Fifo × List MessageId)
  upper = traced uniform_fifo

  fifo_Reach :
      (k : ℕ)
      → (events : List Event) × Reach upper
          (started k (new_fifo, []) (configured q k))
          events
          (s.node k).manager
  fifo_Reach =
      node-Reach upper (λ u. u.0) traced-IsOver strong (new_fifo, []) refl output_path open_file
        resolve p q e addresses few (RoomyReach-NetworkReach r)

  -- What was delivered below was given to `DeliverInternal`.
  HasDelivered-contains :
      (k author seq : ℕ)
      → 1 ≤ seq
      → HasDelivered s k (own_id author seq)
        ↔ (DeliveredSet.contains (s.node k).manager.delivered (own_id author seq) ≡ true)
  HasDelivered-contains k author seq lo =
      let (_, run) = fifo_Reach k in
      let same = reach-trace uniform_fifo k new_fifo (configured q k) run (own_id author seq) lo in
      (λ h. sym same ∙ h, λ d. same ∙ d)

  fifo_lines :
      (k author seq : ℕ)
      → (In (broadcast seq) (noted_log s k)
          ↔ ((1 ≤ seq) × (seq < (s.node k).manager.n_messages_sent)))
        × (In (deliver author seq) (noted_log s k)
            ↔ ((1 ≤ seq) × (seq < next_of (s.node k).manager.upper.0.peer_state author)))
  fifo_lines k =
      Reach-lines upper (λ u. u.0) traced-IsOver k (new_fifo, []) (configured q k) refl
        (fifo_Reach k).1

  IsLogged-positive :
      (correct : List ℕ) (author seq : ℕ) → IsLogged (length q.hosts) correct s author seq → 1 ≤ seq
  IsLogged-positive correct author seq (inl (i, _, at)) = ((fifo_lines i author seq).1.0 at).0
  IsLogged-positive correct author seq (inr (_, at)) = ((fifo_lines author author seq).0.0 at).0

  -- What a log says, with all that its author sent before, must arrive.
  IsLogged-MustArrive :
      (correct : List ℕ) (author seq : ℕ)
      → IsLogged (length q.hosts) correct s author seq
      → (m : ℕ) → 1 ≤ m
      → m ≤ seq
      → MustArrive (length q.hosts) correct s (own_id author m)
  IsLogged-MustArrive correct author seq (inl (i, mem, at)) m from to =
      let before = (fifo_lines i author seq).1.0 at in
      let on : In (deliver author m) (noted_log s i) =
        (fifo_lines i author m).1.1 (omega (arith, before)) in
      inl (
        i,
        mem,
        (HasDelivered-contains i author m from).1 (
            Reach-delivered upper (λ u. u.0) traced-IsOver i (new_fifo, []) (configured q i) refl
              (fifo_Reach i).1 author m on),
      )
  IsLogged-MustArrive correct author seq (inr (mem, at)) m from to =
      let before = (fifo_lines author author seq).0.0 at in inr (mem, omega (arith, before))

  -- The processes of an accepted hosts file whose hosts have different ids and addresses and are fewer
  -- than 2^32, each with UniformFIFOBroadcast and a note of the ids that its `DeliverInternal` is given,
  -- over a network that may lose, repeat, delay and reorder the datagrams between them; they broadcast
  -- messages that the buffers hold, each may stop at any time, and neither a process nor a link gives
  -- out 2^32 - 1 numbers. At any point of a run at which the network is calm for some processes that
  -- are more than half of all (the links between them have nothing left to send, and `DeliverPending`
  -- has come to all that is pending at them): a message of which any process's log says that it was
  -- delivered, also the log of one that stopped, or of which the log of one of those says that it was
  -- broadcast, is delivered by the log of each of those.
  pub network-logs_arrive :
      (correct : List ℕ)
      → IsCalm (length q.hosts) correct s
      → (author seq : ℕ) → IsLogged (length q.hosts) correct s author seq
      → (k : ℕ) → member k correct ≡ true
      → In (deliver author seq) (noted_log s k)
  network-logs_arrive correct calm author seq due k in_k =
      let lo = IsLogged-positive correct author seq due in
      Reach-logged upper (λ u. u.0) traced-IsOver k (new_fifo, []) (configured q k) refl
        (fifo_Reach k).1 author seq lo
        λ m from to. (HasDelivered-contains k author m from).0 (
          network-delivers uniform_fifo strong new_fifo output_path open_file resolve p q e names
            addresses few r correct calm (own_id author m) from
            (IsLogged-MustArrive correct author seq due m from to) k in_k)
