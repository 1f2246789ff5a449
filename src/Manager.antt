-- ===== src/Manager.antt =====
-- `PerfectLink::Manager` and its subclass `BasicManager`, of src/src/src/perfect_link.cpp: the links of a
-- process, by the id of the process at the other end. A thread that is started runs its loop while
-- `on_` is set; a round of a loop is a function here.
use distributed_algorithms_p.Prelude.{
  ℕ, ◌+◌, Bool, true, false, List, [], ◌∷◌, ◌++◌, none, some, if◌then◌else◌, nat_eq, u32,
}
use distributed_algorithms_p.Prelude.Map.{find, assign}
use distributed_algorithms_p.Logger.{Line, broadcast, deliver, write}
use distributed_algorithms_p.Udp.{Datagram}
use distributed_algorithms_p.PerfectLink.Codec.{Message}
use distributed_algorithms_p.PerfectLink.Link.{
  PerfectLink, subscribe, send, send_acks, send_messages,
}

abbrev pub Links : Type 0
Links = List (ℕ × PerfectLink)

pub record Manager : Type 0 where
  pub n_processes : ℕ
  pub on : Bool
  pub perfect_links : Links

abbrev pub new_manager : Manager
new_manager = record { n_processes = 1; on = false; perfect_links = [] }

-- A process has one manager, which this number names.
abbrev pub this : ℕ
this = 0

unfoldable pub start : Manager → Manager
start m = record m { on = true }

unfoldable pub stop : Manager → Manager
stop m = if m.on then record m { on = false } else m

unfoldable pub add : Manager → PerfectLink → Manager
add m pl = record m {
  perfect_links = assign pl.target_id (subscribe pl this) m.perfect_links;
  n_processes = u32 (m.n_processes + 1);
}

-- `SendAcks` of every link, with all that is sent.
unfoldable pub send_acks_all : Bool → ℕ → Links → Links × List Datagram
send_acks_all strong now [] = ([], [])
send_acks_all strong now ((id, pl) ∷ links) =
    let (pl', out) = send_acks strong now pl in
    let (links', outs) = send_acks_all strong now links in ((id, pl') ∷ links', out ++ outs)

unfoldable pub send_messages_all : Links → List Datagram
send_messages_all [] = []
send_messages_all ((id, pl) ∷ links) = send_messages pl ++ send_messages_all links

-- One round of `Manager::SendAcks`.
unfoldable pub ack_round : Bool → ℕ → Manager → Manager × List Datagram
unfolding send_acks_all
ack_round strong now m =
    let (links, out) = send_acks_all strong now m.perfect_links in
    if m.on then (record m { perfect_links = links }, out) else (m, [])

-- One round of `Manager::SendMessages`.
unfoldable pub send_round : Manager → List Datagram
unfolding send_messages_all
send_round m = if m.on then send_messages_all m.perfect_links else []

pub record BasicManager : Type 0 where
  pub manager : Manager
  pub lines : List Line

-- `BasicManager::Send`: nothing is logged for an unknown receiver.
unfoldable pub basic_send : BasicManager → ℕ → List ℕ → BasicManager
basic_send m receiver_id msg = elim (find receiver_id m.manager.perfect_links) [
  | none ↦ m
  | some pl ↦
      let (pl', id) = send pl msg in
      record {
        manager = record (m.manager) {
          perfect_links = assign receiver_id pl' m.manager.perfect_links;
        };
        lines = write m.lines (broadcast id);
      }
]

-- `BasicManager::Notify`
unfoldable pub basic_notify : BasicManager → ℕ → Message → BasicManager
basic_notify m sender_id msg = record m { lines = write m.lines (deliver sender_id msg.seq) }
