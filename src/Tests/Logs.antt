-- ===== src/Tests/Logs.antt =====
-- The broadcast layers' data and the FIFO delivery, on small inputs.
use distributed_algorithms_p.Prelude.{
  length, ◌≤◌, ltb, nat_eq, ℕ, ◌≡◌, refl, true, List, [], ◌∷◌, none, some, arith, ◌≤◌,
}
use distributed_algorithms_p.Prelude.Map.{find, assign, get_or}
use distributed_algorithms_p.Prelude.Set.{member}
use distributed_algorithms_p.Prelude.Runs.{erase_all}
use distributed_algorithms_p.Prelude.SortedSet
use distributed_algorithms_p.Logger.{broadcast, deliver}
use distributed_algorithms_p.Logger.Lines.{decimal, line_text, read_line, read_line-line_text}
use distributed_algorithms_p.PerfectLink.Codec.{Message as LinkMessage, message}
use distributed_algorithms_p.PerfectLink.Codec
use distributed_algorithms_p.Broadcast.Types.{Message, MessageId, id_eq}
use distributed_algorithms_p.Broadcast.Codec as Wire
use distributed_algorithms_p.DeliveredSet
use distributed_algorithms_p.DeliveredSet.Refinement.{insert_all, insert_all-refines}
use distributed_algorithms_p.Fifo.{
  round, deliver_peer, Loop, new_fifo, new_peer, release, release_reliable, deliver_internal,
}
use distributed_algorithms_p.Fifo.Release.{release_reliable-release}
use distributed_algorithms_p.Fifo.Peer.{deliver_seqs}
use distributed_algorithms_p.Fifo.Prefix.{deliver_seqs-IsLongestPrefix, IsLongestPrefix}
use distributed_algorithms_p.Fifo.Order.{
  IsOrdered, deliver_internal-IsOrdered, new_fifo-IsOrdered, check_process, check_line, checker,
}

abbrev out_of_order : List ℕ
out_of_order = 3 ∷ 1 ∷ 1 ∷ 5 ∷ 2 ∷ []

-- 3 waits for 1 and 2, and 5 waits for 4.
deliver-out_of_order :
    deliver_seqs 9 out_of_order new_peer []
    ≡ (record { next = 4; pending = 5 ∷ [] }, deliver 9 1 ∷ deliver 9 2 ∷ deliver 9 3 ∷ [])
unfolding deliver_seqs deliver_peer release round erase_all SortedSet.insert SortedSet.erase
deliver-out_of_order = refl

deliver_seqs-IsLongestPrefix_example :
    IsLongestPrefix 9 out_of_order (deliver_seqs 9 out_of_order new_peer [])
deliver_seqs-IsLongestPrefix_example = deliver_seqs-IsLongestPrefix 9 out_of_order (omega arith)

abbrev a_loop : Loop
a_loop = record { next = 2; to_remove = []; lines = [] }

release_reliable-release_example :
    release_reliable true 9 (2 ∷ 3 ∷ 5 ∷ []) a_loop ≡ release true 9 (2 ∷ 3 ∷ 5 ∷ []) a_loop
release_reliable-release_example = release_reliable-release true 9 (2 ∷ 3 ∷ 5 ∷ []) a_loop

abbrev nine_two : MessageId
nine_two = record { seq = 2; author = 9 }

abbrev nine_one : MessageId
nine_one = record { seq = 1; author = 9 }

deliver_internal-IsOrdered_example : IsOrdered 1 (deliver_internal new_fifo nine_two true)
deliver_internal-IsOrdered_example =
    deliver_internal-IsOrdered nine_two new_fifo (omega arith) new_fifo-IsOrdered

check_process-gap : check_process checker (broadcast 1 ∷ deliver 9 2 ∷ []) ≡ none
unfolding check_process check_line
check_process-gap = refl

abbrev two_ids : List MessageId
two_ids = nine_two ∷ nine_one ∷ nine_two ∷ []

insert_all-two_ids : insert_all [] two_ids ≡ (9, record { bottom = 3; delivered = [] }) ∷ []
unfolding insert_all DeliveredSet.insert DeliveredSet.contains DeliveredSet.peer_insert
    DeliveredSet.compact get_or assign find SortedSet.insert SortedSet.contains erase_all
    SortedSet.erase
insert_all-two_ids = refl

insert_all-refines_example :
    ((j : MessageId)
      → 1 ≤ j.seq
      → DeliveredSet.contains (insert_all [] two_ids) j ≡ member j two_ids)
    × ((author n : ℕ)
        → ((m : ℕ)
            → DeliveredSet.peer_contains
                (get_or author DeliveredSet.new_peer (insert_all [] two_ids))
                m
              ≡ ltb m n)
        → (get_or author DeliveredSet.new_peer (insert_all [] two_ids)).delivered ≡ [])
insert_all-refines_example = insert_all-refines two_ids (omega arith)

-- Author 9's message 2 with one byte, as process 3 sends it in packet 1 of its link.
abbrev nine_message : Message
nine_message = record { id = nine_two; sender = 9; payload = 7 ∷ [] }

abbrev nine_bytes : List ℕ
nine_bytes = 1 ∷ 1 ∷ 0 ∷ 0 ∷ 0 ∷ 9 ∷ 0 ∷ 0 ∷ 0 ∷ 2 ∷ 0 ∷ 0 ∷ 0 ∷ 7 ∷ []

abbrev nine_packet : LinkMessage
nine_packet = record { seq = 1; payload = Wire.serialize nine_message }

wire_example :
    (length (Wire.serialize nine_message) ≤ Wire.buffer_size)
    × (length (Codec.serialize nine_packet) ≤ Codec.max_send_size)
    × (Codec.parse (Codec.serialize nine_packet) ≡ some (message nine_packet))
    × (Wire.parse 3 nine_packet.payload ≡ some (record nine_message { sender = 3 }))
wire_example = Wire.wire 3 1 nine_message (omega arith) (omega arith) (omega arith) (omega arith)

parse-nine_bytes :
    Codec.parse nine_bytes
    ≡ some (message (record { seq = 1; payload = 9 ∷ 0 ∷ 0 ∷ 0 ∷ 2 ∷ 0 ∷ 0 ∷ 0 ∷ 7 ∷ [] }))
unfolding Codec.parse
parse-nine_bytes = refl

parse-nine_packet :
    Wire.parse 3 (9 ∷ 0 ∷ 0 ∷ 0 ∷ 2 ∷ 0 ∷ 0 ∷ 0 ∷ 7 ∷ [])
    ≡ some (record nine_message { sender = 3 })
unfolding Wire.parse
parse-nine_packet = refl

-- "d 12 305"
text-delivery : line_text (deliver 12 305) ≡ 100 ∷ 32 ∷ 49 ∷ 50 ∷ 32 ∷ 51 ∷ 48 ∷ 53 ∷ []
unfolding line_text decimal
text-delivery = refl

read_line-line_text_example : read_line (line_text (deliver 12 305)) ≡ some (deliver 12 305)
read_line-line_text_example = read_line-line_text (deliver 12 305) (omega arith, omega arith)
