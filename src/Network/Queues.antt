-- ===== src/Network/Queues.antt =====
-- What waits in the sets of a process's links, and so what goes out.
use distributed_algorithms_p.Prelude.{
  ℕ, ◌≡◌, refl, sym, ap, subst, ◌∙◌, Bool, List, [], ◌∷◌, Option, none, some, arith, ==_iff, nat_eq,
  In, In-append, inl, inr, All, ◌==◌, Bool-cases,
}
use distributed_algorithms_p.Prelude.Map.{find, assign, In-emplace}
use distributed_algorithms_p.Udp.{Datagram}
use distributed_algorithms_p.PerfectLink.Codec.{
  Message, Packet, message, ack, parse, serialize, not-message-ack_packet,
}
use distributed_algorithms_p.PerfectLink.Link.{
  PerfectLink, send, send_acks, send_messages, on_packet, notify, receive_ack, clean_acks,
}
use distributed_algorithms_p.PerfectLink.Channel.{packets}
use distributed_algorithms_p.PerfectLink.Packets.{In-packets-send_messages, In-packets-send_acks}
use distributed_algorithms_p.PerfectLink.Sender.{
  send_acks-SameQueue, on_packet-queue, In-on_packet_queue,
}
use distributed_algorithms_p.Manager.{this, Links, send_acks_all, send_messages_all}
use distributed_algorithms_p.Broadcast.{send_all}
use distributed_algorithms_p.Parser.{Host}
use distributed_algorithms_p.Drivers.{machine_of}

pub In-bytes : (d : Datagram) (sent : List Datagram) → In d sent → In d.bytes (packets sent)
In-bytes d [] i = absurd i
In-bytes d (x ∷ sent) (inl e) = inl (ap (λ (y : Datagram). y.bytes) e)
In-bytes d (x ∷ sent) (inr i) = inr (In-bytes d sent i)

-- A link stands under the id of its other end, it sends to the address of the host with that id, its
-- manager is subscribed, and `P` holds of each payload that it has yet to send.
abbrev pub Carries : List Host → (List ℕ → Type 0) → ℕ × PerfectLink → Type 0
Carries hosts P l =
    (l.1.target_id ≡ l.0)
    × ((g : Host) × In g hosts × (g.id ≡ l.0) × (l.1.target_addr ≡ machine_of g))
    × (l.1.managers ≡ this ∷ [])
    × ((x : ℕ × List ℕ) → In x l.1.messages_to_send → P x.1)

abbrev pub AllCarry : List Host → (List ℕ → Type 0) → Links → Type 0
AllCarry hosts P = All (Carries hosts P)

-- What a link keeps for good.
abbrev SameEnds : PerfectLink → PerfectLink → Type 0
SameEnds pl pl' =
    (pl'.target_id ≡ pl.target_id)
    × (pl'.target_addr ≡ pl.target_addr)
    × (pl'.managers ≡ pl.managers)

on_packet-SameEnds :
    (pl : PerfectLink) (packet : Option Packet) (now : ℕ) → SameEnds pl (on_packet pl packet now).0
unfolding on_packet receive_ack
on_packet-SameEnds pl none now = (refl, refl, refl)
on_packet-SameEnds pl (some (message m)) now = ground arith
on_packet-SameEnds pl (some (ack n)) now = ground arith

send_acks-SameEnds :
    (strong : Bool) (now : ℕ) (pl : PerfectLink) → SameEnds pl (send_acks strong now pl).0
unfolding send_acks clean_acks
send_acks-SameEnds strong now pl = ground arith

-- What is read from a packet, whatever its number.
payload-serialize :
    (m packet : Message) → parse (serialize m) ≡ some (message packet) → packet.payload ≡ m.payload
unfolding parse serialize
payload-serialize m packet e = ground arith

pub AllCarry-mono :
    {P Q : List ℕ → Type 0} (hosts : List Host)
    → ((payload : List ℕ) → P payload → Q payload)
    → (links : Links) → AllCarry hosts P links
    → AllCarry hosts Q links
AllCarry-mono hosts f [] c = tt
AllCarry-mono hosts f (l ∷ links) c =
    ((c.0.0, c.0.1, c.0.2, λ x i. f x.1 (c.0.3 x i)), AllCarry-mono hosts f links c.1)

-- What `P` holds of, if it is a message.
abbrev pub Carried : (List ℕ → Type 0) → Datagram → Type 0
Carried P d = (packet : Message) → parse d.bytes ≡ some (message packet) → P packet.payload

module _ (hosts : List Host) (P : List ℕ → Type 0) where
  pub send_all-AllCarry :
      (bytes : List ℕ) (links : Links)
      → P bytes
      → AllCarry hosts P links
      → AllCarry hosts P (send_all bytes links)
  unfolding send_all send
  send_all-AllCarry bytes [] p c = tt
  send_all-AllCarry bytes ((k, pl) ∷ links) p c = (
    (
      c.0.0,
      c.0.1,
      c.0.2,
      λ x i. elim (In-emplace pl.n_messages_sent bytes x pl.messages_to_send i) [
        | inl new ↦ subst P (sym (ap (λ (y : ℕ × List ℕ). y.1) new)) p
        | inr old ↦ c.0.3 x old
      ],
    ),
    send_all-AllCarry bytes links p c.1,
  )

  pub notify-Carries :
      (k : ℕ) (pl : PerfectLink) (bytes : List ℕ) (now : ℕ)
      → Carries hosts P (k, pl)
      → Carries hosts P (k, (notify pl bytes now).0)
  unfolding notify
  notify-Carries k pl bytes now c = (
    same.0 ∙ c.0,
    (c.1.0, c.1.1, c.1.2, same.1 ∙ c.1.3),
    same.2 ∙ c.2,
    λ x i. c.3 x (
        In-on_packet_queue pl (parse bytes) x
          (subst (In x) (on_packet-queue pl (parse bytes) now).1 i)),
  )
    where
      same : SameEnds pl (on_packet pl (parse bytes) now).0
      same = on_packet-SameEnds pl (parse bytes) now

  pub assign-AllCarry :
      (k : ℕ) (pl : PerfectLink) (links : Links)
      → Carries hosts P (k, pl)
      → AllCarry hosts P links
      → AllCarry hosts P (assign k pl links)
  unfolding assign
  assign-AllCarry k pl [] p c = (p, tt)
  assign-AllCarry k pl ((j, q) ∷ links) p c = elim (Bool-cases (j == k)) [
    | inl same ↦ rw same (p, c.1)
    | inr other ↦ rw other (c.0, assign-AllCarry k pl links p c.1)
  ]

  pub find-Carries :
      (k : ℕ) (pl : PerfectLink) (links : Links)
      → AllCarry hosts P links
      → find k links ≡ some pl
      → Carries hosts P (k, pl)
  unfolding find
  find-Carries k pl [] c e = cc
  find-Carries k pl ((j, q) ∷ links) c e = elim (Bool-cases (j == k)) [
    | inl same ↦ subst (Carries hosts P) {x = (j, q)} {y = (k, pl)} (ground (arith, ==_iff j k)) c.0
    | inr other ↦ find-Carries k pl links c.1 (ground arith)
  ]

  pub send_acks_all-AllCarry :
      (strong : Bool) (now : ℕ) (links : Links)
      → AllCarry hosts P links
      → AllCarry hosts P (send_acks_all strong now links).0
  unfolding send_acks_all
  send_acks_all-AllCarry strong now [] c = tt
  send_acks_all-AllCarry strong now ((k, pl) ∷ links) c =
      let (_, queue) = send_acks-SameQueue strong now pl in
      let same = send_acks-SameEnds strong now pl in
      (
        (
          same.0 ∙ c.0.0,
          (c.0.1.0, c.0.1.1, c.0.1.2, same.1 ∙ c.0.1.3),
          same.2 ∙ c.0.2,
          λ x i. c.0.3 x (subst (In x) queue i),
        ),
        send_acks_all-AllCarry strong now links c.1,
      )

  pub send_messages_all-Carried :
      (links : Links) (d : Datagram)
      → AllCarry hosts P links
      → In d (send_messages_all links)
      → Carried P d
  unfolding send_messages_all
  send_messages_all-Carried [] d c i packet e = absurd i
  send_messages_all-Carried ((k, pl) ∷ links) d c i packet e =
      elim (In-append d (send_messages pl) (send_messages_all links) i) [
        | inr later ↦ send_messages_all-Carried links d c.1 later packet e
        | inl now ↦
            let (x, at, same) = In-packets-send_messages pl d.bytes (In-bytes d _ now) in
            subst P
              (sym (
                payload-serialize (record { seq = x.0; payload = x.1 }) packet
                  (ap parse (sym same) ∙ e)))
              (c.0.3 x at)
      ]

pub send_acks_all-Carried :
    (P : List ℕ → Type 0) (strong : Bool) (now : ℕ) (links : Links) (d : Datagram)
    → In d (send_acks_all strong now links).1
    → Carried P d
unfolding send_acks_all
send_acks_all-Carried P strong now [] d i packet e = absurd i
send_acks_all-Carried P strong now ((k, pl) ∷ links) d i packet e =
    elim (In-append d (send_acks strong now pl).1 (send_acks_all strong now links).1 i) [
      | inr later ↦ send_acks_all-Carried P strong now links d later packet e
      | inl now_ ↦
          let (n, _, same) = In-packets-send_acks strong now pl d.bytes (In-bytes d _ now_) in
          absurd (not-message-ack_packet n packet (ap parse (sym same) ∙ e))
    ]
