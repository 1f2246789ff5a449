-- ===== src/PerfectLink/Packets.antt =====
-- What the packets are that a link sends.
use distributed_algorithms_p.Prelude.{
  ℕ, ◌≡◌, refl, ap, ◌∙◌, Bool, List, map, In, In-map, Bool-cases, is_empty, inl, inr,
}
use distributed_algorithms_p.Udp.{Datagram}
use distributed_algorithms_p.PerfectLink.Codec.{serialize, ack_packet}
use distributed_algorithms_p.PerfectLink.Link.{PerfectLink, datagram, send_acks, send_messages}
use distributed_algorithms_p.PerfectLink.Channel.{packets}

pub In-packets-send_messages :
    (pl : PerfectLink) (bytes : List ℕ)
    → In bytes (packets (send_messages pl))
    → (x : ℕ × List ℕ) × In x pl.messages_to_send
      × (bytes ≡ serialize (record { seq = x.0; payload = x.1 }))
unfolding send_messages
In-packets-send_messages pl bytes h =
    let (d, m, e) = In-map (λ (d : Datagram). d.bytes) bytes (send_messages pl) h in
    let (x, n, p) = In-map _ d pl.messages_to_send m in (x, n, e ∙ ap (λ (d : Datagram). d.bytes) p)

acks_bytes :
    (acks : List ℕ) (f : ℕ → Datagram) (bytes : List ℕ)
    → ((n : ℕ) → (f n).bytes ≡ ack_packet n)
    → In bytes (packets (map f acks))
    → (n : ℕ) × In n acks × (bytes ≡ ack_packet n)
acks_bytes acks f bytes same h =
    let (d, m, e) = In-map (λ (d : Datagram). d.bytes) bytes (map f acks) h in
    let (n, i, p) = In-map f d acks m in (n, i, e ∙ ap (λ (d : Datagram). d.bytes) p ∙ same n)

pub In-packets-send_acks :
    (strong : Bool) (now : ℕ) (pl : PerfectLink) (bytes : List ℕ)
    → In bytes (packets (send_acks strong now pl).1)
    → (n : ℕ) × In n pl.acks_to_send × (bytes ≡ ack_packet n)
unfolding send_acks
In-packets-send_acks strong now pl bytes h = elim (Bool-cases (is_empty pl.acks_to_send)) [
  | inl e ↦ absurd (rw e at h)
  | inr e ↦
      acks_bytes pl.acks_to_send (λ i. datagram pl (ack_packet i)) bytes (λ n. refl) (rw e at h)
]
