-- ===== src/PerfectLink/Channel.antt =====
-- Two ends of a link over a network that loses, repeats, delays and reorders datagrams: a datagram
-- that was once sent may be received at any later time, any number of times, or never.
use distributed_algorithms_p.Prelude.{ℕ, ◌<◌, Bool, List, ◌∷◌, ◌++◌, map, In, max_seq}
use distributed_algorithms_p.Udp.{Datagram}
use distributed_algorithms_p.PerfectLink.Codec.{Message}
use distributed_algorithms_p.PerfectLink.Link.{PerfectLink, send, send_acks, send_messages, notify}

-- One end, with its history: the packets that it has sent, the messages given to `Send`, and the
-- messages handed to the manager.
pub record End : Type 0 where
  pub link : PerfectLink
  pub out : List (List ℕ)
  pub sent : List Message
  pub delivered : List Message

abbrev pub packets : List Datagram → List (List ℕ)
packets = map (λ d. d.bytes)

abbrev pub sending : End → List ℕ → End
sending e payload = record e {
  link = (send e.link payload).0;
  sent = record { seq = (send e.link payload).1; payload = payload } ∷ e.sent;
}

abbrev pub sending_messages : End → End
sending_messages e = record e { out = packets (send_messages e.link) ++ e.out }

abbrev pub sending_acks : Bool → ℕ → End → End
sending_acks strong now e = record e {
  link = (send_acks strong now e.link).0;
  out = packets (send_acks strong now e.link).1 ++ e.out;
}

abbrev pub receiving : End → List ℕ → ℕ → End
receiving e bytes now = record e {
  link = (notify e.link bytes now).0;
  delivered = map (λ u. u.msg) (notify e.link bytes now).1 ++ e.delivered;
}

-- A step of one end. `strong` is PERFECT_LINKS_STRONG; the clock may show any time.
pub data Move (strong : Bool) (self peer : End) : End → Type 0 where
  sends :
      (payload : List ℕ)
      → self.link.n_messages_sent < max_seq
      → Move strong self peer (sending self payload)
  sends_messages : Move strong self peer (sending_messages self)
  sends_acks : (now : ℕ) → Move strong self peer (sending_acks strong now self)
  receives :
      (bytes : List ℕ) (now : ℕ)
      → In bytes peer.out
      → Move strong self peer (receiving self bytes now)

pub record Channel : Type 0 where
  pub left : End
  pub right : End

pub data Step (strong : Bool) (c : Channel) : Channel → Type 0 where
  on_left : {e : End} → Move strong c.left c.right e → Step strong c (record c { left = e })
  on_right : {e : End} → Move strong c.right c.left e → Step strong c (record c { right = e })

pub data Reach (strong : Bool) (c : Channel) : Channel → Type 0 where
  here : Reach strong c c
  next : {d e : Channel} → Reach strong c d → Step strong d e → Reach strong c e
