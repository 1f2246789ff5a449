-- ===== src/Udp.antt =====
-- `Machine` and `UDPServer` of src/src/src/udp_server.cpp and src/src/include/udp_server.hpp: which observers
-- a datagram goes to. The sockets are the operating system's.
use distributed_algorithms_p.Prelude.{
  Option, none, some, ℕ, ◌≡◌, sym, ap, ◌∙◌, ◌↔◌, Bool, true, false, ◌&&◌, List, [], ◌∷◌, ◌++◌,
  arith, Eq, ltb, if◌then◌else◌, ◌==◌, nat_eq, is_empty,
}
use mathlib.Core.List.{append_assoc, append-nil}
use distributed_algorithms_p.Prelude.Map.{get_or, assign, get_or-assign, find}

pub record Machine : Type 0 where
  pub ip : ℕ
  pub port : ℕ

abbrev pub machine_beq : Machine → Machine → Bool
machine_beq m1 m2 = m1.ip == m2.ip && m1.port == m2.port

pub machine_beq_iff : (a b : Machine) → (machine_beq a b ≡ true) ↔ (a ≡ b)
machine_beq_iff a b = ground arith

instance abbrev pub machine_eq : Eq Machine
machine_eq = record { equals = machine_beq; equals_iff = machine_beq_iff }

-- `operator<`
unfoldable pub machine_lt : Machine → Machine → Bool
machine_lt m1 m2 = if m1.ip == m2.ip then ltb m1.port m2.port else ltb m1.ip m2.ip

-- A datagram and where it goes to, or where it comes from.
pub record Datagram : Type 0 where
  pub machine : Machine
  pub bytes : List ℕ

-- `on_` and `observers_`. An observer is named by a number, as the source names it by its address.
pub record UdpServer : Type 0 where
  pub on : Bool
  pub observers : List (Machine × List ℕ)

unfoldable pub attach : UdpServer → ℕ → Machine → UdpServer
attach s obs addr = record s {
  observers = assign addr (get_or addr [] s.observers ++ obs ∷ []) s.observers;
}

-- The observers whose `Notify` is called, in order. Reading `observers_.data[…]` makes the entry.
unfoldable pub notify_all : UdpServer → Machine → UdpServer × List ℕ
notify_all s addr =
    let observers = get_or addr [] s.observers in
    (record s { observers = assign addr observers s.observers }, observers)

-- One round of `Receive`, for a datagram that `recvfrom` has read: an empty one reaches nobody.
unfoldable pub receive : UdpServer → Datagram → UdpServer × List ℕ
unfolding notify_all
receive s d = if is_empty d.bytes then (s, []) else notify_all s d.machine

-- Who is told of a datagram from `addr`.
abbrev pub audience : UdpServer → Machine → List ℕ
audience s addr = (notify_all s addr).1

pub audience-attach :
    (s : UdpServer) (obs : ℕ) (addr other : Machine)
    → audience (attach s obs addr) other
      ≡ (if addr == other then audience s other ++ obs ∷ [] else audience s other)
unfolding attach notify_all
audience-attach s obs addr other = ground (
  arith,
  machine_beq_iff addr other,
  get_or-assign addr other [] (get_or addr [] s.observers ++ obs ∷ []) s.observers,
)

audience-notify_all :
    (s : UdpServer) (from other : Machine) → audience (notify_all s from).0 other ≡ audience s other
unfolding notify_all
audience-notify_all s from other = ground (
  arith,
  machine_beq_iff from other,
  get_or-assign from other [] (get_or from [] s.observers) s.observers,
)

abbrev pub new_server : UdpServer
new_server = record { on = false; observers = [] }

-- The constructor, which throws if the operating system gives no socket or does not bind it to the
-- address.
unfoldable pub open_server : (Machine → Bool) → Machine → Option UdpServer
open_server can_bind addr = if can_bind addr then some new_server else none

unfoldable pub start : UdpServer → UdpServer
start s = record s { on = true }

unfoldable pub stop : UdpServer → UdpServer
stop s = if s.on then record s { on = false } else s

-- What happens to a server: an observer is attached, or a datagram comes in.
pub data Event : Type 0 where
  attached : (obs : ℕ) (addr : Machine) → Event
  received : (d : Datagram) → Event

unfoldable pub serve : UdpServer → List Event → UdpServer
serve s [] = s
serve s (attached obs addr ∷ events) = serve (attach s obs addr) events
serve s (received d ∷ events) = serve (receive s d).0 events

-- The observers that were attached for a machine, in order.
unfoldable pub attached_for : Machine → List Event → List ℕ
attached_for addr [] = []
attached_for addr (attached obs a ∷ events) =
    if a == addr then obs ∷ attached_for addr events else attached_for addr events
attached_for addr (received d ∷ events) = attached_for addr events

pub audience-receive :
    (s : UdpServer) (d : Datagram) (other : Machine)
    → audience (receive s d).0 other ≡ audience s other
unfolding receive
audience-receive s d other = ground (arith, audience-notify_all s d.machine other)

audience-serve_from :
    (s : UdpServer) (events : List Event) (addr : Machine)
    → audience (serve s events) addr ≡ audience s addr ++ attached_for addr events
unfolding serve attached_for
audience-serve_from s [] addr = sym (append-nil _)
audience-serve_from s (attached obs a ∷ events) addr = ground (
  arith,
  audience-serve_from (attach s obs a) events addr,
  audience-attach s obs a addr,
  append_assoc (audience s addr) (obs ∷ []) (attached_for addr events),
)
audience-serve_from s (received d ∷ events) addr =
    audience-serve_from (receive s d).0 events addr
    ∙ ap (λ told. told ++ attached_for addr events) (audience-receive s d addr)

audience-serve :
    (events : List Event) (addr : Machine)
    → audience (serve new_server events) addr ≡ attached_for addr events
unfolding notify_all get_or find
audience-serve events addr = audience-serve_from new_server events addr

-- Whatever has been attached and received since the server was made, a round of `Receive` that reads a
-- datagram hands it to exactly the observers that were attached for the machine it came from, each as
-- often as it was attached, and in the order of attachment; one without bytes it hands to nobody.
pub receive-serve :
    (events : List Event) (d : Datagram)
    → (receive (serve new_server events) d).1
      ≡ (if is_empty d.bytes then [] else attached_for d.machine events)
unfolding receive
receive-serve events d = ground (arith, audience-serve events d.machine)
