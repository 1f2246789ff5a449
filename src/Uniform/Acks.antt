-- ===== src/Uniform/Acks.antt =====
-- Whose copies of a message a process has counted.
use distributed_algorithms_p.Prelude.{
  ℕ, ◌≡◌, refl, sym, subst, ◌∙◌, true, List, [], ◌∷◌, ◌++◌, arith, ◌==◌, nat_eq, nat_beq_iff,
  Bool-cases, In, inl, inr,
}
use distributed_algorithms_p.Prelude.Map.{get_or, assign, remove, get_or-assign, get_or-remove}
use distributed_algorithms_p.Prelude.Set.{
  member, member-insert, not-member-nil, insert-Distinct, Distinct,
}
use distributed_algorithms_p.Broadcast.Types.{Message, MessageId, id_eq, id_beq_iff}
use distributed_algorithms_p.Broadcast.{Upper}
use distributed_algorithms_p.Uniform.{
  Uniform, add_ack, send_internal, finish_own, send, notify_internal, deliver, try_deliver, erased,
}
use distributed_algorithms_p.Uniform.Run.{
  Event, sent, notified, Step, sends, notifies, tries, relinks, Heard, Heard-append,
}
use distributed_algorithms_p.Uniform.Cases.{
  finish_own_cases, send_cases, notify_internal_cases, try_deliver_cases, looked,
}
use distributed_algorithms_p.Uniform.Sound.{notify_lem}

-- Each process is counted once for a message, and only if a copy of it came in from that process.
pub record IsCounted (events : List Event) (acks : List (MessageId × List ℕ)) : Type 0 where
  pub heard : (id : MessageId) (s : ℕ) → member s (get_or id [] acks) ≡ true → Heard events id s
  pub distinct : (id : MessageId) → Distinct (get_or id [] acks)

abbrev Acks : Type 0
Acks = List (MessageId × List ℕ)

pub append-IsCounted :
    (new old : List Event) (acks : Acks) → IsCounted old acks → IsCounted (new ++ old) acks
append-IsCounted new old acks c = record {
  heard = λ id s h. Heard-append new old id s (c.heard id s h);
  distinct = c.distinct;
}

-- The senders of one id after those of `id` are changed to `senders`.
assign-IsCounted :
    {events : List Event} (id : MessageId) (senders : List ℕ) (acks : Acks)
    → ((s : ℕ) → member s senders ≡ true → Heard events id s)
    → Distinct senders
    → IsCounted events acks
    → IsCounted events (assign id senders acks)
assign-IsCounted {events} id senders acks h d c = record {
  heard = λ j s m. elim (Bool-cases (id == j)) [
    | inl same ↦
        subst (λ k. Heard events k s) ((id_beq_iff id j).0 same)
          (h s (ground (arith, get_or-assign id j [] senders acks)))
    | inr other ↦ c.heard j s (ground (arith, get_or-assign id j [] senders acks))
  ];
  distinct = λ j.
      rw (get_or-assign id j [] senders acks) (elim (Bool-cases (id == j)) [
        | inl same ↦ rw same d
        | inr other ↦ rw other (c.distinct j)
      ]);
}

add_ack-IsCounted :
    {events : List Event} (msg : Message) (acks : Acks)
    → In (notified msg) events
    → IsCounted events acks
    → IsCounted events (add_ack msg.id msg.sender acks)
add_ack-IsCounted {events} msg acks i c =
    assign-IsCounted msg.id _ acks
      (λ s m. elim (Bool-cases (msg.sender == s)) [
        | inl same ↦ (msg, i, refl, (nat_beq_iff msg.sender s).0 same)
        | inr other ↦
            c.heard msg.id s (ground (arith, member-insert msg.sender s (get_or msg.id [] acks)))
      ])
      (insert-Distinct msg.sender _ (c.distinct msg.id)) c

pub looked-IsCounted :
    {events : List Event} (id : MessageId) (acks : Acks)
    → IsCounted events acks
    → IsCounted events (assign id (get_or id [] acks) acks)
looked-IsCounted id acks c = assign-IsCounted id _ acks (c.heard id) (c.distinct id) c

remove-IsCounted :
    {events : List Event} (id : MessageId) (acks : Acks)
    → IsCounted events acks
    → IsCounted events (remove id acks)
remove-IsCounted {events} id acks c = record {
  heard = λ j s m. elim (Bool-cases (id == j)) [
    | inl same ↦
        absurd (
          not-member-nil s
            (subst (λ x. member s x ≡ true) (get_or-remove id j [] acks ∙ rw same) m))
    | inr other ↦ c.heard j s (ground (arith, get_or-remove id j [] acks))
  ];
  distinct = λ j.
      rw (get_or-remove id j [] acks) (elim (Bool-cases (id == j)) [
        | inl same ↦ rw same tt
        | inr other ↦ rw other (c.distinct j)
      ]);
}

module _ {U : Type 0} where
  acks-finish_own : (u : Uniform U) (id : MessageId) → (finish_own u id).acks ≡ u.acks
  unfolding send_internal
  acks-finish_own u id =
      finish_own_cases (λ v. v.acks ≡ u.acks) u id (λ _. refl) (λ _ _. refl) (λ _ _. refl)
        (λ msg queue own few e. refl)

  module _ (upper : Upper U) where
    acks-send : (u : Uniform U) (msg : List ℕ) → (send upper u msg).acks ≡ u.acks
    unfolding send_internal
    acks-send u msg = send_cases (λ v. v.acks ≡ u.acks) upper u msg (λ _. refl) (λ _. refl)

    abbrev Counted : List Event → Uniform U → Type 0
    Counted events u = IsCounted events u.acks

    notify_internal-IsCounted :
        {events : List Event} (u : Uniform U) (msg : Message)
        → In (notified msg) events
        → Counted events u
        → Counted events (notify_internal upper u msg)
    unfolding send_internal
    notify_internal-IsCounted {events} u msg i c =
        let added = add_ack-IsCounted msg u.acks i c in
        notify_internal_cases (Counted events) upper u msg (λ _. c) (λ _ _. added) (λ _ _. added)

    try_deliver-IsCounted :
        {events : List Event} (u : Uniform U) (id : MessageId)
        → Counted events u
        → Counted events (try_deliver upper u id)
    unfolding deliver
    try_deliver-IsCounted {events} u id c =
        let l = looked-IsCounted id u.acks c in
        try_deliver_cases (Counted events) upper u id l
          λ many fresh. remove-IsCounted id _ (rw (acks-finish_own (erased id (looked u id)) id) l)

    pub Step-IsCounted :
        {u v : Uniform U} {new : List Event} (old : List Event)
        → Step upper u new v
        → Counted old u
        → Counted (new ++ old) v
    Step-IsCounted {u} old (sends msg small) c =
        rw (acks-send u msg) (append-IsCounted (sent _ ∷ []) old u.acks c)
    Step-IsCounted {u} old (notifies sender_id packet {msg} e n) c =
        subst (Counted _) (sym (notify_lem upper u sender_id packet e)) (
          notify_internal-IsCounted u msg (inl refl)
            (append-IsCounted (notified msg ∷ []) old u.acks c))
    Step-IsCounted {u} old (tries id pending) c = try_deliver-IsCounted u id c
    Step-IsCounted {u} old (relinks on links) c = c
