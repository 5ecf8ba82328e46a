-- ===== src/Delivery/AckLadder.antt =====
-- The explicit transitions of tabus/bus.py against the ladder of `Follows`.
use tabc.Prelude.{
  All-map, Bool-cases, List, Option, Option-cases, [], arith, inl, inr, true, ℕ, ◌∷◌, ◌≡◌, ◌≤◌,
}
use tabc.Text.{Text}
use tabc.Ledger.{Delivery, Ledger, Message, seconds}
use tabc.Table.{count, find, update_where}
use tabc.Table.Pairs.{Pairs-update_on, count-Pairs, find_unique}
use tabc.Delivery.Ack.{
  Target, ack_target, allowed, bus_ack, catch_up, hand_over, inject_dids, inject_messages, is_at,
  is_caught_up, is_for, is_held, is_new_for, mark_read_in, stamp, target_of, to_injected,
  to_processed, to_read,
}
use tabc.Delivery.Follows.{Follows, Follows-refl, Onward, Onward-refl, Onward-trans, Onward-update}

-- UNIQUE (message_id, recipient_id)
pub record IsKeyed (ds : List Delivery) : Type 0 where
  pub once : (node mid : Text) → count (is_for node mid) ds ≤ 1

is_for-Follows :
    (node mid : Text) (d e : Delivery) → Follows d e → is_for node mid e ≡ is_for node mid d
is_for-Follows node mid d e f = rw (f.same_message, f.same_recipient)

pub Onward-IsKeyed : (ds es : List Delivery) → Onward ds es → IsKeyed ds → IsKeyed es
Onward-IsKeyed ds es o k = record {
  once = λ node mid.
      rw (count-Pairs Follows (is_for node mid) (is_for-Follows node mid) ds es o)
        (k.once node mid);
}

stamp-Follows :
    (t : Target) (ts : ℕ) (d : Delivery) → allowed t d.state ≡ true → Follows d (stamp t ts d)
stamp-Follows to_injected ts d h = ground arith
stamp-Follows to_read ts d h = ground arith
stamp-Follows to_processed ts d h = ground arith

pub ack_target-Onward :
    (ts : ℕ) (node mid : Text) (t : Target) (ds : List Delivery)
    → IsKeyed ds
    → Onward ds (ack_target ts node mid t ds).1
unfolding ack_target
ack_target-Onward ts node mid t ds k = elim (Option-cases (find (is_for node mid) ds)) [
  | inl e ↦ rw (e, ack_target) (Onward-refl ds)
  | inr (d, e) ↦ elim (Bool-cases (is_at t d.state)) [
    | inl a ↦ rw (e, ack_target, a) (Onward-refl ds)
    | inr a ↦ elim (Bool-cases (allowed t d.state)) [
      | inl b ↦
          rw (e, ack_target, a, b)
            (Pairs-update_on Follows Follows-refl (is_for node mid) (stamp t ts) ds (
              All-map (λ y. is_for node mid y ≡ true → y ≡ d)
                (λ y. is_for node mid y ≡ true → Follows y (stamp t ts y))
                (λ y same p. stamp-Follows t ts y (rw (same p) b)) ds
                (find_unique (is_for node mid) ds (k.once node mid) e)))
      | inr b ↦ rw (e, ack_target, a, b) (Onward-refl ds)
    ]
  ]
]

pub bus_ack-Onward :
    (now : ℕ) (node mid state : Text) (l : Ledger)
    → IsKeyed l.deliveries
    → Onward l.deliveries (bus_ack now node mid state l).1.deliveries
unfolding bus_ack
bus_ack-Onward now node mid state l k = elim (Option-cases (target_of state)) [
  | inl e ↦ rw (e, bus_ack) (Onward-refl l.deliveries)
  | inr (t, e) ↦ rw (e, bus_ack) (ack_target-Onward (seconds now) node mid t l.deliveries k)
]

hold-Follows :
    (ts did : ℕ) (node : Text) (d : Delivery)
    → is_held node did d ≡ true
    → Follows d (stamp to_injected ts d)
hold-Follows ts did node d h = ground arith

pub inject_dids-Onward :
    (ts : ℕ) (node : Text) (dids : List ℕ) (ds : List Delivery)
    → Onward ds (inject_dids ts node dids ds).1
unfolding inject_dids
inject_dids-Onward ts node [] ds = Onward-refl ds
inject_dids-Onward ts node (did ∷ dids) ds =
    let ds' = update_where (is_held node did) (stamp to_injected ts) ds in
    Onward-trans ds ds' (inject_dids ts node dids ds').1
      (Onward-update (is_held node did) (stamp to_injected ts) (hold-Follows ts did node) ds)
      (inject_dids-Onward ts node dids ds')

hand_over-Follows :
    (ts : ℕ) (node mid : Text) (d : Delivery)
    → is_new_for node mid d ≡ true
    → Follows d (hand_over ts d)
hand_over-Follows ts node mid d h = ground arith

pub inject_messages-Onward :
    (ts : ℕ) (node : Text) (mids : List Text) (ds : List Delivery)
    → Onward ds (inject_messages ts node mids ds)
unfolding inject_messages
inject_messages-Onward ts node [] ds = Onward-refl ds
inject_messages-Onward ts node (mid ∷ mids) ds =
    let ds' = update_where (is_new_for node mid) (hand_over ts) ds in
    Onward-trans ds ds' (inject_messages ts node mids ds')
      (Onward-update (is_new_for node mid) (hand_over ts) (hand_over-Follows ts node mid) ds)
      (inject_messages-Onward ts node mids ds')

catch_up-Follows :
    (ms : List Message) (node tac : Text) (ids : Option (List Text)) (d : Delivery)
    → is_caught_up ms node tac ids d ≡ true
    → Follows d (catch_up d)
catch_up-Follows ms node tac ids d h = ground arith

pub mark_read_in-Onward :
    (node tac : Text) (ids : Option (List Text)) (l : Ledger)
    → Onward l.deliveries (mark_read_in node tac ids l).1.deliveries
unfolding mark_read_in
mark_read_in-Onward node tac ids l =
    Onward-update (is_caught_up l.messages node tac ids) catch_up
      (catch_up-Follows l.messages node tac ids) l.deliveries
