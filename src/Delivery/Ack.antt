-- ===== src/Delivery/Ack.antt =====
-- The explicit transitions of tabus/bus.py: `bus_ack`, `bus_inject_by_did`, `bus_mark_injected`
-- and the UPDATE of `bus_tac_mark_read`.
use tabc.Prelude.{
  Bool, List, Option, [], false, if◌then◌else◌, none, not, some, true, ℕ, ◌&&◌, ◌+◌, ◌==◌, ◌||◌,
  ◌∷◌,
}
use tabc.Text.{Text, mem_text, opt_eq, text_eq, txt}
use tabc.Ledger.{Delivery, Ledger, Message, State, claimed, injected, processed, read, seconds}
use tabc.Table.{any, count, find, update_where}
use tabc.Delivery.{is_accepted, is_claimed}

-- The keys of ALLOWED_DELIVERY_TRANSITIONS
pub data Target : Type 0 where
  to_injected to_read to_processed : Target

unfoldable pub target_of : Text → Option Target
target_of s =
    if text_eq s (txt "INJECTED")
    then some to_injected
    else if text_eq s (txt "READ")
    then some to_read
    else if text_eq s (txt "PROCESSED")
    then some to_processed
    else none

abbrev pub target_state : Target → State
target_state to_injected = injected
target_state to_read = read
target_state to_processed = processed

-- ALLOWED_DELIVERY_TRANSITIONS
abbrev pub allowed : Target → State → Bool
allowed to_injected claimed = true
allowed to_read injected = true
allowed to_processed read = true
allowed _ _ = false

-- `cur_state == state`
abbrev pub is_at : Target → State → Bool
is_at to_injected injected = true
is_at to_read read = true
is_at to_processed processed = true
is_at _ _ = false

-- the column that is stamped with the state
abbrev pub stamp : Target → ℕ → Delivery → Delivery
stamp to_injected ts d = record d { state = injected; injected_at = some ts; updated_at = ts }
stamp to_read ts d = record d { state = read; read_at = some ts; updated_at = ts }
stamp to_processed ts d = record d { state = processed; processed_at = some ts; updated_at = ts }

pub data AckResult : Type 0 where
  moved already_there : AckResult
  unknown_state : Text → AckResult
  no_delivery : AckResult
  cannot_move : State → Target → AckResult

abbrev pub is_for : Text → Text → Delivery → Bool
is_for node mid d = text_eq d.recipient_id node && text_eq d.message_id mid

unfoldable pub ack_target : ℕ → Text → Text → Target → List Delivery → AckResult × List Delivery
ack_target ts node mid t ds = elim (find (is_for node mid) ds) [
  | none ↦ (no_delivery, ds)
  | some d ↦
      if is_at t d.state
      then (already_there, ds)
      else if not (allowed t d.state)
      then (cannot_move d.state t, ds)
      else (moved, update_where (is_for node mid) (stamp t ts) ds)
]

unfoldable pub bus_ack : ℕ → Text → Text → Text → Ledger → AckResult × Ledger
bus_ack now node mid state l = elim (target_of state) [
  | none ↦ (unknown_state state, l)
  | some t ↦
      let (r, ds) = ack_target (seconds now) node mid t l.deliveries in
      (r, record l { deliveries = ds })
]

-- `WHERE id=? AND recipient_id=? AND state='CLAIMED'`
abbrev pub is_held : Text → ℕ → Delivery → Bool
is_held node did d = d.id == did && (text_eq d.recipient_id node && is_claimed d.state)

unfoldable pub inject_dids : ℕ → Text → List ℕ → List Delivery → ℕ × List Delivery
inject_dids ts node [] ds = (0, ds)
inject_dids ts node (did ∷ dids) ds =
    let n = count (is_held node did) ds in
    let (k, ds') =
      inject_dids ts node dids (update_where (is_held node did) (stamp to_injected ts) ds) in
    (n + k, ds')

unfoldable pub bus_inject_by_did : ℕ → Text → List ℕ → Ledger → ℕ × Ledger
bus_inject_by_did now node dids l =
    let (n, ds) = inject_dids (seconds now) node dids l.deliveries in
    (n, record l { deliveries = ds })

abbrev pub is_new_for : Text → Text → Delivery → Bool
is_new_for node mid d = is_for node mid d && is_accepted d.state

abbrev pub hand_over : ℕ → Delivery → Delivery
hand_over ts d = record d {
  state = injected;
  injected_at = some ts;
  attempts = d.attempts + 1;
  updated_at = ts;
}

unfoldable pub inject_messages : ℕ → Text → List Text → List Delivery → List Delivery
inject_messages ts node [] ds = ds
inject_messages ts node (mid ∷ mids) ds =
    inject_messages ts node mids (update_where (is_new_for node mid) (hand_over ts) ds)

unfoldable pub bus_mark_injected : ℕ → Text → List Text → Ledger → Ledger
bus_mark_injected now node mids l = record l {
  deliveries = inject_messages (seconds now) node mids l.deliveries;
}

-- `message_id IN (SELECT id FROM messages WHERE tac_id = ?)`
unfoldable pub is_in_tac : List Message → Text → Text → Bool
is_in_tac ms tac mid = any (λ m. text_eq m.id mid && opt_eq m.tac_id (some tac)) ms

-- `AND message_id IN (...)`, present if `message_ids` is not None
abbrev pub is_among : Option (List Text) → Text → Bool
is_among none mid = true
is_among (some ids) mid = mem_text mid ids

abbrev pub is_caught_up : List Message → Text → Text → Option (List Text) → Delivery → Bool
is_caught_up ms node tac ids d =
    text_eq d.recipient_id node
    && ((is_accepted d.state || is_claimed d.state)
        && (is_in_tac ms tac d.message_id && is_among ids d.message_id))

abbrev pub catch_up : Delivery → Delivery
catch_up d = record d { state = injected }

-- `bus_tac_mark_read` once the tac is resolved: the rowcount, and the ledger. With an empty
-- selection no row is among the ids.
unfoldable pub mark_read_in : Text → Text → Option (List Text) → Ledger → ℕ × Ledger
mark_read_in node tac ids l =
    let p = is_caught_up l.messages node tac ids in
    (count p l.deliveries, record l { deliveries = update_where p catch_up l.deliveries })
