-- ===== src/Delivery/Acknowledged.antt =====
-- `bus_ack` of tabus/bus.py on every branch, and said again.
use tabc.Prelude.{List, Option-cases, arith, inl, inr, refl, some, true, ℕ, ◌≡◌, ◌⊎◌}
use tabc.Table.{find, update_where}
use tabc.Table.Laws.{find-update_where}
use tabc.Text.{Text, txt}
use tabc.Ledger.{Delivery, Ledger, State, claimed, injected, processed, read, seconds}
use tabc.Delivery.Ack.{
  Target, ack_target, allowed, already_there, bus_ack, is_at, is_for, moved, stamp, target_of,
  to_injected, to_processed, to_read,
}

-- What an acknowledgement to a state found and did, when it answered `moved`.
ack_target-moved :
    (ts : ℕ) (node mid : Text) (t : Target) (ds : List Delivery)
    → (ack_target ts node mid t ds).0 ≡ moved
    → (d : Delivery) × (find (is_for node mid) ds ≡ some d)
      × (allowed t d.state ≡ true)
      × ((ack_target ts node mid t ds).1 ≡ update_where (is_for node mid) (stamp t ts) ds)
unfolding ack_target
ack_target-moved ts node mid t ds h = elim (Option-cases (find (is_for node mid) ds)) [
  | inl e ↦ absurd (ground arith)
  | inr (d, e) ↦ (d, e, ground arith, ground arith)
]

is_at-stamp : (t : Target) (ts : ℕ) (d : Delivery) → is_at t (stamp t ts d).state ≡ true
is_at-stamp to_injected ts d = refl
is_at-stamp to_read ts d = refl
is_at-stamp to_processed ts d = refl

is_for-stamp :
    (node mid : Text) (t : Target) (ts : ℕ) (d : Delivery)
    → is_for node mid (stamp t ts d) ≡ is_for node mid d
is_for-stamp node mid to_injected ts d = refl
is_for-stamp node mid to_read ts d = refl
is_for-stamp node mid to_processed ts d = refl

ack_target-again :
    (ts later : ℕ) (node mid : Text) (t : Target) (ds : List Delivery)
    → (ack_target ts node mid t ds).0 ≡ moved
    → let ds' = (ack_target ts node mid t ds).1 in
      ack_target later node mid t ds' ≡ (already_there, ds')
ack_target-again ts later node mid t ds h =
    let (d, e, a, u) = ack_target-moved ts node mid t ds h in
    let found =
      find-update_where (is_for node mid) (stamp t ts) ds (is_for-stamp node mid t ts) e in
    rw (u) (unfold ack_target in rw (found, ack_target, is_at-stamp t ts d) refl)

-- The three moves that there are, each with the column that it stamps.
pub IsStep : Text → ℕ → Delivery → Delivery → Type 0
IsStep state ts d d' =
    ((state ≡ txt "INJECTED")
      × (d.state ≡ claimed)
      × (d' ≡ record d { state = injected; injected_at = some ts; updated_at = ts }))
    ⊎ (((state ≡ txt "READ")
          × (d.state ≡ injected)
          × (d' ≡ record d { state = read; read_at = some ts; updated_at = ts }))
        ⊎ ((state ≡ txt "PROCESSED")
            × (d.state ≡ read)
            × (d' ≡ record d { state = processed; processed_at = some ts; updated_at = ts })))

below : Target → State
below to_injected = claimed
below to_read = injected
below to_processed = read

word : Target → Text
word to_injected = txt "INJECTED"
word to_read = txt "READ"
word to_processed = txt "PROCESSED"

-- After an acknowledgement that moved the delivery, the same one at any later time answers that it
-- is already there, and changes nothing.
pub bus_ack-again :
    (now later : ℕ) (node mid state : Text) (l : Ledger)
    → (bus_ack now node mid state l).0 ≡ moved
    → let l' = (bus_ack now node mid state l).1 in
      bus_ack later node mid state l' ≡ (already_there, l')
unfolding bus_ack
bus_ack-again now later node mid state l h = elim (Option-cases (target_of state)) [
  | inl e ↦ absurd (ground arith)
  | inr (t, e) ↦
      ground (arith, ack_target-again (seconds now) (seconds later) node mid t l.deliveries)
]
