-- ===== src/Delivery/Claim.antt =====
-- `claim_new` of tabus/bus.py, in its phases: recovery of expired leases and poison, the SELECT,
-- and the conditional claim of each row. Another connection may commit between the phases.
use tabc.Prelude.{
  Bool, List, Option, [], false, if◌then◌else◌, leb, ltb, none, some, take, ℕ, ◌&&◌, ◌+◌, ◌==◌, ◌∷◌,
}
use tabc.Text.{Text, text_eq}
use tabc.Host.{Host}
use tabc.Ledger.{
  Delivery, Ledger, Message, Problem, accepted, claimed, dead, is_removed, quarantined, seconds,
}
use tabc.Table.{count, order_by, select, update_where}
use tabc.Delivery.{
  Row, has_priority, is_accepted, is_claimed, join_rows, lease_or_default, max_attempts, row_le,
}
use tabc.Delivery.Envelope.{validate_envelope}

-- `lease_until < ?`, which no NULL satisfies
abbrev pub lease_before : Option ℕ → ℕ → Bool
lease_before none t = false
lease_before (some u) t = ltb u t

abbrev pub is_lapsed : Text → ℕ → Delivery → Bool
is_lapsed node ts d =
    text_eq d.recipient_id node && is_claimed d.state && lease_before d.lease_until ts

abbrev pub release : ℕ → Delivery → Delivery
release ts d = record d { state = accepted; lease_until = none; claimed_by = none; updated_at = ts }

abbrev pub is_poison : Text → Delivery → Bool
is_poison node d = text_eq d.recipient_id node && is_accepted d.state && leb max_attempts d.attempts

abbrev pub bury : ℕ → Delivery → Delivery
bury ts d = record d { state = dead; updated_at = ts }

-- steps 1 and 2, which are committed before anything is selected
unfoldable pub recover : Text → ℕ → List Delivery → List Delivery
recover node ts ds =
    update_where (is_poison node) (bury ts) (update_where (is_lapsed node ts) (release ts) ds)

abbrev pub is_new : Text → Delivery → Bool
is_new node d = text_eq d.recipient_id node && is_accepted d.state

unfoldable pub select_new : List Message → Text → Option Text → ℕ → List Delivery → List Row
select_new ms node priority limit ds =
    take limit
      (order_by row_le (select (has_priority priority) (join_rows ms (select (is_new node) ds))))

-- `WHERE id=? AND state='ACCEPTED'`
abbrev pub is_open : ℕ → Delivery → Bool
is_open did d = d.id == did && is_accepted d.state

abbrev pub put_aside : Problem → ℕ → Delivery → Delivery
put_aside bad ts d = record d { state = quarantined; last_error = some bad; updated_at = ts }

abbrev pub lease_to : Text → ℕ → ℕ → Delivery → Delivery
lease_to by lease ts d = record d {
  state = claimed;
  lease_until = some lease;
  claimed_by = some by;
  attempts = d.attempts + 1;
  updated_at = ts;
}

pub data Outcome : Type 0 where
  won : Row → Outcome
  bad_envelope : Text → Problem → Outcome
  lost : Text → Outcome

-- step 5: `rowcount` is the number of rows that the condition still fits
unfoldable pub take_lease : ℕ → ℕ → Text → Row → List Delivery → Outcome × List Delivery
take_lease ts lease by r ds = if count (is_open r.did) ds == 0 then (lost r.message.id, ds) else (
  won (record r { state = claimed }),
  update_where (is_open r.did) (lease_to by lease ts) ds,
)

-- step 4: what the check of the envelope found decides
unfoldable pub claim_checked :
    ℕ → ℕ → Text → Row → List Delivery → Option Problem → Outcome × List Delivery
unfolding take_lease
claim_checked ts lease by r ds none = take_lease ts lease by r ds
claim_checked ts lease by r ds (some bad) =
    (bad_envelope r.message.id bad, update_where (is_open r.did) (put_aside bad ts) ds)

unfoldable pub claim_one : Host → ℕ → ℕ → Text → Row → List Delivery → Outcome × List Delivery
claim_one h now lease by r ds =
    claim_checked (seconds now) lease by r ds (validate_envelope h now r.message)

-- the three lists that `claim_new` returns
pub record Claims : Type 0 where
  pub out : List Row
  pub quarantine : List (Text × Problem)
  pub lost_claim : List Text

abbrev pub no_claims : Claims
no_claims = record { out = []; quarantine = []; lost_claim = [] }

abbrev pub add_outcome : Outcome → Claims → Claims
add_outcome (won r) c = record c { out = r ∷ c.out }
add_outcome (bad_envelope mid p) c = record c { quarantine = (mid, p) ∷ c.quarantine }
add_outcome (lost mid) c = record c { lost_claim = mid ∷ c.lost_claim }

unfoldable pub claim_rows : Host → ℕ → ℕ → Text → List Row → List Delivery → Claims × List Delivery
claim_rows h now lease by [] ds = (no_claims, ds)
claim_rows h now lease by (r ∷ rs) ds =
    let (o, ds') = claim_one h now lease by r ds in
    let (c, ds'') = claim_rows h now lease by rs ds' in (add_outcome o c, ds'')

-- What a caller asks for.
pub record Request : Type 0 where
  pub node : Text
  pub limit : ℕ
  pub priority : Option Text
  pub lease_sec : Option ℕ
  pub claimed_by : Text

unfoldable pub claim_new : Host → ℕ → Request → Ledger → Claims × Ledger
claim_new h now q l =
    if is_removed l q.node
    then (no_claims, l)
    else (let ts = seconds now in
        let ds = recover q.node ts l.deliveries in
        let rows = select_new l.messages q.node q.priority q.limit ds in
        let (c, ds') = claim_rows h now (ts + lease_or_default q.lease_sec) q.claimed_by rows ds in
        (c, record l { deliveries = ds' }))
