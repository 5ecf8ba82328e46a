-- ===== src/Delivery/Reopen.antt =====
-- `reopen_unread` of tabus/bus.py: open chosen unread messages again, claiming the new ones first.
use tabc.Prelude.{
  Bool, List, Option, [], false, if◌then◌else◌, leb, none, some, take, true, ℕ, ◌&&◌, ◌+◌, ◌==◌,
  ◌∷◌,
}
use tabc.Text.{Text, is_nonempty, text_eq}
use tabc.Host.{Host}
use tabc.Ledger.{Delivery, Ledger, Message, Problem, State, claimed, seconds}
use tabc.Table.{count, order_by, select, update_where}
use tabc.Delivery.{Row, is_accepted, is_injected, is_unread, join_rows, lease_or_default, row_le}
use tabc.Delivery.Envelope.{validate_envelope}
use tabc.Delivery.Claim.{Request, is_open, lease_to, put_aside}

-- An entry of the result: a row with its body, or one whose body is withheld.
pub data Opened : Type 0 where
  opened : Row → Opened
  withheld : ℕ → Text → State → Problem → Opened

-- `rr["reopened"]`
abbrev pub is_reopened : Row → Bool
is_reopened r = is_injected r.state

-- `AND m.id=?`, present if a message is asked for
unfoldable pub has_message_id : Option Text → Row → Bool
has_message_id none r = true
has_message_id (some mid) r = if is_nonempty mid then text_eq r.message.id mid else true

abbrev pub is_unread_of : Text → Delivery → Bool
is_unread_of node d = text_eq d.recipient_id node && is_unread d.state

unfoldable pub select_unread : List Message → Text → Option Text → ℕ → List Delivery → List Row
select_unread ms node mid limit ds =
    take limit
      (order_by row_le (select (has_message_id mid) (join_rows ms (select (is_unread_of node) ds))))

-- A new row is claimed first; one that loses the claim is left out. The rows that are already
-- CLAIMED or INJECTED open as they are. The row's state is the one that the SELECT saw, and the
-- UPDATEs test it again.
unfoldable pub open_sound : ℕ → ℕ → Text → Row → List Delivery → Option Opened × List Delivery
open_sound ts lease by r ds =
    if is_accepted r.state
    then (if count (is_open r.did) ds == 0 then (none, ds) else (
      some (opened (record r { state = claimed })),
      update_where (is_open r.did) (lease_to by lease ts) ds,
    ))
    else (some (opened r), ds)

unfoldable pub reopen_checked :
    ℕ → ℕ → Text → Row → List Delivery → Option Problem → Option Opened × List Delivery
unfolding open_sound
reopen_checked ts lease by r ds none = open_sound ts lease by r ds
reopen_checked ts lease by r ds (some bad) = (
  some (withheld r.did r.message.id r.state bad),
  if is_accepted r.state then update_where (is_open r.did) (put_aside bad ts) ds else ds,
)

unfoldable pub reopen_one :
    Host → ℕ → ℕ → Text → Row → List Delivery → Option Opened × List Delivery
reopen_one h now lease by r ds =
    reopen_checked (seconds now) lease by r ds (validate_envelope h now r.message)

abbrev pub push {ℓ} : {A : Type ℓ} → Option A → List A → List A
push none xs = xs
push (some x) xs = x ∷ xs

abbrev pub counted : Option Opened → ℕ
counted none = 0
counted (some _) = 1

-- `if len(out) >= limit: break`, reached only behind an opened row
abbrev pub is_full : Option Opened → ℕ → ℕ → Bool
is_full (some (opened r)) limit n = leb limit n
is_full _ limit n = false

unfoldable pub reopen_rows :
    Host → ℕ → ℕ → Text → ℕ → ℕ → List Row → List Delivery → List Opened × List Delivery
reopen_rows h now lease by limit n [] ds = ([], ds)
reopen_rows h now lease by limit n (r ∷ rs) ds =
    let (o, ds') = reopen_one h now lease by r ds in
    let (es, ds'') = reopen_rows h now lease by limit (n + counted o) rs ds' in
    if is_full o limit (n + counted o) then (push o [], ds') else (push o es, ds'')

-- The second and the third list that the function returns are always empty.
unfoldable pub reopen_unread : Host → ℕ → Option Text → Request → Ledger → List Opened × Ledger
reopen_unread h now mid q l =
    let lease = seconds now + lease_or_default q.lease_sec in
    let rows = select_unread l.messages q.node mid q.limit l.deliveries in
    let (es, ds) = reopen_rows h now lease q.claimed_by q.limit 0 rows l.deliveries in
    (es, record l { deliveries = ds })
