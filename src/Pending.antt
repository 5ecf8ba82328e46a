-- ===== src/Pending.antt =====
-- The unread counts of tabus/bus.py (`bus_pending_counts`, `bus_pending_counts_for_all`,
-- `pending_counts_for_recipients`) and the listing of unread subjects (`list_unread_titles`).
pub mod Tallied
pub mod Shown
pub mod Raised
pub mod Listed
use tabc.Prelude.{
  Bool, List, Option, [], if◌then◌else◌, leb, map, none, some, suc, take, ℕ, ◌&&◌, ◌+◌, ◌==◌, ◌∷◌,
}
use tabc.Text.{Text, text_eq}
use tabc.Table.{delete_where, find, order_by, select}
use tabc.Ledger.{Delivery, Ledger, State}
use tabc.Delivery.{Row, has_priority, is_unread, join_rows, row_le}
use tabc.Delivery.Reopen.{is_unread_of}
use tabc.Send.Gates.{message_has}

-- A row of `SELECT d.recipient_id AS recipient, COUNT(*) AS c ... GROUP BY d.recipient_id`.
pub record Pending : Type 0 where
  pub recipient : Text
  pub pending : ℕ

abbrev pub is_pending_of : Text → Pending → Bool
is_pending_of to p = text_eq p.recipient to

-- one more row of a group
unfoldable pub add_pending : Text → List Pending → List Pending
add_pending to [] = record { recipient = to; pending = 1 } ∷ []
add_pending to (p ∷ ps) =
    let rest = add_pending to ps in
    if is_pending_of to p then record p { pending = p.pending + 1 } ∷ ps else p ∷ rest

unfoldable pub group_pending : List Pending → List Delivery → List Pending
group_pending ps [] = ps
group_pending ps (d ∷ ds) = group_pending (add_pending d.recipient_id ps) ds

-- ORDER BY c DESC; the order of groups that tie is the database's own, here that of the first rows
abbrev pub pending_le : Pending → Pending → Bool
pending_le a b = leb b.pending a.pending

-- `_unread_where()`
abbrev pub is_pending : Delivery → Bool
is_pending d = is_unread d.state

-- `JOIN messages m ... WHERE m.sender_id = ? AND {_unread_where()}`
abbrev pub is_pending_from : Ledger → Text → Delivery → Bool
is_pending_from l sender d =
    message_has l.messages (λ m. text_eq m.sender_id sender) d.message_id && is_pending d

unfoldable pub bus_pending_counts : Ledger → Text → List Pending
bus_pending_counts l sender =
    order_by pending_le (group_pending [] (select (is_pending_from l sender) l.deliveries))

unfoldable pub bus_pending_counts_for_all : Ledger → List Pending
bus_pending_counts_for_all l =
    order_by pending_le (group_pending [] (select is_pending l.deliveries))

-- `rows.get(r, 0)`
unfoldable pub pending_in : List Pending → Text → ℕ
pending_in ps to = elim (find (is_pending_of to) ps) [ none ↦ 0 | some p ↦ p.pending ]

-- the dict that is returned, a recipient that is asked for twice having one entry
unfoldable pub pending_counts_for_recipients : Ledger → List Text → List Pending
pending_counts_for_recipients l [] = []
pending_counts_for_recipients l (to ∷ ts) =
    let rows = group_pending [] (select is_pending l.deliveries) in
    record { recipient = to; pending = pending_in rows to }
    ∷ delete_where (is_pending_of to) (pending_counts_for_recipients l ts)

-- `length(m.body)` of SQLite: the characters before the first NUL
unfoldable pub sql_length : Text → ℕ
sql_length [] = 0
sql_length (c ∷ s) = let rest = sql_length s in if c == 0 then 0 else suc rest

-- A row of `list_unread_titles`: all but the body.
pub record Title : Type 0 where
  pub did : ℕ
  pub state : State
  pub id : Text
  pub sender_id : Text
  pub subject : Text
  pub accepted_at : ℕ
  pub priority : Text
  pub len : ℕ

unfoldable pub title_of : Row → Title
title_of r = record {
  did = r.did;
  state = r.state;
  id = r.message.id;
  sender_id = r.message.sender_id;
  subject = r.message.subject;
  accepted_at = r.message.accepted_at;
  priority = r.message.priority;
  len = sql_length r.message.body;
}

unfoldable pub list_unread_titles : Ledger → Text → Option Text → ℕ → List Title
list_unread_titles l node priority limit = map title_of (
    take limit (
      order_by row_le (
        select (has_priority priority)
          (join_rows l.messages (select (is_unread_of node) l.deliveries)))))
