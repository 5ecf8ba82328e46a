-- ===== src/Tac/Listing.antt =====
-- The two listings of tacs in tabus/bus.py: every tac with its member count (`bus_tac_list`), and
-- the messages of one tac, newest first (`bus_tac_messages`).
use tabc.Prelude.{
  Bool, List, Option, [], if◌then◌else◌, leb, map, none, not, some, suc, take, zero, ℕ, ◌&&◌, ◌++◌,
  ◌∷◌,
}
use tabc.Text.{Text, opt_eq, text_eq}
use tabc.Text.Order.{text_le}
use tabc.Table.{count, order_by, select}
use tabc.Ledger.{Ledger, Membership, Message, Tac, is_removed}
use tabc.Tac.Resolve.{resolve_or_given}

-- A row of `bus_tac_list`.
pub record TacRow : Type 0 where
  pub tac_id : Text
  pub name : Option Text
  pub label : Option Text
  pub created_at : ℕ
  pub created_by : Option Text
  pub member_count : ℕ

-- the members that the count leaves in: those that are not removed
abbrev pub is_counted : Ledger → Text → Membership → Bool
is_counted l tac m = text_eq m.tac_id tac && not (is_removed l m.member_node_id)

unfoldable pub tac_row : Ledger → Tac → TacRow
tac_row l t = record {
  tac_id = t.tac_id;
  name = if l.identity_columns then t.name else none;
  label = t.label;
  created_at = t.created_at;
  created_by = t.created_by;
  member_count = count (is_counted l t.tac_id) l.tac_members;
}

-- ORDER BY g.tac_id
abbrev pub tac_le : Tac → Tac → Bool
tac_le a b = text_le a.tac_id b.tac_id

unfoldable pub bus_tac_list : Ledger → List TacRow
bus_tac_list l = map (tac_row l) (order_by tac_le l.tacs)

-- the `limit` that a caller passes, which may be negative
pub data ℤ : Type 0 where
  pos negsuc : ℕ → ℤ

-- `max(1, int(limit))`
abbrev pub at_least_one : ℤ → ℕ
at_least_one (pos zero) = 1
at_least_one (pos (suc n)) = suc n
at_least_one (negsuc n) = 1

-- A row of `bus_tac_messages`.
pub record TacMessage : Type 0 where
  pub id : Text
  pub sender_id : Text
  pub subject : Text
  pub body : Text
  pub accepted_at : ℕ
  pub priority : Text

unfoldable pub tac_message : Message → TacMessage
tac_message m = record {
  id = m.id;
  sender_id = m.sender_id;
  subject = m.subject;
  body = m.body;
  accepted_at = m.accepted_at;
  priority = m.priority;
}

abbrev pub is_in_tac : Text → Message → Bool
is_in_tac tac m = opt_eq m.tac_id (some tac)

-- the rows from the last that was inserted to the first: rowid DESC
unfoldable pub backwards : List Message → List Message
backwards [] = []
backwards (m ∷ ms) = backwards ms ++ m ∷ []

-- ORDER BY accepted_at DESC, over rows that stand in the order of rowid DESC
abbrev pub newest_first : Message → Message → Bool
newest_first a b = leb b.accepted_at a.accepted_at

unfoldable pub bus_tac_messages : Ledger → Text → ℤ → List TacMessage
bus_tac_messages l given limit = map tac_message (
    take (at_least_one limit) (
      order_by newest_first (backwards (select (is_in_tac (resolve_or_given l given)) l.messages))))
