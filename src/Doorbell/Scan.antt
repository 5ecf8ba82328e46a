-- ===== src/Doorbell/Scan.antt =====
-- `scan_unread` of tabus/doorbell_poll.py: unread mail, grouped by recipient.
use tabc.Prelude.{
  Bool, List, [], false, if◌then◌else◌, leb, ltb, none, not, some, ℕ, ◌&&◌, ◌*◌, ◌++◌, ◌||◌, ◌∷◌,
}
use tabc.Text.{Text, text_eq}
use tabc.Text.Order.{text_le}
use tabc.Table.{any, order_by, select}
use tabc.Ledger.{Delivery, Ledger, Message, Node, find_message, is_removed}
use tabc.Delivery.{is_unread}

-- Which of the columns and tables that came with later migrations the opened store has.
pub record Schema : Type 0 where
  pub has_removed : Bool
  pub has_broadcast : Bool
  pub has_snooze : Bool

-- A row of the SELECT over deliveries and messages.
pub record Unread : Type 0 where
  pub recipient_id : Text
  pub message_id : Text
  pub id : ℕ
  pub broadcast : Bool

unfoldable pub greatest : ℕ → ℕ → ℕ
greatest a b = if ltb a b then b else a

-- `d.state IN (...) {removed_filter}`
unfoldable pub is_waiting : Schema → Ledger → Delivery → Bool
is_waiting s l d = is_unread d.state && not (s.has_removed && is_removed l d.recipient_id)

unfoldable pub unread_rows : Schema → List Message → List Delivery → List Unread
unread_rows s ms [] = []
unread_rows s ms (d ∷ ds) =
    let rest = unread_rows s ms ds in
    elim (find_message ms d.message_id) [
      | none ↦ rest
      | some m ↦
          record {
            recipient_id = d.recipient_id;
            message_id = d.message_id;
            id = d.id;
            broadcast = s.has_broadcast && m.broadcast;
          }
          ∷ rest
    ]

-- ORDER BY d.recipient_id, d.id
unfoldable pub unread_le : Unread → Unread → Bool
unread_le a b =
    if text_eq a.recipient_id b.recipient_id
    then leb a.id b.id
    else text_le a.recipient_id b.recipient_id

-- An item of the dict `grouped`.
pub record Group : Type 0 where
  pub recipient : Text
  pub ids : List Text
  pub high : ℕ
  pub bc : Bool

abbrev pub is_group_of : Text → Group → Bool
is_group_of to g = text_eq g.recipient to

abbrev pub empty_group : Text → Group
empty_group to = record { recipient = to; ids = []; high = 0; bc = false }

unfoldable pub add_to : Unread → Group → Group
add_to u g = record {
  recipient = g.recipient;
  ids = g.ids ++ u.message_id ∷ [];
  high = greatest g.high u.id;
  bc = g.bc || u.broadcast;
}

-- `grouped.setdefault(...)` and the three assignments
unfoldable pub group_row : Unread → List Group → List Group
group_row u [] = add_to u (empty_group u.recipient_id) ∷ []
group_row u (g ∷ gs) =
    let rest = group_row u gs in if is_group_of u.recipient_id g then add_to u g ∷ gs else g ∷ rest

unfoldable pub group_rows : List Group → List Unread → List Group
group_rows gs [] = gs
group_rows gs (u ∷ us) = group_rows (group_row u gs) us

-- a snooze that has not run out
abbrev pub is_quiet : ℕ → Text → Node → Bool
is_quiet now to n =
    text_eq n.node_id to
    && elim n.snooze_until [ none ↦ false | some until ↦ ltb now (until * 1000000) ]

-- `k in snoozed`
unfoldable pub is_snoozed : ℕ → Schema → Ledger → Text → Bool
is_snoozed now s l to = s.has_snooze && any (is_quiet now to) l.nodes

abbrev pub group_le : Group → Group → Bool
group_le a b = text_le a.recipient b.recipient

abbrev pub waiting_rows : Schema → Ledger → List Unread
waiting_rows s l =
    order_by unread_le (unread_rows s l.messages (select (is_waiting s l) l.deliveries))

-- The list of (recipient, unread, high_id, ids, has_broadcast); the second is the length of the ids.
unfoldable pub scan_unread : ℕ → Schema → Ledger → List Group
scan_unread now s l =
    select (λ g. not (is_snoozed now s l g.recipient))
      (order_by group_le (group_rows [] (waiting_rows s l)))
