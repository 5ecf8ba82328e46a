-- ===== src/Bell/Senders.antt =====
-- `bus_unread_senders` of tabus/bus.py: unread mail by sender and conversation, the latest first.
use tabc.Prelude.{
  Bool, List, Option, [], coalesce, false, if◌then◌else◌, is_some, leb, ltb, none, not, some, ℕ,
  ◌&&◌, ◌+◌, ◌==◌, ◌||◌, ◌∷◌,
}
use tabc.Text.{Text, opt_eq, text_eq}
use tabc.Table.{find, order_by, select}
use tabc.Ledger.{Delivery, Ledger, Message, Tac, find_message, find_node}
use tabc.Delivery.{is_unread}
use tabc.Doorbell.Scan.{greatest}

-- which columns the opened ledger has: messages.tac_id, tacs.name, nodes.owner_email
pub record Columns : Type 0 where
  pub has_tac : Bool
  pub has_tac_name : Bool
  pub has_owner_email : Bool

-- A dict of the answer, with the keys that it is ordered by.
pub record Sender : Type 0 where
  pub sender : Text
  pub tac_id : Option Text
  pub tac_name : Option Text
  pub count : ℕ
  pub owner_email : Option Text
  pub owner_email_verified : Bool
  pub latest_at : ℕ
  pub latest_did : ℕ

-- `{scope}`
abbrev pub scope_of : Columns → Message → Option Text
scope_of c m = if c.has_tac then m.tac_id else none

unfoldable pub tac_named : List Tac → Option Text → Option Text
tac_named ts none = none
tac_named ts (some tac) = elim (find (λ t. text_eq t.tac_id tac) ts) [
  | none ↦ none
  | some t ↦ t.name
]

-- one row of the join, as a group of its own
unfoldable pub sender_row : Columns → Ledger → Delivery → Message → Sender
sender_row c l d m =
    let scope = scope_of c m in
    record {
      sender = m.sender_id;
      tac_id = scope;
      tac_name = if c.has_tac_name then coalesce (tac_named l.tacs scope) scope else scope;
      count = 1;
      owner_email = elim (find_node l m.sender_id) [
        | none ↦ none
        | some n ↦ if c.has_owner_email then n.owner_email else none
      ];
      owner_email_verified = elim (find_node l m.sender_id) [
        | none ↦ false
        | some n ↦ c.has_owner_email && n.owner_email_verified
      ];
      latest_at = d.created_at;
      latest_did = d.id;
    }

-- `WHERE d.recipient_id = ? AND {_unread_where()} {tac_filter}`
abbrev pub is_unread_by : Text → Delivery → Bool
is_unread_by to d = text_eq d.recipient_id to && is_unread d.state

abbrev pub is_filtered : Columns → Bool → Message → Bool
is_filtered c include_tac m = c.has_tac && not include_tac && is_some m.tac_id

unfoldable pub sender_rows : Columns → Bool → Ledger → List Delivery → List Sender
sender_rows c include_tac l [] = []
sender_rows c include_tac l (d ∷ ds) =
    let rest = sender_rows c include_tac l ds in
    elim (find_message l.messages d.message_id) [
      | none ↦ rest
      | some m ↦ if is_filtered c include_tac m then rest else sender_row c l d m ∷ rest
    ]

-- GROUP BY m.sender_id, {scope}
abbrev pub is_same_group : Sender → Sender → Bool
is_same_group a b = text_eq a.sender b.sender && opt_eq a.tac_id b.tac_id

unfoldable pub merged : Sender → Sender → Sender
merged r g = record g {
  count = g.count + r.count;
  latest_at = greatest g.latest_at r.latest_at;
  latest_did = greatest g.latest_did r.latest_did;
}

unfoldable pub add_sender : Sender → List Sender → List Sender
add_sender r [] = r ∷ []
add_sender r (g ∷ gs) =
    let rest = add_sender r gs in if is_same_group g r then merged r g ∷ gs else g ∷ rest

unfoldable pub group_senders : List Sender → List Sender → List Sender
group_senders gs [] = gs
group_senders gs (r ∷ rs) = group_senders (add_sender r gs) rs

-- ORDER BY MAX(d.created_at) DESC, MAX(d.id) DESC, c DESC
unfoldable pub sender_le : Sender → Sender → Bool
sender_le a b =
    ltb b.latest_at a.latest_at
    || a.latest_at == b.latest_at
      && (ltb b.latest_did a.latest_did || a.latest_did == b.latest_did && leb b.count a.count)

unfoldable pub bus_unread_senders : Columns → Ledger → Text → Bool → List Sender
bus_unread_senders c l to include_tac =
    order_by sender_le
      (group_senders [] (sender_rows c include_tac l (select (is_unread_by to) l.deliveries)))
