-- ===== src/Nodes/Admin.antt =====
-- The other operations on nodes in tabus/bus.py: `bus_beat`, the snooze, `bus_set_team`,
-- `bus_remove` and `bus_restore`.
use tabc.Prelude.{
  Bool, List, Option, [], false, if◌then◌else◌, ltb, none, not, some, true, ℕ, ◌&&◌, ◌*◌, ◌++◌, ◌+◌,
  ◌-◌, ◌/◌, ◌==◌, ◌∷◌,
}
use tabc.Text.{Text, is_nonempty, text_eq}
use tabc.Ledger.{
  Delivery, Ledger, Message, Node, Removal, RemovalMode, Removed, Route, find_node, is_registered,
  is_removed, purge, restore, seconds, soft,
}
use tabc.Table.{any, count, delete_where, update_where}

abbrev pub is_named : Text → Node → Bool
is_named node n = text_eq n.node_id node

abbrev pub beaten : ℕ → Node → Node
beaten ts n = record n { last_heartbeat_at = ts }

unfoldable pub bus_beat : ℕ → Text → Ledger → Bool × Ledger
bus_beat now node l = if is_removed l node then (false, l) else (
  not (count (is_named node) l.nodes == 0),
  record l { nodes = update_where (is_named node) (beaten (seconds now)) l.nodes },
)

abbrev pub snoozed : Option ℕ → Node → Node
snoozed until n = record n { snooze_until = until }

-- the end of a snooze of some minutes, which 0 and less clear
abbrev pub snooze_end : ℕ → ℕ → Option ℕ
snooze_end now minutes = if minutes == 0 then none else some (seconds now + minutes * 60)

-- `minutes` is 0 for a number that is not positive
unfoldable pub bus_set_snooze : ℕ → Text → ℕ → Ledger → Bool × Ledger
bus_set_snooze now node minutes l = if not (is_registered l node) then (false, l) else (
  true,
  record l { nodes = update_where (is_named node) (snoozed (snooze_end now minutes)) l.nodes },
)

-- what is left of a snooze, in whole seconds; `none` stands for `(None, 0)`
unfoldable pub snooze_left : ℕ → Option ℕ → Option (ℕ × ℕ)
snooze_left now none = none
snooze_left now (some until) =
    if ltb now (until * 1000000) then some (until, (until * 1000000 - now) / 1000000) else none

unfoldable pub bus_get_snooze : ℕ → Text → Ledger → Option (Option (ℕ × ℕ))
bus_get_snooze now node l = elim (find_node l node) [
  | none ↦ none
  | some n ↦ some (snooze_left now n.snooze_until)
]

abbrev pub teamed : Bool → Node → Node
teamed on n = record n { is_team = on }

unfoldable pub bus_set_team : Text → Bool → Ledger → Bool × Ledger
bus_set_team node on l =
    if not (is_registered l node)
    then (false, l)
    else (true, record l { nodes = update_where (is_named node) (teamed on) l.nodes })

pub data Removing : Type 0 where
  node_required unregistered_node : Removing
  purge_refused : ℕ → ℕ → ℕ → Removing
  purged disabled : Removing

abbrev pub sent_by : Text → Message → Bool
sent_by node m = text_eq m.sender_id node

abbrev pub received_by : Text → Delivery → Bool
received_by node d = text_eq d.recipient_id node

abbrev pub routed_to : Text → Route → Bool
routed_to node r = text_eq r.node_id node

abbrev pub is_removal_of : Text → Removed → Bool
is_removal_of node r = text_eq r.node_id node

abbrev pub logged : RemovalMode → ℕ → Option Text → Text → Removal
logged mode ts by node = record { node_id = node; removed_by = by; at = ts; mode = mode }

unfoldable pub purge_node : ℕ → Option Text → Text → Ledger → Ledger
purge_node ts by node l = record l {
  removed_nodes = delete_where (is_removal_of node) l.removed_nodes;
  mailbox_opens = delete_where (λ t. text_eq t node) l.mailbox_opens;
  nodes = delete_where (is_named node) l.nodes;
  removals = l.removals ++ logged purge ts by node ∷ [];
}

-- ON CONFLICT(node_id) DO UPDATE SET removed_at
unfoldable pub upsert_removed : ℕ → Text → List Removed → List Removed
upsert_removed ts node rs =
    if any (is_removal_of node) rs
    then update_where (is_removal_of node) (λ r. record r { removed_at = ts }) rs
    else rs ++ record { node_id = node; removed_at = ts } ∷ []

unfoldable pub disable_node : ℕ → Option Text → Text → Ledger → Ledger
disable_node ts by node l = record l {
  removed_nodes = upsert_removed ts node l.removed_nodes;
  removals = l.removals ++ logged soft ts by node ∷ [];
}

unfoldable pub bus_remove : ℕ → Text → Bool → Option Text → Ledger → Removing × Ledger
bus_remove now node purging by l =
    let sent = count (sent_by node) l.messages in
    let recv = count (received_by node) l.deliveries in
    let routes = count (routed_to node) l.tab_routes in
    if not (is_nonempty node)
    then (node_required, l)
    else if not (is_registered l node)
    then (unregistered_node, l)
    else if purging
    then (if sent == 0 && (recv == 0 && routes == 0)
        then (purged, purge_node (seconds now) by node l)
        else (purge_refused sent recv routes, l))
    else (disabled, disable_node (seconds now) by node l)

pub data Restoring : Type 0 where
  restore_needs_node unknown_node already_active restored : Restoring

unfoldable pub bus_restore : ℕ → Text → Option Text → Ledger → Restoring × Ledger
bus_restore now node by l =
    if not (is_nonempty node)
    then (restore_needs_node, l)
    else if not (is_removed l node)
    then (if is_registered l node then (already_active, l) else (unknown_node, l))
    else (
      restored,
      record l {
        removed_nodes = delete_where (is_removal_of node) l.removed_nodes;
        removals = l.removals ++ logged restore (seconds now) by node ∷ [];
      },
    )
