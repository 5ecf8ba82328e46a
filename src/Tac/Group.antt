-- ===== src/Tac/Group.antt =====
-- The members, the closing and the links of a tac: `bus_tac_add`, `bus_tac_remove_member`,
-- `bus_tac_close`, `bus_tac_link` and `bus_tac_mark_read` of tabus/bus.py.
use tabc.Prelude.{
  Bool, List, Option, [], if◌then◌else◌, is_some, not, some, ℕ, ◌&&◌, ◌++◌, ◌==◌, ◌||◌, ◌∷◌,
}
use tabc.Text.{Text, is_nonempty, text_eq}
use tabc.Table.{any, count, delete_where, update_where}
use tabc.Ledger.{Ledger, Link, Membership, Tac, is_registered, is_removed, seconds, tac_exists}
use tabc.Delivery.Ack.{mark_read_in}
use tabc.Tac.Resolve.{TacRefusal, designates, not_found, refused, resolve, resolve_or_given}

pub data Adding : Type 0 where
  tac_and_node_required : Adding
  no_such_group : TacRefusal → Adding
  unregistered_member removed_member : Text → Adding
  added : Adding

abbrev pub is_member : Text → Text → Membership → Bool
is_member tac node m = text_eq m.tac_id tac && text_eq m.member_node_id node

-- ON CONFLICT(tac_id, member_node_id) DO NOTHING
unfoldable pub insert_member : ℕ → Option Text → Text → Text → List Membership → List Membership
insert_member ts by tac node ms =
    if any (is_member tac node) ms
    then ms
    else ms ++ record { tac_id = tac; member_node_id = node; added_at = ts; added_by = by } ∷ []

unfoldable pub add_to : ℕ → Option Text → Text → Text → Ledger → Adding × Ledger
add_to ts by tac node l =
    if not (tac_exists l tac)
    then (no_such_group (not_found tac), l)
    else if not (is_registered l node)
    then (unregistered_member node, l)
    else if is_removed l node
    then (removed_member node, l)
    else (added, record l { tac_members = insert_member ts by tac node l.tac_members })

unfoldable pub bus_tac_add : ℕ → Text → Text → Option Text → Ledger → Adding × Ledger
bus_tac_add now given node by l =
    if not (is_nonempty given && is_nonempty node)
    then (tac_and_node_required, l)
    else elim (resolve l given) [
      | refused r ↦ (no_such_group (not_found given), l)
      | designates tac ↦ add_to (seconds now) by tac node l
    ]

pub data Dropping : Type 0 where
  member_required : Dropping
  refused_drop : TacRefusal → Dropping
  not_a_member dropped : Dropping

-- the DELETE, and its rowcount
unfoldable pub drop_from : Text → Text → Ledger → Dropping × Ledger
drop_from tac node l =
    if count (is_member tac node) l.tac_members == 0
    then (not_a_member, l)
    else (dropped, record l { tac_members = delete_where (is_member tac node) l.tac_members })

unfoldable pub bus_tac_remove_member : Text → Text → Ledger → Dropping × Ledger
bus_tac_remove_member given node l =
    if not (is_nonempty given && is_nonempty node)
    then (member_required, l)
    else elim (resolve l given) [
      | refused r ↦ (refused_drop r, l)
      | designates tac ↦ drop_from tac node l
    ]

pub data Closing : Type 0 where
  tac_required : Closing
  refused_close : TacRefusal → Closing
  no_tac_to_close already_closed closed : Closing

-- `tac_id=? AND closed_at IS NULL`
abbrev pub is_open_tac : Text → Tac → Bool
is_open_tac tac t = text_eq t.tac_id tac && not (is_some t.closed_at)

abbrev pub shut : ℕ → Option Text → Option Text → Tac → Tac
shut ts summary by t = record t { closed_at = some ts; close_summary = summary; closed_by = by }

unfoldable pub close_tac : ℕ → Option Text → Option Text → Text → Ledger → Closing × Ledger
close_tac ts summary by tac l =
    if count (is_open_tac tac) l.tacs == 0
    then (if tac_exists l tac then (already_closed, l) else (no_tac_to_close, l))
    else (closed, record l { tacs = update_where (is_open_tac tac) (shut ts summary by) l.tacs })

unfoldable pub bus_tac_close : ℕ → Text → Option Text → Option Text → Ledger → Closing × Ledger
bus_tac_close now given summary by l =
    if not (is_nonempty given) then (tac_required, l) else elim (resolve l given) [
      | refused r ↦ (refused_close r, l)
      | designates tac ↦ close_tac (seconds now) summary by tac l
    ]

pub data Linking : Type 0 where
  child_and_parent_required link_to_itself : Linking
  no_such_child no_such_parent : Text → Linking
  linked : Linking

abbrev pub is_link : Text → Text → Link → Bool
is_link child parent k = text_eq k.child_tac child && text_eq k.parent_tac parent

unfoldable pub insert_link : ℕ → Option Text → Text → Text → List Link → List Link
insert_link ts by child parent ks =
    if any (is_link child parent) ks
    then ks
    else ks
      ++ record { child_tac = child; parent_tac = parent; linked_at = ts; linked_by = by } ∷ []

unfoldable pub bus_tac_link : ℕ → Text → Text → Option Text → Ledger → Linking × Ledger
bus_tac_link now child parent by l =
    let c = resolve_or_given l child in
    let p = resolve_or_given l parent in
    if not (is_nonempty child && is_nonempty parent)
    then (child_and_parent_required, l)
    else if text_eq child parent || text_eq c p
    then (link_to_itself, l)
    else if not (tac_exists l c)
    then (no_such_child child, l)
    else if not (tac_exists l p)
    then (no_such_parent parent, l)
    else (linked, record l { tac_links = insert_link (seconds now) by c p l.tac_links })

unfoldable pub bus_tac_mark_read : Text → Text → Option (List Text) → Ledger → ℕ × Ledger
bus_tac_mark_read node given ids l = mark_read_in node (resolve_or_given l given) ids l
