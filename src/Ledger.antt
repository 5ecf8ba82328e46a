-- ===== src/Ledger.antt =====
-- The SQLite ledger of tabus/bus.py: SCHEMA's tables as lists of rows in insertion order.
-- Stored times are whole seconds (`now_iso` keeps seconds), clock readings are microseconds.
mod Rows
pub use Rows.*
use tabc.Prelude.{Bool, List, Option, ℕ, ◌&&◌, ◌*◌, ◌/◌}
use tabc.Text.{Text, text_eq}
use tabc.Table.{any, find}

-- One connection's view of the database. `identity_columns` says whether the table `tacs` has the
-- columns `name` and `name_key`; `next_did` is the next AUTOINCREMENT id of `deliveries`.
pub record Ledger : Type 0 where
  pub nodes : List Node
  pub removed_nodes : List Removed
  pub removals : List Removal
  pub key_rotations : List Rotation
  pub mailbox_opens : List Text
  pub tacs : List Tac
  pub identity_columns : Bool
  pub tac_members : List Membership
  pub tac_links : List Link
  pub name_changes : List NameChange
  pub messages : List Message
  pub deliveries : List Delivery
  pub next_did : ℕ
  pub tab_routes : List Route

-- `timespec="seconds"`
abbrev pub seconds : ℕ → ℕ
seconds now = now / 1000000

-- SELECT 1 FROM nodes WHERE node_id=?
unfoldable pub is_registered : Ledger → Text → Bool
is_registered l node = any (λ n. text_eq n.node_id node) l.nodes

unfoldable pub is_removed : Ledger → Text → Bool
is_removed l node = any (λ r. text_eq r.node_id node) l.removed_nodes

-- SELECT 1 FROM nodes WHERE node_id=? AND is_program=1
unfoldable pub is_program_node : Ledger → Text → Bool
is_program_node l node = any (λ n. text_eq n.node_id node && n.is_program) l.nodes

unfoldable pub find_node : Ledger → Text → Option Node
find_node l node = find (λ n. text_eq n.node_id node) l.nodes

unfoldable pub find_message : List Message → Text → Option Message
find_message ms mid = find (λ m. text_eq m.id mid) ms

unfoldable pub tac_exists : Ledger → Text → Bool
tac_exists l tac = any (λ t. text_eq t.tac_id tac) l.tacs
