-- ===== src/Nodes/Register.antt =====
-- `bus_register` of tabus/bus.py: the checks in their order, the row of the node, and its route.
use tabc.Prelude.{
  Bool, List, Option, [], coalesce, false, if◌then◌else◌, is_some, length, ltb, map, none, not,
  or_else, some, true, ℕ, ◌&&◌, ◌==◌, ◌||◌,
}
use tabc.Text.{Text, is_nonempty, opt_eq, text_eq}
use tabc.Ledger.{Ledger, Node, Route, find_node, is_program_node, is_registered, is_removed}
use tabc.Table.{find, select}
use tabc.Nodes.Name.{is_safe_node_id}

-- `auto_enter`: absent, a boolean, or a value of another type
pub data AutoEnter : Type 0 where
  unset not_boolean : AutoEnter
  chosen : Bool → AutoEnter

-- The arguments. The three flags that the code compares with `is True` are Booleans here, and
-- `capabilities` is the JSON text that is stored.
pub record Registration : Type 0 where
  pub node_id : Text
  pub kind : Text
  pub instance_id : Option Text
  pub boot_id : Option Text
  pub capabilities : Text
  pub adapter : Option Text
  pub target : Option Text
  pub host_id : Option Text
  pub email : Option Text
  pub pubkey : Option Text
  pub program : Bool
  pub take_route : Bool
  pub auto_enter : AutoEnter
  pub revoke_route : Bool
  pub revoke_adapter : Option Text
  pub revoke_target : Option Text
  pub revoke_host_id : Option Text
  pub route_verified : Bool

pub data RegisterRefusal : Type 0 where
  invalid_node_id auto_enter_not_boolean removed_node : RegisterRefusal
  newer_instance : ℕ → RegisterRefusal
  program_with_route verified_without_route take_without_route : RegisterRefusal
  enter_without_route revoke_incomplete revoke_with_route : RegisterRefusal
  rejected_without_revoke agent_as_program proof_needed : RegisterRefusal
  route_owned : List Text → RegisterRefusal

-- What the sentence of a success tells.
pub record Report : Type 0 where
  pub routed : Bool
  pub stolen : List Text
  pub revoked_self : ℕ
  pub preserved_route_verified : Option Bool
  pub auto_enter_reset : ℕ

pub data Registered : Type 0 where
  refused_register : RegisterRefusal → Registered
  registered : Report → Registered

-- Python's truth of a nullable text
abbrev pub is_given : Option Text → Bool
is_given none = false
is_given (some t) = is_nonempty t

-- `adapter and target and host_id`
unfoldable pub has_route : Registration → Bool
has_route r = is_given r.adapter && (is_given r.target && is_given r.host_id)

abbrev pub is_node : Text → Route → Bool
is_node node r = text_eq r.node_id node

abbrev pub is_live : Route → Bool
is_live r = not (is_some r.revoked_at)

-- `host_id IS ? AND target=? AND revoked_at IS NULL`
abbrev pub is_live_at : Option Text → Text → Route → Bool
is_live_at host target r = opt_eq r.host_id host && (text_eq r.target target && is_live r)

abbrev pub is_rival : Registration → Route → Bool
is_rival q r = is_live_at q.host_id (or_else q.target []) r && not (is_node q.node_id r)

-- adapter, target and host are those of the registration
abbrev pub is_same_route : Registration → Route → Bool
is_same_route q r =
    is_live r
    && (opt_eq (some r.adapter) q.adapter
        && (opt_eq (some r.target) q.target && opt_eq r.host_id q.host_id))

unfoldable pub find_route : Ledger → Text → Option Route
find_route l node = find (is_node node) l.tab_routes

unfoldable pub route_owners : Ledger → Registration → List Text
route_owners l q = map Route.node_id (select (is_rival q) l.tab_routes)

abbrev pub refuse_if : Bool → RegisterRefusal → Option RegisterRefusal
refuse_if true r = some r
refuse_if false r = none

-- the boot of a row that is later than this registration
abbrev pub later_boot : ℕ → Option Node → Option RegisterRefusal
later_boot ts none = none
later_boot ts (some n) = elim n.boot_at [
  | none ↦ none
  | some t ↦ refuse_if (ltb ts t) (newer_instance t)
]

-- `auto_enter is not None and type(auto_enter) is not bool`
abbrev pub type_of_enter : AutoEnter → Option RegisterRefusal
type_of_enter not_boolean = some auto_enter_not_boolean
type_of_enter _ = none

-- the checks on the name, the type of `auto_enter`, the removal and the boot
unfoldable pub entry_refusal : Ledger → ℕ → Registration → Option RegisterRefusal
entry_refusal l ts q = coalesce (refuse_if (not (is_safe_node_id q.node_id)) invalid_node_id) (
    coalesce (type_of_enter q.auto_enter) (
      coalesce (refuse_if (is_removed l q.node_id) removed_node)
        (later_boot ts (find_node l q.node_id))))

abbrev pub asks_enter : AutoEnter → Bool
asks_enter (chosen b) = b
asks_enter _ = false

-- the checks on how the route arguments fit together
unfoldable pub shape_refusal : Registration → Option RegisterRefusal
shape_refusal q =
    let rejected =
      is_given q.revoke_adapter && (is_given q.revoke_target && is_given q.revoke_host_id) in
    let some_rejected =
      is_given q.revoke_adapter || (is_given q.revoke_target || is_given q.revoke_host_id) in
    coalesce
      (refuse_if
        (q.program
          && (is_given q.adapter
              || (is_given q.target || (q.take_route || (q.revoke_route || q.route_verified)))))
        program_with_route)
      (coalesce (refuse_if (q.route_verified && not (has_route q)) verified_without_route) (
        coalesce (refuse_if (q.take_route && not (has_route q)) take_without_route) (
          coalesce (refuse_if (asks_enter q.auto_enter && not (has_route q)) enter_without_route) (
            if q.revoke_route
            then coalesce (refuse_if (not rejected) revoke_incomplete) (
                refuse_if
                  (is_given q.adapter
                    || (is_given q.target || (is_given q.host_id || q.take_route)))
                  revoke_with_route)
            else refuse_if some_rejected rejected_without_revoke))))

-- `current_route`: verified before, not proved now, and not the same active route
abbrev pub lacks_proof : Registration → Option Route → Bool
lacks_proof q none = false
lacks_proof q (some r) = r.provenance_verified && (not q.route_verified && not (is_same_route q r))

-- the checks on the owners of the target
unfoldable pub target_refusal : Ledger → Registration → Option RegisterRefusal
target_refusal l q = coalesce (refuse_if (lacks_proof q (find_route l q.node_id)) proof_needed) (
    refuse_if (not (length (route_owners l q) == 0) && not q.take_route)
      (route_owned (route_owners l q)))

abbrev pub is_agent : Ledger → Text → Bool
is_agent l node = is_registered l node && not (is_program_node l node)

-- the checks inside the transaction
unfoldable pub owner_refusal : Ledger → Registration → Option RegisterRefusal
owner_refusal l q =
    coalesce (refuse_if (q.program && is_agent l q.node_id) agent_as_program)
      (if has_route q then target_refusal l q else none)

unfoldable pub register_refusal : Ledger → ℕ → Registration → Option RegisterRefusal
register_refusal l ts q =
    coalesce (entry_refusal l ts q) (coalesce (shape_refusal q) (owner_refusal l q))
