-- ===== src/Tests/Registry.antt =====
-- The theorems on the node registry, at alice registering on the terminal that bob's session owns.
use tabc.Prelude.{Bool, [], arith, false, none, refl, some, true, ◌++◌, ◌∷◌, ◌≡◌}
use tabc.Text.{text_eq, txt}
use tabc.Table.{any, count}
use tabc.Table.Grows.{Grows}
use tabc.Ledger.{Ledger, Route, injected, is_registered, is_removed, restore, seconds, soft}
use tabc.Nodes.Register.{Registration, unset}
use tabc.Nodes.Upsert.{bus_register}
use tabc.Nodes.Registered.{is_refused}
use tabc.Nodes.Owners.{Spares, bus_register-Spares}
use tabc.Nodes.Exclusive.{IsExclusive, bus_register-IsExclusive}
use tabc.Nodes.Admin.{bus_remove, bus_restore, logged, purged, restored}
use tabc.Nodes.Removal.{bus_restore-bus_remove}
use tabc.Nodes.Inactive.{IsInactive, removed-IsInactive}
use tabc.Tests.Data.{alice, bob, host, office, robot}

abbrev bobs_route : Route
bobs_route = record {
  node_id = bob;
  adapter = txt "iterm";
  target = txt "w0";
  host_id = some (txt "here");
  registered_at = 3;
  last_seen_at = 3;
  revoked_at = none;
  provenance_verified = true;
  auto_enter = false;
}

abbrev desk : Ledger
desk = record (office injected 1) { tab_routes = bobs_route ∷ [] }

-- alice at bob's terminal, with or without `--take-route`
abbrev at_desk : Bool → Registration
at_desk take_it = record {
  node_id = alice;
  kind = txt "cli";
  instance_id = none;
  boot_id = none;
  capabilities = txt "{}";
  adapter = some (txt "iterm");
  target = some (txt "w0");
  host_id = some (txt "here");
  email = none;
  pubkey = some (txt "key");
  program = false;
  take_route = take_it;
  auto_enter = unset;
  revoke_route = false;
  revoke_adapter = none;
  revoke_target = none;
  revoke_host_id = none;
  route_verified = true;
}

desk-IsExclusive : IsExclusive desk.tab_routes
unfolding count
desk-IsExclusive = record {
  one_each = λ node. ground arith;
  one_live = λ host target. ground arith;
}

bus_register-IsExclusive_example :
    IsExclusive (bus_register 9000000 (txt "i") (txt "b") (at_desk true) desk).1.tab_routes
bus_register-IsExclusive_example =
    bus_register-IsExclusive 9000000 (txt "i") (txt "b") (at_desk true) desk desk-IsExclusive

bus_register-Spares_example :
    Grows
      (Spares alice)
      desk.tab_routes
      (bus_register 9000000 (txt "i") (txt "b") (at_desk false) desk).1.tab_routes
bus_register-Spares_example =
    bus_register-Spares 9000000 (txt "i") (txt "b") (at_desk false) desk refl

-- without the flag, alice is refused
desk_owned : is_refused (bus_register 9000000 (txt "i") (txt "b") (at_desk false) desk).0 ≡ true
unfolding bus_register tabc.Nodes.Register.register_refusal tabc.Nodes.Register.entry_refusal
    tabc.Nodes.Name.is_safe_node_id tabc.Text.Unicode.all_chars is_removed any tabc.Ledger.find_node
    tabc.Table.find text_eq tabc.Nodes.Register.shape_refusal tabc.Nodes.Register.has_route
    tabc.Nodes.Register.owner_refusal tabc.Nodes.Register.target_refusal
    tabc.Nodes.Register.find_route tabc.Nodes.Register.route_owners tabc.Table.select
desk_owned = refl

node_facts : (is_registered desk bob ≡ true) × (is_removed desk bob ≡ false)
unfolding is_registered is_removed any text_eq
node_facts = (refl, refl)

bus_restore-bus_remove_example :
    bus_restore 9000000 bob none (bus_remove 8000000 bob false none desk).1 ≡ (
      restored,
      record desk {
        removals =
            ([] ++ logged soft (seconds 8000000) none bob ∷ [])
            ++ logged restore (seconds 9000000) none bob ∷ [];
      },
    )
bus_restore-bus_remove_example =
    bus_restore-bus_remove 8000000 9000000 bob none none desk refl node_facts.0 node_facts.1

-- the program never wrote
robot_purged : (bus_remove 8000000 robot true none desk).0 ≡ purged
unfolding bus_remove is_registered any text_eq count
robot_purged = refl

abbrev without_bob : Ledger
without_bob = record desk { removed_nodes = record { node_id = bob; removed_at = 8 } ∷ [] }

bob_removed : is_removed without_bob bob ≡ true
unfolding is_removed any text_eq
bob_removed = refl

removed-IsInactive_example : IsInactive host without_bob bob
removed-IsInactive_example = removed-IsInactive host without_bob bob bob_removed
