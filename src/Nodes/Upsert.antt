-- ===== src/Nodes/Upsert.antt =====
-- `bus_register` of tabus/bus.py, the writes: the UPSERT of the node, the claim of its route, and
-- the whole operation.
use tabc.Prelude.{
  Bool, List, Option, [], coalesce, false, if◌then◌else◌, none, not, or_else, some, true, ℕ, ◌&&◌,
  ◌++◌, ◌||◌, ◌∷◌,
}
use tabc.Text.{Text, text_eq, text_or}
use tabc.Ledger.{Ledger, Node, Route, seconds}
use tabc.Table.{any, count, find, update_where}
use tabc.Delivery.Envelope.{protocol_version}
use tabc.Nodes.Register.{
  AutoEnter, Registered, Registration, Report, chosen, has_route, is_given, is_live, is_node,
  is_rival, is_same_route, refused_register, register_refusal, registered, route_owners,
}

-- `capabilities` is the JSON text that is stored, `inst` and `boot` the values after their defaults
abbrev pub new_node : ℕ → Text → Text → Registration → Node
new_node ts inst boot q = record {
  node_id = q.node_id;
  instance_id = inst;
  boot_id = boot;
  boot_at = some ts;
  kind = q.kind;
  protocol_version = protocol_version;
  capabilities = q.capabilities;
  last_heartbeat_at = ts;
  activity_status = none;
  activity_updated_at = none;
  registered_at = ts;
  owner_email = q.email;
  owner_email_verified = false;
  node_pubkey = q.pubkey;
  snooze_until = none;
  is_program = q.program;
  is_team = false;
}

-- ON CONFLICT(node_id) DO UPDATE
abbrev pub renew_node : ℕ → Text → Text → Registration → Node → Node
renew_node ts inst boot q n = record n {
  instance_id = inst;
  boot_id = boot;
  boot_at = some ts;
  kind = q.kind;
  protocol_version = protocol_version;
  capabilities = q.capabilities;
  last_heartbeat_at = ts;
  owner_email = coalesce q.email n.owner_email;
  is_program = q.program;
  node_pubkey = coalesce n.node_pubkey q.pubkey;
}

unfoldable pub upsert_node : ℕ → Text → Text → Registration → List Node → List Node
upsert_node ts inst boot q ns =
    if any (λ n. text_eq n.node_id q.node_id) ns
    then update_where (λ n. text_eq n.node_id q.node_id) (renew_node ts inst boot q) ns
    else ns ++ new_node ts inst boot q ∷ []

abbrev pub revoke : ℕ → Route → Route
revoke ts r = record r { revoked_at = some ts }

-- `bool(prior["auto_enter"]) if prior else False`
abbrev pub prior_enter : Option Route → Bool
prior_enter none = false
prior_enter (some r) = r.auto_enter

abbrev pub is_prior : Registration → Route → Bool
is_prior q r = is_node q.node_id r && is_same_route q r

unfoldable pub chosen_enter : Ledger → Registration → Bool
chosen_enter l q = elim q.auto_enter [
  | chosen b ↦ b
  | _ ↦ prior_enter (find (is_prior q) l.tab_routes)
]

abbrev pub new_route : ℕ → Bool → Registration → Route
new_route ts enter q = record {
  node_id = q.node_id;
  adapter = or_else q.adapter [];
  target = or_else q.target [];
  host_id = q.host_id;
  registered_at = ts;
  last_seen_at = ts;
  revoked_at = none;
  provenance_verified = q.route_verified;
  auto_enter = enter;
}

-- ON CONFLICT(node_id) DO UPDATE
abbrev pub move_route : ℕ → Bool → Registration → Route → Route
move_route ts enter q r = record r {
  adapter = or_else q.adapter [];
  target = or_else q.target [];
  host_id = q.host_id;
  last_seen_at = ts;
  provenance_verified = r.provenance_verified || q.route_verified;
  auto_enter = enter;
  revoked_at = none;
}

unfoldable pub upsert_route : ℕ → Bool → Registration → List Route → List Route
upsert_route ts enter q rs =
    if any (is_node q.node_id) rs
    then update_where (is_node q.node_id) (move_route ts enter q) rs
    else rs ++ new_route ts enter q ∷ []

-- the rivals lose the target, then the node has it
unfoldable pub claim_route : ℕ → Bool → Registration → List Route → List Route
claim_route ts enter q rs = upsert_route ts enter q (update_where (is_rival q) (revoke ts) rs)

abbrev pub is_own_live : Registration → Route → Bool
is_own_live q r = is_node q.node_id r && is_live r

abbrev pub enters : Registration → Route → Bool
enters q r = is_own_live q r && r.auto_enter

abbrev pub stop_entering : Route → Route
stop_entering r = record r { auto_enter = false }

abbrev pub says_off : AutoEnter → Bool
says_off (chosen b) = not b
says_off _ = false

-- the route claim, the reclaim of a program's old route, and the opt-out of a route that stays
unfoldable pub write_routes : ℕ → Ledger → Registration → List Route
write_routes ts l q =
    let claimed_rs =
      if has_route q then claim_route ts (chosen_enter l q) q l.tab_routes else l.tab_routes in
    let reclaimed =
      if q.program && not (is_given q.adapter)
      then update_where (is_own_live q) (revoke ts) claimed_rs
      else claimed_rs in
    if not (has_route q) && says_off q.auto_enter
    then update_where (enters q) stop_entering reclaimed
    else reclaimed

abbrev pub preserved : Bool → Option Route → Option Bool
preserved true (some r) = some r.provenance_verified
preserved _ _ = none

-- The sentence of a success; the counts are those of the UPDATEs of `write_routes`.
unfoldable pub report_of : ℕ → Ledger → Registration → Report
report_of ts l q =
    let claimed_rs =
      if has_route q then claim_route ts (chosen_enter l q) q l.tab_routes else l.tab_routes in
    let drops = q.program && not (is_given q.adapter) in
    let reclaimed =
      if drops then update_where (is_own_live q) (revoke ts) claimed_rs else claimed_rs in
    record {
      routed = has_route q;
      stolen = if has_route q then route_owners l q else [];
      revoked_self = if drops then count (is_own_live q) claimed_rs else 0;
      preserved_route_verified =
          preserved q.revoke_route (find (is_own_live q) (write_routes ts l q));
      auto_enter_reset =
          if not (has_route q) && says_off q.auto_enter then count (enters q) reclaimed else 0;
    }

-- `local` is `local_instance()`, `fresh` the boot id that is made up from the process and the clock.
unfoldable pub bus_register : ℕ → Text → Text → Registration → Ledger → Registered × Ledger
bus_register now local fresh q l =
    let ts = seconds now in
    elim (register_refusal l ts q) [
      | some r ↦ (refused_register r, l)
      | none ↦ (
        registered (report_of ts l q),
        record l {
          nodes = upsert_node ts (text_or q.instance_id local) (text_or q.boot_id fresh) q l.nodes;
          tab_routes = write_routes ts l q;
        },
      )
    ]
