-- ===== src/Tests/Data.antt =====
-- Ledgers, nodes and envelopes to run the operations of tabus/bus.py on.
use tabc.Prelude.{Bool, List, [], false, if◌then◌else◌, none, some, true, ℕ, ◌==◌, ◌∷◌}
use tabc.Text.{Text, is_nonempty, txt}
use tabc.Host.{Host}
use tabc.Ledger.{Delivery, Ledger, Membership, Message, Node, State, Tac}
use tabc.Payload.{str}
use tabc.Send.Envelope.{Envelope}
use tabc.Send.Gates.{Cleared}

-- A host whose hash is the text itself, and whose only instant is second 9000.
abbrev pub host : Host
host = record {
  sha256 = λ t. t;
  parse_instant = λ t. if is_nonempty t then some 9000000000 else none;
  isoformat = λ n. txt "9000";
  name_key = λ t. t;
  is_invisible = λ c. c == 8203;
}

abbrev pub node_named : Text → Bool → Node
node_named name program = record {
  node_id = name;
  instance_id = txt "i";
  boot_id = txt "b";
  boot_at = none;
  kind = txt "cli";
  protocol_version = txt "1";
  capabilities = [];
  last_heartbeat_at = 1;
  activity_status = none;
  activity_updated_at = none;
  registered_at = 1;
  owner_email = none;
  owner_email_verified = false;
  node_pubkey = none;
  snooze_until = none;
  is_program = program;
  is_team = false;
}

abbrev pub alice : Text
alice = txt "alice"

abbrev pub bob : Text
bob = txt "bob"

abbrev pub robot : Text
robot = txt "robot"

abbrev pub work : Text
work = txt "work"

-- a message of alice's
abbrev pub older : Message
older = record {
  id = txt "m0";
  sender_id = alice;
  client_ts = 5;
  accepted_at = 5;
  subject = txt "s";
  body = txt "b";
  body_hash = txt "b";
  reply_to = none;
  thread_id = txt "m0";
  schema_version = txt "tabus.v1";
  expires_at = none;
  priority = txt "next";
  tac_id = none;
  broadcast = false;
}

abbrev pub delivery_to : Text → State → ℕ → Delivery
delivery_to node s n = record {
  id = 1;
  message_id = txt "m0";
  recipient_id = node;
  state = s;
  attempts = n;
  lease_until = none;
  claimed_by = none;
  injected_at = none;
  read_at = none;
  processed_at = none;
  last_error = none;
  created_at = 5;
  updated_at = 5;
}

abbrev pub membership : Text → Membership
membership node = record { tac_id = work; member_node_id = node; added_at = 2; added_by = none }

abbrev pub work_tac : Tac
work_tac = record {
  tac_id = work;
  label = none;
  name = none;
  name_key = none;
  created_at = 2;
  created_by = none;
  closed_at = none;
  close_summary = none;
  closed_by = none;
}

-- Two sessions and a program, a tac of the three, and bob's copy of the older message.
abbrev pub office : State → ℕ → Ledger
office s n = record {
  nodes = node_named alice false ∷ node_named bob false ∷ node_named robot true ∷ [];
  removed_nodes = [];
  removals = [];
  key_rotations = [];
  mailbox_opens = [];
  tacs = work_tac ∷ [];
  identity_columns = true;
  tac_members = membership alice ∷ membership bob ∷ [];
  tac_links = [];
  name_changes = [];
  messages = older ∷ [];
  deliveries = delivery_to bob s n ∷ [];
  next_did = 2;
  tab_routes = [];
}

-- alice writes to the listed nodes, in answer to the older message
abbrev pub letter : List Text → Envelope
letter to = record {
  sender = alice;
  recipients = to;
  subject = str (txt "plan");
  body = str (txt "at noon");
  priority = txt "now";
  expires_at = some (txt "9000");
  reply_to = some (txt "m0");
  message_id = some (txt "m1");
  thread_id = none;
  tac = none;
  broadcast = false;
}

abbrev pub to_work : Envelope
to_work = record (letter []) { tac = some work }

abbrev pub cleared_for : List Text → Cleared
cleared_for to = record { expiry = some (txt "9000"); tac = none; valid = to }
