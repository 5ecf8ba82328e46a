-- ===== src/Ledger/Rows.antt =====
-- The rows of the tables in SCHEMA (tabus/bus.py), one record to a table.
use tabc.Prelude.{Bool, Option, ℕ}
use tabc.Text.{Text}

pub data Activity : Type 0 where
  busy idle : Activity

pub record Node : Type 0 where
  pub node_id : Text
  pub instance_id : Text
  pub boot_id : Text
  pub boot_at : Option ℕ
  pub kind : Text
  pub protocol_version : Text
  pub capabilities : Text
  pub last_heartbeat_at : ℕ
  pub activity_status : Option Activity
  pub activity_updated_at : Option ℕ
  pub registered_at : ℕ
  pub owner_email : Option Text
  pub owner_email_verified : Bool
  pub node_pubkey : Option Text
  pub snooze_until : Option ℕ
  pub is_program : Bool
  pub is_team : Bool

pub record Removed : Type 0 where
  pub node_id : Text
  pub removed_at : ℕ

pub data RemovalMode : Type 0 where
  soft purge restore : RemovalMode

pub record Removal : Type 0 where
  pub node_id : Text
  pub removed_by : Option Text
  pub at : ℕ
  pub mode : RemovalMode

pub record Rotation : Type 0 where
  pub node_id : Text
  pub old_pubkey : Option Text
  pub new_pubkey : Text
  pub rotated_by : Text
  pub at : ℕ

pub record Tac : Type 0 where
  pub tac_id : Text
  pub label : Option Text
  pub name : Option Text
  pub name_key : Option Text
  pub created_at : ℕ
  pub created_by : Option Text
  pub closed_at : Option ℕ
  pub close_summary : Option Text
  pub closed_by : Option Text

pub record Membership : Type 0 where
  pub tac_id : Text
  pub member_node_id : Text
  pub added_at : ℕ
  pub added_by : Option Text

pub record Link : Type 0 where
  pub child_tac : Text
  pub parent_tac : Text
  pub linked_at : ℕ
  pub linked_by : Option Text

-- `tac_name_changes`
pub record NameChange : Type 0 where
  pub tac_id : Text
  pub old_name : Option Text
  pub new_name : Text
  pub changed_by : Option Text
  pub changed_at : ℕ

pub record Message : Type 0 where
  pub id : Text
  pub sender_id : Text
  pub client_ts : ℕ
  pub accepted_at : ℕ
  pub subject : Text
  pub body : Text
  pub body_hash : Text
  pub reply_to : Option Text
  pub thread_id : Text
  pub schema_version : Text
  pub expires_at : Option Text
  pub priority : Text
  pub tac_id : Option Text
  pub broadcast : Bool

-- `state IN ('ACCEPTED','CLAIMED','INJECTED','READ','PROCESSED','QUARANTINED','DEAD')`
pub data State : Type 0 where
  accepted claimed injected read processed quarantined dead : State

-- What `_validate_envelope` reports.
pub data Problem : Type 0 where
  unknown_schema : Text → Problem
  expired : Text → Problem
  malformed_expiry : Problem
  hash_mismatch : Problem

pub record Delivery : Type 0 where
  pub id : ℕ
  pub message_id : Text
  pub recipient_id : Text
  pub state : State
  pub attempts : ℕ
  pub lease_until : Option ℕ
  pub claimed_by : Option Text
  pub injected_at : Option ℕ
  pub read_at : Option ℕ
  pub processed_at : Option ℕ
  pub last_error : Option Problem
  pub created_at : ℕ
  pub updated_at : ℕ

pub record Route : Type 0 where
  pub node_id : Text
  pub adapter : Text
  pub target : Text
  pub host_id : Option Text
  pub registered_at : ℕ
  pub last_seen_at : ℕ
  pub revoked_at : Option ℕ
  pub provenance_verified : Bool
  pub auto_enter : Bool
