-- ===== src/Daemon/Endpoints.antt =====
-- `do_POST` of tabus/daemon.py: what a request goes through before it reaches the bus, and the
-- endpoints that act for a node.
use tabc.Prelude.{Bool, List, Option, [], false, if◌then◌else◌, is_some, none, some, true, ℕ, ◌∷◌}
use tabc.Text.{Text, text_eq}
use tabc.Host.{Host}
use tabc.Ledger.{Ledger}
use tabc.Nodes.Register.{Registered, Registration, refused_register, registered}
use tabc.Nodes.Upsert.{bus_register}
use tabc.Nodes.Admin.{
  Removing, Restoring, bus_beat, bus_get_snooze, bus_remove, bus_restore, bus_set_snooze, disabled,
  purged, restored,
}
use tabc.Delivery.Ack.{AckResult, already_there, bus_ack, moved}
use tabc.Delivery.Claim.{Request}
use tabc.Delivery.Reopen.{Opened, reopen_unread}
use tabc.Send.Envelope.{Envelope}
use tabc.Send.Write.{Ring, Sent, bus_send, raised, resent, stored}
use tabc.Payload.Length.{
  Declared, LengthRefusal, declared_length, declares, length_invalid, more_than_reported, not_valid,
  request_length_refusal, request_too_large,
}
use tabc.Daemon.Auth.{Calls, HttpRequest, authorized}
use tabc.Daemon.Body.{
  Arrival, BodyAnswer, goes_on, incomplete, read_declared_body, refused_body_read, too_slow,
  unanswered,
}
use tabc.Daemon.Prefix.{full_id, resolve_recipient_message_id}

-- The path with the fields of the body, as the handler reads them. The tac endpoints are left out.
pub data Post : Type 0 where
  post_register : Registration → Post
  post_beat : Text → Post
  post_snooze : Text → Option ℕ → Post
  post_reopen : Text → Text → Post
  post_ack : Text → Text → Text → Post
  post_send : Envelope → Post
  post_remove : Text → Bool → Option Text → Post
  post_restore : Text → Option Text → Post
  post_nowhere : Post

-- the node that the request must be signed by, for the endpoints that are a node's own
unfoldable pub own_node : Post → Option Text
own_node (post_register q) = some q.node_id
own_node (post_beat node) = some node
own_node (post_snooze node minutes) = some node
own_node (post_reopen node mid) = some node
own_node (post_ack node mid state) = some node
own_node (post_send e) = some e.sender
own_node (post_remove node purging by) = none
own_node (post_restore node by) = none
own_node post_nowhere = none

-- 0 where the send raises, and the request gets no answer
abbrev pub sent_status : Sent → ℕ
sent_status (stored mid to rung) = 200
sent_status (resent mid) = 200
sent_status raised = 0
sent_status _ = 400

abbrev pub is_moved : AckResult → Bool
is_moved moved = true
is_moved already_there = true
is_moved _ = false

abbrev pub is_removed_now : Removing → Bool
is_removed_now purged = true
is_removed_now disabled = true
is_removed_now _ = false

abbrev pub is_restored_now : Restoring → Bool
is_restored_now restored = true
is_restored_now _ = false

abbrev pub status_of : Bool → ℕ → ℕ
status_of ok other = if ok then 200 else other

abbrev pub is_open_answer : List Opened → Bool
is_open_answer [] = false
is_open_answer (o ∷ os) = true

abbrev pub is_register_ok : Registered → Bool
is_register_ok (refused_register r) = false
is_register_ok (registered r) = true

-- What the handlers take besides the ledger: the clock, a fresh UUID, the transport, and the two ids
-- that `bus_register` defaults to.
pub record Serving : Type 0 where
  pub host : Host
  pub calls : Calls
  pub now : ℕ
  pub now_seconds : ℕ
  pub fresh : Text
  pub ringer : Ring → Bool
  pub local_instance : Text
  pub local_boot : Text

-- `reopen_unread(con, node, full_id)` with its defaults
abbrev pub reopening : Text → Text → Request
reopening local node = record {
  node = node;
  limit = 10;
  priority = none;
  lease_sec = none;
  claimed_by = local;
}

-- the status, and the ledger afterwards
unfoldable pub handle_post : Serving → Post → Ledger → ℕ × Ledger
handle_post v (post_register q) l =
    let (r, l') = bus_register v.now v.local_instance v.local_boot q l in
    (status_of (is_register_ok r) 409, l')
handle_post v (post_beat node) l = let (ok, l') = bus_beat v.now node l in (status_of ok 404, l')
handle_post v (post_snooze node none) l = (status_of (is_some (bus_get_snooze v.now node l)) 404, l)
handle_post v (post_snooze node (some minutes)) l =
    let (ok, l') = bus_set_snooze v.now node minutes l in (status_of ok 400, l')
handle_post v (post_reopen node mid_or_prefix) l =
    elim (resolve_recipient_message_id l node mid_or_prefix) [
      | full_id mid ↦
          let (out, l') =
            reopen_unread v.host v.now (some mid) (reopening v.local_instance node) l in
          (status_of (is_open_answer out) 404, l')
      | _ ↦ (404, l)
    ]
handle_post v (post_ack node mid_or_prefix state) l =
    elim (resolve_recipient_message_id l node mid_or_prefix) [
      | full_id mid ↦
          let (r, l') = bus_ack v.now node mid state l in (status_of (is_moved r) 409, l')
      | _ ↦ (409, l)
    ]
handle_post v (post_send e) l =
    let (r, l') = bus_send v.host v.now v.fresh v.ringer e l in (sent_status r, l')
handle_post v (post_remove node purging by) l =
    let (r, l') = bus_remove v.now node purging by l in (status_of (is_removed_now r) 409, l')
handle_post v (post_restore node by) l =
    let (r, l') = bus_restore v.now node by l in (status_of (is_restored_now r) 409, l')
handle_post v post_nowhere l = (404, l)

-- the scope check, and the handler
unfoldable pub handle_signed : Serving → HttpRequest → Post → Ledger → ℕ × Ledger
handle_signed v r p l = elim (own_node p) [
  | none ↦ handle_post v p l
  | some node ↦ if text_eq node r.node then handle_post v p l else (403, l)
]

abbrev pub refusal_status : LengthRefusal → ℕ
refusal_status length_invalid = 400
refusal_status more_than_reported = 413
refusal_status (request_too_large n) = 413

-- `declared_length(...)[1] or 0`
abbrev pub declared_bytes : Declared → ℕ
declared_bytes not_valid = 0
declared_bytes (declares none) = 0
declared_bytes (declares (some n)) = n

-- after the body
unfoldable pub serve_body :
    Serving → (List ℕ → HttpRequest) → (List ℕ → Post) → Ledger → BodyAnswer → ℕ × Ledger
serve_body v request parse l too_slow = (408, l)
serve_body v request parse l incomplete = (400, l)
serve_body v request parse l unanswered = (0, l)
serve_body v request parse l (goes_on body) =
    elim (authorized v.host v.calls v.now_seconds l (request body)) [
      | some denial ↦ (401, l)
      | none ↦ handle_signed v (request body) (parse body) l
    ]

-- The status, 0 for a request that is dropped without an answer, and the ledger. `request` puts the
-- body to the request line and the headers, and `parse` reads its JSON.
unfoldable pub do_post :
    Serving
    → List (Option Text)
    → List Arrival
    → (List ℕ → HttpRequest)
    → (List ℕ → Post)
    → Ledger
    → ℕ × Ledger
do_post v lengths arrivals request parse l = elim (request_length_refusal lengths) [
  | some refusal ↦ (refusal_status refusal, l)
  | none ↦
      serve_body v request parse l
        (refused_body_read (read_declared_body (declared_bytes (declared_length lengths)) arrivals))
]
