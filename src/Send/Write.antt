-- ===== src/Send/Write.antt =====
-- The transaction of `bus_send`, what its integrity errors turn into, and the whole operation.
use tabc.Prelude.{
  Bool, List, Option, [], if◌then◌else◌, is_some, length, map, none, not, some, suc, true, ℕ, ◌&&◌,
  ◌++◌, ◌+◌, ◌||◌, ◌∷◌,
}
use tabc.Text.{Text, is_nonempty, opt_eq, text_eq, text_or, txt}
use tabc.Text.Order.{has_duplicate, text_le, texts_eq}
use tabc.Host.{Host}
use tabc.Ledger.{Delivery, Ledger, Message, accepted, find_message, seconds}
use tabc.Table.{order_by, select}
use tabc.Delivery.Envelope.{protocol_version}
use tabc.Payload.{Json, str}
use tabc.Send.Envelope.{Envelope, SendRefusal, pass, stop}
use tabc.Send.Gates.{Cleared, clear}

-- What the doorbell is told once the write has committed: no body.
pub record Ring : Type 0 where
  pub recipients : List Text
  pub sender : Text
  pub subject : Text
  pub message_id : Text

-- `raised` is an IntegrityError that is no UNIQUE violation, which `bus_send` raises again.
pub data Sent : Type 0 where
  refused_send : SendRefusal → Sent
  stored : Text → List Text → Bool → Sent
  resent conflict : Text → Sent
  raised : Sent

-- the text of a payload that has passed the checks
abbrev pub json_text : Json → Text
json_text (str s) = s
json_text _ = []

-- the thread of a message that may be missing
abbrev pub thread_in : Option Message → Text → Text
thread_in none mid = mid
thread_in (some m) mid = if is_nonempty m.thread_id then m.thread_id else mid

-- `reply_to and` the thread of that message, `or mid`
unfoldable pub reply_thread : List Message → Option Text → Text → Text
reply_thread ms none mid = mid
reply_thread ms (some r) mid = if is_nonempty r then thread_in (find_message ms r) mid else mid

-- `thread_id or ...`
unfoldable pub thread_of : List Message → Option Text → Option Text → Text → Text
thread_of ms thread reply mid = text_or thread (reply_thread ms reply mid)

unfoldable pub message_of : Host → ℕ → Ledger → Envelope → Cleared → Text → Message
message_of h ts l e c mid = record {
  id = mid;
  sender_id = e.sender;
  client_ts = ts;
  accepted_at = ts;
  subject = json_text e.subject;
  body = json_text e.body;
  body_hash = h.sha256 (json_text e.body);
  reply_to = e.reply_to;
  thread_id = thread_of l.messages e.thread_id e.reply_to mid;
  schema_version = protocol_version;
  expires_at = c.expiry;
  priority = e.priority;
  tac_id = c.tac;
  broadcast = e.broadcast;
}

abbrev pub new_delivery : ℕ → Text → Text → ℕ → Delivery
new_delivery ts mid to did = record {
  id = did;
  message_id = mid;
  recipient_id = to;
  state = accepted;
  attempts = 0;
  lease_until = none;
  claimed_by = none;
  injected_at = none;
  read_at = none;
  processed_at = none;
  last_error = none;
  created_at = ts;
  updated_at = ts;
}

-- one row for each recipient, with AUTOINCREMENT ids
unfoldable pub new_deliveries : ℕ → Text → List Text → ℕ → List Delivery
new_deliveries ts mid [] did = []
new_deliveries ts mid (to ∷ tos) did =
    new_delivery ts mid to did ∷ new_deliveries ts mid tos (suc did)

-- CHECK (priority IN ('now','next','batch'))
unfoldable pub is_priority : Text → Bool
is_priority p = text_eq p (txt "now") || text_eq p (txt "next") || text_eq p (txt "batch")

-- `reply_to TEXT REFERENCES messages(id)`; a row may refer to itself
unfoldable pub is_reply_known : Ledger → Text → Option Text → Bool
is_reply_known l mid none = true
is_reply_known l mid (some r) = text_eq r mid || is_some (find_message l.messages r)

-- the recipients stored with a message, sorted
unfoldable pub stored_recipients : Ledger → Text → List Text
stored_recipients l mid =
    order_by text_le
      (map Delivery.recipient_id (select (λ d. text_eq d.message_id mid) l.deliveries))

-- the comparison behind a UNIQUE violation
unfoldable pub is_same_envelope : Host → Ledger → Envelope → Cleared → Text → Message → Bool
is_same_envelope h l e c mid prev =
    text_eq prev.sender_id e.sender
    && (text_eq prev.body_hash (h.sha256 (json_text e.body))
        && (text_eq prev.subject (json_text e.subject)
            && (text_eq prev.priority e.priority
                && (opt_eq prev.reply_to e.reply_to
                    && (text_eq prev.thread_id (thread_of l.messages e.thread_id e.reply_to mid)
                        && (opt_eq prev.expires_at c.expiry
                            && texts_eq (stored_recipients l mid) (order_by text_le c.valid)))))))

unfoldable pub resend_answer : Host → Ledger → Envelope → Cleared → Text → Sent
resend_answer h l e c mid = elim (find_message l.messages mid) [
  | none ↦ conflict mid
  | some prev ↦ if is_same_envelope h l e c mid prev then resent mid else conflict mid
]

unfoldable pub store : Host → ℕ → Ledger → Envelope → Cleared → Text → Ledger
store h ts l e c mid = record l {
  messages = l.messages ++ message_of h ts l e c mid ∷ [];
  deliveries = l.deliveries ++ new_deliveries ts mid c.valid l.next_did;
  next_did = l.next_did + length c.valid;
}

abbrev pub ring_for : Envelope → Cleared → Text → Ring
ring_for e c mid = record {
  recipients = c.valid;
  sender = e.sender;
  subject = json_text e.subject;
  message_id = mid;
}

-- The CHECK comes before the key, the foreign key behind it, and the deliveries last.
unfoldable pub write : Host → ℕ → Text → (Ring → Bool) → Envelope → Cleared → Ledger → Sent × Ledger
write h now fresh ringer e c l =
    let mid = text_or e.message_id fresh in
    if not (is_priority e.priority)
    then (raised, l)
    else if is_some (find_message l.messages mid)
    then (resend_answer h l e c mid, l)
    else if not (is_reply_known l mid e.reply_to)
    then (raised, l)
    else if has_duplicate c.valid
    then (resend_answer h l e c mid, l)
    else (stored mid c.valid (ringer (ring_for e c mid)), store h (seconds now) l e c mid)

-- `fresh` is the UUID that is minted if the sender brings no id; `ringer` is the transport.
unfoldable pub bus_send : Host → ℕ → Text → (Ring → Bool) → Envelope → Ledger → Sent × Ledger
bus_send h now fresh ringer e l = elim (clear h l e) [
  | stop r ↦ (refused_send r, l)
  | pass c ↦ write h now fresh ringer e c l
]
