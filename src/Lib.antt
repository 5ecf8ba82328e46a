-- ===== src/Lib.antt =====
-- A model of the tabc bus: tabus/bus.py with tabus/send_refusal.py, tabus/tac_store.py,
-- tabus/tac_identity.py and tabus/tac_refusal.py; the doorbell of tabus/doorbell_poll.py and
-- tabus/doorbell.py with tabus/codex_queue.py; and the request handling of tabus/daemon.py with
-- tabus/nodekey.py.
--
-- The bus keeps one SQLite ledger. A node registers, with the terminal it can be rung at
-- (`bus_register`), and sends an envelope (`bus_send`): the text is checked
-- (`check_send_payload`), the recipients are found (listed, everyone, or the members of a tac), what
-- the sender has not opened may stop it, and one transaction stores the message with a delivery for
-- each recipient. A recipient claims what is new (`claim_new`), opens messages again
-- (`reopen_unread`), and acknowledges what arrived, was read or was processed (`bus_ack`,
-- `bus_inject_by_did`, `bus_mark_injected`, `bus_tac_mark_read`).
--
-- The doorbell is a process of its own. Every round reads the ledger (`scan_unread`), finds the
-- recipients whose unread mail is above what has rung for them (`decide`), tries to ring each
-- (`deliver_doorbell`, through a terminal adapter or the queue), and records the outcome in a ledger
-- of its own (`record_ring`). The daemon is the only way in from outside: a request is read in full
-- (`_read_declared_body`), its signature is checked (`_authorized`), and it acts for the node that
-- signed it (`do_POST`).
--
-- Files:
--   Prelude, Text, Table: Boolean tests, lists, `str` as a list of code points, and SQL statements
--     on lists of rows, with their laws
--   Host: what the code takes from the standard library (the hash, the timestamp format, the
--     Unicode tables); a parameter of the operations that use it
--   Ledger, Ledger/Rows: the tables of SCHEMA
--   Payload: tabus/send_refusal.py, `check_send_payload`, with what passes it in Accepts;
--     Payload/Length: its `request_length_refusal`, with what it says in Measured and Declares
--   Tac/Identity, Tac/Resolve: tabus/tac_identity.py, and `resolve` of tabus/tac_store.py
--   Tac/Store, Tac/Group: creating, renaming, the members, closing and linking, in tabus/tac_store.py
--     and tabus/bus.py; Named, Unique, Roll, Linked, Grouped: what they keep;
--     Tac/Listing, Newest: `bus_tac_list` and `bus_tac_messages`, and which messages are shown
--   Nodes/Name, Nodes/Register, Nodes/Upsert, Nodes/Admin: `is_safe_node_id` of tabus/nodekey.py,
--     and `bus_register`, `bus_beat`, the snooze, `bus_set_team`, `bus_remove` and `bus_restore` of
--     tabus/bus.py; Exclusive, Owners, Registered, Removal, Inactive: what they keep and refuse
--   Delivery/Envelope, Delivery/Claim, Delivery/Reopen, Delivery/Ack: the operations on deliveries
--     in tabus/bus.py; Follows, Ladder, AckLadder, History: the life of a delivery under any
--     sequence of operations; Winners, Handed, Attempts, Acknowledged: claiming and acknowledging
--   Send/Envelope, Send/Gates, Send/Write: `bus_send` of tabus/bus.py; Cleared, Recipients, Heard:
--     what the gates let pass; Stored, Delivered, Outcome, Retry: what the transaction does
--   Doorbell, Doorbell/Scan, Doorbell/Rounds: tabus/doorbell_poll.py; Grouped, Due: what a round finds;
--     Watermark, Once: any history of rounds and rings; Settled: the observing loop
--   Bell/Senders: `bus_unread_senders` of tabus/bus.py; Bell/Adapters, Bell/Deliver, Bell/Loop:
--     tabus/doorbell.py; Bell/Queue: tabus/codex_queue.py; Bell/Frontend: `executable_kind` of
--     tabus/terminal_frontend.py; Bell/Lang: `t` of tabus/lang.py; Typed, Blind, Injected,
--     Acted, Reached, Receipts, Submitted: what is typed, what it depends on, what stands behind an
--     outcome, what a round settles, and how often a text is submitted
--   Daemon/Base58, Daemon/Auth: tabus/nodekey.py and `_authorized` of tabus/daemon.py; Daemon/Body,
--     Daemon/Endpoints: the reading of a body and `do_POST`; Daemon/Prefix, Daemon/Rotate:
--     `resolve_recipient_message_id` and `bus_rotate_key` of tabus/bus.py; Bound, Signed, Guarded,
--     Digits, Recoded: what a signature binds, what passes, what reaches the bus, and base58 both ways
--   Pending: the unread counts and `list_unread_titles` of tabus/bus.py; Tallied, Shown,
--     Raised, Listed: what they show of one recipient, how a send raises them, and how they agree
--   Tests: concrete ledgers, and the theorems applied to them
--
-- An operation takes the ledger and the reading of the clock in microseconds and returns its answer
-- with the new ledger; stored times are whole seconds, as `now_iso` writes them. A statement that
-- the code commits on its own is a phase with a definition of its own, so that another connection's
-- statements can stand between. Every loop is over a list, so no fuel is needed, but for the digits
-- of a number in Daemon/Base58, where the number itself is the fuel and is enough; the identifiers
-- that `uuid4` draws for a new tac are a list too, of which the first free one is taken. Ed25519,
-- AppleScript, tmux, the queue command, JSON, `int` and `str.format` are fields of the records
-- Calls, Outside and Site.
--
-- Not modelled: the tac endpoints and do_GET of the daemon, the capture of terminals
-- (tabus/route_capture.py), presence, the listings of nodes and of links, what was sent, lookup and
-- search, the command line, the MCP adapter, the migrations of old ledgers, the full-text index, the
-- startup audit of the doorbell, and the sentences of the answers, whose cases are constructors here.
pub mod Prelude
pub mod Text
pub mod Table
pub mod Host
pub mod Ledger
pub mod Delivery
pub mod Bell
pub mod Daemon
pub mod Doorbell
pub mod Payload
pub mod Pending
pub mod Tac
pub mod Send
pub mod Nodes
pub mod Tests
