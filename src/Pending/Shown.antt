-- ===== src/Pending/Shown.antt =====
-- The unread counts against the unread mail that holds a message back in `bus_send`.
use tabc.Prelude.{Bool, is_some, not, ◌&&◌}
use tabc.Text.{Text, text_eq}
use tabc.Ledger.{Delivery, Ledger, Message}
use tabc.Send.Gates.{is_unopened, message_has}

abbrev is_direct_from : Text → Message → Bool
is_direct_from from m = text_eq m.sender_id from && (not (is_some m.tac_id) && not m.broadcast)

abbrev is_waiting_for : Ledger → Text → Text → Delivery → Bool
is_waiting_for l me from d =
    text_eq d.recipient_id me
    && (is_unopened d.state && message_has l.messages (is_direct_from from) d.message_id)
