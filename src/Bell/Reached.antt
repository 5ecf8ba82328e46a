-- ===== src/Bell/Reached.antt =====
-- A round of the doorbell's main loop, and the rounds after it.
use tabc.Prelude.{Bool, List, ◌≡◌}
use tabc.Text.{Text, txt}
use tabc.Ledger.{Ledger}
use tabc.Doorbell.{is_suppressing}
use tabc.Bell.Queue.{Receipt}
use tabc.Bell.Deliver.{Site, deliver_doorbell}

abbrev pub live : Text
live = txt "LIVE"

-- whether every ring of the recipient, with whatever receipts, comes to a suppressing outcome
abbrev pub Comes : Site → Ledger → Text → Bool → Type 0
Comes w l to ok =
    (nid : Text) (rs : List Receipt)
    → is_suppressing (deliver_doorbell w l to nid rs).0.sent.outcome ≡ ok
