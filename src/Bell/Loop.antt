-- ===== src/Bell/Loop.antt =====
-- The main loop of tabus/doorbell.py: one round, over what `decide` found due.
use tabc.Prelude.{List, [], if◌then◌else◌, inl, inr, length, not, ℕ, ◌&&◌, ◌++◌, ◌∷◌, ◌⊎◌}
use tabc.Text.{Text, text_eq, txt}
use tabc.Ledger.{Ledger}
use tabc.Doorbell.{Poller}
use tabc.Doorbell.Scan.{Group, Schema}
use tabc.Doorbell.Rounds.{decide, record_ring}
use tabc.Bell.Queue.{Receipt}
use tabc.Bell.Deliver.{Site, deliver_doorbell}

-- the ledger of the doorbell, and the journal of the queue
pub record Bells : Type 0 where
  pub poller : Poller
  pub receipts : List Receipt

-- `notification_id=f"{rcpt}:{d['high_id']}"`; the decimal digits are a parameter
unfoldable pub notification_id : (ℕ → Text) → Group → Text
notification_id decimal g = g.recipient ++ (txt ":" ++ decimal g.high)

-- one recipient that is due
unfoldable pub ring_one : (ℕ → Text) → Site → ℕ → ℕ → Text → Ledger → Group → Bells → Bells
ring_one decimal w now mono mode l g b =
    if text_eq mode (txt "SHADOW") && not g.bc
    then record b {
      poller =
          (record_ring now mono g.recipient g.high (length g.ids) (txt "SHADOW") (txt "SHADOW_ONLY")
            b.poller).1;
    }
    else (let (result, rs) =
          deliver_doorbell w l g.recipient (notification_id decimal g) b.receipts in
        record {
          poller =
              (record_ring now mono g.recipient g.high (length g.ids) mode result.sent.outcome
                b.poller).1;
          receipts = rs;
        })

unfoldable pub ring_all : (ℕ → Text) → Site → ℕ → ℕ → Text → Ledger → List Group → Bells → Bells
ring_all decimal w now mono mode l [] b = b
ring_all decimal w now mono mode l (g ∷ gs) b =
    ring_all decimal w now mono mode l gs (ring_one decimal w now mono mode l g b)

-- one pass of `while not _stop`, over a store that was read
unfoldable pub ring_round :
    (ℕ → Text) → Site → ℕ → ℕ → Text → Schema → Text ⊎ Ledger → Ledger → Bells → Bells
ring_round decimal w now mono mode s store l b =
    let (p, out) = decide now mono mode s store b.poller in
    elim out [
      | inl e ↦ record b { poller = p }
      | inr due ↦ ring_all decimal w now mono mode l due (record b { poller = p })
    ]
