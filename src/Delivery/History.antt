-- ===== src/Delivery/History.antt =====
-- Histories of mailbox operations.
use tabc.Prelude.{List, Option, [], ℕ, ◌∷◌}
use tabc.Text.{Text}
use tabc.Host.{Host}
use tabc.Ledger.{Ledger, seconds}
use tabc.Delivery.Claim.{Request, claim_new}
use tabc.Delivery.Reopen.{reopen_unread}
use tabc.Delivery.Ack.{bus_ack, bus_inject_by_did, bus_mark_injected, mark_read_in}
use tabc.Delivery.Follows.{Onward, Onward-refl, Onward-trans}
use tabc.Delivery.Ladder.{claim_new-Onward, reopen_unread-Onward}
use tabc.Delivery.AckLadder.{
  IsKeyed, Onward-IsKeyed, bus_ack-Onward, inject_dids-Onward, inject_messages-Onward,
  mark_read_in-Onward,
}

-- The mailbox operations, each with its clock reading and arguments.
pub data Op : Type 0 where
  claim : ℕ → Request → Op
  reopen : ℕ → Option Text → Request → Op
  ack : ℕ → Text → Text → Text → Op
  inject : ℕ → Text → List ℕ → Op
  mark_injected : ℕ → Text → List Text → Op
  mark_read : Text → Text → Option (List Text) → Op

unfoldable pub apply : Host → Op → Ledger → Ledger
apply h (claim now q) l = (claim_new h now q l).1
apply h (reopen now mid q) l = (reopen_unread h now mid q l).1
apply h (ack now node mid state) l = (bus_ack now node mid state l).1
apply h (inject now node dids) l = (bus_inject_by_did now node dids l).1
apply h (mark_injected now node mids) l = bus_mark_injected now node mids l
apply h (mark_read node tac ids) l = (mark_read_in node tac ids l).1

unfoldable pub run : Host → List Op → Ledger → Ledger
run h [] l = l
run h (op ∷ ops) l = run h ops (apply h op l)

apply-Onward :
    (h : Host) (op : Op) (l : Ledger)
    → IsKeyed l.deliveries
    → Onward l.deliveries (apply h op l).deliveries
unfolding apply bus_inject_by_did bus_mark_injected
apply-Onward h (claim now q) l k = claim_new-Onward h now q l
apply-Onward h (reopen now mid q) l k = reopen_unread-Onward h now mid q l
apply-Onward h (ack now node mid state) l k = bus_ack-Onward now node mid state l k
apply-Onward h (inject now node dids) l k = inject_dids-Onward (seconds now) node dids l.deliveries
apply-Onward h (mark_injected now node mids) l k =
    inject_messages-Onward (seconds now) node mids l.deliveries
apply-Onward h (mark_read node tac ids) l k = mark_read_in-Onward node tac ids l

-- After any sequence of claims, reopenings, acknowledgements and arrivals on a ledger with one
-- delivery per message and recipient, there are the same deliveries in the same order, each with
-- its id, message, recipient and creation time, with no fewer attempts, and in a state that the
-- ladder leads to: READ never falls back to INJECTED, PROCESSED, DEAD and QUARANTINED are final.
pub run-Onward :
    (h : Host) (ops : List Op) (l : Ledger)
    → IsKeyed l.deliveries
    → Onward l.deliveries (run h ops l).deliveries
unfolding run
run-Onward h [] l k = Onward-refl l.deliveries
run-Onward h (op ∷ ops) l k =
    let l' = apply h op l in
    let first = apply-Onward h op l k in
    Onward-trans l.deliveries l'.deliveries (run h ops l').deliveries first
      (run-Onward h ops l' (Onward-IsKeyed l.deliveries l'.deliveries first k))
