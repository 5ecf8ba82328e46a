-- ===== src/Doorbell/Due.antt =====
-- Which recipients a round of `decide` finds due.
use tabc.Prelude.{
  Bool, List, Option, [], ap, arith, false, if◌then◌else◌, inl, inr, is_some, leb, le→leb, none,
  refl, some, true, ℕ, ◌&&◌, ◌<◌, ◌==◌, ◌||◌, ◌∙◌, ◌∷◌, ◌≡◌, ◌≤◌, ◌⊎◌,
}
use tabc.Text.{Text, text_eq}
use tabc.Table.{any, find, select}
use tabc.Table.Orders.{any-order_by, find-select}
use tabc.Ledger.{Delivery, Ledger, find_message, seconds}
use tabc.Doorbell.{Observation, Poller}
use tabc.Doorbell.Scan.{
  Group, Schema, Unread, greatest, is_group_of, is_snoozed, is_waiting, scan_unread, unread_le,
  unread_rows, waiting_rows,
}
use tabc.Doorbell.Grouped.{highest, is_to, scan_unread-find, scan_unread_once, summary, whole}
use tabc.Doorbell.Rounds.{decide, is_cooling, is_due, last_rung_high, observe, visit}

-- what the caller of `decide` goes through, nothing after an exception
abbrev pub due_list : Text ⊎ List Group → List Group
due_list (inl e) = []
due_list (inr gs) = gs

visit-out :
    (ts mono : ℕ) (mode : Text) (p : Poller) (gs : List Group) (os : List Observation)
    → (visit ts mono mode p gs os).1 ≡ select (is_due mono mode p) gs
unfolding visit select
visit-out ts mono mode p [] os = refl
visit-out ts mono mode p (g ∷ gs) os =
    ap (λ out. if is_due mono mode p g then g ∷ out else out)
      (visit-out ts mono mode p gs (observe ts g.recipient g.ids os))

pub decide-out :
    (now mono : ℕ) (mode : Text) (s : Schema) (l : Ledger) (p : Poller)
    → due_list (decide now mono mode s (inr l) p).1
      ≡ select (is_due mono mode p) (scan_unread now s l)
unfolding decide
decide-out now mono mode s l p =
    visit-out (seconds now) mono mode p (scan_unread now s l) p.led.observations

if_due : ℕ → Text → Poller → Option Group → Option Group
if_due mono mode p none = none
if_due mono mode p (some g) = if is_due mono mode p g then some g else none

due-summary :
    (mono : ℕ) (mode : Text) (p : Poller) (to : Text) (us : List Unread) (quiet : Bool)
    → if_due mono mode p (if quiet then none else summary to us) ≡ (
        if quiet
          || is_cooling mono mode p.unknown_attempts to
          || leb (highest to us) (last_rung_high to mode p.led.rings)
        then none
        else summary to us)
unfolding summary if_due is_due
due-summary mono mode p to us quiet = ground arith

-- A recipient is in the result of a round exactly when its node is not snoozed, no UNKNOWN of the
-- last 30 seconds holds it back, and the greatest id of its unread mail is above the mark of its
-- mode. The entry is the one of `scan_unread`; other recipients have no part in it.
pub decide-find :
    (now mono : ℕ) (mode : Text) (s : Schema) (l : Ledger) (p : Poller) (to : Text)
    → find (is_group_of to) (due_list (decide now mono mode s (inr l) p).1) ≡ (
        if is_snoozed now s l to
          || is_cooling mono mode p.unknown_attempts to
          || leb (highest to (waiting_rows s l)) (last_rung_high to mode p.led.rings)
        then none
        else summary to (waiting_rows s l))
unfolding if_due
decide-find now mono mode s l p to = rw (decide-out now mono mode s l p) (
    find-select (is_group_of to) (is_due mono mode p) (scan_unread now s l)
      (scan_unread_once now s l to)
    ∙ (ap (if_due mono mode p) (scan_unread-find now s l to)
        ∙ due-summary mono mode p to (waiting_rows s l) (is_snoozed now s l to)))

abbrev is_row : Text → ℕ → Unread → Bool
is_row to id u = text_eq u.recipient_id to && u.id == id

-- an unread delivery to the recipient, which is not removed, of a message that is stored
abbrev pub is_mail : Schema → Ledger → Text → ℕ → Delivery → Bool
is_mail s l to id d =
    is_waiting s l d
    && text_eq d.recipient_id to
    && d.id == id
    && is_some (find_message l.messages d.message_id)

any-unread_rows :
    (s : Schema) (l : Ledger) (to : Text) (id : ℕ) (ds : List Delivery)
    → any (is_row to id) (unread_rows s l.messages (select (is_waiting s l) ds))
      ≡ any (is_mail s l to id) ds
unfolding any select unread_rows
any-unread_rows s l to id [] = refl
any-unread_rows s l to id (d ∷ ds) = ground (arith, any-unread_rows s l to id ds)

any-waiting_rows :
    (s : Schema) (l : Ledger) (to : Text) (id : ℕ)
    → any (is_row to id) (waiting_rows s l) ≡ any (is_mail s l to id) l.deliveries
any-waiting_rows s l to id =
    any-order_by (is_row to id) unread_le _ ∙ any-unread_rows s l to id l.deliveries

le-highest :
    (to : Text) (id : ℕ) (us : List Unread) → any (is_row to id) us ≡ true → id ≤ highest to us
unfolding any highest greatest
le-highest to id [] h = absurd (ground arith)
le-highest to id (u ∷ us) h = ground (arith, le-highest to id us)

any-of_find :
    (p q : Group → Bool) (xs : List Group) {g : Group}
    → find p xs ≡ some g
    → q g ≡ true
    → any (λ x. p x && q x) xs ≡ true
unfolding any find
any-of_find p q [] f k = absurd (ground arith)
any-of_find p q (x ∷ xs) {g} f k = ground (arith, any-of_find p q xs {g = g})

pub summary-some :
    (to : Text) (us : List Unread) → any (is_to to) us ≡ true → summary to us ≡ some (whole to us)
unfolding summary
summary-some to us h = rw h refl

-- a recipient with mail, awake, not held back, and above the mark
due-entry :
    (quiet held : Bool) (mark : ℕ) (to : Text) (us : List Unread)
    → quiet ≡ false
    → held ≡ false
    → mark < highest to us
    → any (is_to to) us ≡ true
    → (if quiet || held || leb (highest to us) mark then none else summary to us)
      ≡ some (whole to us)
due-entry quiet held mark to us q h m w =
    let low : leb (highest to us) mark ≡ false = ground arith in
    rw (q, h, low) (summary-some to us w)

any-of_highest : (to : Text) (us : List Unread) → 0 < highest to us → any (is_to to) us ≡ true
unfolding any highest
any-of_highest to [] h = absurd (omega arith)
any-of_highest to (u ∷ us) h = ground (arith, any-of_highest to us)

-- the entry of a recipient above the mark reaches the greatest of its ids
pub decide-reaches :
    (now mono : ℕ) (mode : Text) (s : Schema) (l : Ledger) (p : Poller) (to : Text) (id : ℕ)
    → is_snoozed now s l to ≡ false
    → is_cooling mono mode p.unknown_attempts to ≡ false
    → last_rung_high to mode p.led.rings < highest to (waiting_rows s l)
    → id ≤ highest to (waiting_rows s l)
    → any (λ g. is_group_of to g && leb id g.high) (due_list (decide now mono mode s (inr l) p).1)
      ≡ true
decide-reaches now mono mode s l p to id awake settled above low =
    let us = waiting_rows s l in
    any-of_find (is_group_of to) (λ g. leb id g.high) _
      (decide-find now mono mode s l p to
        ∙ due-entry _ _ (last_rung_high to mode p.led.rings) to us awake settled above
            (any-of_highest to us (omega (arith, above))))
      (le→leb id (highest to us) low)

-- Unread mail above the mark of its recipient rings: unless the node is snoozed or an UNKNOWN holds
-- it back, the round's result has an entry for the recipient that reaches the delivery.
pub decide-rings :
    (now mono : ℕ) (mode : Text) (s : Schema) (l : Ledger) (p : Poller) (to : Text) (id : ℕ)
    → any (is_mail s l to id) l.deliveries ≡ true
    → is_snoozed now s l to ≡ false
    → is_cooling mono mode p.unknown_attempts to ≡ false
    → last_rung_high to mode p.led.rings < id
    → any (λ g. is_group_of to g && leb id g.high) (due_list (decide now mono mode s (inr l) p).1)
      ≡ true
decide-rings now mono mode s l p to id mail awake settled above =
    let reached = le-highest to id (waiting_rows s l) (any-waiting_rows s l to id ∙ mail) in
    decide-reaches now mono mode s l p to id awake settled (omega (arith, reached, above)) reached
