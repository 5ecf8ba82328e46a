-- ===== src/Doorbell/Watermark.antt =====
-- The mark of what has rung, over any history of rounds and recorded rings.
use tabc.Prelude.{
  Bool, Bool-cases, List, Option, [], arith, false, if◌then◌else◌, inl, inr, leb, le→leb, none,
  refl, true, ℕ, ◌&&◌, ◌++◌, ◌<◌, ◌||◌, ◌∙◌, ◌∷◌, ◌≡◌, ◌≤◌, ◌⊎◌,
}
use tabc.Text.{Text, text_eq, text_eq_iff, text_eq_refl}
use tabc.Table.{any, find}
use tabc.Ledger.{Ledger, seconds}
use tabc.Doorbell.{Poller, Ring, is_suppressing}
use tabc.Doorbell.Scan.{Group, Schema, greatest, is_group_of, is_snoozed, waiting_rows}
use tabc.Doorbell.Grouped.{highest, summary}
use tabc.Doorbell.Rounds.{
  decide, is_cooling, is_rung, is_same_ring, last_rung_high, record_ring, write_round,
}
use tabc.Doorbell.Due.{decide-find, decide-rings, due_list, is_mail}

last_rung_high-append :
    (to mode : Text) (rs : List Ring) (r : Ring)
    → last_rung_high to mode (rs ++ r ∷ []) ≡ (
        if is_rung to mode r
        then greatest (last_rung_high to mode rs) r.high_id
        else last_rung_high to mode rs)
unfolding last_rung_high greatest
last_rung_high-append to mode [] r = ground arith
last_rung_high-append to mode (x ∷ rs) r = ground (arith, last_rung_high-append to mode rs r)

same_ring-le :
    (to : Text) (high : ℕ) (mode outcome : Text) (rs : List Ring)
    → any (is_same_ring to high mode outcome) rs ≡ true
    → is_suppressing outcome ≡ true
    → high ≤ last_rung_high to mode rs
unfolding any last_rung_high greatest
same_ring-le to high mode outcome [] h k = absurd (ground arith)
same_ring-le to high mode outcome (r ∷ rs) h k =
    ground (arith, text_eq_iff r.outcome outcome, same_ring-le to high mode outcome rs)

-- Recording a ring moves the mark of its own recipient and mode only, and only if the outcome is
-- one of SUPPRESSING: then the mark is the greater of the old one and the ring's. Any other outcome,
-- known or not, leaves every mark.
pub record_ring-mark :
    (now mono : ℕ) (to : Text) (high unread : ℕ) (mode outcome : Text) (p : Poller)
    (who axis : Text)
    → last_rung_high who axis (record_ring now mono to high unread mode outcome p).1.led.rings ≡ (
        if text_eq to who && text_eq mode axis && is_suppressing outcome
        then greatest (last_rung_high who axis p.led.rings) high
        else last_rung_high who axis p.led.rings)
unfolding record_ring greatest
record_ring-mark now mono to high unread mode outcome p who axis =
    elim (Bool-cases (any (is_same_ring to high mode outcome) p.led.rings)) [
      | inl e ↦ rw e (
          ground (
            arith,
            text_eq_iff to who,
            text_eq_iff mode axis,
            same_ring-le to high mode outcome p.led.rings e,
          ))
      | inr e ↦ rw e (
          last_rung_high-append who axis p.led.rings (record {
            recipient = to;
            high_id = high;
            unread = unread;
            mode = mode;
            outcome = outcome;
            at = seconds now;
          }))
    ]

-- What the process does to its ledger: rounds of `decide`, and reports of rings.
pub data Step : Type 0 where
  round : ℕ → ℕ → Text → Schema → Text ⊎ Ledger → Step
  ring : ℕ → ℕ → Text → ℕ → ℕ → Text → Text → Step

unfoldable pub step : Step → Poller → Poller
step (round now mono mode s store) p = (decide now mono mode s store p).0
step (ring now mono to high unread mode outcome) p =
    (record_ring now mono to high unread mode outcome p).1

unfoldable pub run : List Step → Poller → Poller
run [] p = p
run (st ∷ sts) p = run sts (step st p)

pub decide-rings_kept :
    (now mono : ℕ) (mode : Text) (s : Schema) (store : Text ⊎ Ledger) (p : Poller)
    → (decide now mono mode s store p).0.led.rings ≡ p.led.rings
unfolding decide write_round
decide-rings_kept now mono mode s (inl e) p = refl
decide-rings_kept now mono mode s (inr l) p = refl

-- the step records a ring that moves the mark of the recipient and mode to an id or beyond
abbrev pub settles : Text → Text → ℕ → Step → Bool
settles who axis id (round now mono mode s store) = false
settles who axis id (ring now mono to high unread mode outcome) =
    text_eq to who && text_eq mode axis && is_suppressing outcome && leb id high

step-mark :
    (who axis : Text) (id : ℕ) (st : Step) (p : Poller)
    → (last_rung_high who axis p.led.rings ≤ last_rung_high who axis (step st p).led.rings)
      × (settles who axis id st ≡ false
          → last_rung_high who axis p.led.rings < id
          → last_rung_high who axis (step st p).led.rings < id)
unfolding step greatest
step-mark who axis id (round now mono mode s store) p =
    rw (decide-rings_kept now mono mode s store p) (ground arith)
step-mark who axis id (ring now mono to high unread mode outcome) p =
    ground (arith, record_ring-mark now mono to high unread mode outcome p who axis)

-- the mark never goes back
pub run-mark-le :
    (who axis : Text) (sts : List Step) (p : Poller)
    → last_rung_high who axis p.led.rings ≤ last_rung_high who axis (run sts p).led.rings
unfolding run
run-mark-le who axis [] p = omega arith
run-mark-le who axis (st ∷ sts) p =
    omega (arith, (step-mark who axis 0 st p).0, run-mark-le who axis sts (step st p))

run-mark-lt :
    (who axis : Text) (id : ℕ) (sts : List Step) (p : Poller)
    → any (settles who axis id) sts ≡ false
    → last_rung_high who axis p.led.rings < id
    → last_rung_high who axis (run sts p).led.rings < id
unfolding run any
run-mark-lt who axis id [] p h m = m
run-mark-lt who axis id (st ∷ sts) p h m =
    run-mark-lt who axis id sts (step st p) (ground arith)
      ((step-mark who axis id st p).1 (ground arith) m)

-- Mail is rung until a ring succeeds. Take unread mail above the mark of its recipient and mode, and
-- any history of rounds and recorded rings in which no SUPPRESSING outcome of that recipient and
-- mode reaches the delivery: a round after it has an entry that reaches the delivery, unless the node
-- is snoozed or an UNKNOWN of the last 30 seconds holds it back. Failures never bury mail.
pub run-rings :
    (sts : List Step) (now mono : ℕ) (mode : Text) (s : Schema) (l : Ledger) (p : Poller)
    (to : Text) (id : ℕ)
    → any (settles to mode id) sts ≡ false
    → last_rung_high to mode p.led.rings < id
    → any (is_mail s l to id) l.deliveries ≡ true
    → is_snoozed now s l to ≡ false
    → is_cooling mono mode (run sts p).unknown_attempts to ≡ false
    → any
        (λ g. is_group_of to g && leb id g.high)
        (due_list (decide now mono mode s (inr l) (run sts p)).1)
      ≡ true
run-rings sts now mono mode s l p to id unsettled above mail awake settled =
    decide-rings now mono mode s l (run sts p) to id mail awake settled
      (run-mark-lt to mode id sts p unsettled above)

hushed :
    (quiet held : Bool) {low : Bool} (o : Option Group)
    → low ≡ true
    → (if quiet || held || low then none else o) ≡ none
hushed quiet held o h = ground arith

-- at or under the mark there is no entry
pub decide-silent :
    (now mono : ℕ) (mode : Text) (s : Schema) (l : Ledger) (p : Poller) (to : Text)
    → highest to (waiting_rows s l) ≤ last_rung_high to mode p.led.rings
    → find (is_group_of to) (due_list (decide now mono mode s (inr l) p).1) ≡ none
decide-silent now mono mode s l p to low =
    decide-find now mono mode s l p to
    ∙ hushed (is_snoozed now s l to) (is_cooling mono mode p.unknown_attempts to)
        (summary to (waiting_rows s l))
        (le→leb (highest to (waiting_rows s l)) (last_rung_high to mode p.led.rings) low)

-- Mail is rung once. After a ring with a SUPPRESSING outcome is recorded, and whatever rounds and
-- rings follow, no round in that mode has an entry for the recipient while its unread mail has no
-- id above the recorded one.
pub run-silent :
    (sts : List Step) (now mono : ℕ) (mode outcome : Text) (s : Schema) (l : Ledger) (p : Poller)
    (to : Text) (at since high unread : ℕ)
    → is_suppressing outcome ≡ true
    → highest to (waiting_rows s l) ≤ high
    → let q = run sts (record_ring at since to high unread mode outcome p).1 in
      find (is_group_of to) (due_list (decide now mono mode s (inr l) q).1) ≡ none
unfolding greatest
run-silent sts now mono mode outcome s l p to at since high unread ok low =
    let p' = (record_ring at since to high unread mode outcome p).1 in
    let mark = record_ring-mark at since to high unread mode outcome p to mode in
    let later = run-mark-le to mode sts p' in
    decide-silent now mono mode s l (run sts p') to
      (ground (arith, mark, later, text_eq_refl to, text_eq_refl mode))
