-- ===== src/Doorbell/Once.antt =====
-- The guards of tabus/doorbell_poll.py against a second row of one fact.
use tabc.Table.Laws.{count-append, count-eq_zero}
use tabc.Doorbell.Watermark.{Step, ring, round, run, step}
use tabc.Prelude.{
  ==_iff, Bool, Bool-cases, List, [], ap, ap₂, arith, false, inl, inr, refl, sym, true, ℕ, ◌&&◌,
  ◌++◌, ◌==◌, ◌∙◌, ◌∷◌, ◌≡◌, ◌≤◌, ◌⊎◌,
}
use tabc.Text.{Text, text_eq, text_eq_iff}
use tabc.Table.{any, count}
use tabc.Table.Counts.{count-single_false, count-single_le}
use tabc.Ledger.{Ledger, seconds}
use tabc.Doorbell.{Observation, Poller, RingLedger}
use tabc.Doorbell.Scan.{Group, Schema, scan_unread}
use tabc.Doorbell.Rounds.{
  decide, is_observed, is_same_ring, observe, record_ring, visit, write_round,
}

-- No two rows of a table agree on what its guard looks at.
pub record IsPlain (led : RingLedger) : Type 0 where
  pub one_ring :
      (to : Text) (high : ℕ) (mode outcome : Text)
      → count (is_same_ring to high mode outcome) led.rings ≤ 1
  pub one_sight : (to mid : Text) → count (is_observed to mid) led.observations ≤ 1

-- a row that no row is like can be added
count-append_new :
    {A : Type 0} (p q : A → Bool) (xs : List A) (x : A)
    → any q xs ≡ false
    → (p x ≡ true → p ≡ q)
    → count p xs ≤ 1
    → count p (xs ++ x ∷ []) ≤ 1
unfolding count
count-append_new p q xs x new same h = elim (Bool-cases (p x)) [
  | inl e ↦ omega (
    arith,
    count-append p xs (x ∷ []),
    ap (λ t. count t xs) (same e) ∙ count-eq_zero q xs new,
    count-single_le p x,
  )
  | inr e ↦ omega (arith, count-append p xs (x ∷ []), count-single_false p x e)
]

observe-once :
    (ts : ℕ) (to : Text) (mids : List Text) (os : List Observation) (who mid : Text)
    → count (is_observed who mid) os ≤ 1
    → count (is_observed who mid) (observe ts to mids os) ≤ 1
unfolding observe
observe-once ts to [] os who mid h = h
observe-once ts to (m ∷ mids) os who mid h =
    observe-once ts to mids _ who mid (elim (Bool-cases (any (is_observed to m) os)) [
      | inl e ↦ rw e h
      | inr e ↦ rw e (
          count-append_new (is_observed who mid) (is_observed to m) os _ e
            (λ k.
              ap₂ is_observed (sym ((text_eq_iff to who).0 (ground arith)))
                (sym ((text_eq_iff m mid).0 (ground arith))))
            h)
    ])

visit-once :
    (ts mono : ℕ) (mode : Text) (p : Poller) (gs : List Group) (os : List Observation)
    (who mid : Text)
    → count (is_observed who mid) os ≤ 1
    → count (is_observed who mid) (visit ts mono mode p gs os).0 ≤ 1
unfolding visit
visit-once ts mono mode p [] os who mid h = h
visit-once ts mono mode p (g ∷ gs) os who mid h =
    visit-once ts mono mode p gs (observe ts g.recipient g.ids os) who mid
      (observe-once ts g.recipient g.ids os who mid h)

decide-IsPlain :
    (now mono : ℕ) (mode : Text) (s : Schema) (store : Text ⊎ Ledger) (p : Poller)
    → IsPlain p.led
    → IsPlain (decide now mono mode s store p).0.led
unfolding decide write_round
decide-IsPlain now mono mode s (inl e) p h = record {
  one_ring = h.one_ring;
  one_sight = h.one_sight;
}
decide-IsPlain now mono mode s (inr l) p h = record {
  one_ring = h.one_ring;
  one_sight = λ who mid.
      visit-once (seconds now) mono mode p (scan_unread now s l) p.led.observations who mid
        (h.one_sight who mid);
}

same_ring :
    (to : Text) (high : ℕ) (mode outcome who : Text) (top : ℕ) (axis result : Text)
    → (text_eq to who && high == top && text_eq mode axis && text_eq outcome result) ≡ true
    → is_same_ring who top axis result ≡ is_same_ring to high mode outcome
same_ring to high mode outcome who top axis result k =
    let a = (text_eq_iff to who).0 (ground arith) in
    let b = (==_iff high top).0 (ground arith) in
    let c = (text_eq_iff mode axis).0 (ground arith) in
    let d = (text_eq_iff outcome result).0 (ground arith) in rw (a, b, c, d) refl

record_ring-once :
    (now mono : ℕ) (to : Text) (high unread : ℕ) (mode outcome : Text) (p : Poller) (who : Text)
    (top : ℕ) (axis result : Text)
    → count (is_same_ring who top axis result) p.led.rings ≤ 1
    → count
        (is_same_ring who top axis result)
        (record_ring now mono to high unread mode outcome p).1.led.rings
      ≤ 1
unfolding record_ring
record_ring-once now mono to high unread mode outcome p who top axis result h =
    elim (Bool-cases (any (is_same_ring to high mode outcome) p.led.rings)) [
      | inl e ↦ rw e h
      | inr e ↦ rw e (
          count-append_new (is_same_ring who top axis result) (is_same_ring to high mode outcome)
            p.led.rings _ e (same_ring to high mode outcome who top axis result) h)
    ]

record_ring-sights :
    (now mono : ℕ) (to : Text) (high unread : ℕ) (mode outcome : Text) (p : Poller)
    → (record_ring now mono to high unread mode outcome p).1.led.observations ≡ p.led.observations
unfolding record_ring
record_ring-sights now mono to high unread mode outcome p = ground arith

step-IsPlain : (st : Step) (p : Poller) → IsPlain p.led → IsPlain (step st p).led
unfolding step
step-IsPlain (round now mono mode s store) p h = decide-IsPlain now mono mode s store p h
step-IsPlain (ring now mono to high unread mode outcome) p h = record {
  one_ring = λ who top axis result.
      record_ring-once now mono to high unread mode outcome p who top axis result
        (h.one_ring who top axis result);
  one_sight = λ who mid.
      rw (record_ring-sights now mono to high unread mode outcome p) (h.one_sight who mid);
}

-- Over any history of rounds, failed ones included, and of recorded rings, each tuple of recipient,
-- greatest id, mode and outcome has one row of the rings at most, and each message of a recipient
-- one row of the observations.
pub run-IsPlain : (sts : List Step) (p : Poller) → IsPlain p.led → IsPlain (run sts p).led
unfolding run
run-IsPlain [] p h = h
run-IsPlain (st ∷ sts) p h = run-IsPlain sts (step st p) (step-IsPlain st p h)
