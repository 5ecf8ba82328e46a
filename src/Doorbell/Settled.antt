-- ===== src/Doorbell/Settled.antt =====
-- The observing loop of tabus/doorbell_poll.py, round after round.
use tabc.Prelude.{
  Bool-cases, List, [], arith, false, inl, inr, leb, length, ltb, ltb→lt, none, refl, true, ℕ, ◌&&◌,
  ◌∷◌, ◌≡◌, ◌≤◌,
}
use tabc.Text.{Text, mem_text, text_eq, text_eq_refl, txt}
use tabc.Table.{any, find}
use tabc.Ledger.{Ledger}
use tabc.Doorbell.{Poller, is_suppressing}
use tabc.Doorbell.Scan.{Group, Schema, greatest, is_group_of, is_snoozed, waiting_rows}
use tabc.Doorbell.Grouped.{highest}
use tabc.Doorbell.Rounds.{
  decide, is_cooling, last_rung_high, record_ring, shadow_rings, shadow_round,
}
use tabc.Doorbell.Due.{decide-reaches, due_list}
use tabc.Doorbell.Watermark.{decide-rings_kept, decide-silent, record_ring-mark}

abbrev pub observing : Text
observing = txt "SHADOW"

shadow_only_suppresses : is_suppressing (txt "SHADOW_ONLY") ≡ true
unfolding mem_text text_eq
shadow_only_suppresses = refl

-- recording what was found due moves the mark of each recipient to its entry
shadow_rings-mark :
    (now mono : ℕ) (to : Text) (id : ℕ) (gs : List Group) (p : Poller)
    → (last_rung_high to observing p.led.rings
        ≤ last_rung_high to observing (shadow_rings now mono gs p).led.rings)
      × (any (λ g. is_group_of to g && leb id g.high) gs ≡ true
          → id ≤ last_rung_high to observing (shadow_rings now mono gs p).led.rings)
unfolding any shadow_rings greatest
shadow_rings-mark now mono to id [] p = (omega arith, λ h. absurd (ground arith))
shadow_rings-mark now mono to id (g ∷ gs) p =
    let p' =
      (record_ring now mono g.recipient g.high (length g.ids) observing (txt "SHADOW_ONLY") p).1 in
    let here =
      record_ring-mark now mono g.recipient g.high (length g.ids) observing (txt "SHADOW_ONLY") p to
        observing in
    let rest = shadow_rings-mark now mono to id gs p' in
    ground (arith, here, rest, text_eq_refl observing, shadow_only_suppresses)

round-reaches :
    (now mono : ℕ) (s : Schema) (l : Ledger) (p : Poller) (to : Text)
    → is_snoozed now s l to ≡ false
    → is_cooling mono observing p.unknown_attempts to ≡ false
    → highest to (waiting_rows s l)
      ≤ last_rung_high to observing (shadow_round now mono s (inr l) p).led.rings
unfolding shadow_round decide
round-reaches now mono s l p to awake settled =
    let top = highest to (waiting_rows s l) in
    let p' = (decide now mono observing s (inr l) p).0 in
    let out = due_list (decide now mono observing s (inr l) p).1 in
    let marks = shadow_rings-mark now mono to top out p' in
    let kept = decide-rings_kept now mono observing s (inr l) p in
    elim (Bool-cases (ltb (last_rung_high to observing p.led.rings) top)) [
      | inl e ↦ marks.1 (
          decide-reaches now mono observing s l p to top awake settled
            (ltb→lt (last_rung_high to observing p.led.rings) top e) (omega arith))
      | inr e ↦ ground (arith, marks.0, kept)
    ]

-- After one observing round the mark of a recipient that was awake, and not held back by an UNKNOWN,
-- is at its unread mail or beyond, so no later observing round, over any store in which that mail
-- has no greater id, has an entry for it.
pub shadow_round-settles :
    (now mono later again : ℕ) (s s' : Schema) (l l' : Ledger) (p : Poller) (to : Text)
    → is_snoozed now s l to ≡ false
    → is_cooling mono observing p.unknown_attempts to ≡ false
    → highest to (waiting_rows s' l') ≤ highest to (waiting_rows s l)
    → let q = shadow_round now mono s (inr l) p in
      (highest to (waiting_rows s l) ≤ last_rung_high to observing q.led.rings)
      × (find (is_group_of to) (due_list (decide later again observing s' (inr l') q).1) ≡ none)
shadow_round-settles now mono later again s s' l l' p to awake settled low =
    let reached = round-reaches now mono s l p to awake settled in
    (
      reached,
      decide-silent later again observing s' l' (shadow_round now mono s (inr l) p) to
          (omega (arith, low, reached)),
    )
