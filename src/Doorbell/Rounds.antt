-- ===== src/Doorbell/Rounds.antt =====
-- A round of the poller in tabus/doorbell_poll.py: what it observes, which recipients it finds due,
-- and how the caller's report of a ring is recorded.
use tabc.Prelude.{
  Bool, List, Option, [], false, if◌then◌else◌, inl, inr, length, ltb, none, not, some, true, ℕ,
  ◌&&◌, ◌++◌, ◌+◌, ◌==◌, ◌∷◌, ◌⊎◌,
}
use tabc.Text.{Text, text_eq, txt}
use tabc.Table.{any, delete_where, find}
use tabc.Ledger.{Ledger, seconds}
use tabc.Doorbell.{Attempt, Observation, Poller, Ring, RingLedger, is_suppressing, unknown_retry}
use tabc.Doorbell.Scan.{Group, Schema, greatest, scan_unread}

abbrev pub is_observed : Text → Text → Observation → Bool
is_observed to mid o = text_eq o.recipient to && text_eq o.message_id mid

-- INSERT OR IGNORE INTO observations, for each message
unfoldable pub observe : ℕ → Text → List Text → List Observation → List Observation
observe ts to [] os = os
observe ts to (mid ∷ mids) os = observe ts to mids (
    if any (is_observed to mid) os
    then os
    else os ++ record { recipient = to; message_id = mid; first_seen_at = ts } ∷ [])

-- `WHERE recipient=? AND mode=? AND outcome IN (...)`
abbrev pub is_rung : Text → Text → Ring → Bool
is_rung to mode r = text_eq r.recipient to && text_eq r.mode mode && is_suppressing r.outcome

-- `coalesce(max(high_id), 0)`
unfoldable pub last_rung_high : Text → Text → List Ring → ℕ
last_rung_high to mode [] = 0
last_rung_high to mode (r ∷ rs) =
    let rest = last_rung_high to mode rs in
    if is_rung to mode r then greatest r.high_id rest else rest

abbrev pub is_attempt : Text → Text → Attempt → Bool
is_attempt to mode a = text_eq a.recipient to && text_eq a.mode mode

unfoldable pub is_cooling : ℕ → Text → List Attempt → Text → Bool
is_cooling mono mode attempts to = elim (find (is_attempt to mode) attempts) [
  | none ↦ false
  | some a ↦ ltb mono (a.since + unknown_retry)
]

unfoldable pub is_due : ℕ → Text → Poller → Group → Bool
is_due mono mode p g =
    ltb (last_rung_high g.recipient mode p.led.rings) g.high
    && not (is_cooling mono mode p.unknown_attempts g.recipient)

-- the loop of `decide`: the observations, and what should ring
unfoldable pub visit :
    ℕ → ℕ → Text → Poller → List Group → List Observation → List Observation × List Group
visit ts mono mode p [] os = (os, [])
visit ts mono mode p (g ∷ gs) os =
    let (os', out) = visit ts mono mode p gs (observe ts g.recipient g.ids os) in
    (os', if is_due mono mode p g then g ∷ out else out)

unfoldable pub total_unread : List Group → ℕ
total_unread [] = 0
total_unread (g ∷ gs) = length g.ids + total_unread gs

unfoldable pub write_round :
    ℕ → Text → Text → Option ℕ → Option ℕ → Option ℕ → Option Text → RingLedger → RingLedger
write_round ts mode status recipients unread would_ring err led = record led {
  rounds =
      led.rounds
      ++ record {
        at = ts;
        mode = mode;
        status = status;
        recipients = recipients;
        unread = unread;
        would_ring = would_ring;
        err = err;
      }
        ∷ [];
}

-- `decide` on a store that was read, or on the exception that ended the round before its commit,
-- shown as the code shows it. The observations and the round's row are one transaction.
unfoldable pub decide :
    ℕ → ℕ → Text → Schema → Text ⊎ Ledger → Poller → Poller × (Text ⊎ List Group)
decide now mono mode s (inl e) p = (
  record p { led = write_round (seconds now) mode (txt "ERROR") none none none (some e) p.led },
  inl e,
)
decide now mono mode s (inr l) p =
    let found = scan_unread now s l in
    let (os, out) = visit (seconds now) mono mode p found p.led.observations in
    (
      record p {
        led =
            write_round (seconds now) mode (txt "OK") (some (length found))
              (some (total_unread found)) (some (length out)) none
              (record p.led { observations = os });
      },
      inr out,
    )

-- `SELECT 1 FROM rings WHERE recipient=? AND high_id=? AND mode=? AND outcome=?`
abbrev pub is_same_ring : Text → ℕ → Text → Text → Ring → Bool
is_same_ring to high mode outcome r =
    text_eq r.recipient to && r.high_id == high && text_eq r.mode mode && text_eq r.outcome outcome

-- `_unknown_attempts` set after an UNKNOWN, and else forgotten
unfoldable pub note_attempt : ℕ → Text → Text → Text → List Attempt → List Attempt
note_attempt mono to mode outcome attempts =
    let rest = delete_where (is_attempt to mode) attempts in
    if text_eq outcome (txt "UNKNOWN")
    then record { recipient = to; mode = mode; since = mono } ∷ rest
    else rest

-- whether a row was written, and the poller afterwards
unfoldable pub record_ring : ℕ → ℕ → Text → ℕ → ℕ → Text → Text → Poller → Bool × Poller
record_ring now mono to high unread mode outcome p =
    let attempts = note_attempt mono to mode outcome p.unknown_attempts in
    if any (is_same_ring to high mode outcome) p.led.rings
    then (false, record p { unknown_attempts = attempts })
    else (
      true,
      record {
        led = record p.led {
          rings =
              p.led.rings
              ++ record {
                recipient = to;
                high_id = high;
                unread = unread;
                mode = mode;
                outcome = outcome;
                at = seconds now;
              }
                ∷ [];
        };
        unknown_attempts = attempts;
      },
    )

-- the loop of `main` that only observes: every recipient found due is recorded as SHADOW_ONLY
unfoldable pub shadow_rings : ℕ → ℕ → List Group → Poller → Poller
shadow_rings now mono [] p = p
shadow_rings now mono (g ∷ gs) p =
    shadow_rings now mono gs
      (record_ring now mono g.recipient g.high (length g.ids) (txt "SHADOW") (txt "SHADOW_ONLY")
        p).1

-- one pass of its `while True`; a round that raised is printed, and the next one follows
unfoldable pub shadow_round : ℕ → ℕ → Schema → Text ⊎ Ledger → Poller → Poller
shadow_round now mono s store p =
    let (p', out) = decide now mono (txt "SHADOW") s store p in
    elim out [ inl e ↦ p' | inr due ↦ shadow_rings now mono due p' ]
