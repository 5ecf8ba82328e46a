-- ===== src/Tests/Ringing.antt =====
-- The theorems on the poller of the doorbell, at bob's copy of one message.
use tabc.Prelude.{
  List, [], arith, if◌then◌else◌, inl, inr, leb, map, none, refl, true, ◌&&◌, ◌||◌, ◌∷◌, ◌≡◌,
}
use tabc.Text.{Text, mem_text, text_eq, txt}
use tabc.Table.{any, count, find}
use tabc.Ledger.{Ledger, accepted}
use tabc.Doorbell.{Poller, Ring}
use tabc.Doorbell.Scan.{Group, Schema, greatest, is_group_of, is_snoozed, waiting_rows}
use tabc.Doorbell.Grouped.{highest, summary}
use tabc.Doorbell.Rounds.{decide, is_cooling, last_rung_high, record_ring}
use tabc.Doorbell.Due.{decide-find, due_list}
use tabc.Doorbell.Watermark.{Step, ring, round, run, run-rings, run-silent, step}
use tabc.Doorbell.Once.{IsPlain, run-IsPlain}
use tabc.Tests.Data.{alice, bob, office}

abbrev now_open : Ledger
now_open = office accepted 0

abbrev migrated : Schema
migrated = record { has_removed = true; has_broadcast = true; has_snooze = true }

abbrev fresh : Poller
fresh = record {
  led = record { observations = []; rings = []; rounds = [] };
  unknown_attempts = [];
}

abbrev live : Text
live = txt "LIVE"

-- a round, a ring of bob's that failed, a round without the now_open, and a ring of alice's
abbrev failing : List Step
failing =
    round 1000000 1000000 live migrated (inr now_open)
    ∷ ring 1000000 1000000 bob 1 1 live (txt "GONE")
    ∷ round 3000000 3000000 live migrated (inl (txt "OperationalError: unable to open"))
    ∷ ring 3000000 3000000 alice 4 2 live (txt "SUCCESS")
    ∷ []

failing_rings : map Ring.outcome (run failing fresh).led.rings ≡ txt "GONE" ∷ txt "SUCCESS" ∷ []
unfolding run step decide record_ring any text_eq tabc.Doorbell.Rounds.write_round
failing_rings = refl

due_now :
    map Group.high (due_list (decide 9 9 live migrated (inr now_open) (run failing fresh)).1)
    ≡ 1 ∷ []
unfolding run step decide record_ring any text_eq tabc.Doorbell.Rounds.visit
    tabc.Doorbell.Scan.scan_unread tabc.Table.select tabc.Table.order_by
    tabc.Doorbell.Scan.group_rows tabc.Doorbell.Scan.unread_rows tabc.Doorbell.Scan.is_waiting
    tabc.Ledger.is_removed tabc.Ledger.find_message find tabc.Doorbell.Scan.group_row is_snoozed
    tabc.Doorbell.Scan.add_to tabc.Doorbell.Rounds.is_due last_rung_high
    tabc.Doorbell.Rounds.write_round mem_text is_cooling tabc.Doorbell.Rounds.note_attempt
    tabc.Doorbell.Rounds.observe tabc.Doorbell.Rounds.total_unread greatest
    tabc.Doorbell.Scan.unread_le tabc.Table.delete_where tabc.Table.insert_by
    tabc.Text.Order.text_le
due_now = refl

decide-find_example :
    find
      (is_group_of bob)
      (due_list (decide 9 9 live migrated (inr now_open) (run failing fresh)).1)
    ≡ (if is_snoozed 9 migrated now_open bob
          || is_cooling 9 live (run failing fresh).unknown_attempts bob
          || leb
              (highest bob (waiting_rows migrated now_open))
              (last_rung_high bob live (run failing fresh).led.rings)
        then none
        else summary bob (waiting_rows migrated now_open))
decide-find_example = decide-find 9 9 live migrated now_open (run failing fresh) bob

run-rings_example :
    any
      (λ g. is_group_of bob g && leb 1 g.high)
      (due_list (decide 9 9 live migrated (inr now_open) (run failing fresh)).1)
    ≡ true
unfolding any text_eq mem_text last_rung_high tabc.Doorbell.Scan.is_waiting tabc.Ledger.is_removed
    tabc.Ledger.find_message find is_snoozed is_cooling run step record_ring decide
    tabc.Doorbell.Rounds.write_round tabc.Doorbell.Rounds.note_attempt tabc.Table.delete_where
run-rings_example =
    run-rings failing 9 9 live migrated now_open fresh bob 1 refl (omega arith) refl refl refl

run-silent_example :
    find (is_group_of bob) (
      due_list
        (decide 9 9 live migrated
          (inr now_open)
          (run failing (record_ring 0 0 bob 1 1 live (txt "SUCCESS") fresh).1)).1)
    ≡ none
unfolding any text_eq mem_text highest tabc.Table.order_by tabc.Doorbell.Scan.unread_rows
    tabc.Table.select tabc.Doorbell.Scan.is_waiting tabc.Ledger.is_removed tabc.Ledger.find_message
    find greatest
run-silent_example =
    run-silent failing 9 9 live (txt "SUCCESS") migrated now_open fresh bob 0 0 1 1 refl
      (omega arith)

fresh-IsPlain : IsPlain fresh.led
unfolding count
fresh-IsPlain = record {
  one_ring = λ to high mode outcome. omega arith;
  one_sight = λ to mid. omega arith;
}

run-IsPlain_example : IsPlain (run failing fresh).led
run-IsPlain_example = run-IsPlain failing fresh fresh-IsPlain
