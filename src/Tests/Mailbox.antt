-- ===== src/Tests/Mailbox.antt =====
-- The theorems on the mailbox, at bob's copy of one message.
use tabc.Prelude.{All, List, [], arith, map, none, refl, true, ◌∷◌, ◌≡◌, ◌≢◌}
use tabc.Text.{txt}
use tabc.Table.{any, count, find}
use tabc.Ledger.{Delivery, Ledger, accepted, claimed, injected, read}
use tabc.Delivery.{Row}
use tabc.Delivery.Claim.{Request, claim_new, claim_rows}
use tabc.Delivery.AckLadder.{IsKeyed}
use tabc.Delivery.Attempts.{IsBounded, run-IsBounded}
use tabc.Delivery.Ack.{bus_ack, moved, target_of}
use tabc.Delivery.Envelope.{IsSound, validate_envelope}
use tabc.Delivery.Follows.{Onward}
use tabc.Delivery.History.{Op, ack, claim, run, run-Onward}
use tabc.Delivery.Handed.{claim_new-out, is_leased, was_free}
use tabc.Delivery.Winners.{claim_rows_exclusive}
use tabc.Tests.Data.{bob, host, office, older}

abbrev waiting : Ledger
waiting = office accepted 0

abbrev for_bob : Request
for_bob = record {
  node = bob;
  limit = 20;
  priority = none;
  lease_sec = none;
  claimed_by = txt "s1";
}

abbrev history : List Op
history =
    claim 7000000 for_bob
    ∷ ack 8000000 bob (txt "m0") (txt "INJECTED")
    ∷ ack 9000000 bob (txt "m0") (txt "READ")
    ∷ []

waiting-IsKeyed : IsKeyed waiting.deliveries
unfolding count
waiting-IsKeyed = record { once = λ node mid. ground arith }

-- the message is claimed, handed over and read
history_end : map Delivery.state (run host history waiting).deliveries ≡ read ∷ []
unfolding run tabc.Delivery.History.apply bus_ack target_of tabc.Text.text_eq
    tabc.Delivery.Ack.ack_target find claim_new tabc.Ledger.is_removed any claim_rows
    tabc.Delivery.Claim.select_new tabc.Table.order_by tabc.Table.select tabc.Delivery.join_rows
    tabc.Delivery.Claim.recover tabc.Table.update_where tabc.Delivery.Claim.claim_checked
    tabc.Delivery.Claim.claim_one tabc.Delivery.Claim.take_lease
    tabc.Delivery.Envelope.expiry_problem validate_envelope tabc.Delivery.has_priority
    tabc.Delivery.priority_rank tabc.Delivery.row_le tabc.Ledger.find_message count
    tabc.Table.insert_by
history_end = refl

older_row : Row
older_row = record { did = 1; state = accepted; attempts = 0; message = older }

run-Onward_example : Onward waiting.deliveries (run host history waiting).deliveries
run-Onward_example = run-Onward host history waiting waiting-IsKeyed

run-IsBounded_example : All IsBounded (run host history waiting).deliveries
run-IsBounded_example = run-IsBounded host history waiting (omega arith, tt)

claim_new-out_example :
    let (c, l') = claim_new host 7000000 for_bob waiting in
    All
      (λ s.
        (any (was_free bob 7 s.did) waiting.deliveries ≡ true)
        × IsSound host 7000000 s.message
        × (s.state ≡ claimed)
        × (any (is_leased (txt "s1") s.did) l'.deliveries ≡ true))
      c.out
claim_new-out_example = claim_new-out host 7000000 for_bob waiting

claim_rows_exclusive_example :
    let (c, ds') = claim_rows host 7000000 127 (txt "s1") (older_row ∷ []) waiting.deliveries in
    All
      (λ r.
        All
          (λ s. s.did ≢ r.did)
          (claim_rows host 8000000 128 (txt "s2") (older_row ∷ []) ds').0.out)
      c.out
claim_rows_exclusive_example =
    claim_rows_exclusive host 7000000 8000000 127 128 (txt "s1") (txt "s2") (older_row ∷ [])
      (older_row ∷ []) waiting.deliveries

read_moves : (bus_ack 8000000 bob (txt "m0") (txt "READ") (office injected 1)).0 ≡ moved
unfolding bus_ack target_of tabc.Text.text_eq tabc.Delivery.Ack.ack_target find
read_moves = refl
