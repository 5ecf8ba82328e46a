-- ===== src/Tests/Sending.antt =====
-- The theorems on `bus_send`, at a letter from alice to bob.
use tabc.Pending.{bus_pending_counts, pending_in}
use tabc.Pending.Raised.{bus_send-pending_in}
use tabc.Prelude.{
  All, Bool, [], arith, false, if◌then◌else◌, length, refl, some, true, ◌&&◌, ◌+◌, ◌==◌, ◌∷◌, ◌≡◌,
}
use tabc.Send.Write.{Ring, bus_send, conflict, resent, stored}
use tabc.Text.{Text, is_nonempty, mem_text, text_eq, txt}
use tabc.Table.{count, find}
use tabc.Ledger.{Ledger, Message, State, find_message, injected, is_program_node}
use tabc.Delivery.AckLadder.{IsKeyed}
use tabc.Send.Stored.{IsLinked}
use tabc.Send.Outcome.{bus_send-unstored, is_stored}
use tabc.Send.Envelope.{Envelope, pass}
use tabc.Send.Gates.{Cleared, clear}
use tabc.Send.Recipients.{Receives, clear-Receives, is_for_group}
use tabc.Send.Delivered.{IsConsistent, IsStoredAs, bus_send-IsConsistent, bus_send-delivers, times}
use tabc.Send.Retry.{bus_send-again}
use tabc.Send.Heard.{IsDirect, IsListening, NoneWaits, clear-heard}
use tabc.Tests.Data.{alice, bob, cleared_for, host, letter, office, robot, to_work, work}

-- The ledgers that the letters are sent on: bob has handled the older message, or not opened it.
abbrev read_ledger : Ledger
read_ledger = office injected 1

abbrev to_bob : Envelope
to_bob = letter (bob ∷ [])

abbrev to_bob_twice : Envelope
to_bob_twice = letter (bob ∷ bob ∷ [])

abbrev to_robot : Envelope
to_robot = letter (robot ∷ [])

abbrev tac_write : Cleared
tac_write = record (cleared_for (bob ∷ [])) { tac = some work }

abbrev hush : Ring → Bool
hush r = false

-- what the gates make of the four envelopes, and the answers
outcomes :
    (clear host read_ledger to_bob ≡ pass (cleared_for (bob ∷ [])))
    × (clear host read_ledger to_bob_twice ≡ pass (cleared_for (bob ∷ bob ∷ [])))
    × (clear host read_ledger to_work ≡ pass tac_write)
    × (is_stored (bus_send host 7000000 [] hush to_bob read_ledger).0 ≡ true)
    × (is_stored (bus_send host 7000000 [] hush to_robot read_ledger).0 ≡ false)
    × (clear host (bus_send host 7000000 [] hush to_bob read_ledger).1 to_bob
        ≡ pass (cleared_for (bob ∷ [])))
unfolding tabc.Send.Gates.clear tabc.Payload.check_send_payload tabc.Payload.type_refusal
    tabc.Payload.encoding_refusal tabc.Payload.is_broken tabc.Text.Unicode.encodes
    tabc.Text.Unicode.all_chars tabc.Payload.other_refusal tabc.Send.Envelope.other_text
    tabc.Payload.is_broken_field tabc.Payload.body_refusal tabc.Text.Unicode.is_blank
    tabc.Text.Unicode.is_space tabc.Text.Unicode.utf8_len tabc.Payload.subject_refusal
    tabc.Send.Gates.normal_expiry tabc.Ledger.is_registered tabc.Table.any tabc.Ledger.find_message
    tabc.Ledger.is_program_node tabc.Ledger.is_removed tabc.Ledger.tac_exists
    tabc.Payload.any_broken tabc.Send.Gates.all_recipients tabc.Send.Gates.blocking
    tabc.Send.Gates.broadcast_recipients tabc.Send.Gates.conversation_gate
    tabc.Send.Gates.expand_all tabc.Send.Gates.listed tabc.Send.Gates.open_tac_gate
    tabc.Send.Gates.others tabc.Send.Gates.programs_among tabc.Send.Gates.route
    tabc.Send.Gates.route_to tabc.Send.Gates.tac_gate tabc.Send.Gates.tac_members_of
    tabc.Send.Gates.unread_in tabc.Send.Gates.unread_of tabc.Send.Gates.valid_among tabc.Table.count
    tabc.Table.find tabc.Table.insert_by tabc.Table.order_by tabc.Table.select
    tabc.Tac.Identity.has_shape tabc.Tac.Identity.is_uuid_id tabc.Tac.Resolve.resolve
    tabc.Text.Order.text_le tabc.Text.Unicode.strip tabc.Text.Unicode.strip_back
    tabc.Text.Unicode.strip_front tabc.Text.text_eq tabc.Send.Write.thread_of
    tabc.Send.Write.reply_thread tabc.Send.Write.message_of tabc.Send.Write.new_deliveries
    tabc.Send.Write.is_priority tabc.Send.Write.is_reply_known tabc.Send.Write.stored_recipients
    tabc.Send.Write.is_same_envelope tabc.Send.Write.resend_answer tabc.Send.Write.store
    tabc.Send.Write.write tabc.Send.Write.bus_send tabc.Text.Order.has_duplicate
    tabc.Text.Order.texts_eq tabc.Text.mem_text
outcomes = (refl, refl, refl, refl, refl, refl)

one_row : (s : State) → IsKeyed (office s 1).deliveries
unfolding count
one_row s = record { once = λ node mid. ground arith }

read_ledger-IsLinked : IsLinked read_ledger
unfolding find_message find text_eq
read_ledger-IsLinked = (refl, tt)

read_ledger-IsConsistent : IsConsistent read_ledger
read_ledger-IsConsistent = record {
  keyed = one_row injected;
  linked = read_ledger-IsLinked;
  bounded = (omega arith, tt);
}

bus_send-delivers_example :
    let (r, l') = bus_send host 7000000 [] hush to_bob read_ledger in
    (c : Cleared) × (m : Message) × (clear host read_ledger to_bob ≡ pass c)
    × (r
        ≡ stored (txt "m1") c.valid (
            hush (record {
              recipients = c.valid;
              sender = alice;
              subject = m.subject;
              message_id = txt "m1";
            })))
    × (find_message l'.messages (txt "m1") ≡ some m)
    × IsStoredAs host 7 to_bob c (txt "m1") m
    × ((node : Text) → times l' node (txt "m1") ≡ (if mem_text node c.valid then 1 else 0))
bus_send-delivers_example =
    bus_send-delivers host 7000000 [] hush to_bob read_ledger read_ledger-IsLinked outcomes.3

bus_send-IsConsistent_example : IsConsistent (bus_send host 7000000 [] hush to_bob read_ledger).1
bus_send-IsConsistent_example =
    bus_send-IsConsistent host 7000000 [] hush to_bob read_ledger read_ledger-IsConsistent

bus_send-unstored_example : (bus_send host 7000000 [] hush to_robot read_ledger).1 ≡ read_ledger
bus_send-unstored_example = bus_send-unstored host 7000000 [] hush to_robot read_ledger outcomes.4

clear-Receives_example : All (Receives read_ledger) (bob ∷ []) × ((length (bob ∷ []) == 0) ≡ false)
clear-Receives_example = clear-Receives host read_ledger to_bob (cleared_for (bob ∷ [])) outcomes.0

clear-heard_example :
    ((given : Text)
      → some work ≡ some given
      → is_nonempty given ≡ true
      → IsListening read_ledger alice given × (some work ≡ some given))
    × (is_for_group to_work ≡ false
        → is_program_node read_ledger alice ≡ false
        → All (λ t. NoneWaits read_ledger alice (IsDirect t)) (bob ∷ []))
clear-heard_example = clear-heard host read_ledger to_work tac_write outcomes.2

bus_send-again_example :
    bus_send host 9000000 [] hush to_bob (bus_send host 7000000 [] hush to_bob read_ledger).1
    ≡ (resent (txt "m1"), (bus_send host 7000000 [] hush to_bob read_ledger).1)
bus_send-again_example =
    bus_send-again host 7000000 [] hush to_bob read_ledger (cleared_for (bob ∷ [])) 9000000 [] hush
      read_ledger-IsLinked refl refl outcomes.3 outcomes.0 outcomes.5

-- a letter that names bob twice is answered as if its id were taken, and nothing is stored
twice_conflicts :
    bus_send host 7000000 [] hush to_bob_twice read_ledger ≡ (conflict (txt "m1"), read_ledger)
unfolding tabc.Send.Gates.clear tabc.Payload.check_send_payload tabc.Payload.type_refusal
    tabc.Payload.encoding_refusal tabc.Payload.is_broken tabc.Text.Unicode.encodes
    tabc.Text.Unicode.all_chars tabc.Payload.other_refusal tabc.Send.Envelope.other_text
    tabc.Payload.is_broken_field tabc.Payload.body_refusal tabc.Text.Unicode.is_blank
    tabc.Text.Unicode.is_space tabc.Text.Unicode.utf8_len tabc.Payload.subject_refusal
    tabc.Send.Gates.normal_expiry tabc.Ledger.is_registered tabc.Table.any tabc.Ledger.find_message
    tabc.Ledger.is_program_node tabc.Ledger.is_removed tabc.Ledger.tac_exists
    tabc.Payload.any_broken tabc.Send.Gates.all_recipients tabc.Send.Gates.blocking
    tabc.Send.Gates.broadcast_recipients tabc.Send.Gates.conversation_gate
    tabc.Send.Gates.expand_all tabc.Send.Gates.listed tabc.Send.Gates.open_tac_gate
    tabc.Send.Gates.others tabc.Send.Gates.programs_among tabc.Send.Gates.route
    tabc.Send.Gates.route_to tabc.Send.Gates.tac_gate tabc.Send.Gates.tac_members_of
    tabc.Send.Gates.unread_in tabc.Send.Gates.unread_of tabc.Send.Gates.valid_among tabc.Table.count
    tabc.Table.find tabc.Table.insert_by tabc.Table.order_by tabc.Table.select
    tabc.Tac.Identity.has_shape tabc.Tac.Identity.is_uuid_id tabc.Tac.Resolve.resolve
    tabc.Text.Order.text_le tabc.Text.Unicode.strip tabc.Text.Unicode.strip_back
    tabc.Text.Unicode.strip_front tabc.Text.text_eq tabc.Send.Write.thread_of
    tabc.Send.Write.reply_thread tabc.Send.Write.message_of tabc.Send.Write.new_deliveries
    tabc.Send.Write.is_priority tabc.Send.Write.is_reply_known tabc.Send.Write.stored_recipients
    tabc.Send.Write.is_same_envelope tabc.Send.Write.resend_answer tabc.Send.Write.store
    tabc.Send.Write.write tabc.Send.Write.bus_send tabc.Text.Order.has_duplicate
    tabc.Text.Order.texts_eq tabc.Text.mem_text
twice_conflicts = refl

bus_send-pending_in_example :
    let l' = (bus_send host 7000000 [] hush to_bob read_ledger).1 in
    (c : Cleared) × (clear host read_ledger to_bob ≡ pass c)
    × (pending_in (bus_pending_counts l' alice) bob
        ≡ pending_in (bus_pending_counts read_ledger alice) bob
          + (if text_eq alice alice && mem_text bob c.valid then 1 else 0))
bus_send-pending_in_example =
    bus_send-pending_in host 7000000 [] hush to_bob read_ledger alice bob read_ledger-IsLinked
      outcomes.3
