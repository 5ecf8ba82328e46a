-- ===== src/Send/Outcome.antt =====
-- What an answer of `bus_send` says of the ledger.
use tabc.Prelude.{Bool, arith, false, inl, inr, none, refl, true, ℕ, ◌≡◌}
use tabc.Text.{Text, text_or}
use tabc.Text.Order.{has_duplicate}
use tabc.Host.{Host}
use tabc.Ledger.{Ledger, find_message, seconds}
use tabc.Send.Envelope.{Envelope, Gate-cases, pass}
use tabc.Send.Gates.{Cleared, clear}
use tabc.Send.Write.{
  Ring, Sent, bus_send, is_priority, is_reply_known, resend_answer, ring_for, store, stored, write,
}

-- the answer says that a message was stored
abbrev pub is_stored : Sent → Bool
is_stored (stored mid ts b) = true
is_stored _ = false

-- what a stored write went through
write-stored :
    (h : Host) (now : ℕ) (fresh : Text) (ringer : Ring → Bool) (e : Envelope) (c : Cleared)
    (l : Ledger)
    → is_stored (write h now fresh ringer e c l).0 ≡ true
    → let mid = text_or e.message_id fresh in
      (write h now fresh ringer e c l
        ≡ (stored mid c.valid (ringer (ring_for e c mid)), store h (seconds now) l e c mid))
      × (is_priority e.priority ≡ true)
      × (find_message l.messages mid ≡ none)
      × (is_reply_known l mid e.reply_to ≡ true)
      × (has_duplicate c.valid ≡ false)
unfolding write resend_answer
write-stored h now fresh ringer e c l s = ground arith

module _ (h : Host) (now : ℕ) (fresh : Text) (ringer : Ring → Bool) (e : Envelope)
    (l : Ledger) where
  -- Any answer but `stored` leaves the ledger as it was: a refusal at any gate, an identical
  -- envelope that comes again, a conflict, and an error that is raised.
  pub bus_send-unstored :
      is_stored (bus_send h now fresh ringer e l).0 ≡ false
      → (bus_send h now fresh ringer e l).1 ≡ l
  unfolding bus_send write resend_answer
  bus_send-unstored s = ground arith

  -- what a stored answer went through
  pub bus_send-stored :
      is_stored (bus_send h now fresh ringer e l).0 ≡ true
      → let mid = text_or e.message_id fresh in
        (c : Cleared) × (clear h l e ≡ pass c)
        × ((bus_send h now fresh ringer e l
              ≡ (stored mid c.valid (ringer (ring_for e c mid)), store h (seconds now) l e c mid))
            × (is_priority e.priority ≡ true)
            × (find_message l.messages mid ≡ none)
            × (is_reply_known l mid e.reply_to ≡ true)
            × (has_duplicate c.valid ≡ false))
  unfolding bus_send
  bus_send-stored s = elim (Gate-cases (clear h l e)) [
    | inl (r, g) ↦ absurd (ground arith)
    | inr (c, g) ↦
        rw (g, bus_send) (c, refl, write-stored h now fresh ringer e c l (rw (g, bus_send) at s))
  ]
