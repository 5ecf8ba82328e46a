-- ===== src/Send/Cleared.antt =====
-- What the gates of `bus_send` have made sure of when they let an envelope pass.
use tabc.Prelude.{
  Bool, List, Option, ap, arith, false, length, none, not, refl, some, sym, true, ◌==◌, ◌≡◌,
}
use tabc.Text.{Text}
use tabc.Host.{Host}
use tabc.Ledger.{Ledger, is_registered, is_removed}
use tabc.Payload.{check_send_payload}
use tabc.Send.Envelope.{
  >>=-eq_pass, Envelope, Gate, SendRefusal, other_text, pass, payload, stop_if-eq_pass, stop_on,
}
use tabc.Send.Gates.{
  Cleared, clear, conversation_gate, expand_all, normal_expiry, programs_among, route, valid_among,
}

stop_on-eq_pass :
    {A : Type 0} (o : Option A) (f : A → SendRefusal) {u : Unit {0}}
    → stop_on o f ≡ pass u
    → o ≡ none
stop_on-eq_pass none f h = refl
stop_on-eq_pass (some a) f h = absurd (ground arith)

pub not-eq_false : (b : Bool) → not b ≡ false → b ≡ true
not-eq_false true h = refl
not-eq_false false h = absurd (ground arith)

pass-injective : (a b : Cleared) → ◌≡◌ {A = Gate Cleared} (pass a) (pass b) → a ≡ b
pass-injective a b h = cc

-- what the routing of a cleared envelope found
pub record Routed (l : Ledger) (e : Envelope) (c : Cleared) (routed : Option Text × List Text)
    : Type 0 where
  pub to : route l e ≡ pass routed
  pub tac_kept : c.tac ≡ routed.0
  pub no_program : (length (programs_among l (expand_all l e.sender routed.1)) == 0) ≡ true
  pub valid_kept : c.valid ≡ valid_among l (expand_all l e.sender routed.1)
  pub some_valid : (length c.valid == 0) ≡ false
  pub heard : conversation_gate l e c.valid ≡ pass tt

-- the stages of `clear`, with what each found
pub clear-stages :
    (h : Host) (l : Ledger) (e : Envelope) (c : Cleared)
    → clear h l e ≡ pass c
    → (check_send_payload e.subject e.body (other_text e) ≡ none)
      × (is_registered l e.sender ≡ true)
      × (is_removed l e.sender ≡ false)
      × ((routed : Option Text × List Text) × Routed l e c routed)
unfolding clear
clear-stages h l e c s =
    let (u, p0, s0) =
      >>=-eq_pass (stop_on (check_send_payload e.subject e.body (other_text e)) payload) _ s in
    let (x, p1, s1) = >>=-eq_pass (normal_expiry h e.expires_at) _ s0 in
    let (p2, s2) = stop_if-eq_pass _ _ _ s1 in
    let (p3, s3) = stop_if-eq_pass _ _ _ s2 in
    let (p4, s4) = stop_if-eq_pass _ _ _ s3 in
    let (routed, p5, s5) = >>=-eq_pass (route l e) _ s4 in
    let (p6, s6) = stop_if-eq_pass _ _ _ s5 in
    let (p7, s7) = stop_if-eq_pass _ _ _ s6 in
    let valid = valid_among l (expand_all l e.sender routed.1) in
    let (v, p8, s8) = >>=-eq_pass (conversation_gate l e valid) _ s7 in
    let same = pass-injective (record { expiry = x; tac = routed.0; valid = valid }) c s8 in
    (
      stop_on-eq_pass _ payload p0,
      not-eq_false (is_registered l e.sender) p2,
      p3,
      (
        routed,
        record {
          to = p5;
          tac_kept = sym (ap Cleared.tac same);
          no_program = not-eq_false _ p6;
          valid_kept = sym (ap Cleared.valid same);
          some_valid = rw (sym (ap Cleared.valid same)) p7;
          heard = rw (sym (ap Cleared.valid same)) p8;
        },
      ),
    )
