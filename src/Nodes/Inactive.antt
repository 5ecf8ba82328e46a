-- ===== src/Nodes/Inactive.antt =====
-- What a removed node can no longer do (`is_removed` of tabus/bus.py), and what it still can.
use tabc.Prelude.{
  All, All-map, Bool, Bool-cases, Option, Option-cases, [], arith, coalesce, false, inl, inr,
  is_some, none, not, refl, some, true, ℕ, ◌≡◌, ◌≢◌,
}
use tabc.Text.{Text}
use tabc.Host.{Host}
use tabc.Ledger.{Ledger, find_node, is_removed, seconds}
use tabc.Delivery.Claim.{Request, claim_new, no_claims}
use tabc.Delivery.Reopen.{reopen_unread}
use tabc.Send.Envelope.{Envelope, pass}
use tabc.Send.Gates.{Cleared, clear}
use tabc.Send.Write.{Ring, bus_send}
use tabc.Send.Outcome.{bus_send-stored, bus_send-unstored, is_stored}
use tabc.Send.Cleared.{clear-stages}
use tabc.Send.Recipients.{Receives, clear-Receives}
use tabc.Nodes.Name.{is_safe_node_id}
use tabc.Nodes.Register.{
  Registration, entry_refusal, invalid_node_id, later_boot, owner_refusal, refuse_if,
  register_refusal, removed_node, shape_refusal, type_of_enter,
}
use tabc.Nodes.Upsert.{bus_register}
use tabc.Nodes.Registered.{bus_register-refused, is_refused}
use tabc.Nodes.Admin.{bus_beat}

-- It sends nothing, is given nothing new, receives nothing, and can neither register nor report that
-- it is alive, and none of these attempts changes the ledger. But `reopen_unread` does not ask: it
-- does for this node what it does on a ledger on which nobody is removed, claims included.
pub record IsInactive (h : Host) (l : Ledger) (node : Text) : Type 0 where
  pub no_beat : (now : ℕ) → bus_beat now node l ≡ (false, l)
  pub no_claim : (now : ℕ) (q : Request) → q.node ≡ node → claim_new h now q l ≡ (no_claims, l)
  pub no_register :
      (now : ℕ) (local fresh : Text) (q : Registration)
      → q.node_id ≡ node
      → (is_refused (bus_register now local fresh q l).0 ≡ true)
        × ((bus_register now local fresh q l).1 ≡ l)
  pub no_send :
      (now : ℕ) (fresh : Text) (ringer : Ring → Bool) (e : Envelope)
      → e.sender ≡ node
      → (is_stored (bus_send h now fresh ringer e l).0 ≡ false)
        × ((bus_send h now fresh ringer e l).1 ≡ l)
  pub reopens :
      (now : ℕ) (mid : Option Text) (q : Request)
      → let everyone = record l { removed_nodes = [] } in
        ((reopen_unread h now mid q l).0 ≡ (reopen_unread h now mid q everyone).0)
        × ((reopen_unread h now mid q l).1.deliveries
            ≡ (reopen_unread h now mid q everyone).1.deliveries)
  pub no_receipt : (e : Envelope) (c : Cleared) → clear h l e ≡ pass c → All (λ t. t ≢ node) c.valid

coalesce-left {ℓ} : {A : Type ℓ} (a b : Option A) → is_some a ≡ true → is_some (coalesce a b) ≡ true
coalesce-left (some a) b h = refl
coalesce-left none b h = absurd (ground arith)

coalesce-right {ℓ} :
    {A : Type ℓ} (a b : Option A) → is_some b ≡ true → is_some (coalesce a b) ≡ true
coalesce-right (some a) b h = refl
coalesce-right none b h = h

removed-refusal :
    (l : Ledger) (ts : ℕ) (q : Registration)
    → is_removed l q.node_id ≡ true
    → is_some (register_refusal l ts q) ≡ true
unfolding register_refusal entry_refusal
removed-refusal l ts q m =
    let name = refuse_if (not (is_safe_node_id q.node_id)) invalid_node_id in
    let gone = refuse_if (is_removed l q.node_id) removed_node in
    let boot = later_boot ts (find_node l q.node_id) in
    let found : is_some (coalesce gone boot) ≡ true = rw m refl in
    coalesce-left (coalesce name (coalesce (type_of_enter q.auto_enter) (coalesce gone boot)))
      (coalesce (shape_refusal q) (owner_refusal l q))
      (coalesce-right name (coalesce (type_of_enter q.auto_enter) (coalesce gone boot))
        (coalesce-right (type_of_enter q.auto_enter) (coalesce gone boot) found))

removed-no_register :
    (now : ℕ) (local fresh : Text) (q : Registration) (l : Ledger)
    → is_removed l q.node_id ≡ true
    → is_refused (bus_register now local fresh q l).0 ≡ true
unfolding bus_register
removed-no_register now local fresh q l m =
    elim (Option-cases (register_refusal l (seconds now) q)) [
      | inl e ↦ absurd (ground (arith, removed-refusal l (seconds now) q m, e))
      | inr (r, e) ↦ rw (e, bus_register) refl
    ]

removed-no_send :
    (h : Host) (now : ℕ) (fresh : Text) (ringer : Ring → Bool) (e : Envelope) (l : Ledger)
    → is_removed l e.sender ≡ true
    → is_stored (bus_send h now fresh ringer e l).0 ≡ false
removed-no_send h now fresh ringer e l m =
    elim (Bool-cases (is_stored (bus_send h now fresh ringer e l).0)) [
      | inl s ↦
          let (c, g, _) = bus_send-stored h now fresh ringer e l s in
          let (_, _, active, _) = clear-stages h l e c g in absurd (ground (arith, m, active))
      | inr s ↦ s
    ]

removed-no_receipt :
    (h : Host) (l : Ledger) (node : Text) (e : Envelope) (c : Cleared)
    → is_removed l node ≡ true
    → clear h l e ≡ pass c
    → All (λ t. t ≢ node) c.valid
removed-no_receipt h l node e c m g =
    All-map (Receives l) (λ t. t ≢ node)
      (λ t r same. absurd (ground (arith, m, rw same at (r.active)))) c.valid
      (clear-Receives h l e c g).0

-- A node that is removed sends nothing, is a recipient of nothing that is stored, gets nothing from
-- `claim_new`, and is refused by registration and heartbeat, none of which changes the ledger.
-- `reopen_unread`, in contrast, opens and claims for it what it would if nobody were removed.
pub removed-IsInactive :
    (h : Host) (l : Ledger) (node : Text) → is_removed l node ≡ true → IsInactive h l node
unfolding bus_beat claim_new reopen_unread
removed-IsInactive h l node m = record {
  no_beat = λ now. rw m refl;
  no_claim = λ now q same. rw (same, claim_new, m) refl;
  no_register = λ now local fresh q same.
      let r = removed-no_register now local fresh q l (rw same m) in
      (r, bus_register-refused now local fresh q l r);
  no_send = λ now fresh ringer e same.
      let s = removed-no_send h now fresh ringer e l (rw same m) in
      (s, bus_send-unstored h now fresh ringer e l s);
  reopens = λ now mid q. (refl, refl);
  no_receipt = λ e c g. removed-no_receipt h l node e c m g;
}
