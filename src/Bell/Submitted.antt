-- ===== src/Bell/Submitted.antt =====
-- The journal of tabus/codex_queue.py over any order of calls, reports and crashes.
use mathlib.Core.List.{append-nil}
use tabc.Prelude.{
  Bool, Bool-cases, List, Option, Option-cases, [], arith, false, if◌then◌else◌, inl, inr, none,
  refl, some, ◌&&◌, ◌++◌, ◌∷◌, ◌≡◌, ◌≤◌, ◌⊎◌,
}
use tabc.Text.{Text, text_eq, text_eq_iff, text_eq_refl}
use tabc.Table.{any, count, find}
use tabc.Table.Counts.{count-of_none}
use tabc.Table.Laws.{any-append, any-eq_false, any-update_where, count-append}
use tabc.Bell.Queue.{
  Delivered, Ran, Receipt, check_call, conclude, concluded, is_receipt, open_call, outcome_of,
  reserve,
}
use tabc.Bell.Receipts.{fresh_receipt}

-- What processes do to the journal, each statement on its own: the checks with the transaction, and
-- the update after the command. A process that dies leaves its update out.
pub data Event : Type 0 where
  begin : Text → Text → Text → Bool → Event
  report : Text → Text → Ran → Event

-- the receipts, and the keys for which the command was about to be run
pub record Journal : Type 0 where
  pub receipts : List Receipt
  pub submitted : List (Text × Text)

abbrev submitted_if : Option Delivered → Text → Text → List (Text × Text)
submitted_if none target did = (target, did) ∷ []
submitted_if (some answer) target did = []

unfoldable pub on_event : Event → Journal → Journal
on_event (begin target did message enter) j =
    let (answer, rs) = open_call target did message enter j.receipts in
    record { receipts = rs; submitted = j.submitted ++ submitted_if answer target did }
on_event (report target did ran) j = record j {
  receipts = conclude target did (outcome_of target ran) j.receipts;
}

unfoldable pub after : List Event → Journal → Journal
after [] j = j
after (e ∷ es) j = after es (on_event e j)

abbrev is_key : Text → Text → Text × Text → Bool
is_key target did k = text_eq k.0 target && text_eq k.1 did

-- each key submitted once at most, and only with a receipt
pub record IsReceipted (j : Journal) : Type 0 where
  pub once : (target did : Text) → count (is_key target did) j.submitted ≤ 1
  pub receipted :
      (target did : Text)
      → count (is_key target did) j.submitted
        ≤ (if any (is_receipt target did) j.receipts then 1 else 0)

-- a transaction gives no answer only where there is no receipt, and it writes one
open_call-cases :
    (target did message : Text) (enter : Bool) (rs : List Receipt)
    → ((open_call target did message enter rs).1 ≡ rs)
        × (submitted_if (open_call target did message enter rs).0 target did ≡ [])
      ⊎ (find (is_receipt target did) rs ≡ none)
        × ((open_call target did message enter rs).1 ≡ rs ++ fresh_receipt target did ∷ [])
        × (submitted_if (open_call target did message enter rs).0 target did ≡ (target, did) ∷ [])
unfolding open_call reserve
open_call-cases target did message enter rs =
    elim (Option-cases (check_call target did message enter)) [
      | inl e ↦ elim (Option-cases (find (is_receipt target did) rs)) [
        | inl f ↦ rw (e, open_call) (rw (f, reserve) (inr (refl, refl, refl)))
        | inr (r, f) ↦ rw (e, open_call) (rw (f, reserve) (inl (refl, refl)))
      ]
      | inr (d, e) ↦ rw (e, open_call) (inl (refl, refl))
    ]

any-of_none : (p : Receipt → Bool) (rs : List Receipt) → find p rs ≡ none → any p rs ≡ false
any-of_none p rs h = any-eq_false p rs (count-of_none p rs h)

reserved-le :
    (target did : Text) (j : Journal) (t d : Text)
    → IsReceipted j
    → find (is_receipt target did) j.receipts ≡ none
    → count (is_key t d) (j.submitted ++ (target, did) ∷ [])
      ≤ (if any (is_receipt t d) (j.receipts ++ fresh_receipt target did ∷ []) then 1 else 0)
unfolding any count
reserved-le target did j t d h new = elim (Bool-cases (text_eq target t && text_eq did d)) [
  | inl e ↦
      let a = (text_eq_iff target t).0 (ground arith) in
      let b = (text_eq_iff did d).0 (ground arith) in
      rw (← a, ← b)
        (ground (
          arith,
          h.receipted target did,
          any-of_none (is_receipt target did) j.receipts new,
          count-append (is_key target did) j.submitted ((target, did) ∷ []),
          any-append (is_receipt target did) j.receipts (fresh_receipt target did ∷ []),
          text_eq_refl target,
          text_eq_refl did,
        ))
  | inr e ↦ ground (
    arith,
    h.receipted t d,
    count-append (is_key t d) j.submitted ((target, did) ∷ []),
    any-append (is_receipt t d) j.receipts (fresh_receipt target did ∷ []),
  )
]

reserved-IsReceipted :
    (target did : Text) (j : Journal)
    → IsReceipted j
    → find (is_receipt target did) j.receipts ≡ none
    → IsReceipted (record {
      receipts = j.receipts ++ fresh_receipt target did ∷ [];
      submitted = j.submitted ++ (target, did) ∷ [];
    })
reserved-IsReceipted target did j h new = record {
  once = λ t d. ground (arith, reserved-le target did j t d h new);
  receipted = λ t d. reserved-le target did j t d h new;
}

begin-IsReceipted :
    (target did message : Text) (enter : Bool) (j : Journal)
    → IsReceipted j
    → IsReceipted (on_event (begin target did message enter) j)
unfolding on_event
begin-IsReceipted target did message enter j h =
    elim (open_call-cases target did message enter j.receipts) [
      | inl (same, nothing) ↦ rw (same, nothing, append-nil j.submitted) h
      | inr (new, more, one) ↦ rw (more, one) (reserved-IsReceipted target did j h new)
    ]

report-IsReceipted :
    (target did : Text) (ran : Ran) (j : Journal)
    → IsReceipted j
    → IsReceipted (on_event (report target did ran) j)
unfolding on_event conclude
report-IsReceipted target did ran j h = record {
  once = h.once;
  receipted = λ t d.
      rw
        (any-update_where (is_receipt t d) (is_receipt target did)
          (concluded (outcome_of target ran)) (λ r. refl) j.receipts)
        (h.receipted t d);
}

on_event-IsReceipted : (e : Event) (j : Journal) → IsReceipted j → IsReceipted (on_event e j)
on_event-IsReceipted (begin target did message enter) j h =
    begin-IsReceipted target did message enter j h
on_event-IsReceipted (report target did ran) j h = report-IsReceipted target did ran j h

-- The command is run at most once for a thread and delivery id, over any order of calls and reports
-- of any number of processes, those included that died before they reported; and whatever was
-- submitted has a receipt.
pub after-IsReceipted : (es : List Event) (j : Journal) → IsReceipted j → IsReceipted (after es j)
unfolding after
after-IsReceipted [] j h = h
after-IsReceipted (e ∷ es) j h = after-IsReceipted es (on_event e j) (on_event-IsReceipted e j h)
