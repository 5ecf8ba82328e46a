-- ===== src/Bell/Receipts.antt =====
-- A delivery through tabus/codex_queue.py that is made again.
use tabc.Prelude.{
  List, Option, Option-cases, [], ap, arith, false, inl, inr, none, refl, some, true, ◌++◌, ◌∙◌,
  ◌∷◌, ◌≡◌,
}
use tabc.Text.{Text, text_eq_refl}
use tabc.Table.{find}
use tabc.Table.Laws.{find-append_none, find-update_where}
use tabc.Bell.Queue.{
  Ran, Receipt, ReceiptState, answered, check_call, conclude, concluded, deliver, is_receipt,
  open_call, outcome_of, pending, reserve, shown, submit,
}

outcome_of-shown :
    (target : Text) (r : Ran) → shown (outcome_of target r).0 ≡ (outcome_of target r).0
unfolding outcome_of
outcome_of-shown target r = ground arith

abbrev pub fresh_receipt : Text → Text → Receipt
fresh_receipt target did = record {
  thread_id = target;
  delivery_id = did;
  state = pending;
  submission_id = none;
}

find-fresh :
    (target did : Text) (rs : List Receipt)
    → find (is_receipt target did) rs ≡ none
    → find (is_receipt target did) (rs ++ fresh_receipt target did ∷ [])
      ≡ some (fresh_receipt target did)
unfolding find
find-fresh target did rs h =
    find-append_none (is_receipt target did) rs (fresh_receipt target did ∷ []) h
    ∙ rw (text_eq_refl target, text_eq_refl did) refl

find-concluded :
    (target did : Text) (o : ReceiptState × Option Text) (rs : List Receipt)
    → find (is_receipt target did) rs ≡ none
    → find (is_receipt target did) (conclude target did o (rs ++ fresh_receipt target did ∷ []))
      ≡ some (concluded o (fresh_receipt target did))
unfolding conclude
find-concluded target did o rs h =
    find-update_where (is_receipt target did) (concluded o) (rs ++ fresh_receipt target did ∷ [])
      (λ r. refl) (find-fresh target did rs h)

open_call-known :
    (target did message : Text) (rs : List Receipt) {r : Receipt}
    → check_call target did message true ≡ none
    → find (is_receipt target did) rs ≡ some r
    → open_call target did message true rs ≡ (some (answered (shown r.state) r.submission_id), rs)
unfolding open_call reserve
open_call-known target did message rs c f = rw (c, open_call) (rw (f, reserve) refl)

open_call-new :
    (target did message : Text) (rs : List Receipt)
    → check_call target did message true ≡ none
    → find (is_receipt target did) rs ≡ none
    → open_call target did message true rs ≡ (none, rs ++ fresh_receipt target did ∷ [])
unfolding open_call reserve
open_call-new target did message rs c f = rw (c, open_call) (rw (f, reserve) refl)

-- a call whose receipt is there
deliver-known :
    (command : Text → Text → Ran) (target did message : Text) (rs : List Receipt) {r : Receipt}
    → check_call target did message true ≡ none
    → find (is_receipt target did) rs ≡ some r
    → deliver command target did message true rs
      ≡ (answered (shown r.state) r.submission_id, false, rs)
unfolding deliver submit
deliver-known command target did message rs c f =
    ap (submit command target did message) (open_call-known target did message rs c f)

-- a call without one
deliver-new :
    (command : Text → Text → Ran) (target did message : Text) (rs : List Receipt)
    → check_call target did message true ≡ none
    → find (is_receipt target did) rs ≡ none
    → let o = outcome_of target (command target message) in
      deliver command target did message true rs
      ≡ (answered o.0 o.1, true, conclude target did o (rs ++ fresh_receipt target did ∷ []))
unfolding deliver submit
deliver-new command target did message rs c f =
    ap (submit command target did message) (open_call-new target did message rs c f)

-- A delivery that passes the checks, made again with the same thread and delivery id, whatever the
-- text and the command, runs nothing, changes no receipt and answers what the first one answered.
pub deliver-again :
    (command other : Text → Text → Ran) (target did message text : Text) (rs : List Receipt)
    → check_call target did message true ≡ none
    → check_call target did text true ≡ none
    → let (answer, ran, rs') = deliver command target did message true rs in
      deliver other target did text true rs' ≡ (answer, false, rs')
deliver-again command other target did message text rs c d =
    elim (Option-cases (find (is_receipt target did) rs)) [
      | inl e ↦
          let o = outcome_of target (command target message) in
          rw (deliver-new command target did message rs c e) (
            deliver-known other target did text _ d (find-concluded target did o rs e)
            ∙ rw (outcome_of-shown target (command target message)) refl)
      | inr (r, e) ↦
          rw (deliver-known command target did message rs c e)
            (deliver-known other target did text rs d e)
    ]
