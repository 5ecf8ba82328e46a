-- ===== src/Bell/Queue.antt =====
-- tabus/codex_queue.py: submissions to a thread, and the journal of receipts that is written before
-- the command runs. The command itself is a parameter.
use tabc.Prelude.{
  Bool, List, Option, [], false, if◌then◌else◌, length, none, not, some, suc, take, true, zero, ℕ,
  ◌&&◌, ◌++◌, ◌==◌, ◌||◌, ◌∷◌,
}
use tabc.Text.{Text, is_nonempty, text_eq, txt}
use tabc.Text.Unicode.{all_chars, between, is_digit, is_space, strip}
use tabc.Tac.Identity.{is_uuid_id}
use tabc.Table.{find, update_where}
use tabc.Bell.{pos, ℤ}

-- `state IN ('PENDING','QUEUED','UNKNOWN')`
pub data ReceiptState : Type 0 where
  pending queued unknown : ReceiptState

-- a row of `codex_queue_receipts`
pub record Receipt : Type 0 where
  pub thread_id : Text
  pub delivery_id : Text
  pub state : ReceiptState
  pub submission_id : Option Text

-- what `subprocess.run` came to
pub data Ran : Type 0 where
  no_result : Ran
  ended : ℤ → Text → Ran

-- The ValueErrors, the refusal without auto_enter, and the pair that is answered.
pub data Delivered : Type 0 where
  not_a_thread no_delivery_id no_text : Delivered
  disabled : Delivered
  answered : ReceiptState → Option Text → Delivered

abbrev pub drop : ℕ → Text → Text
drop zero s = s
drop (suc n) [] = []
drop (suc n) (c ∷ s) = drop n s

abbrev pub is_id_char : ℕ → Bool
is_id_char c = is_digit c || between b'a' b'f' c || c == b'-'

-- `re.fullmatch` of the receipt line: the 36 characters of its group
unfoldable pub receipt_of : Text → Text → Option Text
receipt_of target out =
    let given = take 36 (drop 15 out) in
    if length given == 36
      && all_chars is_id_char given
      && text_eq out
          (txt "Queued message " ++ (given ++ (txt " for thread " ++ (target ++ txt "."))))
    then some given
    else none

abbrev pub is_success : ℤ → Bool
is_success (pos zero) = true
is_success _ = false

-- state and submission after the command; a `thread_id` that raises leaves the submission unset
unfoldable pub outcome_of : Text → Ran → ReceiptState × Option Text
outcome_of target no_result = (unknown, none)
outcome_of target (ended code out) = elim (receipt_of target (strip is_space out)) [
  | none ↦ (unknown, none)
  | some id ↦ if is_success code && is_uuid_id id then (queued, some id) else (unknown, none)
]

abbrev pub is_receipt : Text → Text → Receipt → Bool
is_receipt target did r = text_eq r.thread_id target && text_eq r.delivery_id did

-- `"UNKNOWN" if row[0] == "PENDING" else row[0]`
abbrev pub shown : ReceiptState → ReceiptState
shown pending = unknown
shown s = s

-- the checks of `deliver` before its transaction
unfoldable pub check_call : Text → Text → Text → Bool → Option Delivered
check_call target did message enter =
    if not (is_uuid_id target)
    then some not_a_thread
    else if not (is_nonempty did)
    then some no_delivery_id
    else if not (is_nonempty message && all_chars (λ c. not (c == 0)) message)
    then some no_text
    else if not enter
    then some disabled
    else none

-- The transaction under BEGIN IMMEDIATE: an answer from a receipt that is there, or none, with a
-- pending receipt written.
unfoldable pub reserve : Text → Text → List Receipt → Option Delivered × List Receipt
reserve target did rs = elim (find (is_receipt target did) rs) [
  | some r ↦ (some (answered (shown r.state) r.submission_id), rs)
  | none ↦ (
    none,
    rs
        ++ record { thread_id = target; delivery_id = did; state = pending; submission_id = none }
          ∷ [],
  )
]

abbrev pub concluded : ReceiptState × Option Text → Receipt → Receipt
concluded o r = record r { state = o.0; submission_id = o.1 }

unfoldable pub conclude : Text → Text → ReceiptState × Option Text → List Receipt → List Receipt
conclude target did o rs = update_where (is_receipt target did) (concluded o) rs

-- `deliver` up to the command: an answer, or none where the command is run next
unfoldable pub open_call :
    Text → Text → Text → Bool → List Receipt → Option Delivered × List Receipt
open_call target did message enter rs = elim (check_call target did message enter) [
  | some refusal ↦ (some refusal, rs)
  | none ↦ reserve target did rs
]

-- the command, where the transaction left no answer, and the update after it
unfoldable pub submit :
    (Text → Text → Ran)
    → Text
    → Text
    → Text
    → Option Delivered × List Receipt
    → Delivered × Bool × List Receipt
submit command target did message (some known, rs) = (known, false, rs)
submit command target did message (none, rs) =
    let o = outcome_of target (command target message) in
    (answered o.0 o.1, true, conclude target did o rs)

-- `deliver`, with the command as a function of its target and message; the Boolean says whether the
-- command was run
unfoldable pub deliver :
    (Text → Text → Ran) → Text → Text → Text → Bool → List Receipt → Delivered × Bool × List Receipt
unfolding submit
deliver command target did message enter rs =
    submit command target did message (open_call target did message enter rs)
