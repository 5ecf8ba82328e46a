-- ===== src/Bell/Injected.antt =====
-- The commands behind an outcome of `deliver_doorbell` that raises the mark: tmux, osascript and the
-- queue command.
use tabc.Prelude.{
  Bool, Bool-cases, List, Option, Option-cases, [], ap, arith, false, if◌then◌else◌, inl, inr,
  length, none, not, refl, some, suc, take, true, zero, ◌&&◌, ◌++◌, ◌==◌, ◌||◌, ◌∙◌, ◌∷◌, ◌≡◌, ◌≢◌,
  ◌⊎◌,
}
use tabc.Text.Unicode.{all_chars, is_space, strip}
use tabc.Table.{find}
use tabc.Text.Search.{last_of, split_on}
use tabc.Text.{Text, is_nonempty, mem_text, text_eq, text_eq_iff, txt}
use tabc.Doorbell.{is_suppressing}
use tabc.Bell.{negsuc, pos, ℤ}
use tabc.Bell.Queue.{
  Delivered, Ran, Receipt, ReceiptState, answered, check_call, deliver, disabled, drop, ended,
  is_id_char, is_receipt, is_success, no_delivery_id, no_result, no_text, not_a_thread, open_call,
  outcome_of, pending, queued, receipt_of, reserve, shown, submit, unknown,
}
use tabc.Bell.Adapters.{
  Outside, Sent, Shell, deliver_unknown, exited, exited_well, iterm_outcome, iterm_result,
  iterm_script, not_run, send_to_iterm_session, send_to_tmux_pane, socket_and_pane, tmux_refused,
  typing,
}
use tabc.Bell.Deliver.{Site, deliver_notification, dispatch, has_codex, queue_sent}

-- tmux has typed the message into the pane of the target: the command ended with 0.
pub IsTypedInTmux : Outside → Text → Text → Type 0
IsTypedInTmux w target message =
    (socket : Text) × (pane : Text) × (out : Text) × (err : Text) × (split_on 9 target
      ≡ socket ∷ pane ∷ [])
    × (w.tmux (txt "-S" ∷ socket ∷ txt "send-keys" ∷ txt "-t" ∷ pane ∷ txt "-l" ∷ message ∷ [])
        ≡ exited (pos 0) out err)

-- The script for the session has ended with 0 and answered 1, or -2 for a text without its Enter.
pub IsTypedInIterm : Outside → Text → Text → Bool → Type 0
IsTypedInIterm w target message enter =
    (out : Text) × (err : Text) × (w.osascript
        (iterm_script (last_of [] (split_on b':' target)) message enter)
      ≡ exited (pos 0) out err)
    × ((w.int (strip is_space out) ≡ some (pos 1)) ⊎ (w.int (strip is_space out) ≡ some (negsuc 1)))

-- The queue command has ended with 0 and the line that names the thread, or did so before, as the
-- receipt says.
pub IsQueued : Site → Text → Text → Text → List Receipt → Type 0
IsQueued w target nid message rs =
    ((r : Receipt) × (find (is_receipt target nid) rs ≡ some r) × (r.state ≡ queued))
    ⊎ ((out : Text) × (id : Text) × (w.queue target message ≡ ended (pos 0) out)
        × (strip is_space out
            ≡ txt "Queued message " ++ (id ++ (txt " for thread " ++ (target ++ txt ".")))))

-- one of the three injectors has acted
pub HasActed : Site → Text → Text → Bool → Text → Text → List Receipt → Type 0
HasActed w adapter target enter nid message rs =
    ((adapter ≡ txt "codex-queue") × IsQueued w target nid message rs)
    ⊎ (((adapter ≡ txt "iterm2") × IsTypedInIterm w.outside target message enter)
        ⊎ ((adapter ≡ txt "tmux") × IsTypedInTmux w.outside target message))

-- an outcome that suppresses
abbrev pub Raises : Sent → Type 0
Raises s = is_suppressing s.outcome ≡ true

pub unknown_never : is_suppressing deliver_unknown ≡ false
unfolding mem_text text_eq
unknown_never = refl

iterm_outcome-one : (n : ℤ) → Raises (iterm_outcome n) → (n ≡ pos 1) ⊎ (n ≡ negsuc 1)
unfolding iterm_outcome mem_text text_eq
iterm_outcome-one (pos zero) h = absurd (ground arith)
iterm_outcome-one (pos (suc zero)) h = inl refl
iterm_outcome-one (pos (suc (suc n))) h = absurd (ground arith)
iterm_outcome-one (negsuc zero) h = absurd (ground arith)
iterm_outcome-one (negsuc (suc zero)) h = inr refl
iterm_outcome-one (negsuc (suc (suc n))) h = absurd (ground arith)

iterm_result-acted :
    (w : Outside) (r : Shell)
    → Raises (iterm_result w r)
    → (out : Text) × (err : Text) × (r ≡ exited (pos 0) out err)
      × ((w.int (strip is_space out) ≡ some (pos 1))
          ⊎ (w.int (strip is_space out) ≡ some (negsuc 1)))
unfolding iterm_result
iterm_result-acted w not_run h = absurd (ground (arith, unknown_never))
iterm_result-acted w (exited (pos zero) out err) h =
    elim (Option-cases (w.int (strip is_space out))) [
      | inl e ↦ absurd (ground (arith, unknown_never, rw (e, iterm_result) at h))
      | inr (n, e) ↦ (
        out,
        err,
        refl,
        elim (iterm_outcome-one n (rw (e, iterm_result) at h)) [
          | inl k ↦ inl (e ∙ ap some k)
          | inr k ↦ inr (e ∙ ap some k)
        ],
      )
    ]
iterm_result-acted w (exited (pos (suc n)) out err) h = absurd (ground (arith, unknown_never))
iterm_result-acted w (exited (negsuc n) out err) h = absurd (ground (arith, unknown_never))

tmux_refused-never : (r : Shell) → is_suppressing (tmux_refused r).outcome ≡ false
unfolding tmux_refused mem_text text_eq
tmux_refused-never not_run = refl
tmux_refused-never (exited code out err) = ground arith

exited_well-code :
    (r : Shell) → exited_well r ≡ true → (out : Text) × (err : Text) × (r ≡ exited (pos 0) out err)
exited_well-code not_run h = absurd (ground arith)
exited_well-code (exited (pos zero) out err) h = (out, err, refl)
exited_well-code (exited (pos (suc n)) out err) h = absurd (ground arith)
exited_well-code (exited (negsuc n) out err) h = absurd (ground arith)

socket_and_pane-two :
    (ps : List Text) (socket pane : Text)
    → socket_and_pane ps ≡ some (socket, pane)
    → ps ≡ socket ∷ pane ∷ []
unfolding socket_and_pane
socket_and_pane-two (a ∷ b ∷ []) socket pane h = ground arith
socket_and_pane-two [] socket pane h = absurd (ground arith)
socket_and_pane-two (a ∷ []) socket pane h = absurd (ground arith)
socket_and_pane-two (a ∷ b ∷ c ∷ ps) socket pane h = absurd (ground arith)

send_to_tmux_pane-acted :
    (w : Outside) (target message : Text) (enter : Bool)
    → Raises (send_to_tmux_pane w target message enter)
    → IsTypedInTmux w target message
unfolding send_to_tmux_pane IsTypedInTmux
send_to_tmux_pane-acted w target message enter h =
    elim (Option-cases (socket_and_pane (split_on 9 target))) [
      | inl e ↦ absurd (ground (arith, unknown_never, rw (e, send_to_tmux_pane) at h))
      | inr ((socket, pane), e) ↦
          let typed = w.tmux (typing socket pane message) in
          elim (Bool-cases (exited_well typed)) [
            | inl k ↦
                let (out, err, q) = exited_well-code typed k in
                (socket, pane, out, err, socket_and_pane-two (split_on 9 target) socket pane e, q)
            | inr k ↦
                let g = rw (e, send_to_tmux_pane) at h in
                absurd (ground (arith, tmux_refused-never typed, rw k at g))
          ]
    ]

abbrev line_of : Text → Text → Text
line_of target id = txt "Queued message " ++ (id ++ (txt " for thread " ++ (target ++ txt ".")))

tested :
    (b : Bool) (target out given id : Text)
    → (if b && text_eq out (line_of target given) then some given else none) ≡ some id
    → out ≡ line_of target id
tested b target out given id h = elim (Bool-cases (text_eq out (line_of target given))) [
  | inl e ↦
      let same : given ≡ id = ground arith in
      (text_eq_iff out (line_of target given)).0 e ∙ ap (line_of target) same
  | inr e ↦ absurd (ground arith)
]

receipt_of-line : (target out id : Text) → receipt_of target out ≡ some id → out ≡ line_of target id
unfolding receipt_of
receipt_of-line target out id h =
    let given = take 36 (drop 15 out) in
    tested (length given == 36 && all_chars is_id_char given) target out given id h

success-zero : (code : ℤ) → is_success code ≡ true → code ≡ pos 0
success-zero (pos zero) h = refl
success-zero (pos (suc n)) h = absurd (ground arith)
success-zero (negsuc n) h = absurd (ground arith)

outcome_of-queued :
    (target : Text) (ran : Ran)
    → (outcome_of target ran).0 ≡ queued
    → (out : Text) × (id : Text) × (ran ≡ ended (pos 0) out)
      × (strip is_space out ≡ line_of target id)
unfolding outcome_of
outcome_of-queued target no_result h = absurd (ground arith)
outcome_of-queued target (ended code out) h =
    elim (Option-cases (receipt_of target (strip is_space out))) [
      | inl e ↦ absurd (ground (arith, rw (e, outcome_of) at h))
      | inr (id, e) ↦
          let g = rw (e, outcome_of) at h in
          let ok : is_success code ≡ true = ground arith in
          (
            out,
            id,
            ap (λ k. ended k out) (success-zero code ok),
            receipt_of-line target (strip is_space out) id e,
          )
    ]

queue_sent-queued :
    (d : Delivered) → Raises (queue_sent d) → (id : Option Text) × (d ≡ answered queued id)
unfolding mem_text text_eq
queue_sent-queued (answered queued id) h = (id, refl)
queue_sent-queued (answered unknown id) h = absurd (ground arith)
queue_sent-queued (answered pending id) h = absurd (ground arith)
queue_sent-queued disabled h = absurd (ground arith)
queue_sent-queued not_a_thread h = absurd (ground arith)
queue_sent-queued no_delivery_id h = absurd (ground arith)
queue_sent-queued no_text h = absurd (ground arith)

shown-queued : (s : ReceiptState) → shown s ≡ queued → s ≡ queued
shown-queued queued h = refl
shown-queued pending h = absurd (ground arith)
shown-queued unknown h = absurd (ground arith)

check_call-no_answer :
    (target nid message : Text) (enter : Bool) (state : ReceiptState) (id : Option Text)
    → check_call target nid message enter ≢ some (answered state id)
unfolding check_call
check_call-no_answer target nid message enter state id h = absurd (ground arith)

submit-reserved :
    (w : Site) (target nid message : Text) (rs : List Receipt) (id : Option Text)
    → (submit w.queue target nid message (reserve target nid rs)).0 ≡ answered queued id
    → IsQueued w target nid message rs
unfolding submit reserve IsQueued
submit-reserved w target nid message rs id h =
    elim (Option-cases (find (is_receipt target nid) rs)) [
      | inr (r, f) ↦
          let g = rw (f, submit, reserve) at h in inl (r, f, shown-queued r.state (ground arith))
      | inl f ↦
          let g = rw (f, submit, reserve) at h in
          inr (outcome_of-queued target (w.queue target message) (ground arith))
    ]

deliver-queued :
    (w : Site) (target nid message : Text) (enter : Bool) (rs : List Receipt) (id : Option Text)
    → (deliver w.queue target nid message enter rs).0 ≡ answered queued id
    → IsQueued w target nid message rs
unfolding deliver open_call submit
deliver-queued w target nid message enter rs id h =
    elim (Option-cases (check_call target nid message enter)) [
      | inr (d, e) ↦
          let g = rw (e, deliver, open_call, submit) at h in
          absurd (check_call-no_answer target nid message enter queued id (e ∙ ap some g))
      | inl e ↦ submit-reserved w target nid message rs id (rw (e, deliver, open_call) at h)
    ]

deliver_notification-acted :
    (w : Site) (target nid message : Text) (enter : Bool) (rs : List Receipt)
    → Raises (deliver_notification w target nid message enter rs).0
    → IsQueued w target nid message rs
unfolding deliver_notification
deliver_notification-acted w target nid message enter rs h =
    elim (Bool-cases (not (has_codex w) || not (is_nonempty nid))) [
      | inl e ↦ absurd (ground (arith, unknown_never, rw (e, deliver_notification) at h))
      | inr e ↦
          let g = rw (e, deliver_notification) at h in
          let (id, q) = queue_sent-queued (deliver w.queue target nid message enter rs).0 g in
          deliver-queued w target nid message enter rs id q
    ]

-- An outcome that suppresses comes from an injector that acted.
pub dispatch-HasActed :
    (w : Site) (adapter target : Text) (enter : Bool) (nid message : Text) (rs : List Receipt)
    → Raises (dispatch w adapter target enter nid message rs).0.sent
    → HasActed w adapter target enter nid message rs
unfolding dispatch send_to_iterm_session HasActed IsTypedInIterm mem_text text_eq
dispatch-HasActed w adapter target enter nid message rs h =
    elim (Bool-cases (text_eq adapter (txt "codex-queue"))) [
      | inl e ↦ inl (
        (text_eq_iff adapter (txt "codex-queue")).0 e,
        deliver_notification-acted w target nid message enter rs (rw (e, dispatch) at h),
      )
      | inr e ↦ elim (Bool-cases (text_eq adapter (txt "iterm2"))) [
        | inl f ↦ inr (
            inl (
              (text_eq_iff adapter (txt "iterm2")).0 f,
              iterm_result-acted w.outside _ (rw (e, f, dispatch) at h),
            ))
        | inr f ↦ elim (Bool-cases (text_eq adapter (txt "tmux"))) [
          | inl g ↦ inr (
              inr (
                (text_eq_iff adapter (txt "tmux")).0 g,
                send_to_tmux_pane-acted w.outside target message enter
                    (rw (e, f, g, dispatch) at h),
              ))
          | inr g ↦ absurd (ground (arith, rw (e, f, g, dispatch) at h))
        ]
      ]
    ]
