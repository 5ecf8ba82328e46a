-- ===== src/Bell/Adapters.antt =====
-- tabus/doorbell.py, the two terminal adapters: the text that is typed, and how the result of the
-- command becomes an outcome. The commands and Python's `int` and `str.format` are parameters.
use tabc.Prelude.{
  Bool, List, Option, [], false, if◌then◌else◌, leb, none, not, some, suc, true, zero, ℕ, ◌&&◌,
  ◌++◌, ◌||◌, ◌∷◌,
}
use tabc.Text.{Text, is_nonempty, txt}
use tabc.Text.Unicode.{is_space, strip}
use tabc.Text.Search.{contains, last_of, replace_char, split_on}
use tabc.Bell.{negsuc, pos, ℤ}

-- what `subprocess.run` came to: an exception, or the exit code with the two outputs
pub data Shell : Type 0 where
  not_run : Shell
  exited : ℤ → Text → Text → Shell

-- the arguments of a sentence of the catalogue
pub record Fields : Type 0 where
  pub who : Text
  pub unread : ℕ
  pub tac : Option Text

-- What the code calls and does not implement.
pub record Outside : Type 0 where
  -- `osascript -e`, and `tmux` with its arguments
  pub osascript : Text → Shell
  pub tmux : List Text → Shell
  -- `int(s)`, none for a ValueError
  pub int : Text → Option ℤ
  -- `tmpl.format(**kwargs)`, none for what `t` catches
  pub format : Text → Fields → Option Text

-- an outcome with the number of destinations
pub record Sent : Type 0 where
  pub outcome : Text
  pub matched : ℤ

abbrev pub deliver_success : Text
deliver_success = txt "SUCCESS"

abbrev pub deliver_failed : Text
deliver_failed = txt "FAILED"

abbrev pub deliver_unknown : Text
deliver_unknown = txt "UNKNOWN"

abbrev pub deliver_text_only : Text
deliver_text_only = txt "TEXT_ONLY"

abbrev pub deliver_gone : Text
deliver_gone = txt "GONE"

abbrev pub unknown_sent : Sent
unknown_sent = record { outcome = deliver_unknown; matched = negsuc 0 }

-- `_single_line`: no character below the space
unfoldable pub single_line : Text → Text
single_line [] = []
single_line (c ∷ s) = let rest = single_line s in if leb 32 c then c ∷ rest else rest

-- `.replace("\\", "\\\\").replace('"', '\\"')`
unfoldable pub escaped : Text → Text
escaped s = replace_char 34 (92 ∷ 34 ∷ []) (replace_char 92 (92 ∷ 92 ∷ []) s)

-- an AppleScript string literal
unfoldable pub quoted : Text → Text
quoted s = 34 ∷ (escaped s ++ 34 ∷ [])

unfoldable pub write_stmt : Text → Bool → Text
write_stmt message enter =
    let typed =
      txt "tell item 1 of matches to write text "
      ++ (quoted (single_line message) ++ txt " newline NO") in
    if enter
    then typed
      ++ txt
          "\n            delay 0.3\n            try\n                tell item 1 of matches to write text (ASCII character 13) newline NO\n            on error\n                return -2\n            end try"
    else typed

unfoldable pub iterm_script : Text → Text → Bool → Text
iterm_script guid message enter =
    txt
      "\ntell application \"iTerm2\"\n    set matches to {}\n    repeat with w in windows\n        repeat with t in tabs of w\n            repeat with s in sessions of t\n                if (id of s) is "
    ++ (quoted guid
        ++ (txt
              " then\n                    copy s to end of matches\n                end if\n            end repeat\n        end repeat\n    end repeat\n    set n to (count of matches)\n    if n = 1 then\n        "
            ++ (write_stmt message enter ++ txt "\n    end if\n    return n\nend tell\n")))

unfoldable pub iterm_outcome : ℤ → Sent
iterm_outcome (pos zero) = record { outcome = deliver_gone; matched = pos 0 }
iterm_outcome (pos (suc zero)) = record { outcome = deliver_success; matched = pos 1 }
iterm_outcome (pos (suc (suc n))) = record { outcome = deliver_failed; matched = pos (suc (suc n)) }
iterm_outcome (negsuc zero) = record { outcome = deliver_failed; matched = negsuc 0 }
iterm_outcome (negsuc (suc zero)) = record { outcome = deliver_text_only; matched = pos 1 }
iterm_outcome (negsuc (suc (suc n))) = record {
  outcome = deliver_failed;
  matched = negsuc (suc (suc n));
}

unfoldable pub iterm_result : Outside → Shell → Sent
iterm_result w not_run = unknown_sent
iterm_result w (exited (pos zero) out err) = elim (w.int (strip is_space out)) [
  | none ↦ unknown_sent
  | some n ↦ iterm_outcome n
]
iterm_result w (exited (pos (suc n)) out err) = unknown_sent
iterm_result w (exited (negsuc n) out err) = unknown_sent

unfoldable pub send_to_iterm_session : Outside → Text → Text → Bool → Sent
send_to_iterm_session w session_id message enter =
    let guid = last_of [] (split_on b':' session_id) in
    iterm_result w (w.osascript (iterm_script guid message enter))

-- `len(parts) != 2 or not parts[0] or not parts[1]`, and else the socket and the pane
unfoldable pub socket_and_pane : List Text → Option (Text × Text)
socket_and_pane (socket ∷ pane ∷ []) =
    if is_nonempty socket && is_nonempty pane then some (socket, pane) else none
socket_and_pane _ = none

abbrev pub exited_well : Shell → Bool
exited_well (exited (pos zero) out err) = true
exited_well _ = false

-- the messages of tmux that say there is no destination
unfoldable pub says_gone : Text → Bool
says_gone err =
    contains (txt "can't find pane") err
    || contains (txt "error connecting") err
    || contains (txt "no server running") err

abbrev pub success_sent : Sent
success_sent = record { outcome = deliver_success; matched = pos 1 }

abbrev pub text_only_sent : Sent
text_only_sent = record { outcome = deliver_text_only; matched = pos 1 }

-- the first call, without the Enter that follows it
unfoldable pub tmux_refused : Shell → Sent
tmux_refused not_run = unknown_sent
tmux_refused (exited code out err) =
    if says_gone (strip is_space err)
    then record { outcome = deliver_gone; matched = pos 0 }
    else unknown_sent

abbrev pub typing : Text → Text → Text → List Text
typing socket pane message =
    txt "-S" ∷ socket ∷ txt "send-keys" ∷ txt "-t" ∷ pane ∷ txt "-l" ∷ message ∷ []

abbrev pub entering : Text → Text → List Text
entering socket pane = txt "-S" ∷ socket ∷ txt "send-keys" ∷ txt "-t" ∷ pane ∷ txt "Enter" ∷ []

unfoldable pub send_to_tmux_pane : Outside → Text → Text → Bool → Sent
send_to_tmux_pane w target message enter = elim (socket_and_pane (split_on 9 target)) [
  | none ↦ unknown_sent
  | some (socket, pane) ↦
      let typed = w.tmux (typing socket pane message) in
      if not (exited_well typed)
      then tmux_refused typed
      else if enter && not (exited_well (w.tmux (entering socket pane)))
      then text_only_sent
      else success_sent
]
