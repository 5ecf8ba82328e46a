-- ===== src/Bell/Frontend.antt =====
-- `executable_kind` of tabus/terminal_frontend.py: the installed locations of the native products.
use tabc.Prelude.{
  Bool, List, Option, [], coalesce, false, if◌then◌else◌, none, not, some, ◌&&◌, ◌++◌, ◌==◌, ◌||◌,
  ◌∷◌,
}
use tabc.Text.{Text, is_nonempty, text_eq, txt}
use tabc.Text.Unicode.{all_chars, is_ascii_alnum, is_digit}
use tabc.Text.Search.{split_on}
use tabc.Table.{select}

-- `Path(p).parts` of an absolute path, without its root
unfoldable pub path_parts : Text → List Text
path_parts p = select (λ part. is_nonempty part && not (text_eq part (txt "."))) (split_on b'/' p)

-- `path.relative_to(root).parts`, none for its ValueError
unfoldable pub relative_to : List Text → List Text → Option (List Text)
relative_to [] path = some path
relative_to (r ∷ root) [] = none
relative_to (r ∷ root) (p ∷ path) =
    let rest = relative_to root path in if text_eq r p then rest else none

-- `[0-9][A-Za-z0-9.+_-]*`
unfoldable pub is_version : Text → Bool
is_version [] = false
is_version (c ∷ s) =
    is_digit c
    && all_chars (λ a. is_ascii_alnum a || a == b'.' || a == b'+' || a == b'_' || a == b'-') s

pub data Layout : Type 0 where
  codex claude claude_brew : Layout

-- what stands after a root of that kind
unfoldable pub kind_below : Layout → List Text → Option Text
kind_below codex (v ∷ b ∷ c ∷ []) =
    if is_version v && text_eq b (txt "bin") && text_eq c (txt "codex")
    then some (txt "codex")
    else none
kind_below claude (v ∷ []) = if is_version v then some (txt "claude") else none
kind_below claude_brew (v ∷ c ∷ []) =
    if is_version v && text_eq c (txt "claude") then some (txt "claude") else none
kind_below _ _ = none

-- the loop over `roots`
unfoldable pub kind_under : List (List Text × Layout) → List Text → Option Text
kind_under [] path = none
kind_under ((root, kind) ∷ roots) path =
    let rest = kind_under roots path in
    elim (relative_to root path) [
      | none ↦ rest
      | some parts ↦ coalesce (kind_below kind parts) rest
    ]

unfoldable pub executable_kind : Text → Text → Option Text
executable_kind executable user_home =
    kind_under
      ((path_parts user_home ++ path_parts (txt ".codex/packages/standalone/releases"), codex)
        ∷ (path_parts user_home ++ path_parts (txt ".local/share/claude/versions"), claude)
        ∷ (path_parts (txt "/opt/homebrew/Caskroom/claude-code"), claude_brew)
        ∷ (path_parts (txt "/opt/homebrew/Caskroom/claude-code@latest"), claude_brew)
        ∷ (path_parts (txt "/usr/local/Caskroom/claude-code"), claude_brew)
        ∷ (path_parts (txt "/usr/local/Caskroom/claude-code@latest"), claude_brew)
        ∷ [])
      (path_parts executable)
