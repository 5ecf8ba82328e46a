-- ===== src/Nodes/Name.antt =====
-- `is_safe_node_id` of tabus/nodekey.py.
use tabc.Prelude.{Bool, ℕ, ◌&&◌, ◌==◌, ◌||◌}
use tabc.Text.{Text, is_nonempty}
use tabc.Text.Unicode.{all_chars, is_ascii_alnum}

-- a character of a name: an ASCII letter or digit, a hyphen or an underscore
abbrev pub is_name_char : ℕ → Bool
is_name_char c = is_ascii_alnum c || (c == b'-' || c == b'_')

unfoldable pub is_safe_node_id : Text → Bool
is_safe_node_id s = is_nonempty s && all_chars is_name_char s
