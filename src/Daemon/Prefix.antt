-- ===== src/Daemon/Prefix.antt =====
-- `resolve_recipient_message_id` of tabus/bus.py: a message id of a mailbox, or a prefix of one.
use tabc.Prelude.{Bool, List, [], false, if◌then◌else◌, length, not, true, ℕ, ◌&&◌, ◌+◌, ◌==◌, ◌∷◌}
use tabc.Text.{Text, is_nonempty, mem_text, text_eq}
use tabc.Text.Unicode.{between}
use tabc.Table.{any, order_by, select}
use tabc.Text.Order.{text_le}
use tabc.Ledger.{Delivery, Ledger}

-- SQLite's LIKE does not tell the cases of ASCII letters apart
abbrev pub folded : ℕ → ℕ
folded c = if between b'A' b'Z' c then c + 32 else c

-- `message_id LIKE ? ESCAPE '\'` on the escaped prefix with `%`
unfoldable pub is_like : Text → Text → Bool
is_like [] s = true
is_like (a ∷ p) [] = false
is_like (a ∷ p) (c ∷ s) = folded a == folded c && is_like p s

-- SELECT DISTINCT message_id
unfoldable pub distinct_ids : List Delivery → List Text
distinct_ids [] = []
distinct_ids (d ∷ ds) =
    let rest = distinct_ids ds in if mem_text d.message_id rest then rest else d.message_id ∷ rest

pub data IdAnswer : Type 0 where
  full_id : Text → IdAnswer
  id_required no_such_delivery : IdAnswer
  ambiguous : ℕ → IdAnswer

abbrev pub has_exactly : Text → Text → Delivery → Bool
has_exactly to mid d = text_eq d.recipient_id to && text_eq d.message_id mid

abbrev pub has_prefix_id : Text → Text → Delivery → Bool
has_prefix_id to prefix d = text_eq d.recipient_id to && is_like prefix d.message_id

unfoldable pub one_of : List Text → IdAnswer
one_of [] = no_such_delivery
one_of (mid ∷ []) = full_id mid
one_of (mid ∷ more ∷ mids) = ambiguous (length (mid ∷ more ∷ mids))

-- on strings; anything else is refused before
unfoldable pub resolve_recipient_message_id : Ledger → Text → Text → IdAnswer
resolve_recipient_message_id l to given =
    if not (is_nonempty to && is_nonempty given)
    then id_required
    else if any (has_exactly to given) l.deliveries
    then full_id given
    else one_of (order_by text_le (distinct_ids (select (has_prefix_id to given) l.deliveries)))
