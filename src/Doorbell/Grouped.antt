-- ===== src/Doorbell/Grouped.antt =====
-- What `scan_unread` finds for one recipient, against a direct description of it.
use mathlib.Core.List.{append-nil, append_assoc}
use tabc.Table.Orders.{count-order_by, count-select-le, find-order_by, find-select}
use tabc.Ledger.{Ledger}
use tabc.Prelude.{
  Bool, Bool-cases, List, Option, [], ap, arith, false, if◌then◌else◌, inl, inr, none, not, or_else,
  refl, some, sym, true, ℕ, ◌&&◌, ◌++◌, ◌==◌, ◌||◌, ◌∙◌, ◌∷◌, ◌≡◌, ◌≤◌,
}
use tabc.Text.{Text, text_eq, text_eq_iff}
use tabc.Table.{any, count, find, order_by}
use tabc.Doorbell.Scan.{
  Group, Schema, Unread, add_to, empty_group, greatest, group_le, group_row, group_rows,
  is_group_of, is_snoozed, scan_unread, waiting_rows,
}

abbrev pub is_to : Text → Unread → Bool
is_to to u = text_eq u.recipient_id to

-- the greatest delivery id of a recipient, 0 without one
unfoldable pub highest : Text → List Unread → ℕ
highest to [] = 0
highest to (u ∷ us) = let rest = highest to us in if is_to to u then greatest u.id rest else rest

unfoldable pub ids_to : Text → List Unread → List Text
ids_to to [] = []
ids_to to (u ∷ us) = let rest = ids_to to us in if is_to to u then u.message_id ∷ rest else rest

unfoldable pub announced_to : Text → List Unread → Bool
announced_to to [] = false
announced_to to (u ∷ us) =
    let rest = announced_to to us in if is_to to u then u.broadcast || rest else rest

abbrev pub whole : Text → List Unread → Group
whole to us = record {
  recipient = to;
  ids = ids_to to us;
  high = highest to us;
  bc = announced_to to us;
}

-- what there is to say to one recipient, whoever else has mail
unfoldable pub summary : Text → List Unread → Option Group
summary to us = if any (is_to to) us then some (whole to us) else none

joined : Text → Option Group → List Unread → Option Group
joined to none us = summary to us
joined to (some g) us = some (record {
  recipient = g.recipient;
  ids = g.ids ++ ids_to to us;
  high = greatest g.high (highest to us);
  bc = g.bc || announced_to to us;
})

find-group_row :
    (to : Text) (u : Unread) (gs : List Group)
    → find (is_group_of to) (group_row u gs) ≡ (
        if is_to to u
        then some (add_to u (or_else (find (is_group_of to) gs) (empty_group to)))
        else find (is_group_of to) gs)
unfolding find group_row add_to
find-group_row to u [] = elim (Bool-cases (is_to to u)) [
  | inl e ↦ rw e (ap (λ t. some (add_to u (empty_group t))) ((text_eq_iff u.recipient_id to).0 e))
  | inr e ↦ rw e refl
]
find-group_row to u (g ∷ gs) = ground (
  arith,
  text_eq_iff u.recipient_id to,
  text_eq_iff g.recipient to,
  text_eq_iff g.recipient u.recipient_id,
  find-group_row to u gs,
)

greatest_assoc : (a b c : ℕ) → greatest (greatest a b) c ≡ greatest a (greatest b c)
unfolding greatest
greatest_assoc a b c = ground arith

greatest-zero : (a : ℕ) → (greatest a 0 ≡ a) × (greatest 0 a ≡ a)
unfolding greatest
greatest-zero a = ground arith

or_assoc : (a b c : Bool) → (a || b || c) ≡ (a || (b || c))
or_assoc true b c = refl
or_assoc false b c = refl

abbrev group_of : Text → List Text → ℕ → Bool → Group
group_of to ids high bc = record { recipient = to; ids = ids; high = high; bc = bc }

-- a group is its recipient, its ids, its mark and its flag
same_group :
    {to : Text} {ids ids' : List Text} {high high' : ℕ} {bc bc' : Bool}
    → ids ≡ ids'
    → high ≡ high'
    → bc ≡ bc'
    → group_of to ids high bc ≡ group_of to ids' high' bc'
same_group i h b = rw (i, h, b) refl

joined-nil : (to : Text) (o : Option Group) → joined to o [] ≡ o
unfolding joined summary any announced_to ids_to highest
joined-nil to none = refl
joined-nil to (some g) = ap some (
    same_group {ids' = g.ids} {bc = g.bc || false} {bc' = g.bc} (append-nil g.ids)
      (greatest-zero g.high).0 (ground arith))

joined-more :
    (to : Text) (u : Unread) (us : List Unread) (o : Option Group)
    → joined to (if is_to to u then some (add_to u (or_else o (empty_group to))) else o) us
      ≡ joined to o (u ∷ us)
unfolding joined summary any ids_to highest announced_to add_to
joined-more to u us none = elim (Bool-cases (is_to to u)) [
  | inl e ↦
      rw e (
        ap some
          (same_group refl (ap (λ n. greatest n (highest to us)) (greatest-zero u.id).1) refl))
  | inr e ↦ rw e refl
]
joined-more to u us (some g) = elim (Bool-cases (is_to to u)) [
  | inl e ↦ rw e (
      ap some (
        same_group (append_assoc g.ids (u.message_id ∷ []) (ids_to to us))
          (greatest_assoc g.high u.id (highest to us))
          (or_assoc g.bc u.broadcast (announced_to to us))))
  | inr e ↦ rw e refl
]

find-group_rows :
    (to : Text) (us : List Unread) (gs : List Group)
    → find (is_group_of to) (group_rows gs us) ≡ joined to (find (is_group_of to) gs) us
unfolding group_rows
find-group_rows to [] gs = sym (joined-nil to (find (is_group_of to) gs))
find-group_rows to (u ∷ us) gs =
    find-group_rows to us (group_row u gs)
    ∙ (ap (λ o. joined to o us) (find-group_row to u gs)
        ∙ joined-more to u us (find (is_group_of to) gs))

count-group_row :
    (to : Text) (u : Unread) (gs : List Group)
    → count (is_group_of to) (group_row u gs)
      ≡ (if is_to to u && count (is_group_of to) gs == 0 then 1 else count (is_group_of to) gs)
unfolding count group_row add_to
count-group_row to u [] = ground arith
count-group_row to u (g ∷ gs) = ground (
  arith,
  text_eq_iff u.recipient_id to,
  text_eq_iff g.recipient to,
  text_eq_iff g.recipient u.recipient_id,
  count-group_row to u gs,
)

count-group_rows :
    (to : Text) (us : List Unread) (gs : List Group)
    → count (is_group_of to) gs ≤ 1
    → count (is_group_of to) (group_rows gs us) ≤ 1
unfolding group_rows
count-group_rows to [] gs h = h
count-group_rows to (u ∷ us) gs h =
    count-group_rows to us (group_row u gs) (ground (arith, count-group_row to u gs))

count-nil : (p : Group → Bool) → count p [] ≤ 1
unfolding count
count-nil p = omega arith

-- `scan_unread` finds a recipient once at most.
pub scan_unread_once :
    (now : ℕ) (s : Schema) (l : Ledger) (to : Text)
    → count (is_group_of to) (scan_unread now s l) ≤ 1
unfolding scan_unread
scan_unread_once now s l to =
    let gs = group_rows [] (waiting_rows s l) in
    omega (
      arith,
      count-select-le (is_group_of to) (λ g. not (is_snoozed now s l g.recipient))
          (order_by group_le gs),
      count-order_by (is_group_of to) group_le gs,
      count-group_rows to (waiting_rows s l) [] (count-nil (is_group_of to)),
    )

if_kept : ℕ → Schema → Ledger → Option Group → Option Group
if_kept now s l none = none
if_kept now s l (some g) = if not (is_snoozed now s l g.recipient) then some g else none

kept-summary :
    (now : ℕ) (s : Schema) (l : Ledger) (to : Text) (us : List Unread)
    → if_kept now s l (summary to us) ≡ (if is_snoozed now s l to then none else summary to us)
unfolding summary if_kept
kept-summary now s l to us = ground arith

-- What `scan_unread` says of one recipient depends on that recipient alone: nothing while the node
-- is snoozed or has no unread mail, and else its message ids in the order of the rows, the greatest
-- delivery id, and whether one of them is an announcement.
pub scan_unread-find :
    (now : ℕ) (s : Schema) (l : Ledger) (to : Text)
    → find (is_group_of to) (scan_unread now s l)
      ≡ (if is_snoozed now s l to then none else summary to (waiting_rows s l))
unfolding scan_unread find joined if_kept
scan_unread-find now s l to =
    let gs = group_rows [] (waiting_rows s l) in
    let once = count-group_rows to (waiting_rows s l) [] (count-nil (is_group_of to)) in
    let sorted = count-order_by (is_group_of to) group_le gs in
    find-select (is_group_of to) (λ g. not (is_snoozed now s l g.recipient)) (order_by group_le gs)
      (omega (arith, once, sorted))
    ∙ (ap (if_kept now s l) (
          find-order_by (is_group_of to) group_le gs once
          ∙ find-group_rows to (waiting_rows s l) [])
        ∙ kept-summary now s l to (waiting_rows s l))
