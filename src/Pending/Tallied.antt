-- ===== src/Pending/Tallied.antt =====
-- What the unread counts say of one recipient.
use tabc.Table.Orders.{count-order_by, count-select, find-order_by}
use tabc.Prelude.{
  Bool, Bool-cases, List, Option, [], ap, arith, false, if◌then◌else◌, inl, inr, none, refl, some,
  sym, true, ℕ, ◌&&◌, ◌+◌, ◌==◌, ◌∙◌, ◌∷◌, ◌≡◌, ◌≤◌,
}
use tabc.Text.{Text, mem_text, text_eq, text_eq_iff}
use tabc.Table.{count, delete_where, find, order_by, select}
use tabc.Ledger.{Delivery, Ledger}
use tabc.Pending.{
  Pending, add_pending, bus_pending_counts, bus_pending_counts_for_all, group_pending, is_pending,
  is_pending_from, is_pending_of, pending_counts_for_recipients, pending_in, pending_le,
}

-- the number that a table of counts shows for a recipient, if it shows one
abbrev pub shown : Text → ℕ → Option Pending
shown to n = if n == 0 then none else some (record { recipient = to; pending = n })

abbrev pub is_sent_to : Text → Delivery → Bool
is_sent_to to d = text_eq d.recipient_id to

-- A table of counts shows every recipient once at most, and with its number of rows, 0 of them
-- being shown by no entry: the abstract view is a function from recipients to numbers.
pub record IsTally (ps : List Pending) (f : Text → ℕ) : Type 0 where
  pub once : (to : Text) → count (is_pending_of to) ps ≤ 1
  pub agrees : (to : Text) → find (is_pending_of to) ps ≡ shown to (f to)

-- what is added to a count that a table may show
more : Text → ℕ → Option Pending → Option Pending
more to n none = shown to n
more to n (some p) = some (record p { pending = p.pending + n })

bump : Text → Option Pending → Pending
bump to none = record { recipient = to; pending = 1 }
bump to (some p) = record p { pending = p.pending + 1 }

find-add_pending :
    (to who : Text) (ps : List Pending)
    → find (is_pending_of to) (add_pending who ps) ≡ (
        if text_eq who to
        then some (bump to (find (is_pending_of to) ps))
        else find (is_pending_of to) ps)
unfolding find add_pending bump
find-add_pending to who [] = elim (Bool-cases (text_eq who to)) [
  | inl e ↦ rw e (ap (λ t. some (record { recipient = t; pending = 1 })) ((text_eq_iff who to).0 e))
  | inr e ↦ rw e refl
]
find-add_pending to who (p ∷ ps) = ground (
  arith,
  text_eq_iff who to,
  text_eq_iff p.recipient to,
  text_eq_iff p.recipient who,
  find-add_pending to who ps,
)

count-add_pending :
    (to who : Text) (ps : List Pending)
    → count (is_pending_of to) (add_pending who ps) ≡ (
        if text_eq who to && count (is_pending_of to) ps == 0
        then 1
        else count (is_pending_of to) ps)
unfolding count add_pending
count-add_pending to who [] = ground arith
count-add_pending to who (p ∷ ps) = ground (
  arith,
  text_eq_iff who to,
  text_eq_iff p.recipient to,
  text_eq_iff p.recipient who,
  count-add_pending to who ps,
)

more-zero : (to : Text) (o : Option Pending) → more to 0 o ≡ o
unfolding more
more-zero to none = refl
more-zero to (some p) =
    ap (λ n. some (record { recipient = p.recipient; pending = n })) (omega arith)

more-step :
    (to : Text) (b : Bool) (n : ℕ) (o : Option Pending)
    → more to n (if b then some (bump to o) else o) ≡ more to ((if b then 1 else 0) + n) o
unfolding more bump
more-step to true n none = ground arith
more-step to true n (some p) =
    ap (λ k. some (record { recipient = p.recipient; pending = k })) (omega arith)
more-step to false n o = ap (λ k. more to k o) (omega arith)

find-group_pending :
    (to : Text) (ds : List Delivery) (ps : List Pending)
    → find (is_pending_of to) (group_pending ps ds)
      ≡ more to (count (is_sent_to to) ds) (find (is_pending_of to) ps)
unfolding group_pending count
find-group_pending to [] ps = sym (more-zero to (find (is_pending_of to) ps))
find-group_pending to (d ∷ ds) ps =
    find-group_pending to ds (add_pending d.recipient_id ps)
    ∙ (ap (more to (count (is_sent_to to) ds)) (find-add_pending to d.recipient_id ps)
        ∙ more-step to (text_eq d.recipient_id to) (count (is_sent_to to) ds)
            (find (is_pending_of to) ps))

count-group_pending :
    (to : Text) (ds : List Delivery) (ps : List Pending)
    → count (is_pending_of to) ps ≤ 1
    → count (is_pending_of to) (group_pending ps ds) ≤ 1
unfolding group_pending
count-group_pending to [] ps h = h
count-group_pending to (d ∷ ds) ps h =
    count-group_pending to ds (add_pending d.recipient_id ps)
      (ground (arith, count-add_pending to d.recipient_id ps))

group_pending-IsTally :
    (ds : List Delivery) → IsTally (group_pending [] ds) (λ to. count (is_sent_to to) ds)
unfolding count find more
group_pending-IsTally ds = record {
  once = λ to. count-group_pending to ds [] (omega arith);
  agrees = λ to. find-group_pending to ds [];
}

order_by-IsTally :
    (le : Pending → Pending → Bool) {ps : List Pending} {f : Text → ℕ}
    → IsTally ps f
    → IsTally (order_by le ps) f
order_by-IsTally le {ps} h = record {
  once = λ to. omega (arith, count-order_by (is_pending_of to) le ps, h.once to);
  agrees = λ to. find-order_by (is_pending_of to) le ps (h.once to) ∙ h.agrees to;
}

-- a table that agrees with one function agrees with an equal one
IsTally-same :
    {ps : List Pending} {f g : Text → ℕ} → ((to : Text) → f to ≡ g to) → IsTally ps f → IsTally ps g
IsTally-same e h = record { once = h.once; agrees = λ to. h.agrees to ∙ ap (shown to) (e to) }

-- How many deliveries to a recipient are unread, whoever sent them.
abbrev pub unread_to : Ledger → Text → ℕ
unread_to l to = count (λ d. is_sent_to to d && is_pending d) l.deliveries

-- and how many of them a sender sent
abbrev pub unread_from_to : Ledger → Text → Text → ℕ
unread_from_to l sender to = count (λ d. is_sent_to to d && is_pending_from l sender d) l.deliveries

-- The counts that a sender is shown implement the function that counts, for every recipient, the
-- unread deliveries of that sender's messages to it: each recipient with one of them has one row,
-- which holds their number, and a recipient without has none.
pub bus_pending_counts-IsTally :
    (l : Ledger) (sender : Text) → IsTally (bus_pending_counts l sender) (unread_from_to l sender)
unfolding bus_pending_counts
bus_pending_counts-IsTally l sender = order_by-IsTally pending_le (
    IsTally-same (λ to. count-select (is_sent_to to) (is_pending_from l sender) l.deliveries)
      (group_pending-IsTally (select (is_pending_from l sender) l.deliveries)))

pub bus_pending_counts_for_all-IsTally :
    (l : Ledger) → IsTally (bus_pending_counts_for_all l) (unread_to l)
unfolding bus_pending_counts_for_all
bus_pending_counts_for_all-IsTally l = order_by-IsTally pending_le (
    IsTally-same (λ to. count-select (is_sent_to to) is_pending l.deliveries)
      (group_pending-IsTally (select is_pending l.deliveries)))

pub pending_in-shown :
    (ps : List Pending) (to : Text) (n : ℕ)
    → find (is_pending_of to) ps ≡ shown to n
    → pending_in ps to ≡ n
unfolding pending_in
pending_in-shown ps to n h = rw (pending_in, h) (ground arith)

find-delete_where :
    (to t : Text) (ps : List Pending)
    → find (is_pending_of to) (delete_where (is_pending_of t) ps)
      ≡ (if text_eq t to then none else find (is_pending_of to) ps)
unfolding find delete_where
find-delete_where to t [] = ground arith
find-delete_where to t (p ∷ ps) = ground (
  arith,
  text_eq_iff t to,
  text_eq_iff p.recipient to,
  text_eq_iff p.recipient t,
  find-delete_where to t ps,
)

-- The dict has an entry for a recipient exactly when it was asked for, and the entry holds the
-- number of its unread deliveries, 0 without one.
pub pending_counts_for_recipients-find :
    (l : Ledger) (ts : List Text) (to : Text)
    → find (is_pending_of to) (pending_counts_for_recipients l ts) ≡ (
        if mem_text to ts then some (record { recipient = to; pending = unread_to l to }) else none)
unfolding pending_counts_for_recipients find mem_text
pending_counts_for_recipients-find l [] to = refl
pending_counts_for_recipients-find l (t ∷ ts) to =
    let rows = group_pending [] (select is_pending l.deliveries) in
    let tally = group_pending-IsTally (select is_pending l.deliveries) in
    let n =
      pending_in-shown rows to (unread_to l to)
        (tally.agrees to ∙ ap (shown to) (count-select (is_sent_to to) is_pending l.deliveries)) in
    let gone = find-delete_where to t (pending_counts_for_recipients l ts) in
    let rest = pending_counts_for_recipients-find l ts to in
    elim (Bool-cases (text_eq t to)) [
      | inl e ↦ rw e (
          ap some (
            ap (λ t. record { recipient = t; pending = pending_in rows t }) ((text_eq_iff t to).0 e)
            ∙ ap (λ k. record { recipient = to; pending = k }) n))
      | inr e ↦ rw e (gone ∙ rw e rest)
    ]
