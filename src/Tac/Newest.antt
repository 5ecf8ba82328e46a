-- ===== src/Tac/Newest.antt =====
-- Which messages of a tac its listing shows.
use mathlib.Core.List.{append-nil, append_assoc}
use tabc.Prelude.{
  All, All-map, All-take, Bool, Bool-cases, List, [], ap, ap₂, arith, false, if◌then◌else◌, inl,
  inr, leb, ltb, map, refl, some, suc, sym, take, zero, ℕ, ◌++◌, ◌+◌, ◌==◌, ◌∙◌, ◌∷◌, ◌≡◌, ◌≤◌,
}
use tabc.Text.{Text, opt_eq}
use tabc.Table.{count, insert_by, order_by, select}
use tabc.Table.Laws.{select-append}
use tabc.Table.Orders.{count-order_by}
use tabc.Ledger.{Ledger, Message}
use tabc.Tac.Resolve.{resolve, resolve_or_given}
use tabc.Tac.Listing.{
  TacMessage, at_least_one, backwards, bus_tac_messages, is_in_tac, negsuc, newest_first, pos,
  tac_message, ℤ,
}

-- accepted after an instant
abbrev pub is_after : ℕ → Message → Bool
is_after t m = ltb t m.accepted_at

-- no row is newer than one before it
pub IsFalling : List Message → Type 0
IsFalling [] = Unit
IsFalling (m ∷ ms) = All (λ k. k.accepted_at ≤ m.accepted_at) ms × IsFalling ms

All-insert_by :
    (P : Message → Type 0) (m : Message) (ms : List Message)
    → P m
    → All P ms
    → All P (insert_by newest_first m ms)
unfolding insert_by
All-insert_by P m [] p h = (p, tt)
All-insert_by P m (k ∷ ks) p h = elim (Bool-cases (newest_first m k)) [
  | inl e ↦ rw e (p, h)
  | inr e ↦ rw e (h.0, All-insert_by P m ks p h.1)
]

insert_by-IsFalling :
    (m : Message) (ms : List Message) → IsFalling ms → IsFalling (insert_by newest_first m ms)
unfolding insert_by IsFalling
insert_by-IsFalling m [] h = (tt, tt)
insert_by-IsFalling m (k ∷ ks) h = elim (Bool-cases (newest_first m k)) [
  | inl e ↦ rw e (
    (
      ground arith,
      All-map (λ j. j.accepted_at ≤ k.accepted_at) (λ j. j.accepted_at ≤ m.accepted_at)
          (λ j q. ground arith) ks h.0,
    ),
    h,
  )
  | inr e ↦ rw e (
    All-insert_by (λ j. j.accepted_at ≤ k.accepted_at) m ks (ground arith) h.0,
    insert_by-IsFalling m ks h.1,
  )
]

order_by-IsFalling : (ms : List Message) → IsFalling (order_by newest_first ms)
unfolding order_by IsFalling
order_by-IsFalling [] = tt
order_by-IsFalling (m ∷ ms) =
    insert_by-IsFalling m (order_by newest_first ms) (order_by-IsFalling ms)

abbrev pub lesser : ℕ → ℕ → ℕ
lesser a b = if leb a b then a else b

none_after :
    (t : ℕ) (ms : List Message) (n : ℕ)
    → n ≤ t
    → All (λ k. k.accepted_at ≤ n) ms
    → count (is_after t) ms ≡ 0
unfolding count
none_after t [] n e h = refl
none_after t (m ∷ ms) n e h = ground (arith, h.0, none_after t ms n e h.1)

All-take_le :
    (i n : ℕ) (ms : List Message)
    → All (λ k. k.accepted_at ≤ n) ms
    → All (λ k. k.accepted_at ≤ n) (take i ms)
All-take_le i n ms h = All-take (λ k. k.accepted_at ≤ n) i ms h

count-take :
    (t n : ℕ) (ms : List Message)
    → IsFalling ms
    → count (is_after t) (take n ms) ≡ lesser n (count (is_after t) ms)
unfolding count IsFalling
count-take t zero ms h = ground arith
count-take t (suc n) [] h = ground arith
count-take t (suc n) (m ∷ ms) h = elim (Bool-cases (is_after t m)) [
  | inl e ↦ ground (arith, count-take t n ms h.1)
  | inr e ↦ ground (
    arith,
    none_after t ms m.accepted_at (ground arith) h.0,
    none_after t (take n ms) m.accepted_at (ground arith) (All-take_le n m.accepted_at ms h.0),
  )
]

count-append :
    (p : Message → Bool) (ms ns : List Message) → count p (ms ++ ns) ≡ count p ms + count p ns
unfolding count
count-append p [] ns = omega arith
count-append p (m ∷ ms) ns = omega (arith, count-append p ms ns)

count-backwards : (p : Message → Bool) (ms : List Message) → count p (backwards ms) ≡ count p ms
unfolding count backwards
count-backwards p [] = refl
count-backwards p (m ∷ ms) =
    omega (arith, count-append p (backwards ms) (m ∷ []), count-backwards p ms)

-- accepted at an instant
abbrev pub is_at : ℕ → Message → Bool
is_at t m = m.accepted_at == t

-- ORDER BY keeps rows of one instant in the order in which they came
select-insert_by :
    (t : ℕ) (m : Message) (ms : List Message)
    → select (is_at t) (insert_by newest_first m ms)
      ≡ (if is_at t m then m ∷ select (is_at t) ms else select (is_at t) ms)
unfolding select insert_by
select-insert_by t m [] = refl
select-insert_by t m (k ∷ ks) = elim (Bool-cases (newest_first m k)) [
  | inl e ↦ rw e refl
  | inr e ↦ elim (Bool-cases (is_at t k)) [
    | inl f ↦
        let late : is_at t m ≡ false = ground arith in
        rw (e, f) (rw late (ap (λ xs. k ∷ xs) (select-insert_by t m ks ∙ rw late refl)))
    | inr f ↦ rw (e, f) (select-insert_by t m ks)
  ]
]

select-order_by :
    (t : ℕ) (ms : List Message) → select (is_at t) (order_by newest_first ms) ≡ select (is_at t) ms
unfolding select order_by
select-order_by t [] = refl
select-order_by t (m ∷ ms) =
    select-insert_by t m (order_by newest_first ms)
    ∙ ap (λ xs. if is_at t m then m ∷ xs else xs) (select-order_by t ms)

select-take :
    (p : Message → Bool) (n : ℕ) (ms : List Message)
    → (rest : List Message) × (select p ms ≡ select p (take n ms) ++ rest)
unfolding select
select-take p zero ms = (select p ms, refl)
select-take p (suc n) [] = ([], refl)
select-take p (suc n) (m ∷ ms) =
    let (rest, e) = select-take p n ms in
    elim (Bool-cases (p m)) [ inl k ↦ (rest, rw k (ap (λ xs. m ∷ xs) e)) | inr k ↦ (rest, rw k e) ]

select-backwards :
    (p : Message → Bool) (ms : List Message) → select p (backwards ms) ≡ backwards (select p ms)
unfolding select backwards
select-backwards p [] = refl
select-backwards p (m ∷ ms) = elim (Bool-cases (p m)) [
  | inl k ↦
      rw k (select-append p (backwards ms) (m ∷ []) ∙ ap₂ ◌++◌ (select-backwards p ms) (rw k refl))
  | inr k ↦ rw k (
      select-append p (backwards ms) (m ∷ [])
      ∙ (ap₂ ◌++◌ (select-backwards p ms) (rw k refl) ∙ append-nil (backwards (select p ms))))
]

backwards-append : (ms ns : List Message) → backwards (ms ++ ns) ≡ backwards ns ++ backwards ms
unfolding backwards
backwards-append [] ns = sym (append-nil (backwards ns))
backwards-append (m ∷ ms) ns =
    ap (λ xs. xs ++ m ∷ []) (backwards-append ms ns)
    ∙ append_assoc (backwards ns) (backwards ms) (m ∷ [])

backwards-backwards : (ms : List Message) → backwards (backwards ms) ≡ ms
unfolding backwards
backwards-backwards [] = refl
backwards-backwards (m ∷ ms) =
    backwards-append (backwards ms) (m ∷ []) ∙ ap (λ xs. m ∷ xs) (backwards-backwards ms)

-- the limit that counts: at least 1
pub IsFloor : ℤ → ℕ → Type 0
IsFloor (pos zero) n = n ≡ 1
IsFloor (pos (suc k)) n = n ≡ suc k
IsFloor (negsuc k) n = n ≡ 1

at_least_one-IsFloor : (limit : ℤ) → IsFloor limit (at_least_one limit)
unfolding IsFloor
at_least_one-IsFloor (pos zero) = refl
at_least_one-IsFloor (pos (suc k)) = refl
at_least_one-IsFloor (negsuc k) = refl

resolve_or_given-same : (l : Ledger) (given : Text) → resolve_or_given l given ≡ given
unfolding resolve resolve_or_given
resolve_or_given-same l given = ground arith

-- the columns that are shown of a message
abbrev columns : Message → TacMessage
columns m = record {
  id = m.id;
  sender_id = m.sender_id;
  subject = m.subject;
  body = m.body;
  accepted_at = m.accepted_at;
  priority = m.priority;
}

abbrev of_tac : Text → List Message → List Message
of_tac tac ms = select (λ m. opt_eq m.tac_id (some tac)) ms

-- What a listing shows: the six columns of some messages, from the newest to the oldest. After every
-- instant they are as many as the tac has, up to the limit. Of the tac's messages of one instant
-- they are the last that were stored, the last one first.
pub record IsNewest (l : Ledger) (tac : Text) (limit : ℤ) (shown : List TacMessage) : Type 0 where
  pub rows : List Message
  pub top : ℕ
  pub floor : IsFloor limit top
  pub same : shown ≡ map columns rows
  pub falling : IsFalling rows
  pub newest :
      (t : ℕ) → count (is_after t) rows ≡ lesser top (count (is_after t) (of_tac tac l.messages))
  pub last_stored :
      (t : ℕ)
      → (older : List Message) × (select (is_at t) (of_tac tac l.messages)
          ≡ older ++ backwards (select (is_at t) rows))

IsFalling-take : (n : ℕ) (ms : List Message) → IsFalling ms → IsFalling (take n ms)
unfolding IsFalling
IsFalling-take zero ms h = tt
IsFalling-take (suc n) [] h = tt
IsFalling-take (suc n) (m ∷ ms) h = (All-take_le n m.accepted_at ms h.0, IsFalling-take n ms h.1)

last-listed :
    (t n : ℕ) (ms : List Message)
    → (older : List Message) × (select (is_at t) ms
        ≡ older ++ backwards (select (is_at t) (take n (order_by newest_first (backwards ms)))))
last-listed t n ms =
    let sorted = order_by newest_first (backwards ms) in
    let (rest, e) = select-take (is_at t) n sorted in
    let turned : backwards (select (is_at t) ms) ≡ select (is_at t) (take n sorted) ++ rest =
      sym (select-backwards (is_at t) ms) ∙ (sym (select-order_by t (backwards ms)) ∙ e) in
    (
      backwards rest,
      sym (backwards-backwards (select (is_at t) ms))
          ∙ (ap backwards turned ∙ backwards-append (select (is_at t) (take n sorted)) rest),
    )

-- The listing of a tac shows its newest messages and no others: up to the limit that is asked for,
-- or 1 where that is less, the six columns of the messages accepted last, from the newest to the
-- oldest, and of those accepted in one second the ones stored last, the last one first.
pub bus_tac_messages-IsNewest :
    (l : Ledger) (tac : Text) (limit : ℤ) → IsNewest l tac limit (bus_tac_messages l tac limit)
unfolding bus_tac_messages tac_message
bus_tac_messages-IsNewest l tac limit =
    let n = at_least_one limit in
    let ms = of_tac tac l.messages in
    let sorted = order_by newest_first (backwards ms) in
    record {
      rows = take n sorted;
      top = n;
      floor = at_least_one-IsFloor limit;
      same =
          ap
            (λ g.
              map columns
                (take n (order_by newest_first (backwards (select (is_in_tac g) l.messages)))))
            (resolve_or_given-same l tac);
      falling = IsFalling-take n sorted (order_by-IsFalling (backwards ms));
      newest = λ t.
          count-take t n sorted (order_by-IsFalling (backwards ms))
          ∙ ap (lesser n) (
              count-order_by (is_after t) newest_first (backwards ms)
              ∙ count-backwards (is_after t) ms);
      last_stored = λ t. last-listed t n ms;
    }
