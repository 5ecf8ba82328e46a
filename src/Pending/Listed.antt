-- ===== src/Pending/Listed.antt =====
-- The listing of unread subjects (`list_unread_titles`) against the deliveries it lists.
use tabc.Text.{Text}
use tabc.Table.Orders.{count-map, count-order_by, count-select}
use tabc.Delivery.Reopen.{is_unread_of}
use tabc.Send.Stored.{IsLinked}
use tabc.Pending.{list_unread_titles, title_of}
use tabc.Pending.Tallied.{unread_to}
use tabc.Prelude.{
  All, Bool, Bool-cases, List, Option, [], ap, arith, if◌then◌else◌, inl, inr, is_some, length,
  none, refl, some, suc, take, true, zero, ℕ, ◌&&◌, ◌+◌, ◌∙◌, ◌∷◌, ◌≡◌, ◌≤◌,
}
use tabc.Table.{count, order_by, select}
use tabc.Ledger.{Delivery, Ledger, Message, find_message}
use tabc.Delivery.{Row, has_priority, join_rows, row_le}

abbrev is_linked : List Message → Delivery → Bool
is_linked ms d = is_some (find_message ms d.message_id)

select-linked :
    (ms : List Message) (q : Delivery → Bool) (ds : List Delivery)
    → All (λ d. is_linked ms d ≡ true) ds
    → All (λ d. is_linked ms d ≡ true) (select q ds)
unfolding select
select-linked ms q [] h = tt
select-linked ms q (d ∷ ds) h = elim (Bool-cases (q d)) [
  | inl e ↦ rw e (h.0, select-linked ms q ds h.1)
  | inr e ↦ rw e (select-linked ms q ds h.1)
]

-- the row of a delivery whose message is found
count-joined :
    (p : ℕ → Bool) (d : Delivery) (rest : List Row) (o : Option Message)
    → is_some o ≡ true
    → count
        (λ r. p r.did)
        (elim o [
          | none ↦ rest
          | some m ↦
              record { did = d.id; state = d.state; attempts = d.attempts; message = m } ∷ rest
        ])
      ≡ (if p d.id then 1 else 0) + count (λ r. p r.did) rest
unfolding count
count-joined p d rest none h = absurd (ground arith)
count-joined p d rest (some m) h = refl

count-join_rows :
    (p : ℕ → Bool) (ms : List Message) (ds : List Delivery)
    → All (λ d. is_linked ms d ≡ true) ds
    → count (λ r. p r.did) (join_rows ms ds) ≡ count (λ d. p d.id) ds
unfolding count join_rows
count-join_rows p ms [] h = refl
count-join_rows p ms (d ∷ ds) h =
    count-joined p d (join_rows ms ds) (find_message ms d.message_id) h.0
    ∙ ap (λ n. (if p d.id then 1 else 0) + n) (count-join_rows p ms ds h.1)

take-all : {A : Type 0} (n : ℕ) (xs : List A) → length xs ≤ n → take n xs ≡ xs
take-all zero [] h = refl
take-all zero (x ∷ xs) h = absurd (omega (arith, h))
take-all (suc n) [] h = refl
take-all (suc n) (x ∷ xs) h = ap (λ ys. x ∷ ys) (take-all n xs (omega (arith, h)))

length-count : {A : Type 0} (xs : List A) → length xs ≡ count (λ x. true) xs
unfolding count
length-count [] = refl
length-count (x ∷ xs) = omega (arith, length-count xs)

select-all : {A : Type 0} (p : A → Bool) → ((x : A) → p x ≡ true) → (xs : List A) → select p xs ≡ xs
unfolding select
select-all p h [] = refl
select-all p h (x ∷ xs) = rw (h x) (ap (λ ys. x ∷ ys) (select-all p h xs))

-- the listing before LIMIT
abbrev candidates : Ledger → Text → List Row
candidates l node =
    order_by row_le
      (select (has_priority none) (join_rows l.messages (select (is_unread_of node) l.deliveries)))

count-candidates :
    (p : ℕ → Bool) (l : Ledger) (node : Text)
    → IsLinked l
    → count (λ r. p r.did) (candidates l node)
      ≡ count (λ d. p d.id && is_unread_of node d) l.deliveries
unfolding has_priority
count-candidates p l node h =
    let ds = select (is_unread_of node) l.deliveries in
    count-order_by (λ r. p r.did) row_le (select (has_priority none) (join_rows l.messages ds))
    ∙ (ap (count (λ r. p r.did))
          (select-all (has_priority none) (λ r. refl) (join_rows l.messages ds))
        ∙ (count-join_rows p l.messages ds
              (select-linked l.messages (is_unread_of node) l.deliveries h)
            ∙ count-select (λ d. p d.id) (is_unread_of node) l.deliveries))

-- Where every delivery has its message and a node has no more unread mail than the limit, the
-- listing of all priorities shows exactly the unread deliveries that the counts number: for every
-- test on delivery ids, as many of its rows pass as of the node's unread deliveries.
pub list_unread_titles-count :
    (l : Ledger) (node : Text) (limit : ℕ)
    → IsLinked l
    → unread_to l node ≤ limit
    → (p : ℕ → Bool)
    → count (λ t. p t.did) (list_unread_titles l node none limit)
      ≡ count (λ d. p d.id && is_unread_of node d) l.deliveries
unfolding list_unread_titles title_of
list_unread_titles-count l node limit linked h p =
    let rows = candidates l node in
    let short = length-count rows ∙ count-candidates (λ x. true) l node linked in
    count-map title_of (λ t. p t.did) (take limit rows)
    ∙ (ap (count (λ r. p r.did)) (take-all limit rows (omega (arith, short, h)))
        ∙ count-candidates p l node linked)
