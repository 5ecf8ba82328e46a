-- ===== src/Tac/Roll.antt =====
-- The roll of a tac, its members.
use tabc.Prelude.{
  Bool-cases, List, Option, [], arith, false, inl, inr, refl, sym, true, ℕ, ◌&&◌, ◌++◌, ◌∙◌, ◌∷◌,
  ◌≡◌, ◌≤◌, ◌⊎◌,
}
use tabc.Text.{Text, is_nonempty, text_eq_iff, text_eq_refl}
use tabc.Table.{any, count}
use tabc.Table.Laws.{any-append, count-append, count-eq_zero}
use tabc.Table.Counts.{count-single_false, count-single_le}
use tabc.Ledger.{Ledger, Membership, is_registered, is_removed, seconds, tac_exists}
use tabc.Tac.Resolve.{Resolved-cases, designates, resolve, resolve_keeps}
use tabc.Tac.Group.{add_to, added, bus_tac_add, insert_member, is_member}

-- Each node is at most once a member of a tac.
pub record IsRoll (ms : List Membership) : Type 0 where
  pub once : (tac node : Text) → count (is_member tac node) ms ≤ 1

abbrev row_of : ℕ → Option Text → Text → Text → Membership
row_of ts by tac node = record { tac_id = tac; member_node_id = node; added_at = ts; added_by = by }

insert_member-once :
    (ts : ℕ) (by : Option Text) (tac node : Text) (ms : List Membership) (t n : Text)
    → IsRoll ms
    → any (is_member tac node) ms ≡ false
    → count (is_member t n) (ms ++ row_of ts by tac node ∷ []) ≤ 1
insert_member-once ts by tac node ms t n m h =
    let row = row_of ts by tac node in
    rw (count-append (is_member t n) ms (row ∷ [])) (elim (Bool-cases (is_member t n row)) [
      | inl e ↦
          let a = (text_eq_iff tac t).0 (ground arith) in
          let b = (text_eq_iff node n).0 (ground arith) in
          omega (
            arith,
            count-eq_zero (is_member t n) ms (rw (sym a, sym b) h),
            count-single_le (is_member t n) row,
          )
      | inr e ↦ omega (arith, m.once t n, count-single_false (is_member t n) row e)
    ])

insert_member-IsRoll :
    (ts : ℕ) (by : Option Text) (tac node : Text) (ms : List Membership)
    → IsRoll ms
    → IsRoll (insert_member ts by tac node ms)
unfolding insert_member
insert_member-IsRoll ts by tac node ms m = elim (Bool-cases (any (is_member tac node) ms)) [
  | inl e ↦ rw e m
  | inr e ↦ rw e (record { once = λ t n. insert_member-once ts by tac node ms t n m e })
]

insert_member-there :
    (ts : ℕ) (by : Option Text) (tac node : Text) (ms : List Membership)
    → any (is_member tac node) (insert_member ts by tac node ms) ≡ true
unfolding insert_member any
insert_member-there ts by tac node ms = elim (Bool-cases (any (is_member tac node) ms)) [
  | inl e ↦ rw e e
  | inr e ↦
      rw (e, any-append (is_member tac node) ms (row_of ts by tac node ∷ []))
        (ground (arith, text_eq_refl tac, text_eq_refl node))
]

-- what an addition to a resolved tac went through
add_to-found :
    (ts : ℕ) (by : Option Text) (tac node : Text) (l : Ledger)
    → (add_to ts by tac node l).0 ≡ added
    → (tac_exists l tac ≡ true)
      × (is_registered l node ≡ true)
      × (is_removed l node ≡ false)
      × ((add_to ts by tac node l).1
          ≡ record l { tac_members = insert_member ts by tac node l.tac_members })
unfolding add_to
add_to-found ts by tac node l h = ground arith

bus_tac_add-found :
    (now : ℕ) (given node : Text) (by : Option Text) (l : Ledger)
    → (bus_tac_add now given node by l).0 ≡ added
    → ((is_nonempty given && is_nonempty node) ≡ true)
      × (resolve l given ≡ designates given)
      × (bus_tac_add now given node by l ≡ add_to (seconds now) by given node l)
unfolding bus_tac_add
bus_tac_add-found now given node by l h = elim (Resolved-cases (resolve l given)) [
  | inl (r, e) ↦ absurd (ground arith)
  | inr (t, e) ↦
      let same = (resolve_keeps l given t e).0 in
      (ground arith, rw same at e, rw (sym same) (ground arith))
]

-- the roll decides none of the checks
same_checks :
    (ms : List Membership) (l : Ledger) (given node : Text)
    → let l' = record l { tac_members = ms } in
      (resolve l' given ≡ resolve l given)
      × (tac_exists l' given ≡ tac_exists l given)
      × (is_registered l' node ≡ is_registered l node)
      × (is_removed l' node ≡ is_removed l node)
unfolding resolve tac_exists is_registered is_removed
same_checks ms l given node = (refl, refl, refl, refl)

insert_member-again :
    (ts : ℕ) (by : Option Text) (tac node : Text) (ms : List Membership)
    → any (is_member tac node) ms ≡ true
    → insert_member ts by tac node ms ≡ ms
unfolding insert_member
insert_member-again ts by tac node ms h = rw h refl

bus_tac_add-present :
    (now : ℕ) (given node : Text) (by : Option Text) (l : Ledger)
    → (is_nonempty given && is_nonempty node) ≡ true
    → resolve l given ≡ designates given
    → tac_exists l given ≡ true
    → is_registered l node ≡ true
    → is_removed l node ≡ false
    → any (is_member given node) l.tac_members ≡ true
    → bus_tac_add now given node by l ≡ (added, l)
unfolding bus_tac_add add_to
bus_tac_add-present now given node by l n r t g a m =
    rw (n, r, t, g, a, insert_member-again (seconds now) by given node l.tac_members m) refl

-- After an answer `added`, the node is on the roll of the tac, both are registered, and adding the
-- node again at any time changes nothing.
pub bus_tac_add-again :
    (now later : ℕ) (given node : Text) (by who : Option Text) (l : Ledger)
    → (bus_tac_add now given node by l).0 ≡ added
    → let l' = (bus_tac_add now given node by l).1 in
      (any (is_member given node) l'.tac_members ≡ true)
      × (tac_exists l' given ≡ true)
      × (is_registered l' node ≡ true)
      × (bus_tac_add later given node who l' ≡ (added, l'))
bus_tac_add-again now later given node by who l h =
    let (n, r, e) = bus_tac_add-found now given node by l h in
    let k : (add_to (seconds now) by given node l).0 ≡ added = rw e at h in
    let (there, reg, active, w) = add_to-found (seconds now) by given node l k in
    let ms = insert_member (seconds now) by given node l.tac_members in
    let on_roll = insert_member-there (seconds now) by given node l.tac_members in
    let (sr, st, sg, sa) = same_checks ms l given node in
    let l' : Ledger = record l { tac_members = ms } in
    rw (e, w)
      (
        on_roll,
        st ∙ there,
        sg ∙ reg,
        bus_tac_add-present later given node who l' n (sr ∙ r) (st ∙ there) (sg ∙ reg) (sa ∙ active)
            on_roll,
      )

-- an addition that was not carried out changes nothing
bus_tac_add-cases :
    (now : ℕ) (given node : Text) (by : Option Text) (l : Ledger)
    → ((bus_tac_add now given node by l).0 ≡ added) ⊎ ((bus_tac_add now given node by l).1 ≡ l)
unfolding bus_tac_add add_to
bus_tac_add-cases now given node by l = elim (Resolved-cases (resolve l given)) [
  | inl (r, e) ↦ inr (ground arith)
  | inr (t, e) ↦ ground arith
]

-- An addition to a tac, whatever it answers, keeps each node at most once on the roll of each tac.
pub bus_tac_add-IsRoll :
    (now : ℕ) (given node : Text) (by : Option Text) (l : Ledger)
    → IsRoll l.tac_members
    → IsRoll (bus_tac_add now given node by l).1.tac_members
bus_tac_add-IsRoll now given node by l m = elim (bus_tac_add-cases now given node by l) [
  | inl h ↦
      let (n, r, e) = bus_tac_add-found now given node by l h in
      let k : (add_to (seconds now) by given node l).0 ≡ added = rw e at h in
      let (_, _, _, w) = add_to-found (seconds now) by given node l k in
      rw (e, w) (insert_member-IsRoll (seconds now) by given node l.tac_members m)
  | inr same ↦ rw same m
]
