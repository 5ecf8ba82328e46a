-- ===== src/Tac/Named.antt =====
-- Names: what creating and renaming keep unique.
use tabc.Text.Unicode.{is_space, strip}
use tabc.Tac.Identity.{check_name, is_uuid_id}
use tabc.Prelude.{
  All, Bool, Bool-cases, List, Option, Option-cases, [], arith, false, inl, inr, none, refl, some,
  sym, true, ℕ, ◌++◌, ◌∷◌, ◌≡◌, ◌≤◌, ◌⊎◌,
}
use tabc.Text.{Text, opt_eq, text_eq, text_eq_iff}
use tabc.Host.{Host}
use tabc.Table.{any, count, find, update_where}
use tabc.Table.Laws.{count-append, count-eq_zero}
use tabc.Table.Counts.{
  All-of_count, All-of_find, count-of_none, count-single_false, count-single_le,
  count-update_where-eq, count-update_where-le, count-update_where-picked,
}
use tabc.Ledger.{Ledger, Tac, is_registered, seconds, tac_exists}
use tabc.Tac.Store.{
  create, find_key, free_id, give_name, is_mixed, is_tac, name_refusal, named_tac, rename,
  write_name,
}

abbrev pub has_key : Text → Tac → Bool
has_key key t = opt_eq t.name_key (some key)

-- An identifier is that of at most one tac, and so is a folded name.
pub record IsNamed (ts : List Tac) : Type 0 where
  pub one_id : (tac : Text) → count (is_tac tac) ts ≤ 1
  pub one_name : (key : Text) → count (has_key key) ts ≤ 1

free_id-free :
    (l : Ledger) (ids : List Text) {i : Text} → free_id l ids ≡ some i → tac_exists l i ≡ false
unfolding free_id
free_id-free l [] h = absurd (ground arith)
free_id-free l (j ∷ ids) {i} h = elim (Bool-cases (tac_exists l j)) [
  | inl e ↦ free_id-free l ids (ground arith)
  | inr e ↦ ground arith
]

-- a name that is let through is held by no tac but the one that may keep it
name_refusal-none :
    (h : Host) (l : Ledger) (display : Text) (keeps : Option Text)
    → name_refusal h l display keeps ≡ none
    → (is_registered l display ≡ false)
      × ((find_key l (h.name_key display) ≡ none)
          ⊎ ((t : Tac) × (find_key l (h.name_key display) ≡ some t)
              × (opt_eq (some t.tac_id) keeps ≡ true)))
unfolding name_refusal
name_refusal-none h l display keeps n = elim (Option-cases (find_key l (h.name_key display))) [
  | inl e ↦ (ground arith, inl e)
  | inr (t, e) ↦ (ground arith, inr (t, e, ground arith))
]

added-IsNamed :
    (ts : List Tac) (t : Tac) (key : Text)
    → IsNamed ts
    → t.name_key ≡ some key
    → any (is_tac t.tac_id) ts ≡ false
    → find (has_key key) ts ≡ none
    → IsNamed (ts ++ t ∷ [])
added-IsNamed ts t key m k i f = record {
  one_id = λ tac. rw (count-append (is_tac tac) ts (t ∷ [])) (elim (Bool-cases (is_tac tac t)) [
    | inl e ↦
        let same = (text_eq_iff t.tac_id tac).0 e in
        omega
          (arith, count-eq_zero (is_tac tac) ts (rw (sym same) i), count-single_le (is_tac tac) t)
    | inr e ↦ omega (arith, m.one_id tac, count-single_false (is_tac tac) t e)
  ]);
  one_name = λ other.
      rw (count-append (has_key other) ts (t ∷ [])) (elim (Bool-cases (has_key other t)) [
        | inl e ↦
            let same = (text_eq_iff key other).0 (rw k at e) in
            omega (
              arith,
              rw same at (count-of_none (has_key key) ts f),
              count-single_le (has_key other) t,
            )
        | inr e ↦ omega (arith, m.one_name other, count-single_false (has_key other) t e)
      ]);
}

renamed-IsNamed :
    (ts : List Tac) (tac display key : Text)
    → IsNamed ts
    → All (λ t. has_key key t ≡ true → is_tac tac t ≡ true) ts
    → IsNamed (update_where (is_tac tac) (give_name display key) ts)
renamed-IsNamed ts tac display key m own = record {
  one_id = λ i.
      rw (count-update_where-eq (is_tac i) (is_tac tac) (give_name display key) (λ t. refl) ts)
        (m.one_id i);
  one_name = λ other. elim (Bool-cases (text_eq key other)) [
    | inl e ↦
        let same = (text_eq_iff key other).0 e in
        rw (sym same) (
          omega (
            arith,
            m.one_id tac,
            count-update_where-picked (has_key key) (is_tac tac) (give_name display key) ts own,
          ))
    | inr e ↦ omega (
      arith,
      m.one_name other,
      count-update_where-le (has_key other) (is_tac tac) (give_name display key)
          (λ t p q. ground arith) ts,
    )
  ];
}

-- what a creation that was carried out went through
create-cases :
    (h : Host) (now : ℕ) (ids : List Text) (name : Text) (label by : Option Text) (l : Ledger)
    → let display = strip is_space name in
      ((create h now ids name label by l).1 ≡ l)
      ⊎ ((i : Text) × (tac_exists l i ≡ false)
          × (name_refusal h l display none ≡ none)
          × ((create h now ids name label by l).1 ≡ record l {
            tacs = l.tacs ++ named_tac i display (h.name_key display) (seconds now) by label ∷ [];
          }))
unfolding create
create-cases h now ids name label by l = elim (Option-cases (check_name h name)) [
  | inr (p, e) ↦ inl (rw (e, create) refl)
  | inl e ↦ elim (Bool-cases (is_mixed l)) [
    | inl m ↦ inl (rw (e, create, m) refl)
    | inr m ↦ elim (Option-cases (name_refusal h l (strip is_space name) none)) [
      | inr (r, n) ↦ inl (rw (e, create, m, n) refl)
      | inl n ↦ elim (Option-cases (free_id l ids)) [
        | inl f ↦ inl (rw (e, create, m, n, f) refl)
        | inr (i, f) ↦ inr (i, free_id-free l ids f, n, rw (e, create, m, n, f) refl)
      ]
    ]
  ]
]

pub create-IsNamed :
    (h : Host) (now : ℕ) (ids : List Text) (name : Text) (label by : Option Text) (l : Ledger)
    → IsNamed l.tacs
    → IsNamed (create h now ids name label by l).1.tacs
create-IsNamed h now ids name label by l m = elim (create-cases h now ids name label by l) [
  | inl same ↦ rw same m
  | inr (i, free, n, e) ↦
      let display = strip is_space name in
      let t = named_tac i display (h.name_key display) (seconds now) by label in
      rw e (
        added-IsNamed l.tacs t (h.name_key display) m refl (unfold tac_exists in free)
          (elim (name_refusal-none h l display none n).1 [
            | inl f ↦ unfold find_key in f
            | inr (held, _, keeps) ↦ absurd (ground arith)
          ]))
]

-- what a renaming that was carried out went through
pub rename-cases :
    (h : Host) (now : ℕ) (by : Option Text) (tac name : Text) (l : Ledger)
    → let display = strip is_space name in
      ((rename h now by tac name l).1 ≡ l)
      ⊎ ((t : Tac) × (name_refusal h l display (some tac) ≡ none)
          × ((rename h now by tac name l).1 ≡ write_name h (seconds now) by tac display t l))
unfolding rename
rename-cases h now by tac name l = elim (Bool-cases (is_uuid_id tac)) [
  | inr u ↦ inl (rw (u) refl)
  | inl u ↦ elim (Option-cases (check_name h name)) [
    | inr (p, e) ↦ inl (rw (u, e, rename) refl)
    | inl e ↦ elim (Bool-cases (is_mixed l)) [
      | inl m ↦ inl (rw (u, e, rename, m) refl)
      | inr m ↦ elim (Option-cases (find (is_tac tac) l.tacs)) [
        | inl f ↦ inl (rw (u, e, rename, m, f) refl)
        | inr (t, f) ↦ elim (Option-cases (name_refusal h l (strip is_space name) (some tac))) [
          | inr (r, n) ↦ inl (rw (u, e, rename, m, f, n) refl)
          | inl n ↦ inr (t, n, rw (u, e, rename, m, f, n) refl)
        ]
      ]
    ]
  ]
]

pub rename-IsNamed :
    (h : Host) (now : ℕ) (by : Option Text) (tac name : Text) (l : Ledger)
    → IsNamed l.tacs
    → IsNamed (rename h now by tac name l).1.tacs
unfolding write_name
rename-IsNamed h now by tac name l m = elim (rename-cases h now by tac name l) [
  | inl same ↦ rw same m
  | inr (t, n, e) ↦
      let display = strip is_space name in
      let key = h.name_key display in
      rw e (
        renamed-IsNamed l.tacs tac display key m
          (elim (name_refusal-none h l display (some tac) n).1 [
            | inl f ↦
                All-of_count (has_key key) (is_tac tac) l.tacs
                  (count-of_none (has_key key) l.tacs (unfold find_key in f))
            | inr (held, f, keeps) ↦
                All-of_find (has_key key) (is_tac tac) l.tacs {x = held} (m.one_name key)
                  (unfold find_key in f) keeps
          ]))
]
