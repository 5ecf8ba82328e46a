-- ===== src/Tac/Unique.antt =====
-- The identifiers and the names of tacs, on either scheme of identifiers.
use tabc.Prelude.{
  Bool, Bool-cases, List, Option, [], arith, false, if◌then◌else◌, inl, inr, map, none, not, refl,
  sym, true, ℕ, ◌++◌, ◌∷◌, ◌≡◌, ◌⊎◌,
}
use tabc.Text.{Text, is_nonempty, text_eq_iff}
use tabc.Text.Unicode.{is_space, strip}
use tabc.Host.{Host}
use tabc.Table.{any}
use tabc.Table.Laws.{count-append, count-eq_zero, map-update_where}
use tabc.Table.Counts.{count-single_false, count-single_le}
use tabc.Ledger.{Ledger, Tac, is_registered, seconds, tac_exists}
use tabc.Tac.Resolve.{Resolved-cases, resolve}
use tabc.Tac.Store.{
  Created, bus_tac_create, bus_tac_rename, create, create_by_id, give_name, is_mixed, is_tac,
  rename, tac_id_required, truthy, unnamed_tac, write_name,
}
use tabc.Tac.Named.{IsNamed, create-IsNamed, has_key, rename-IsNamed, rename-cases}

create_by_id-cases :
    (now : ℕ) (given : Text) (label by : Option Text) (l : Ledger)
    → ((create_by_id now given label by l).1 ≡ l)
      ⊎ ((t : Tac) × (t.tac_id ≡ given)
          × (t.name_key ≡ none)
          × (tac_exists l given ≡ false)
          × ((create_by_id now given label by l).1 ≡ record l { tacs = l.tacs ++ t ∷ [] }))
unfolding create_by_id
create_by_id-cases now given label by l = elim (Bool-cases (is_registered l given)) [
  | inl r ↦ inl (rw r refl)
  | inr r ↦ elim (Bool-cases (tac_exists l given)) [
    | inl t ↦ inl (rw (r, t) refl)
    | inr t ↦ inr (unnamed_tac given (seconds now) by label, refl, refl, t, rw (r, t) refl)
  ]
]

nameless-IsNamed :
    (ts : List Tac) (t : Tac)
    → IsNamed ts
    → t.name_key ≡ none
    → any (is_tac t.tac_id) ts ≡ false
    → IsNamed (ts ++ t ∷ [])
nameless-IsNamed ts t m k i = record {
  one_id = λ tac. rw (count-append (is_tac tac) ts (t ∷ [])) (elim (Bool-cases (is_tac tac t)) [
    | inl e ↦
        let same = (text_eq_iff t.tac_id tac).0 e in
        omega
          (arith, count-eq_zero (is_tac tac) ts (rw (sym same) i), count-single_le (is_tac tac) t)
    | inr e ↦ omega (arith, m.one_id tac, count-single_false (is_tac tac) t e)
  ]);
  one_name = λ key.
      rw (count-append (has_key key) ts (t ∷ []))
        (omega (arith, m.one_name key, count-single_false (has_key key) t (rw k refl)));
}

create_by_id-IsNamed :
    (now : ℕ) (given : Text) (label by : Option Text) (l : Ledger)
    → IsNamed l.tacs
    → IsNamed (create_by_id now given label by l).1.tacs
create_by_id-IsNamed now given label by l m = elim (create_by_id-cases now given label by l) [
  | inl same ↦ rw same m
  | inr (t, i, k, free, e) ↦ rw e (nameless-IsNamed l.tacs t m k (rw i (unfold tac_exists in free)))
]

if-IsNamed :
    (b : Bool) (x y : Created × Ledger)
    → IsNamed x.1.tacs
    → IsNamed y.1.tacs
    → IsNamed (if b then x else y).1.tacs
if-IsNamed true x y m n = m
if-IsNamed false x y m n = n

-- Creating a tac, on either scheme and whatever it answers, keeps the identifiers of tacs distinct
-- and their folded names distinct.
pub bus_tac_create-IsNamed :
    (h : Host) (now : ℕ) (ids : List Text) (given : Text) (label by : Option Text) (l : Ledger)
    → IsNamed l.tacs
    → IsNamed (bus_tac_create h now ids given label by l).1.tacs
unfolding bus_tac_create
bus_tac_create-IsNamed h now ids given label by l m =
    if-IsNamed (not (is_nonempty given)) (tac_id_required, l)
      (if l.identity_columns
        then create h now ids given (truthy label) by l
        else create_by_id now given label by l)
      m
      (if-IsNamed l.identity_columns (create h now ids given (truthy label) by l)
        (create_by_id now given label by l) (create-IsNamed h now ids given (truthy label) by l m)
        (create_by_id-IsNamed now given label by l m))

-- Renaming a tac, whatever it answers, keeps the identifiers of tacs distinct and their folded names
-- distinct.
pub bus_tac_rename-IsNamed :
    (h : Host) (now : ℕ) (by : Option Text) (given name : Text) (l : Ledger)
    → IsNamed l.tacs
    → IsNamed (bus_tac_rename h now by given name l).1.tacs
unfolding bus_tac_rename
bus_tac_rename-IsNamed h now by given name l m = elim (Bool-cases (is_mixed l)) [
  | inl x ↦ rw x m
  | inr x ↦ elim (Resolved-cases (resolve l given)) [
    | inl (r, e) ↦ rw (x, e, bus_tac_rename) m
    | inr (tac, e) ↦ rw (x, e, bus_tac_rename) (rename-IsNamed h now by tac name l m)
  ]
]

rename-ids :
    (h : Host) (now : ℕ) (by : Option Text) (tac name : Text) (l : Ledger)
    → let l' = (rename h now by tac name l).1 in
      (map Tac.tac_id l'.tacs ≡ map Tac.tac_id l.tacs)
      × (l'.messages ≡ l.messages)
      × (l'.tac_members ≡ l.tac_members)
      × (l'.tac_links ≡ l.tac_links)
unfolding write_name
rename-ids h now by tac name l = elim (rename-cases h now by tac name l) [
  | inl same ↦ rw same (refl, refl, refl, refl)
  | inr (t, n, e) ↦
      let display = strip is_space name in
      rw e (
        map-update_where Tac.tac_id (is_tac tac) (give_name display (h.name_key display))
            (λ t. refl) l.tacs,
        refl,
        refl,
        refl,
      )
]

-- Renaming a tac, whatever it answers, keeps the identifiers of all tacs, and every message,
-- membership and link.
pub bus_tac_rename-ids :
    (h : Host) (now : ℕ) (by : Option Text) (given name : Text) (l : Ledger)
    → let l' = (bus_tac_rename h now by given name l).1 in
      (map Tac.tac_id l'.tacs ≡ map Tac.tac_id l.tacs)
      × (l'.messages ≡ l.messages)
      × (l'.tac_members ≡ l.tac_members)
      × (l'.tac_links ≡ l.tac_links)
unfolding bus_tac_rename
bus_tac_rename-ids h now by given name l = elim (Bool-cases (is_mixed l)) [
  | inl x ↦ rw x (refl, refl, refl, refl)
  | inr x ↦ elim (Resolved-cases (resolve l given)) [
    | inl (r, e) ↦ rw (x, e, bus_tac_rename) (refl, refl, refl, refl)
    | inr (tac, e) ↦ rw (x, e, bus_tac_rename) (rename-ids h now by tac name l)
  ]
]
