-- ===== src/Tac/Linked.antt =====
-- The links between tacs.
use tabc.Prelude.{
  All, All-append, Bool-cases, List, Option, [], arith, false, inl, inr, sym, true, ℕ, ◌++◌, ◌∷◌,
  ◌≡◌, ◌≢◌, ◌≤◌, ◌⊎◌,
}
use tabc.Text.{Text, text_eq, text_eq_iff}
use tabc.Table.{any, count}
use tabc.Table.Laws.{count-append, count-eq_zero}
use tabc.Table.Counts.{count-single_false, count-single_le}
use tabc.Ledger.{Ledger, Link, seconds, tac_exists}
use tabc.Tac.Resolve.{resolve_or_given}
use tabc.Tac.Group.{bus_tac_link, insert_link, is_link}

-- No tac continues from itself, both ends of a link are tacs of the ledger, and a link is there once.
pub record IsGraph (l : Ledger) : Type 0 where
  pub no_loop : All (λ k. k.child_tac ≢ k.parent_tac) l.tac_links
  pub ends :
      All (λ k. (tac_exists l k.child_tac ≡ true) × (tac_exists l k.parent_tac ≡ true)) l.tac_links
  pub once : (child parent : Text) → count (is_link child parent) l.tac_links ≤ 1

abbrev link_row : ℕ → Option Text → Text → Text → Link
link_row ts by child parent = record {
  child_tac = child;
  parent_tac = parent;
  linked_at = ts;
  linked_by = by;
}

-- what a call either left alone or added
bus_tac_link-cases :
    (now : ℕ) (child parent : Text) (by : Option Text) (l : Ledger)
    → let c = resolve_or_given l child in
      let p = resolve_or_given l parent in
      ((bus_tac_link now child parent by l).1 ≡ l)
      ⊎ ((text_eq c p ≡ false)
          × (tac_exists l c ≡ true)
          × (tac_exists l p ≡ true)
          × (any (is_link c p) l.tac_links ≡ false)
          × ((bus_tac_link now child parent by l).1
              ≡ record l { tac_links = l.tac_links ++ link_row (seconds now) by c p ∷ [] }))
unfolding bus_tac_link insert_link
bus_tac_link-cases now child parent by l = ground arith

link_row-once :
    (row : Link) (ks : List Link) (child parent : Text)
    → count (is_link child parent) ks ≤ 1
    → any (is_link row.child_tac row.parent_tac) ks ≡ false
    → count (is_link child parent) (ks ++ row ∷ []) ≤ 1
link_row-once row ks child parent m h =
    rw (count-append (is_link child parent) ks (row ∷ []))
      (elim (Bool-cases (is_link child parent row)) [
        | inl e ↦
            let a = (text_eq_iff row.child_tac child).0 (ground arith) in
            let b = (text_eq_iff row.parent_tac parent).0 (ground arith) in
            omega (
              arith,
              count-eq_zero (is_link child parent) ks (rw (sym a, sym b) h),
              count-single_le (is_link child parent) row,
            )
        | inr e ↦ omega (arith, m, count-single_false (is_link child parent) row e)
      ])

-- Linking two tacs, whatever it answers, keeps the links a graph: no tac continues from itself, both
-- ends of every link are tacs of the ledger, and no link is there twice.
pub bus_tac_link-IsGraph :
    (now : ℕ) (child parent : Text) (by : Option Text) (l : Ledger)
    → IsGraph l
    → IsGraph (bus_tac_link now child parent by l).1
unfolding tac_exists
bus_tac_link-IsGraph now child parent by l g = elim (bus_tac_link-cases now child parent by l) [
  | inl same ↦ rw same g
  | inr (apart, tc, tp, new, e) ↦
      let c = resolve_or_given l child in
      let p = resolve_or_given l parent in
      let row = link_row (seconds now) by c p in
      rw e (record {
        no_loop =
            All-append (λ k. k.child_tac ≢ k.parent_tac) l.tac_links (row ∷ []) g.no_loop
              (λ q. absurd (ground (arith, apart, (text_eq_iff c p).1 q)), tt);
        ends =
            All-append (λ k. (tac_exists l k.child_tac ≡ true) × (tac_exists l k.parent_tac ≡ true))
              l.tac_links (row ∷ []) g.ends ((tc, tp), tt);
        once = λ x y. link_row-once row l.tac_links x y (g.once x y) new;
      })
]
