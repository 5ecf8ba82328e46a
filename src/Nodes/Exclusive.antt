-- ===== src/Nodes/Exclusive.antt =====
-- The routes to terminals under `bus_register` of tabus/bus.py: how many to a node and to a target.
use tabc.Table.Counts.{
  count-eq_zero_All, count-single_false, count-single_le, count-update_where-eq,
  count-update_where-le, count-update_where-picked,
}
use tabc.Table.Laws.{count-append, count-eq_zero}
use tabc.Prelude.{
  All, Bool, Bool-cases, List, Option, Option-cases, [], arith, false, if◌then◌else◌, inl, inr, not,
  or_else, refl, sym, true, ℕ, ◌&&◌, ◌∷◌, ◌≡◌, ◌≤◌,
}
use tabc.Text.{Text, opt_eq, opt_eq_iff, text_eq, text_eq_iff}
use tabc.Ledger.{Ledger, Route, seconds}
use tabc.Table.{any, count, update_where}
use tabc.Nodes.Register.{
  Registration, has_route, is_given, is_live_at, is_node, is_rival, register_refusal,
}
use tabc.Nodes.Upsert.{
  bus_register, chosen_enter, claim_route, enters, is_own_live, move_route, new_route, revoke,
  says_off, stop_entering, upsert_route, write_routes,
}

-- Each node has at most one route, and each target of a host at most one that is live.
pub record IsExclusive (rs : List Route) : Type 0 where
  pub one_each : (node : Text) → count (is_node node) rs ≤ 1
  pub one_live : (host : Option Text) (target : Text) → count (is_live_at host target) rs ≤ 1

-- once the rivals are revoked, only the node itself is live at its target
IsOwn : Registration → Route → Type 0
IsOwn q r = is_live_at q.host_id (or_else q.target []) r ≡ true → is_node q.node_id r ≡ true

rivals-revoked :
    (ts : ℕ) (q : Registration) (rs : List Route)
    → All (IsOwn q) (update_where (is_rival q) (revoke ts) rs)
unfolding update_where IsOwn
rivals-revoked ts q [] = tt
rivals-revoked ts q (r ∷ rs) = elim (Bool-cases (is_rival q r)) [
  | inl e ↦ rw e (λ h. ground arith, rivals-revoked ts q rs)
  | inr e ↦ rw e (λ h. ground arith, rivals-revoked ts q rs)
]

revoked-IsExclusive :
    (p : Route → Bool) (ts : ℕ) (rs : List Route)
    → IsExclusive rs
    → IsExclusive (update_where p (revoke ts) rs)
revoked-IsExclusive p ts rs x = record {
  one_each = λ node.
      rw (count-update_where-eq (is_node node) p (revoke ts) (λ r. refl) rs) (x.one_each node);
  one_live = λ host target. omega (
    arith,
    count-update_where-le (is_live_at host target) p (revoke ts) (λ r h k. ground arith) rs,
    x.one_live host target,
  );
}

-- the target of a registration is not another place
own_place :
    (q : Registration) (host : Option Text) (target : Text)
    → (opt_eq q.host_id host && text_eq (or_else q.target []) target) ≡ true
    → (q.host_id ≡ host) × (or_else q.target [] ≡ target)
own_place q host target h = (
  (opt_eq_iff q.host_id host).0 (ground arith),
  (text_eq_iff (or_else q.target []) target).0 (ground arith),
)

module _ (ts : ℕ) (enter : Bool) (q : Registration) (rs : List Route) (x : IsExclusive rs)
    (own : All (IsOwn q) rs) where
  -- at the target itself, the only live row is the node's
  upsert_route-own_live :
      count (is_live_at q.host_id (or_else q.target [])) (upsert_route ts enter q rs) ≤ 1
  unfolding upsert_route IsOwn
  upsert_route-own_live =
      let here = is_live_at q.host_id (or_else q.target []) in
      elim (Bool-cases (any (is_node q.node_id) rs)) [
        | inl e ↦ rw e (
            omega (
              arith,
              x.one_each q.node_id,
              count-update_where-picked here (is_node q.node_id) (move_route ts enter q) rs own,
            ))
        | inr e ↦
            rw (e, count-append here rs (new_route ts enter q ∷ []))
              (omega (
                arith,
                count-eq_zero_All here (is_node q.node_id) rs own e,
                count-single_le here (new_route ts enter q),
              ))
      ]

  upsert_route-one_live :
      (host : Option Text) (target : Text)
      → count (is_live_at host target) (upsert_route ts enter q rs) ≤ 1
  unfolding upsert_route
  upsert_route-one_live host target =
      let here = is_live_at host target in
      elim (Bool-cases (opt_eq q.host_id host && text_eq (or_else q.target []) target)) [
        | inl e ↦ let (h, t) = own_place q host target e in rw (sym h, sym t) upsert_route-own_live
        | inr there ↦ elim (Bool-cases (any (is_node q.node_id) rs)) [
          | inl e ↦ rw e (
              omega (
                arith,
                x.one_live host target,
                count-update_where-le here (is_node q.node_id) (move_route ts enter q)
                    (λ r p k. ground arith) rs,
              ))
          | inr e ↦
              rw (e, count-append here rs (new_route ts enter q ∷ []))
                (omega (
                  arith,
                  x.one_live host target,
                  count-single_false here (new_route ts enter q) (ground arith),
                ))
        ]
      ]

  upsert_route-one_each : (node : Text) → count (is_node node) (upsert_route ts enter q rs) ≤ 1
  unfolding upsert_route
  upsert_route-one_each node = elim (Bool-cases (any (is_node q.node_id) rs)) [
    | inl e ↦
        rw
          (
            e,
            count-update_where-eq (is_node node) (is_node q.node_id) (move_route ts enter q)
                (λ r. refl) rs,
          )
          (x.one_each node)
    | inr e ↦
        rw (e, count-append (is_node node) rs (new_route ts enter q ∷ []))
          (elim (Bool-cases (text_eq q.node_id node)) [
            | inl s ↦
                let same = (text_eq_iff q.node_id node).0 s in
                omega (
                  arith,
                  count-eq_zero (is_node node) rs (rw (sym same) e),
                  count-single_le (is_node node) (new_route ts enter q),
                )
            | inr s ↦
                omega (
                  arith,
                  x.one_each node,
                  count-single_false (is_node node) (new_route ts enter q) s,
                )
          ])
  ]

claim_route-IsExclusive :
    (ts : ℕ) (enter : Bool) (q : Registration) (rs : List Route)
    → IsExclusive rs
    → IsExclusive (claim_route ts enter q rs)
unfolding claim_route
claim_route-IsExclusive ts enter q rs x =
    let rs' = update_where (is_rival q) (revoke ts) rs in
    let x' = revoked-IsExclusive (is_rival q) ts rs x in
    record {
      one_each = upsert_route-one_each ts enter q rs' x' (rivals-revoked ts q rs);
      one_live = upsert_route-one_live ts enter q rs' x' (rivals-revoked ts q rs);
    }

stopped-IsExclusive :
    (p : Route → Bool) (rs : List Route)
    → IsExclusive rs
    → IsExclusive (update_where p stop_entering rs)
stopped-IsExclusive p rs x = record {
  one_each = λ node.
      rw (count-update_where-eq (is_node node) p stop_entering (λ r. refl) rs) (x.one_each node);
  one_live = λ host target.
      rw (count-update_where-eq (is_live_at host target) p stop_entering (λ r. refl) rs)
        (x.one_live host target);
}

if-IsExclusive :
    (b : Bool) (rs ss : List Route)
    → IsExclusive rs
    → IsExclusive ss
    → IsExclusive (if b then rs else ss)
if-IsExclusive true rs ss x y = x
if-IsExclusive false rs ss x y = y

write_routes-IsExclusive :
    (ts : ℕ) (l : Ledger) (q : Registration)
    → IsExclusive l.tab_routes
    → IsExclusive (write_routes ts l q)
unfolding write_routes
write_routes-IsExclusive ts l q x =
    let enter = chosen_enter l q in
    let a = if has_route q then claim_route ts enter q l.tab_routes else l.tab_routes in
    let xa =
      if-IsExclusive (has_route q) (claim_route ts enter q l.tab_routes) l.tab_routes
        (claim_route-IsExclusive ts enter q l.tab_routes x) x in
    let drops = q.program && not (is_given q.adapter) in
    let b = if drops then update_where (is_own_live q) (revoke ts) a else a in
    let xb =
      if-IsExclusive drops (update_where (is_own_live q) (revoke ts) a) a
        (revoked-IsExclusive (is_own_live q) ts a xa) xa in
    if-IsExclusive (not (has_route q) && says_off q.auto_enter)
      (update_where (enters q) stop_entering b) b (stopped-IsExclusive (enters q) b xb) xb

-- A registration, whatever it answers, keeps the routes exclusive: each node has at most one, and
-- each target of a host is the live route of at most one node.
pub bus_register-IsExclusive :
    (now : ℕ) (local fresh : Text) (q : Registration) (l : Ledger)
    → IsExclusive l.tab_routes
    → IsExclusive (bus_register now local fresh q l).1.tab_routes
unfolding bus_register
bus_register-IsExclusive now local fresh q l x =
    elim (Option-cases (register_refusal l (seconds now) q)) [
      | inl e ↦ rw (e, bus_register) (write_routes-IsExclusive (seconds now) l q x)
      | inr (r, e) ↦ rw (e, bus_register) x
    ]
