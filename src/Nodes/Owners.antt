-- ===== src/Nodes/Owners.antt =====
-- The routes of other nodes under `bus_register` of tabus/bus.py.
use tabc.Table.Laws.{update_where-none}
use tabc.Prelude.{
  Bool, Bool-cases, List, Option, Option-cases, [], arith, coalesce, false, if◌then◌else◌, inl, inr,
  length, map, none, not, refl, some, true, ℕ, ◌&&◌, ◌==◌, ◌∙◌, ◌∷◌, ◌≡◌,
}
use tabc.Text.{Text}
use tabc.Ledger.{Ledger, Route, seconds}
use tabc.Table.{any, count, select, update_where}
use tabc.Table.Grows.{Grows, Grows-append, Grows-refl, Grows-trans, Grows-update_where}
use tabc.Nodes.Register.{
  Registration, agent_as_program, entry_refusal, find_route, has_route, is_agent, is_given, is_node,
  is_rival, lacks_proof, owner_refusal, proof_needed, refuse_if, register_refusal, route_owned,
  route_owners, shape_refusal, target_refusal,
}
use tabc.Nodes.Upsert.{
  bus_register, chosen_enter, claim_route, enters, is_own_live, move_route, new_route, revoke,
  says_off, stop_entering, upsert_route, write_routes,
}

-- The row of a route is the same, unless it is the node's own.
abbrev pub Spares : Text → Route → Route → Type 0
Spares node r s = is_node node r ≡ false → s ≡ r

Spares-refl : (node : Text) (r : Route) → Spares node r r
Spares-refl node r e = refl

Spares-trans : (node : Text) (r s t : Route) → Spares node r s → Spares node s t → Spares node r t
Spares-trans node r s t h k e = let same = h e in k (rw same e) ∙ same

-- an update of the node's own row spares the others
own-Spares :
    (node : Text) (p : Route → Bool) (f : Route → Route)
    → ((r : Route) → p r ≡ true → is_node node r ≡ true)
    → (rs : List Route) → Grows (Spares node) rs (update_where p f rs)
own-Spares node p f own rs =
    Grows-update_where (Spares node) (Spares-refl node) p f
      (λ r h e. absurd (ground (arith, own r h))) rs

own_if-Spares :
    (b : Bool) (node : Text) (p : Route → Bool) (f : Route → Route)
    → ((r : Route) → p r ≡ true → is_node node r ≡ true)
    → (rs : List Route) → Grows (Spares node) rs (if b then update_where p f rs else rs)
own_if-Spares true node p f own rs = own-Spares node p f own rs
own_if-Spares false node p f own rs = Grows-refl (Spares node) (Spares-refl node) rs

upsert_route-Spares :
    (ts : ℕ) (enter : Bool) (q : Registration) (rs : List Route)
    → Grows (Spares q.node_id) rs (upsert_route ts enter q rs)
unfolding upsert_route
upsert_route-Spares ts enter q rs = elim (Bool-cases (any (is_node q.node_id) rs)) [
  | inl e ↦ rw e (own-Spares q.node_id (is_node q.node_id) (move_route ts enter q) (λ r h. h) rs)
  | inr e ↦
      rw e (Grows-append (Spares q.node_id) (Spares-refl q.node_id) rs (new_route ts enter q ∷ []))
]

length-select_eq_zero {ℓ κ} :
    {A : Type ℓ} {B : Type κ} (g : A → B) (p : A → Bool) (xs : List A)
    → (length (map g (select p xs)) == 0) ≡ true
    → count p xs ≡ 0
unfolding select count
length-select_eq_zero g p [] h = refl
length-select_eq_zero g p (x ∷ xs) h = elim (Bool-cases (p x)) [
  | inl e ↦ absurd (ground arith)
  | inr e ↦ ground (arith, length-select_eq_zero g p xs)
]

coalesce-none {ℓ} : {A : Type ℓ} (a b : Option A) → coalesce a b ≡ none → (a ≡ none) × (b ≡ none)
coalesce-none none b h = (refl, h)
coalesce-none (some a) b h = absurd (ground arith)

-- a registration that is let through without `take_route` found no rival
no_rivals :
    (l : Ledger) (ts : ℕ) (q : Registration)
    → register_refusal l ts q ≡ none
    → q.take_route ≡ false
    → has_route q ≡ true
    → count (is_rival q) l.tab_routes ≡ 0
unfolding register_refusal owner_refusal target_refusal route_owners
no_rivals l ts q h t r =
    let (_, a) =
      coalesce-none (entry_refusal l ts q) (coalesce (shape_refusal q) (owner_refusal l q)) h in
    let (_, b) = coalesce-none (shape_refusal q) (owner_refusal l q) a in
    let (_, c) =
      coalesce-none (refuse_if (q.program && is_agent l q.node_id) agent_as_program)
        (if has_route q then target_refusal l q else none) b in
    let (_, d) =
      coalesce-none (refuse_if (lacks_proof q (find_route l q.node_id)) proof_needed)
        (refuse_if (not (length (route_owners l q) == 0) && not q.take_route)
          (route_owned (route_owners l q)))
        (rw r at c) in
    length-select_eq_zero Route.node_id (is_rival q) l.tab_routes (ground (arith, d, t))

claim_route-Spares :
    (ts : ℕ) (enter : Bool) (q : Registration) (rs : List Route)
    → count (is_rival q) rs ≡ 0
    → Grows (Spares q.node_id) rs (claim_route ts enter q rs)
unfolding claim_route
claim_route-Spares ts enter q rs h =
    rw (update_where-none (is_rival q) (revoke ts) rs h) (upsert_route-Spares ts enter q rs)

write_routes-Spares :
    (ts : ℕ) (l : Ledger) (q : Registration)
    → (has_route q ≡ true → count (is_rival q) l.tab_routes ≡ 0)
    → Grows (Spares q.node_id) l.tab_routes (write_routes ts l q)
unfolding write_routes
write_routes-Spares ts l q h =
    let R = Spares q.node_id in
    let a =
      if has_route q then claim_route ts (chosen_enter l q) q l.tab_routes else l.tab_routes in
    let drops = q.program && not (is_given q.adapter) in
    let b = if drops then update_where (is_own_live q) (revoke ts) a else a in
    Grows-trans R (Spares-trans q.node_id) l.tab_routes b (write_routes ts l q)
      (Grows-trans R (Spares-trans q.node_id) l.tab_routes a b
        (elim (Bool-cases (has_route q)) [
          | inl e ↦ rw e (claim_route-Spares ts (chosen_enter l q) q l.tab_routes (h e))
          | inr e ↦ rw e (Grows-refl R (Spares-refl q.node_id) l.tab_routes)
        ])
        (own_if-Spares drops q.node_id (is_own_live q) (revoke ts) (λ r k. ground arith) a))
      (own_if-Spares (not (has_route q) && says_off q.auto_enter) q.node_id (enters q) stop_entering
        (λ r k. ground arith) b)

-- A registration that does not ask to take a route keeps every route of every other node at its
-- place and exactly as it was, whatever it answers.
pub bus_register-Spares :
    (now : ℕ) (local fresh : Text) (q : Registration) (l : Ledger)
    → q.take_route ≡ false
    → Grows (Spares q.node_id) l.tab_routes (bus_register now local fresh q l).1.tab_routes
unfolding bus_register
bus_register-Spares now local fresh q l t =
    elim (Option-cases (register_refusal l (seconds now) q)) [
      | inl e ↦
          rw (e, bus_register)
            (write_routes-Spares (seconds now) l q (no_rivals l (seconds now) q e t))
      | inr (r, e) ↦
          rw (e, bus_register) (Grows-refl (Spares q.node_id) (Spares-refl q.node_id) l.tab_routes)
    ]
