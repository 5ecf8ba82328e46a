-- ===== src/Tac/Grouped.antt =====
-- What holds of the members, the closing and the links of tacs.
use tabc.Table.Laws.{any-update_where}
use tabc.Tac.Resolve.{Resolved-cases, designates, resolve, resolve_keeps}
use tabc.Prelude.{
  Bool, Bool-cases, List, Option, [], arith, false, inl, inr, refl, some, sym, true, ℕ, ◌==◌, ◌∙◌,
  ◌∷◌, ◌≡◌,
}
use tabc.Text.{Text, is_nonempty, text_eq}
use tabc.Table.{any, count, update_where}
use tabc.Ledger.{Ledger, Tac, seconds, tac_exists}
use tabc.Table.Any.{any-updated}
use tabc.Host.{Host}
use tabc.Send.Envelope.{Envelope}
use tabc.Send.Gates.{is_closed_row}
use tabc.Send.Write.{Ring, bus_send}
use tabc.Send.Outcome.{bus_send-stored, is_stored}
use tabc.Send.Heard.{clear-heard, none_closed-any}
use tabc.Tac.Group.{already_closed, bus_tac_close, close_tac, closed, is_open_tac, shut}

any-of_count {ℓ} :
    {A : Type ℓ} (p : A → Bool) (xs : List A) → (count p xs == 0) ≡ false → any p xs ≡ true
unfolding count any
any-of_count p [] h = absurd (ground arith)
any-of_count p (x ∷ xs) h = elim (Bool-cases (p x)) [
  | inl e ↦ rw e refl
  | inr e ↦ ground (arith, any-of_count p xs)
]

-- after a closing, no row of the tac is open
closed-none_open :
    (ts : ℕ) (summary by : Option Text) (tac : Text) (xs : List Tac)
    → count (is_open_tac tac) (update_where (is_open_tac tac) (shut ts summary by) xs) ≡ 0
unfolding count update_where
closed-none_open ts summary by tac [] = refl
closed-none_open ts summary by tac (t ∷ xs) = elim (Bool-cases (is_open_tac tac t)) [
  | inl e ↦ rw e (ground (arith, closed-none_open ts summary by tac xs))
  | inr e ↦ rw e (ground (arith, closed-none_open ts summary by tac xs))
]

-- what a closing went through
closed-found :
    (ts : ℕ) (summary by : Option Text) (tac : Text) (l : Ledger)
    → (close_tac ts summary by tac l).0 ≡ closed
    → ((count (is_open_tac tac) l.tacs == 0) ≡ false)
      × ((close_tac ts summary by tac l).1
          ≡ record l { tacs = update_where (is_open_tac tac) (shut ts summary by) l.tacs })
unfolding close_tac
closed-found ts summary by tac l h = ground arith

-- the tac is still there, and it is closed
close_tac-exists :
    (ts : ℕ) (summary by : Option Text) (tac : Text) (xs : List Tac)
    → (count (is_open_tac tac) xs == 0) ≡ false
    → any (λ t. text_eq t.tac_id tac) (update_where (is_open_tac tac) (shut ts summary by) xs)
      ≡ true
close_tac-exists ts summary by tac xs h =
    any-updated (λ t. text_eq t.tac_id tac) (is_open_tac tac) (shut ts summary by)
      (λ t k. ground arith) xs (any-of_count (is_open_tac tac) xs h)

close_tac-closed :
    (ts : ℕ) (summary by : Option Text) (tac : Text) (xs : List Tac)
    → (count (is_open_tac tac) xs == 0) ≡ false
    → any (is_closed_row tac) (update_where (is_open_tac tac) (shut ts summary by) xs) ≡ true
close_tac-closed ts summary by tac xs h =
    any-updated (is_closed_row tac) (is_open_tac tac) (shut ts summary by) (λ t k. ground arith) xs
      (any-of_count (is_open_tac tac) xs h)

close_tac-again :
    (ts later : ℕ) (summary by other who : Option Text) (tac : Text) (l : Ledger)
    → (close_tac ts summary by tac l).0 ≡ closed
    → let l' = (close_tac ts summary by tac l).1 in
      close_tac later other who tac l' ≡ (already_closed, l')
close_tac-again ts later summary by other who tac l h =
    let (some_open, e) = closed-found ts summary by tac l h in
    rw e (
      unfold close_tac tac_exists in
      rw
        (
          closed-none_open ts summary by tac l.tacs,
          close_tac-exists ts summary by tac l.tacs some_open,
        )
        refl)

-- a designation does not depend on whether tacs are closed
resolve-shut :
    (p : Tac → Bool) (ts : ℕ) (summary by : Option Text) (l : Ledger) (given : Text)
    → resolve (record l { tacs = update_where p (shut ts summary by) l.tacs }) given
      ≡ resolve l given
unfolding resolve tac_exists
resolve-shut p ts summary by l given =
    rw (any-update_where (λ t. text_eq t.tac_id given) p (shut ts summary by) (λ t. refl) l.tacs)
      refl

-- what an answer `closed` of the whole operation went through
bus_tac_close-found :
    (now : ℕ) (given : Text) (summary by : Option Text) (l : Ledger)
    → (bus_tac_close now given summary by l).0 ≡ closed
    → (is_nonempty given ≡ true)
      × ((tac : Text) × (resolve l given ≡ designates tac)
          × (bus_tac_close now given summary by l ≡ close_tac (seconds now) summary by tac l))
unfolding bus_tac_close
bus_tac_close-found now given summary by l h = elim (Resolved-cases (resolve l given)) [
  | inl (r, e) ↦ absurd (ground arith)
  | inr (t, e) ↦ (ground arith, (t, e, ground arith))
]

-- Closing is final: after an answer `closed`, the same designation closed again at any later time,
-- with any other summary, answers that it is already closed and changes nothing.
pub bus_tac_close-again :
    (now later : ℕ) (given : Text) (summary by other who : Option Text) (l : Ledger)
    → (bus_tac_close now given summary by l).0 ≡ closed
    → let l' = (bus_tac_close now given summary by l).1 in
      bus_tac_close later given other who l' ≡ (already_closed, l')
bus_tac_close-again now later given summary by other who l h =
    let (n, (tac, r, e)) = bus_tac_close-found now given summary by l h in
    let k : (close_tac (seconds now) summary by tac l).0 ≡ closed = rw e at h in
    let (_, same) = closed-found (seconds now) summary by tac l k in
    let r' : resolve (close_tac (seconds now) summary by tac l).1 given ≡ designates tac =
      rw same (resolve-shut (is_open_tac tac) (seconds now) summary by l given ∙ r) in
    rw e (
      unfold bus_tac_close in
      rw (n, r', close_tac-again (seconds now) (seconds later) summary by other who tac l k) refl)

-- A closed tac is silent: after an answer `closed`, no send to that designation is stored, whoever
-- sends it and at whatever time.
pub bus_tac_close-silences :
    (h : Host) (now later : ℕ) (given : Text) (summary by : Option Text) (l : Ledger) (fresh : Text)
    (ringer : Ring → Bool) (e : Envelope)
    → (bus_tac_close now given summary by l).0 ≡ closed
    → e.tac ≡ some given
    → is_stored (bus_send h later fresh ringer e (bus_tac_close now given summary by l).1).0 ≡ false
bus_tac_close-silences h now later given summary by l fresh ringer e c t =
    let l' = (bus_tac_close now given summary by l).1 in
    let (n, (tac, r, same)) = bus_tac_close-found now given summary by l c in
    let k : (close_tac (seconds now) summary by tac l).0 ≡ closed = rw same at c in
    let (some_open, after) = closed-found (seconds now) summary by tac l k in
    let one : tac ≡ given = (resolve_keeps l given tac r).0 in
    let shut_row : any (is_closed_row given) l'.tacs ≡ true =
      rw (same, after, sym one) (close_tac-closed (seconds now) summary by tac l.tacs some_open) in
    elim (Bool-cases (is_stored (bus_send h later fresh ringer e l').0)) [
      | inl s ↦
          let (q, g, _) = bus_send-stored h later fresh ringer e l' s in
          let (o, _) = (clear-heard h l' e q g).0 given t n in
          absurd (ground (arith, none_closed-any given l'.tacs o.open_yet, shut_row))
      | inr s ↦ s
    ]
