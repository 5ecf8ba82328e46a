-- ===== src/Delivery/Winners.antt =====
-- Callers of `claim_new` that saw the same deliveries.
use tabc.Prelude.{
  All, All-map, Bool-cases, List, Option, [], arith, false, inl, inr, none, refl, some, sym, true,
  ℕ, ◌==◌, ◌∙◌, ◌∷◌, ◌≡◌, ◌≢◌,
}
use tabc.Text.{Text}
use tabc.Host.{Host}
use tabc.Ledger.{Delivery, Problem, seconds}
use tabc.Table.{any, count}
use tabc.Table.Any.{any-exhausted, any-still_false}
use tabc.Table.Laws.{count-eq_zero}
use tabc.Delivery.{Row}
use tabc.Delivery.Envelope.{validate_envelope}
use tabc.Delivery.Claim.{
  Claims, Outcome, add_outcome, bad_envelope, claim_checked, claim_one, claim_rows, is_open,
  lease_to, lost, put_aside, won,
}

-- What each won row satisfies, and the rest of the rows too.
pub add_outcome-All :
    (P : Row → Type 0) (o : Outcome) (c : Claims)
    → ((r : Row) → o ≡ won r → P r)
    → All P c.out
    → All P (add_outcome o c).out
add_outcome-All P (won r) c f h = (f r refl, h)
add_outcome-All P (bad_envelope mid p) c f h = h
add_outcome-All P (lost mid) c f h = h

lease_to-closed :
    (by : Text) (lease ts did k : ℕ) (d : Delivery)
    → is_open k d ≡ true
    → is_open did (lease_to by lease ts d) ≡ false
lease_to-closed by lease ts did k d h = ground arith

put_aside-closed :
    (bad : Problem) (ts did k : ℕ) (d : Delivery)
    → is_open k d ≡ true
    → is_open did (put_aside bad ts d) ≡ false
put_aside-closed bad ts did k d h = ground arith

module _ (ts lease : ℕ) (by : Text) (r : Row) (ds : List Delivery) where
  -- Once no row with an id is ACCEPTED, claiming makes none so.
  claim_checked-still_closed :
      (did : ℕ) (v : Option Problem)
      → any (is_open did) ds ≡ false
      → any (is_open did) (claim_checked ts lease by r ds v).1 ≡ false
  unfolding claim_checked
  claim_checked-still_closed did none h = elim (Bool-cases (count (is_open r.did) ds == 0)) [
    | inl e ↦ rw e h
    | inr e ↦ rw e (
        any-still_false (is_open did) (is_open r.did) (lease_to by lease ts)
          (lease_to-closed by lease ts did r.did) ds h)
  ]
  claim_checked-still_closed did (some bad) h =
      any-still_false (is_open did) (is_open r.did) (put_aside bad ts)
        (put_aside-closed bad ts did r.did) ds h

  -- What a won row says of the table before and after.
  claim_checked-won :
      (v : Option Problem) (s : Row)
      → (claim_checked ts lease by r ds v).0 ≡ won s
      → (s.did ≡ r.did)
        × (any (is_open r.did) ds ≡ true)
        × (any (is_open r.did) (claim_checked ts lease by r ds v).1 ≡ false)
  unfolding claim_checked
  claim_checked-won none s h = elim (Bool-cases (count (is_open r.did) ds == 0)) [
    | inl e ↦ absurd (ground arith)
    | inr e ↦ (
      ground arith,
      elim (Bool-cases (any (is_open r.did) ds)) [
        | inl t ↦ t
        | inr f ↦ absurd (ground (arith, count-eq_zero (is_open r.did) ds))
      ],
      rw e (
          any-exhausted (is_open r.did) (lease_to by lease ts)
            (lease_to-closed by lease ts r.did r.did) ds),
    )
  ]
  claim_checked-won (some bad) s h = absurd (cc)

module _ (h : Host) (now lease : ℕ) (by : Text) where
  claim_rows-still_closed :
      (did : ℕ) (rs : List Row) (ds : List Delivery)
      → any (is_open did) ds ≡ false
      → any (is_open did) (claim_rows h now lease by rs ds).1 ≡ false
  unfolding claim_rows claim_one
  claim_rows-still_closed did [] ds c = c
  claim_rows-still_closed did (r ∷ rs) ds c =
      let v = validate_envelope h now r.message in
      claim_rows-still_closed did rs (claim_checked (seconds now) lease by r ds v).1
        (claim_checked-still_closed (seconds now) lease by r ds did v c)

  -- A delivery that is not ACCEPTED is won by nobody.
  claim_rows-none_won :
      (did : ℕ) (rs : List Row) (ds : List Delivery)
      → any (is_open did) ds ≡ false
      → All (λ s. s.did ≢ did) (claim_rows h now lease by rs ds).0.out
  unfolding claim_rows claim_one
  claim_rows-none_won did [] ds c = tt
  claim_rows-none_won did (r ∷ rs) ds c =
      let v = validate_envelope h now r.message in
      let (o, ds') = claim_checked (seconds now) lease by r ds v in
      add_outcome-All (λ s. s.did ≢ did) o (claim_rows h now lease by rs ds').0
        (λ s e same.
          let w = claim_checked-won (seconds now) lease by r ds v s e in
          cc (rw (sym (sym same ∙ w.0)) at (w.1), c))
        (claim_rows-none_won did rs ds'
          (claim_checked-still_closed (seconds now) lease by r ds did v c))

  -- What one caller has won is ACCEPTED no more.
  claim_rows-closed :
      (rs : List Row) (ds : List Delivery)
      → let (c, ds') = claim_rows h now lease by rs ds in
        All (λ s. any (is_open s.did) ds' ≡ false) c.out
  unfolding claim_rows claim_one
  claim_rows-closed [] ds = tt
  claim_rows-closed (r ∷ rs) ds =
      let v = validate_envelope h now r.message in
      let (o, ds') = claim_checked (seconds now) lease by r ds v in
      let ds'' = (claim_rows h now lease by rs ds').1 in
      add_outcome-All (λ s. any (is_open s.did) ds'' ≡ false) o (claim_rows h now lease by rs ds').0
        (λ s e.
          let w = claim_checked-won (seconds now) lease by r ds v s e in
          rw w.0 (claim_rows-still_closed r.did rs ds' w.2))
        (claim_rows-closed rs ds')

-- Two callers that selected their candidates before either claimed, on whatever clock readings and
-- leases: no delivery is handed to both.
pub claim_rows_exclusive :
    (h : Host) (now now' lease lease' : ℕ) (by by' : Text) (rs rs' : List Row) (ds : List Delivery)
    → let (c, ds') = claim_rows h now lease by rs ds in
      All (λ r. All (λ s. s.did ≢ r.did) (claim_rows h now' lease' by' rs' ds').0.out) c.out
claim_rows_exclusive h now now' lease lease' by by' rs rs' ds =
    let (c, ds') = claim_rows h now lease by rs ds in
    All-map (λ r. any (is_open r.did) ds' ≡ false)
      (λ r. All (λ s. s.did ≢ r.did) (claim_rows h now' lease' by' rs' ds').0.out)
      (λ r closed. claim_rows-none_won h now' lease' by' r.did rs' ds' closed) c.out
      (claim_rows-closed h now lease by rs ds)
