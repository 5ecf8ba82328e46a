-- ===== src/Delivery/Ladder.antt =====
-- The operations of the mailbox against the ladder of `Follows`.
use tabc.Prelude.{
  Bool-cases, List, Option, [], arith, inl, inr, none, some, true, ℕ, ◌+◌, ◌==◌, ◌∷◌, ◌≡◌,
}
use tabc.Text.{Text}
use tabc.Host.{Host}
use tabc.Ledger.{Delivery, Ledger, Problem, is_removed, seconds}
use tabc.Table.{count, update_where}
use tabc.Delivery.{Row, is_accepted, lease_or_default}
use tabc.Delivery.Envelope.{validate_envelope}
use tabc.Delivery.Claim.{
  Request, bury, claim_checked, claim_new, claim_one, claim_rows, is_lapsed, is_open, is_poison,
  lease_to, put_aside, recover, release, select_new,
}
use tabc.Delivery.Reopen.{
  counted, is_full, reopen_checked, reopen_one, reopen_rows, reopen_unread, select_unread,
}
use tabc.Delivery.Follows.{Follows, Onward, Onward-refl, Onward-trans, Onward-update}

release-Follows :
    (node : Text) (ts : ℕ) (d : Delivery) → is_lapsed node ts d ≡ true → Follows d (release ts d)
release-Follows node ts d h = ground arith

bury-Follows :
    (node : Text) (ts : ℕ) (d : Delivery) → is_poison node d ≡ true → Follows d (bury ts d)
bury-Follows node ts d h = ground arith

pub recover-Onward : (node : Text) (ts : ℕ) (ds : List Delivery) → Onward ds (recover node ts ds)
unfolding recover
recover-Onward node ts ds =
    let freed = update_where (is_lapsed node ts) (release ts) ds in
    Onward-trans ds freed (update_where (is_poison node) (bury ts) freed)
      (Onward-update (is_lapsed node ts) (release ts) (release-Follows node ts) ds)
      (Onward-update (is_poison node) (bury ts) (bury-Follows node ts) freed)

put_aside-Follows :
    (bad : Problem) (ts did : ℕ) (d : Delivery)
    → is_open did d ≡ true
    → Follows d (put_aside bad ts d)
put_aside-Follows bad ts did d h = ground arith

lease_to-Follows :
    (by : Text) (lease ts did : ℕ) (d : Delivery)
    → is_open did d ≡ true
    → Follows d (lease_to by lease ts d)
lease_to-Follows by lease ts did d h = ground arith

module _ (ts lease : ℕ) (by : Text) (r : Row) (ds : List Delivery) where
  leased-Onward : Onward ds (update_where (is_open r.did) (lease_to by lease ts) ds)
  leased-Onward =
      Onward-update (is_open r.did) (lease_to by lease ts) (lease_to-Follows by lease ts r.did) ds

  aside-Onward : (bad : Problem) → Onward ds (update_where (is_open r.did) (put_aside bad ts) ds)
  aside-Onward bad =
      Onward-update (is_open r.did) (put_aside bad ts) (put_aside-Follows bad ts r.did) ds

  claim_checked-Onward : (v : Option Problem) → Onward ds (claim_checked ts lease by r ds v).1
  unfolding claim_checked
  claim_checked-Onward none = elim (Bool-cases (count (is_open r.did) ds == 0)) [
    | inl e ↦ rw e (Onward-refl ds)
    | inr e ↦ rw e leased-Onward
  ]
  claim_checked-Onward (some bad) = aside-Onward bad

  reopen_checked-Onward : (v : Option Problem) → Onward ds (reopen_checked ts lease by r ds v).1
  unfolding reopen_checked
  reopen_checked-Onward none = elim (Bool-cases (is_accepted r.state)) [
    | inl a ↦ elim (Bool-cases (count (is_open r.did) ds == 0)) [
      | inl e ↦ rw (a, e) (Onward-refl ds)
      | inr e ↦ rw (a, e) leased-Onward
    ]
    | inr a ↦ rw a (Onward-refl ds)
  ]
  reopen_checked-Onward (some bad) = elim (Bool-cases (is_accepted r.state)) [
    | inl a ↦ rw a (aside-Onward bad)
    | inr a ↦ rw a (Onward-refl ds)
  ]

module _ (h : Host) (now lease : ℕ) (by : Text) where
  pub claim_one-Onward :
      (r : Row) (ds : List Delivery) → Onward ds (claim_one h now lease by r ds).1
  unfolding claim_one
  claim_one-Onward r ds =
      claim_checked-Onward (seconds now) lease by r ds (validate_envelope h now r.message)

  pub claim_rows-Onward :
      (rs : List Row) (ds : List Delivery) → Onward ds (claim_rows h now lease by rs ds).1
  unfolding claim_rows
  claim_rows-Onward [] ds = Onward-refl ds
  claim_rows-Onward (r ∷ rs) ds =
      let ds' = (claim_one h now lease by r ds).1 in
      Onward-trans ds ds' (claim_rows h now lease by rs ds').1 (claim_one-Onward r ds)
        (claim_rows-Onward rs ds')

  pub reopen_rows-Onward :
      (limit n : ℕ) (rs : List Row) (ds : List Delivery)
      → Onward ds (reopen_rows h now lease by limit n rs ds).1
  unfolding reopen_rows reopen_one
  reopen_rows-Onward limit n [] ds = Onward-refl ds
  reopen_rows-Onward limit n (r ∷ rs) ds =
      let v = validate_envelope h now r.message in
      let (o, ds') = reopen_checked (seconds now) lease by r ds v in
      let first = reopen_checked-Onward (seconds now) lease by r ds v in
      elim (Bool-cases (is_full o limit (n + counted o))) [
        | inl e ↦ rw e first
        | inr e ↦ rw e (
            Onward-trans ds ds' (reopen_rows h now lease by limit (n + counted o) rs ds').1 first
              (reopen_rows-Onward limit (n + counted o) rs ds'))
      ]

pub claim_new-Onward :
    (h : Host) (now : ℕ) (q : Request) (l : Ledger)
    → Onward l.deliveries (claim_new h now q l).1.deliveries
unfolding claim_new
claim_new-Onward h now q l = elim (Bool-cases (is_removed l q.node)) [
  | inl e ↦ rw e (Onward-refl l.deliveries)
  | inr e ↦
      let ds = recover q.node (seconds now) l.deliveries in
      let rows = select_new l.messages q.node q.priority q.limit ds in
      let lease = seconds now + lease_or_default q.lease_sec in
      rw e (
        Onward-trans l.deliveries ds (claim_rows h now lease q.claimed_by rows ds).1
          (recover-Onward q.node (seconds now) l.deliveries)
          (claim_rows-Onward h now lease q.claimed_by rows ds))
]

pub reopen_unread-Onward :
    (h : Host) (now : ℕ) (mid : Option Text) (q : Request) (l : Ledger)
    → Onward l.deliveries (reopen_unread h now mid q l).1.deliveries
unfolding reopen_unread
reopen_unread-Onward h now mid q l =
    reopen_rows-Onward h now (seconds now + lease_or_default q.lease_sec) q.claimed_by q.limit 0
      (select_unread l.messages q.node mid q.limit l.deliveries) l.deliveries
