-- ===== src/Delivery/Attempts.antt =====
-- The counter `attempts` of a delivery, which claiming raises and MAX_ATTEMPTS bounds. Reopening
-- hands CLAIMED and INJECTED rows out again without counting.
use tabc.Prelude.{
  All, Bool-cases, List, Option, Option-cases, [], arith, false, inl, inr, none, some, true, ℕ, ◌+◌,
  ◌==◌, ◌∷◌, ◌≡◌, ◌≤◌,
}
use tabc.Text.{Text, text_eq}
use tabc.Host.{Host}
use tabc.Ledger.{Delivery, Ledger, Problem, State, accepted, is_removed, seconds}
use tabc.Table.{count, find, update_where}
use tabc.Table.Laws.{All-update_cases, All-update_where}
use tabc.Delivery.{Row, is_accepted, lease_or_default, max_attempts}
use tabc.Delivery.Envelope.{validate_envelope}
use tabc.Delivery.Claim.{
  Request, bury, claim_checked, claim_new, claim_one, claim_rows, is_lapsed, is_open, is_poison,
  lease_to, put_aside, recover, release, select_new,
}
use tabc.Delivery.Reopen.{
  counted, is_full, reopen_checked, reopen_one, reopen_rows, reopen_unread, select_unread,
}
use tabc.Delivery.Ack.{
  Target, ack_target, allowed, bus_ack, bus_inject_by_did, bus_mark_injected, catch_up, hand_over,
  inject_dids, inject_messages, is_at, is_caught_up, is_for, is_held, is_new_for, mark_read_in,
  stamp, target_of, to_injected, to_processed, to_read,
}
use tabc.Delivery.History.{Op, ack, apply, claim, inject, mark_injected, mark_read, reopen, run}

-- How many attempts a delivery may have had: one fewer while it may be claimed again.
abbrev pub most_attempts : State → ℕ
most_attempts accepted = 4
most_attempts _ = max_attempts

abbrev pub IsBounded : Delivery → Type 0
IsBounded d = d.attempts ≤ most_attempts d.state

-- what holds between the two steps of the recovery
abbrev IsHalfBounded : Text → Delivery → Type 0
IsHalfBounded node d =
    (d.attempts ≤ max_attempts) × (text_eq d.recipient_id node ≡ false → IsBounded d)

IsBounded-le : (d : Delivery) → IsBounded d → d.attempts ≤ max_attempts
IsBounded-le d h = ground arith

released-IsHalfBounded :
    (node : Text) (ts : ℕ) (d : Delivery)
    → IsBounded d
    → is_lapsed node ts d ≡ true
    → IsHalfBounded node (release ts d)
released-IsHalfBounded node ts d b h = (IsBounded-le d b, λ e. ground arith)

spared-IsBounded :
    (node : Text) (d : Delivery) → IsHalfBounded node d → is_poison node d ≡ false → IsBounded d
spared-IsBounded node d b h = elim (Bool-cases (text_eq d.recipient_id node)) [
  | inl e ↦ ground (arith, b.0)
  | inr e ↦ b.1 e
]

recover-IsBounded :
    (node : Text) (ts : ℕ) (ds : List Delivery)
    → All IsBounded ds
    → All IsBounded (recover node ts ds)
unfolding recover
recover-IsBounded node ts ds b =
    All-update_cases (IsHalfBounded node) IsBounded (is_poison node) (bury ts) (λ d k p. k.0)
      (spared-IsBounded node) (update_where (is_lapsed node ts) (release ts) ds)
      (All-update_cases IsBounded (IsHalfBounded node) (is_lapsed node ts) (release ts)
        (released-IsHalfBounded node ts) (λ d k p. (IsBounded-le d k, λ e. k)) ds b)

module _ (ts lease : ℕ) (by : Text) (r : Row) (ds : List Delivery) (b : All IsBounded ds) where
  leased-IsBounded : All IsBounded (update_where (is_open r.did) (lease_to by lease ts) ds)
  leased-IsBounded =
      All-update_where IsBounded (is_open r.did) (lease_to by lease ts) (λ d k p. ground arith) ds b

  aside-IsBounded :
      (bad : Problem) → All IsBounded (update_where (is_open r.did) (put_aside bad ts) ds)
  aside-IsBounded bad =
      All-update_where IsBounded (is_open r.did) (put_aside bad ts) (λ d k p. IsBounded-le d k) ds b

  claim_checked-IsBounded :
      (v : Option Problem) → All IsBounded (claim_checked ts lease by r ds v).1
  unfolding claim_checked
  claim_checked-IsBounded none = elim (Bool-cases (count (is_open r.did) ds == 0)) [
    | inl e ↦ rw e b
    | inr e ↦ rw e leased-IsBounded
  ]
  claim_checked-IsBounded (some bad) = aside-IsBounded bad

  reopen_checked-IsBounded :
      (v : Option Problem) → All IsBounded (reopen_checked ts lease by r ds v).1
  unfolding reopen_checked
  reopen_checked-IsBounded none = elim (Bool-cases (is_accepted r.state)) [
    | inl a ↦ elim (Bool-cases (count (is_open r.did) ds == 0)) [
      | inl e ↦ rw (a, e) b
      | inr e ↦ rw (a, e) leased-IsBounded
    ]
    | inr a ↦ rw a b
  ]
  reopen_checked-IsBounded (some bad) = elim (Bool-cases (is_accepted r.state)) [
    | inl a ↦ rw a (aside-IsBounded bad)
    | inr a ↦ rw a b
  ]

module _ (h : Host) (now lease : ℕ) (by : Text) where
  claim_rows-IsBounded :
      (rs : List Row) (ds : List Delivery)
      → All IsBounded ds
      → All IsBounded (claim_rows h now lease by rs ds).1
  unfolding claim_rows claim_one
  claim_rows-IsBounded [] ds b = b
  claim_rows-IsBounded (r ∷ rs) ds b =
      let v = validate_envelope h now r.message in
      claim_rows-IsBounded rs (claim_checked (seconds now) lease by r ds v).1
        (claim_checked-IsBounded (seconds now) lease by r ds b v)

  reopen_rows-IsBounded :
      (limit n : ℕ) (rs : List Row) (ds : List Delivery)
      → All IsBounded ds
      → All IsBounded (reopen_rows h now lease by limit n rs ds).1
  unfolding reopen_rows reopen_one
  reopen_rows-IsBounded limit n [] ds b = b
  reopen_rows-IsBounded limit n (r ∷ rs) ds b =
      let v = validate_envelope h now r.message in
      let (o, ds') = reopen_checked (seconds now) lease by r ds v in
      let first = reopen_checked-IsBounded (seconds now) lease by r ds b v in
      elim (Bool-cases (is_full o limit (n + counted o))) [
        | inl e ↦ rw e first
        | inr e ↦ rw e (reopen_rows-IsBounded limit (n + counted o) rs ds' first)
      ]

claim_new-IsBounded :
    (h : Host) (now : ℕ) (q : Request) (l : Ledger)
    → All IsBounded l.deliveries
    → All IsBounded (claim_new h now q l).1.deliveries
unfolding claim_new
claim_new-IsBounded h now q l b = elim (Bool-cases (is_removed l q.node)) [
  | inl e ↦ rw e b
  | inr e ↦ rw e (
      claim_rows-IsBounded h now (seconds now + lease_or_default q.lease_sec) q.claimed_by
        (select_new l.messages q.node q.priority q.limit
          (recover q.node (seconds now) l.deliveries))
        (recover q.node (seconds now) l.deliveries)
        (recover-IsBounded q.node (seconds now) l.deliveries b))
]

stamp-IsBounded : (t : Target) (ts : ℕ) (d : Delivery) → IsBounded d → IsBounded (stamp t ts d)
stamp-IsBounded to_injected ts d b = IsBounded-le d b
stamp-IsBounded to_read ts d b = IsBounded-le d b
stamp-IsBounded to_processed ts d b = IsBounded-le d b

bus_ack-IsBounded :
    (now : ℕ) (node mid state : Text) (l : Ledger)
    → All IsBounded l.deliveries
    → All IsBounded (bus_ack now node mid state l).1.deliveries
unfolding bus_ack ack_target
bus_ack-IsBounded now node mid state l b = elim (Option-cases (target_of state)) [
  | inl e ↦ rw (e, bus_ack) b
  | inr (t, e) ↦ elim (Option-cases (find (is_for node mid) l.deliveries)) [
    | inl f ↦ rw (e, bus_ack, f, ack_target) b
    | inr (d, f) ↦ elim (Bool-cases (is_at t d.state)) [
      | inl a ↦ rw (e, bus_ack, f, ack_target, a) b
      | inr a ↦ elim (Bool-cases (allowed t d.state)) [
        | inl c ↦
            rw (e, bus_ack, f, ack_target, a, c)
              (All-update_where IsBounded (is_for node mid) (stamp t (seconds now))
                (λ x k p. stamp-IsBounded t (seconds now) x k) l.deliveries b)
        | inr c ↦ rw (e, bus_ack, f, ack_target, a, c) b
      ]
    ]
  ]
]

inject_dids-IsBounded :
    (ts : ℕ) (node : Text) (dids : List ℕ) (ds : List Delivery)
    → All IsBounded ds
    → All IsBounded (inject_dids ts node dids ds).1
unfolding inject_dids
inject_dids-IsBounded ts node [] ds b = b
inject_dids-IsBounded ts node (did ∷ dids) ds b =
    inject_dids-IsBounded ts node dids (update_where (is_held node did) (stamp to_injected ts) ds) (
      All-update_where IsBounded (is_held node did) (stamp to_injected ts)
        (λ d k p. IsBounded-le d k) ds b)

inject_messages-IsBounded :
    (ts : ℕ) (node : Text) (mids : List Text) (ds : List Delivery)
    → All IsBounded ds
    → All IsBounded (inject_messages ts node mids ds)
unfolding inject_messages
inject_messages-IsBounded ts node [] ds b = b
inject_messages-IsBounded ts node (mid ∷ mids) ds b =
    inject_messages-IsBounded ts node mids (update_where (is_new_for node mid) (hand_over ts) ds)
      (All-update_where IsBounded (is_new_for node mid) (hand_over ts) (λ d k p. ground arith) ds b)

pub apply-IsBounded :
    (h : Host) (op : Op) (l : Ledger)
    → All IsBounded l.deliveries
    → All IsBounded (apply h op l).deliveries
unfolding apply reopen_unread bus_inject_by_did bus_mark_injected mark_read_in
apply-IsBounded h (claim now q) l b = claim_new-IsBounded h now q l b
apply-IsBounded h (reopen now mid q) l b =
    reopen_rows-IsBounded h now (seconds now + lease_or_default q.lease_sec) q.claimed_by q.limit 0
      (select_unread l.messages q.node mid q.limit l.deliveries) l.deliveries b
apply-IsBounded h (ack now node mid state) l b = bus_ack-IsBounded now node mid state l b
apply-IsBounded h (inject now node dids) l b =
    inject_dids-IsBounded (seconds now) node dids l.deliveries b
apply-IsBounded h (mark_injected now node mids) l b =
    inject_messages-IsBounded (seconds now) node mids l.deliveries b
apply-IsBounded h (mark_read node tac ids) l b =
    All-update_where IsBounded (is_caught_up l.messages node tac ids) catch_up
      (λ d k p. IsBounded-le d k) l.deliveries b

-- From a ledger whose deliveries had at most five attempts, and at most four while ACCEPTED, every
-- history of mailbox operations leads to such a ledger.
pub run-IsBounded :
    (h : Host) (ops : List Op) (l : Ledger)
    → All IsBounded l.deliveries
    → All IsBounded (run h ops l).deliveries
unfolding run
run-IsBounded h [] l b = b
run-IsBounded h (op ∷ ops) l b = run-IsBounded h ops (apply h op l) (apply-IsBounded h op l b)
