-- ===== src/Delivery/Handed.antt =====
-- What `claim_new` of tabus/bus.py hands out.
use tabc.Prelude.{
  All, All-map, All-take, Bool, Bool-cases, List, Option, Option-cases, [], arith, inl, inr, none,
  refl, some, true, ℕ, ◌&&◌, ◌+◌, ◌==◌, ◌||◌, ◌∷◌, ◌≡◌,
}
use tabc.Text.{Text, opt_eq, text_eq, text_eq_refl}
use tabc.Host.{Host}
use tabc.Ledger.{Delivery, Ledger, Message, Problem, claimed, find_message, is_removed, seconds}
use tabc.Table.{any, count, order_by, select, update_where}
use tabc.Table.Any.{any-after_update, any-before_update, any-updated, select-any}
use tabc.Table.Laws.{All-order_by, All-select, count-eq_zero}
use tabc.Delivery.{Row, has_priority, is_accepted, is_claimed, join_rows, lease_or_default, row_le}
use tabc.Delivery.Envelope.{IsSound, validate_envelope, validate_envelope_iff}
use tabc.Delivery.Claim.{
  Request, bury, claim_checked, claim_new, claim_one, claim_rows, is_lapsed, is_new, is_open,
  is_poison, lease_before, lease_to, put_aside, recover, release, select_new, won,
}
use tabc.Delivery.Winners.{add_outcome-All}

-- The delivery was there before, for this node, and nobody held it.
abbrev pub was_free : Text → ℕ → ℕ → Delivery → Bool
was_free node ts did d =
    d.id == did
    && (text_eq d.recipient_id node
        && (is_accepted d.state || (is_claimed d.state && lease_before d.lease_until ts)))

-- The delivery is now leased to the caller.
abbrev pub is_leased : Text → ℕ → Delivery → Bool
is_leased by did d = d.id == did && (is_claimed d.state && opt_eq d.claimed_by (some by))

module _ (Q : Row → Type 0) (P : Delivery → Type 0) where
  join_rows-All :
      (ms : List Message)
      → ((d : Delivery) (m : Message)
          → P d
          → Q (record { did = d.id; state = d.state; attempts = d.attempts; message = m }))
      → (ds : List Delivery) → All P ds
      → All Q (join_rows ms ds)
  unfolding join_rows
  join_rows-All ms f [] h = tt
  join_rows-All ms f (d ∷ ds) h = elim (Option-cases (find_message ms d.message_id)) [
    | inl e ↦ rw (e, join_rows) (join_rows-All ms f ds h.1)
    | inr (m, e) ↦ rw (e, join_rows) (f d m h.0, join_rows-All ms f ds h.1)
  ]

was_free-recover :
    (node : Text) (ts did : ℕ) (ds : List Delivery)
    → any (λ d. d.id == did && is_new node d) (recover node ts ds) ≡ true
    → any (was_free node ts did) ds ≡ true
unfolding recover
was_free-recover node ts did ds h =
    any-before_update (λ d. d.id == did && is_new node d) (was_free node ts did) (is_lapsed node ts)
      (release ts) (λ d p q. ground arith) (λ d q. ground arith) ds
      (any-before_update (λ d. d.id == did && is_new node d) (λ d. d.id == did && is_new node d)
        (is_poison node) (bury ts) (λ d p q. ground arith) (λ d q. q)
        (update_where (is_lapsed node ts) (release ts) ds) h)

-- Every candidate is a new delivery of the node.
select_new-All :
    (ms : List Message) (node : Text) (priority : Option Text) (limit : ℕ) (ds : List Delivery)
    → All
        (λ r. any (λ d. d.id == r.did && is_new node d) ds ≡ true)
        (select_new ms node priority limit ds)
unfolding select_new
select_new-All ms node priority limit ds =
    let P = λ (r : Row). any (λ d. d.id == r.did && is_new node d) ds ≡ true in
    let rows = join_rows ms (select (is_new node) ds) in
    let asked = select (has_priority priority) rows in
    All-take P limit (order_by row_le asked) (
      All-order_by P row_le asked (
        All-select P (has_priority priority) rows (
          join_rows-All P (λ x. any (λ y. y.id == x.id && is_new node y) ds ≡ true) ms (λ d m p. p)
            (select (is_new node) ds)
            (select-any (λ y x. y.id == x.id) (λ x. ground arith) (is_new node) ds))))

-- An accepted row of the page becomes a leased one, and later claims of the page leave it so.
module _ (h : Host) (now lease : ℕ) (by : Text) where
  leased-claim_checked :
      (did : ℕ) (r : Row) (ds : List Delivery) (v : Option Problem)
      → any (is_leased by did) ds ≡ true
      → any (is_leased by did) (claim_checked (seconds now) lease by r ds v).1 ≡ true
  unfolding claim_checked
  leased-claim_checked did r ds none k = elim (Bool-cases (count (is_open r.did) ds == 0)) [
    | inl e ↦ rw e k
    | inr e ↦ rw e (
        any-after_update (is_leased by did) (is_open r.did) (lease_to by lease (seconds now))
          (λ d p q. ground arith) ds k)
  ]
  leased-claim_checked did r ds (some bad) k =
      any-after_update (is_leased by did) (is_open r.did) (put_aside bad (seconds now))
        (λ d p q. ground arith) ds k

  leased-claim_rows :
      (did : ℕ) (rs : List Row) (ds : List Delivery)
      → any (is_leased by did) ds ≡ true
      → any (is_leased by did) (claim_rows h now lease by rs ds).1 ≡ true
  unfolding claim_rows claim_one
  leased-claim_rows did [] ds k = k
  leased-claim_rows did (r ∷ rs) ds k =
      let v = validate_envelope h now r.message in
      leased-claim_rows did rs (claim_checked (seconds now) lease by r ds v).1
        (leased-claim_checked did r ds v k)

  claim_checked-leased :
      (r : Row) (ds : List Delivery) (v : Option Problem) (s : Row)
      → (claim_checked (seconds now) lease by r ds v).0 ≡ won s
      → (v ≡ none)
        × (s ≡ record r { state = claimed })
        × (any (is_leased by r.did) (claim_checked (seconds now) lease by r ds v).1 ≡ true)
  unfolding claim_checked
  claim_checked-leased r ds none s e = elim (Bool-cases (count (is_open r.did) ds == 0)) [
    | inl z ↦ absurd (ground arith)
    | inr z ↦ (
      refl,
      ground arith,
      elim (Bool-cases (any (is_open r.did) ds)) [
        | inl t ↦ rw z (
            any-updated (is_leased by r.did) (is_open r.did) (lease_to by lease (seconds now))
              (λ d p. ground (arith, text_eq_refl by)) ds t)
        | inr f ↦ absurd (ground (arith, count-eq_zero (is_open r.did) ds))
      ],
    )
  ]
  claim_checked-leased r ds (some bad) s e = absurd (cc)

  -- What a claimed row was before, and what it is in the ledger now.
  claim_rows-All :
      (P : Row → Type 0) (rs : List Row) (ds : List Delivery)
      → All P rs
      → let (c, ds') = claim_rows h now lease by rs ds in
        All
          (λ s.
            (r : Row) × P r
            × (s ≡ record r { state = claimed })
            × (validate_envelope h now r.message ≡ none)
            × (any (is_leased by r.did) ds' ≡ true))
          c.out
  unfolding claim_rows claim_one
  claim_rows-All P [] ds a = tt
  claim_rows-All P (r ∷ rs) ds a =
      let v = validate_envelope h now r.message in
      let (o, ds') = claim_checked (seconds now) lease by r ds v in
      let ds'' = (claim_rows h now lease by rs ds').1 in
      add_outcome-All
        (λ s.
          (r' : Row) × P r'
          × (s ≡ record r' { state = claimed })
          × (validate_envelope h now r'.message ≡ none)
          × (any (is_leased by r'.did) ds'' ≡ true))
        o (claim_rows h now lease by rs ds').0
        (λ s e.
          let w = claim_checked-leased r ds v s e in
          (r, a.0, w.1, w.0, leased-claim_rows r.did rs ds' w.2))
        (claim_rows-All P rs ds' a.1)

-- Every row that `claim_new` returns stood in the mailbox of the node before, ACCEPTED or with a
-- lapsed lease, so never INJECTED or later; its message passes the envelope check; it is CLAIMED
-- in the answer, and the ledger shows it claimed by the caller.
pub claim_new-out :
    (h : Host) (now : ℕ) (q : Request) (l : Ledger)
    → let (c, l') = claim_new h now q l in
      All
        (λ s.
          (any (was_free q.node (seconds now) s.did) l.deliveries ≡ true)
          × IsSound h now s.message
          × (s.state ≡ claimed)
          × (any (is_leased q.claimed_by s.did) l'.deliveries ≡ true))
        c.out
unfolding claim_new
claim_new-out h now q l = elim (Bool-cases (is_removed l q.node)) [
  | inl e ↦ rw e tt
  | inr e ↦
      let ts = seconds now in
      let ds = recover q.node ts l.deliveries in
      let rows = select_new l.messages q.node q.priority q.limit ds in
      let lease = ts + lease_or_default q.lease_sec in
      let ds' = (claim_rows h now lease q.claimed_by rows ds).1 in
      let P = λ (r : Row). any (λ d. d.id == r.did && is_new q.node d) ds ≡ true in
      rw e (
        All-map
          (λ s.
            (r : Row) × P r
            × (s ≡ record r { state = claimed })
            × (validate_envelope h now r.message ≡ none)
            × (any (is_leased q.claimed_by r.did) ds' ≡ true))
          (λ s.
            (any (was_free q.node ts s.did) l.deliveries ≡ true)
            × IsSound h now s.message
            × (s.state ≡ claimed)
            × (any (is_leased q.claimed_by s.did) ds' ≡ true))
          (λ s w. rw (w.2) (
            was_free-recover q.node ts w.0.did l.deliveries w.1,
            (validate_envelope_iff h now w.0.message).0 w.3,
            refl,
            w.4,
          ))
          (claim_rows h now lease q.claimed_by rows ds).0.out
          (claim_rows-All h now lease q.claimed_by P rows ds
            (select_new-All l.messages q.node q.priority q.limit ds)))
]
