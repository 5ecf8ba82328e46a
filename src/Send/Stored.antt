-- ===== src/Send/Stored.antt =====
-- What storing a send does to the tables.
use tabc.Host.{Host}
use tabc.Delivery.Attempts.{IsBounded}
use tabc.Table.Grows.{Grows, Grows-append, Grows-refl}
use tabc.Table.Laws.{find-append_none, find-append_some}
use tabc.Delivery.Follows.{Follows, Follows-refl}
use tabc.Send.Outcome.{bus_send-stored, bus_send-unstored, is_stored}
use tabc.Send.Envelope.{Envelope}
use tabc.Send.Write.{Ring, bus_send, new_deliveries, store}
use tabc.Prelude.{
  All, Bool, Bool-cases, List, [], ap, arith, false, inl, inr, is_some, map, none, refl, some, suc,
  true, ℕ, ◌++◌, ◌∙◌, ◌∷◌, ◌≡◌, ◌≤◌,
}
use tabc.Text.{Text, mem_text, text_eq, text_eq_iff, text_eq_refl, text_or}
use tabc.Text.Order.{has_duplicate}
use tabc.Ledger.{Delivery, Ledger, Message, find_message, seconds}
use tabc.Table.{count, find, select}
use tabc.Delivery.Ack.{is_for}

-- `message_id TEXT NOT NULL REFERENCES messages(id)`
abbrev pub IsLinked : Ledger → Type 0
IsLinked l = All (λ d. is_some (find_message l.messages d.message_id) ≡ true) l.deliveries

-- How often a new page of deliveries holds a key: once for each time that its list names the node.
pub count-new :
    (ts : ℕ) (mid : Text) (tos : List Text) (did : ℕ) (node k : Text)
    → mem_text node tos ≡ false
    → count (is_for node k) (new_deliveries ts mid tos did) ≡ 0
unfolding count new_deliveries mem_text
count-new ts mid [] did node k h = refl
count-new ts mid (to ∷ tos) did node k h = ground (arith, count-new ts mid tos (suc did) node k)

pub count-new_distinct :
    (ts : ℕ) (mid : Text) (tos : List Text) (did : ℕ) (node k : Text)
    → has_duplicate tos ≡ false
    → count (is_for node k) (new_deliveries ts mid tos did) ≤ 1
unfolding count new_deliveries has_duplicate
count-new_distinct ts mid [] did node k h = omega arith
count-new_distinct ts mid (to ∷ tos) did node k h = elim (Bool-cases (text_eq to node)) [
  | inl e ↦ ground (arith, count-new ts mid tos (suc did) node k, (text_eq_iff to node).0 e)
  | inr e ↦ ground (arith, count-new_distinct ts mid tos (suc did) node k)
]

pub count-new_other :
    (ts : ℕ) (mid : Text) (tos : List Text) (did : ℕ) (node k : Text)
    → text_eq mid k ≡ false
    → count (is_for node k) (new_deliveries ts mid tos did) ≡ 0
unfolding count new_deliveries
count-new_other ts mid [] did node k h = refl
count-new_other ts mid (to ∷ tos) did node k h =
    ground (arith, count-new_other ts mid tos (suc did) node k)

-- No delivery of an unknown message is in a linked ledger.
pub count-unknown :
    (ms : List Message) (ds : List Delivery) (node mid : Text)
    → All (λ d. is_some (find_message ms d.message_id) ≡ true) ds
    → find_message ms mid ≡ none
    → count (is_for node mid) ds ≡ 0
unfolding count
count-unknown ms [] node mid a f = refl
count-unknown ms (d ∷ ds) node mid a f = elim (Bool-cases (text_eq d.message_id mid)) [
  | inl e ↦ absurd (ground (arith, (text_eq_iff d.message_id mid).0 e, a.0))
  | inr e ↦ ground (arith, count-unknown ms ds node mid a.1 f)
]

pub count-new_once :
    (ts : ℕ) (mid : Text) (tos : List Text) (did : ℕ) (node : Text)
    → has_duplicate tos ≡ false
    → mem_text node tos ≡ true
    → count (is_for node mid) (new_deliveries ts mid tos did) ≡ 1
unfolding count new_deliveries has_duplicate mem_text
count-new_once ts mid [] did node h m = absurd (ground arith)
count-new_once ts mid (to ∷ tos) did node h m = elim (Bool-cases (text_eq to node)) [
  | inl e ↦
      ground (
        arith,
        count-new ts mid tos (suc did) node mid,
        (text_eq_iff to node).0 e,
        text_eq_refl mid,
      )
  | inr e ↦ ground (arith, count-new_once ts mid tos (suc did) node)
]

pub new_deliveries-IsLinked :
    (ts : ℕ) (mid : Text) (tos : List Text) (did : ℕ) (ms : List Message)
    → is_some (find_message ms mid) ≡ true
    → All (λ d. is_some (find_message ms d.message_id) ≡ true) (new_deliveries ts mid tos did)
unfolding new_deliveries
new_deliveries-IsLinked ts mid [] did ms h = tt
new_deliveries-IsLinked ts mid (to ∷ tos) did ms h =
    (h, new_deliveries-IsLinked ts mid tos (suc did) ms h)

pub new_deliveries-IsBounded :
    (ts : ℕ) (mid : Text) (tos : List Text) (did : ℕ)
    → All IsBounded (new_deliveries ts mid tos did)
unfolding new_deliveries
new_deliveries-IsBounded ts mid [] did = tt
new_deliveries-IsBounded ts mid (to ∷ tos) did =
    (omega arith, new_deliveries-IsBounded ts mid tos (suc did))

-- The new message is found under its id, and the old ones as before.
pub find-stored :
    (ms : List Message) (m : Message)
    → find_message ms m.id ≡ none
    → find_message (ms ++ m ∷ []) m.id ≡ some m
unfolding find_message find
find-stored ms m h =
    find-append_none (λ n. text_eq n.id m.id) ms (m ∷ []) h ∙ ground (arith, text_eq_refl m.id)

pub find-kept :
    (ms : List Message) (m : Message) (mid : Text)
    → is_some (find_message ms mid) ≡ true
    → is_some (find_message (ms ++ m ∷ []) mid) ≡ true
unfolding find_message
find-kept ms m mid h = rw (find-append_some (λ n. text_eq n.id mid) ms (m ∷ []) h) h

pub find_message-kept :
    (ms : List Message) (m : Message) (mid : Text)
    → is_some (find_message ms mid) ≡ true
    → find_message (ms ++ m ∷ []) mid ≡ find_message ms mid
unfolding find_message
find_message-kept ms m mid h = find-append_some (λ n. text_eq n.id mid) ms (m ∷ []) h

-- the recipients of a new page are those it was made for
pub new_deliveries-recipients :
    (ts : ℕ) (mid : Text) (tos : List Text) (did : ℕ)
    → map Delivery.recipient_id
        (select (λ d. text_eq d.message_id mid) (new_deliveries ts mid tos did))
      ≡ tos
unfolding new_deliveries select
new_deliveries-recipients ts mid [] did = refl
new_deliveries-recipients ts mid (to ∷ tos) did =
    rw (text_eq_refl mid) (ap (λ t. to ∷ t) (new_deliveries-recipients ts mid tos (suc did)))

-- no delivery of a linked ledger is on a message that it does not hold
pub select-unknown :
    (ms : List Message) (ds : List Delivery) (mid : Text)
    → All (λ d. is_some (find_message ms d.message_id) ≡ true) ds
    → find_message ms mid ≡ none
    → select (λ d. text_eq d.message_id mid) ds ≡ []
unfolding select
select-unknown ms [] mid a f = refl
select-unknown ms (d ∷ ds) mid a f = elim (Bool-cases (text_eq d.message_id mid)) [
  | inl e ↦ absurd (ground (arith, (text_eq_iff d.message_id mid).0 e, a.0))
  | inr e ↦ rw e (select-unknown ms ds mid a.1 f)
]

module _ (h : Host) (now : ℕ) (fresh : Text) (ringer : Ring → Bool) (e : Envelope)
    (l : Ledger) where
  -- A send keeps every delivery that was there, and adds behind them.
  pub bus_send-Grows : Grows Follows l.deliveries (bus_send h now fresh ringer e l).1.deliveries
  bus_send-Grows = elim (Bool-cases (is_stored (bus_send h now fresh ringer e l).0)) [
    | inl s ↦
        let (c, _, w) = bus_send-stored h now fresh ringer e l s in
        rw w.0 (
          unfold store in
          Grows-append Follows Follows-refl l.deliveries
            (new_deliveries (seconds now) (text_or e.message_id fresh) c.valid l.next_did))
    | inr s ↦
        rw (bus_send-unstored h now fresh ringer e l s)
          (Grows-refl Follows Follows-refl l.deliveries)
  ]
