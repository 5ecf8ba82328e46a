-- ===== src/Pending/Raised.antt =====
-- What a send does to the unread counts that senders are shown.
use tabc.Prelude.{
  All, Bool, Bool-cases, List, Option, [], ap, arith, false, if◌then◌else◌, inl, inr, is_some, none,
  refl, some, suc, sym, true, ℕ, ◌&&◌, ◌++◌, ◌+◌, ◌∙◌, ◌∷◌, ◌≡◌,
}
use tabc.Text.{Text, mem_text, text_eq, text_eq_refl, text_or}
use tabc.Text.Order.{has_duplicate}
use tabc.Host.{Host}
use tabc.Table.{count}
use tabc.Table.Laws.{count-append}
use tabc.Ledger.{Delivery, Ledger, Message, find_message, seconds}
use tabc.Delivery.Ack.{is_for}
use tabc.Send.Envelope.{Envelope, pass}
use tabc.Send.Gates.{Cleared, clear, message_has}
use tabc.Send.Write.{Ring, bus_send, message_of, new_deliveries, store}
use tabc.Send.Outcome.{bus_send-stored, is_stored}
use tabc.Send.Stored.{IsLinked, count-new, count-new_once, find-stored, find_message-kept}
use tabc.Pending.{bus_pending_counts, is_pending, pending_in}
use tabc.Pending.Tallied.{bus_pending_counts-IsTally, is_sent_to, pending_in-shown, unread_from_to}

module _ (ms : List Message) (m : Message) (q : Message → Bool) where
  -- an older delivery belongs to the message that it belonged to
  message_has-kept :
      (mid : Text)
      → is_some (find_message ms mid) ≡ true
      → message_has (ms ++ m ∷ []) q mid ≡ message_has ms q mid
  message_has-kept mid h =
      ap (λ (o : Option Message). elim o [ none ↦ false | some k ↦ q k ])
        (find_message-kept ms m mid h)

  message_has-new : find_message ms m.id ≡ none → message_has (ms ++ m ∷ []) q m.id ≡ q m
  message_has-new h =
      ap (λ (o : Option Message). elim o [ none ↦ false | some k ↦ q k ]) (find-stored ms m h)

-- a delivery to a node that is unread, of a message for which `has` holds
abbrev tested : (Text → Bool) → Text → (Delivery → Bool) → Delivery → Bool
tested has to unread d = is_sent_to to d && (has d.message_id && unread d)

count-kept :
    (has has' : Text → Bool) (to : Text) (unread : Delivery → Bool) (ds : List Delivery)
    → All (λ d. has' d.message_id ≡ has d.message_id) ds
    → count (tested has' to unread) ds ≡ count (tested has to unread) ds
unfolding count
count-kept has has' to unread [] h = refl
count-kept has has' to unread (d ∷ ds) h = ground (arith, h.0, count-kept has has' to unread ds h.1)

All-kept :
    (ms : List Message) (m : Message) (q : Message → Bool) (ds : List Delivery)
    → All (λ d. is_some (find_message ms d.message_id) ≡ true) ds
    → All (λ d. message_has (ms ++ m ∷ []) q d.message_id ≡ message_has ms q d.message_id) ds
All-kept ms m q [] h = tt
All-kept ms m q (d ∷ ds) h = (message_has-kept ms m q d.message_id h.0, All-kept ms m q ds h.1)

-- the page of a send counts for the sender alone
count-page :
    (has : Text → Bool) (b : Bool) (ts : ℕ) (mid to : Text) (tos : List Text) (did : ℕ)
    → has mid ≡ b
    → count
        (λ d. is_sent_to to d && (has d.message_id && is_pending d))
        (new_deliveries ts mid tos did)
      ≡ (if b then count (is_for to mid) (new_deliveries ts mid tos did) else 0)
unfolding count new_deliveries
count-page has b ts mid to [] did h = ground arith
count-page has b ts mid to (t ∷ tos) did h =
    ground (arith, h, text_eq_refl mid, count-page has b ts mid to tos (suc did) h)

page-once :
    (ts : ℕ) (mid to : Text) (tos : List Text) (did : ℕ)
    → has_duplicate tos ≡ false
    → count (is_for to mid) (new_deliveries ts mid tos did) ≡ (if mem_text to tos then 1 else 0)
page-once ts mid to tos did d = elim (Bool-cases (mem_text to tos)) [
  | inl e ↦ rw e (count-new_once ts mid tos did to d e)
  | inr e ↦ rw e (count-new ts mid tos did to mid e)
]

store-unread_from_to :
    (h : Host) (ts : ℕ) (l : Ledger) (e : Envelope) (c : Cleared) (mid sender to : Text)
    → IsLinked l
    → find_message l.messages mid ≡ none
    → has_duplicate c.valid ≡ false
    → unread_from_to (store h ts l e c mid) sender to
      ≡ unread_from_to l sender to
        + (if text_eq e.sender sender && mem_text to c.valid then 1 else 0)
unfolding store message_of
store-unread_from_to h ts l e c mid sender to linked fresh d =
    let m = message_of h ts l e c mid in
    let q = λ (k : Message). text_eq k.sender_id sender in
    let has = message_has l.messages q in
    let has' = message_has (l.messages ++ m ∷ []) q in
    let page = new_deliveries ts mid c.valid l.next_did in
    let split =
      count-append (λ d. is_sent_to to d && (has' d.message_id && is_pending d)) l.deliveries
        page in
    let old =
      count-kept has has' to is_pending l.deliveries
        (All-kept l.messages m q l.deliveries linked) in
    let new =
      count-page has' (text_eq e.sender sender) ts mid to c.valid l.next_did
        (message_has-new l.messages m q fresh) in
    let once = page-once ts mid to c.valid l.next_did d in split ∙ ground (arith, old, new, once)

shown_count :
    (l : Ledger) (sender to : Text)
    → pending_in (bus_pending_counts l sender) to ≡ unread_from_to l sender to
shown_count l sender to =
    pending_in-shown (bus_pending_counts l sender) to (unread_from_to l sender to)
      ((bus_pending_counts-IsTally l sender).agrees to)

-- A send that is stored, on a ledger with linked deliveries, raises the count that its sender is
-- shown for each of its valid recipients by one, and changes no other count of its sender's or of
-- any other sender's.
pub bus_send-pending_in :
    (h : Host) (now : ℕ) (fresh : Text) (ringer : Ring → Bool) (e : Envelope) (l : Ledger)
    (sender to : Text)
    → IsLinked l
    → is_stored (bus_send h now fresh ringer e l).0 ≡ true
    → let l' = (bus_send h now fresh ringer e l).1 in
      (c : Cleared) × (clear h l e ≡ pass c)
      × (pending_in (bus_pending_counts l' sender) to
          ≡ pending_in (bus_pending_counts l sender) to
            + (if text_eq e.sender sender && mem_text to c.valid then 1 else 0))
bus_send-pending_in h now fresh ringer e l sender to linked s =
    let (c, g, w) = bus_send-stored h now fresh ringer e l s in
    let mid = text_or e.message_id fresh in
    let l' = store h (seconds now) l e c mid in
    rw w.0 (
      c,
      g,
      shown_count l' sender to
          ∙ (store-unread_from_to h (seconds now) l e c mid sender to linked w.2 w.4
              ∙ ap (λ n. n + (if text_eq e.sender sender && mem_text to c.valid then 1 else 0))
                  (sym (shown_count l sender to))),
    )
