-- ===== src/Send/Delivered.antt =====
-- What a stored send adds to the ledger, and that it keeps the keys and the links of the tables.
use tabc.Prelude.{
  All, All-append, All-map, Bool, Bool-cases, [], arith, false, if◌then◌else◌, inl, inr, is_some,
  none, refl, some, true, ℕ, ◌++◌, ◌∷◌, ◌≡◌,
}
use tabc.Payload.{str}
use tabc.Payload.Accepts.{check_send_payload_iff}
use tabc.Send.Cleared.{clear-stages}
use tabc.Text.{Text, is_nonempty, mem_text, text_eq, text_eq_iff, text_or, txt}
use tabc.Text.Order.{has_duplicate}
use tabc.Host.{Host}
use tabc.Ledger.{Delivery, Ledger, Message, find_message, seconds}
use tabc.Table.{count}
use tabc.Table.Laws.{count-append}
use tabc.Delivery.Ack.{is_for}
use tabc.Delivery.AckLadder.{IsKeyed}
use tabc.Delivery.Attempts.{IsBounded}
use tabc.Send.Envelope.{Envelope, other_text, pass}
use tabc.Send.Gates.{Cleared, clear}
use tabc.Send.Write.{
  Ring, bus_send, message_of, new_deliveries, reply_thread, store, stored, thread_of,
}
use tabc.Send.Outcome.{bus_send-stored, bus_send-unstored, is_stored}
use tabc.Send.Stored.{
  IsLinked, count-new, count-new_distinct, count-new_once, count-new_other, count-unknown,
  find-kept, find-stored, new_deliveries-IsBounded, new_deliveries-IsLinked,
}

-- How often the ledger holds a delivery of this message to this node.
abbrev pub times : Ledger → Text → Text → ℕ
times l node mid = count (is_for node mid) l.deliveries

-- The invariants of the two tables.
pub record IsConsistent (l : Ledger) : Type 0 where
  pub keyed : IsKeyed l.deliveries
  pub linked : IsLinked l
  pub bounded : All IsBounded l.deliveries

module _ (h : Host) (ts : ℕ) (l : Ledger) (e : Envelope) (c : Cleared) (mid : Text)
    (linked : IsLinked l) (fresh : find_message l.messages mid ≡ none) where
  store-message :
      find_message (store h ts l e c mid).messages mid ≡ some (message_of h ts l e c mid)
  unfolding store message_of
  store-message = find-stored l.messages (message_of h ts l e c mid) fresh

  -- each node that the page names once gets one delivery, the others none
  store-times :
      (node : Text)
      → has_duplicate c.valid ≡ false
      → times (store h ts l e c mid) node mid ≡ (if mem_text node c.valid then 1 else 0)
  unfolding store
  store-times node d =
      let page = new_deliveries ts mid c.valid l.next_did in
      rw (count-append (is_for node mid) l.deliveries page)
        (elim (Bool-cases (mem_text node c.valid)) [
          | inl m ↦ rw m (
              omega (
                arith,
                count-unknown l.messages l.deliveries node mid linked fresh,
                count-new_once ts mid c.valid l.next_did node d m,
              ))
          | inr m ↦ rw m (
              omega (
                arith,
                count-unknown l.messages l.deliveries node mid linked fresh,
                count-new ts mid c.valid l.next_did node mid m,
              ))
        ])

  store-IsKeyed :
      IsKeyed l.deliveries
      → has_duplicate c.valid ≡ false
      → IsKeyed (store h ts l e c mid).deliveries
  unfolding store
  store-IsKeyed k d = record {
    once = λ node j.
        let page = new_deliveries ts mid c.valid l.next_did in
        rw (count-append (is_for node j) l.deliveries page) (elim (Bool-cases (text_eq mid j)) [
          | inl m ↦ omega (
            arith,
            rw ((text_eq_iff mid j).0 m) at
                (count-unknown l.messages l.deliveries node mid linked fresh),
            count-new_distinct ts mid c.valid l.next_did node j d,
          )
          | inr m ↦ omega (arith, k.once node j, count-new_other ts mid c.valid l.next_did node j m)
        ]);
  }

  store-IsLinked : IsLinked (store h ts l e c mid)
  unfolding store message_of
  store-IsLinked =
      let m = message_of h ts l e c mid in
      let P = λ (d : Delivery). is_some (find_message (l.messages ++ m ∷ []) d.message_id) ≡ true in
      All-append P l.deliveries (new_deliveries ts mid c.valid l.next_did)
        (All-map (λ d. is_some (find_message l.messages d.message_id) ≡ true) P
          (λ d k. find-kept l.messages m d.message_id k) l.deliveries linked)
        (new_deliveries-IsLinked ts mid c.valid l.next_did (l.messages ++ m ∷ [])
          (rw (find-stored l.messages m fresh) refl))

  store-IsBounded : All IsBounded l.deliveries → All IsBounded (store h ts l e c mid).deliveries
  unfolding store
  store-IsBounded b =
      All-append IsBounded l.deliveries (new_deliveries ts mid c.valid l.next_did) b
        (new_deliveries-IsBounded ts mid c.valid l.next_did)

-- The row that an envelope is stored as, column by column: its text is the text of the envelope, and
-- its hash is the hash of that text. The thread is the one asked for, or, in a message that neither
-- names a thread nor replies, the message itself.
pub record IsStoredAs (h : Host) (ts : ℕ) (e : Envelope) (c : Cleared) (mid : Text) (m : Message)
    : Type 0 where
  pub id : m.id ≡ mid
  pub sender : m.sender_id ≡ e.sender
  pub subject : e.subject ≡ str m.subject
  pub body : e.body ≡ str m.body
  pub hash : m.body_hash ≡ h.sha256 m.body
  pub times : (m.accepted_at ≡ ts) × (m.client_ts ≡ ts)
  pub priority : m.priority ≡ e.priority
  pub reply : m.reply_to ≡ e.reply_to
  pub tac : m.tac_id ≡ c.tac
  pub expiry : m.expires_at ≡ c.expiry
  pub broadcast : m.broadcast ≡ e.broadcast
  pub schema : m.schema_version ≡ txt "tabus.v1"
  pub thread : (t : Text) → e.thread_id ≡ some t → is_nonempty t ≡ true → m.thread_id ≡ t
  pub own_thread : e.thread_id ≡ none → e.reply_to ≡ none → m.thread_id ≡ mid

message_of-thread :
    (h : Host) (ts : ℕ) (l : Ledger) (e : Envelope) (c : Cleared) (mid t : Text)
    → e.thread_id ≡ some t
    → is_nonempty t ≡ true
    → (message_of h ts l e c mid).thread_id ≡ t
unfolding message_of thread_of
message_of-thread h ts l e c mid t k n = rw k (rw n refl)

message_of-own_thread :
    (h : Host) (ts : ℕ) (l : Ledger) (e : Envelope) (c : Cleared) (mid : Text)
    → e.thread_id ≡ none
    → e.reply_to ≡ none
    → (message_of h ts l e c mid).thread_id ≡ mid
unfolding message_of thread_of reply_thread
message_of-own_thread h ts l e c mid k n = rw (k, n) refl

message_of-IsStoredAs :
    (h : Host) (ts : ℕ) (l : Ledger) (e : Envelope) (c : Cleared) (mid : Text)
    → clear h l e ≡ pass c
    → IsStoredAs h ts e c mid (message_of h ts l e c mid)
unfolding message_of
message_of-IsStoredAs h ts l e c mid g =
    let (s, b, es, eb, _) =
      (check_send_payload_iff e.subject e.body (other_text e)).0 (clear-stages h l e c g).0 in
    record {
      id = refl;
      sender = refl;
      subject = rw es refl;
      body = rw eb refl;
      hash = refl;
      times = (refl, refl);
      priority = refl;
      reply = refl;
      tac = refl;
      expiry = refl;
      broadcast = refl;
      schema = refl;
      thread = λ t k n. message_of-thread h ts l e c mid t k n;
      own_thread = λ k n. message_of-own_thread h ts l e c mid k n;
    }

module _ (h : Host) (now : ℕ) (fresh : Text) (ringer : Ring → Bool) (e : Envelope)
    (l : Ledger) where
  -- When a send on a ledger with linked deliveries is stored, the message is found under its id, its
  -- row holds the texts, the hash and the other columns of the envelope, each node has exactly one
  -- delivery of it if it is a valid recipient and none otherwise, and the answer is that of a
  -- doorbell told the valid recipients, the sender, the subject and the id.
  pub bus_send-delivers :
      IsLinked l
      → is_stored (bus_send h now fresh ringer e l).0 ≡ true
      → let (r, l') = bus_send h now fresh ringer e l in
        let mid = text_or e.message_id fresh in
        (c : Cleared) × (m : Message) × (clear h l e ≡ pass c)
        × (r
            ≡ stored mid c.valid (
                ringer (record {
                  recipients = c.valid;
                  sender = e.sender;
                  subject = m.subject;
                  message_id = mid;
                })))
        × (find_message l'.messages mid ≡ some m)
        × IsStoredAs h (seconds now) e c mid m
        × ((node : Text) → times l' node mid ≡ (if mem_text node c.valid then 1 else 0))
  unfolding message_of
  bus_send-delivers k s =
      let (c, g, w) = bus_send-stored h now fresh ringer e l s in
      let mid = text_or e.message_id fresh in
      rw w.0 (
        c,
        message_of h (seconds now) l e c mid,
        g,
        refl,
        store-message h (seconds now) l e c mid k w.2,
        message_of-IsStoredAs h (seconds now) l e c mid g,
        λ node. store-times h (seconds now) l e c mid k w.2 node w.4,
      )

  -- A send, whatever it answers, keeps one delivery per message and recipient, keeps every delivery
  -- on a message of the ledger, and keeps the attempts within their bound.
  pub bus_send-IsConsistent : IsConsistent l → IsConsistent (bus_send h now fresh ringer e l).1
  bus_send-IsConsistent i = elim (Bool-cases (is_stored (bus_send h now fresh ringer e l).0)) [
    | inl s ↦
        let (c, _, w) = bus_send-stored h now fresh ringer e l s in
        let mid = text_or e.message_id fresh in
        rw w.0 (record {
          keyed = store-IsKeyed h (seconds now) l e c mid i.linked w.2 i.keyed w.4;
          linked = store-IsLinked h (seconds now) l e c mid i.linked w.2;
          bounded = store-IsBounded h (seconds now) l e c mid i.linked w.2 i.bounded;
        })
    | inr s ↦ rw (bus_send-unstored h now fresh ringer e l s) i
  ]
