-- ===== src/Send/Retry.antt =====
-- An envelope that comes to `bus_send` again.
use tabc.Prelude.{
  Bool, Bool-cases, List, Option, [], ap, arith, if◌then◌else◌, inl, inr, is_some, none, refl, some,
  true, ℕ, ◌++◌, ◌||◌, ◌∙◌, ◌∷◌, ◌≡◌,
}
use tabc.Text.{Text, is_nonempty, opt_eq_iff, text_eq, text_eq_iff, text_eq_refl, text_or}
use tabc.Text.Order.{text_le, texts_eq_refl}
use tabc.Table.{order_by}
use tabc.Table.Laws.{select-append}
use tabc.Host.{Host}
use tabc.Ledger.{Ledger, Message, find_message, seconds}
use tabc.Send.Envelope.{Envelope, pass}
use tabc.Send.Gates.{Cleared, clear}
use tabc.Send.Stored.{
  IsLinked, find-stored, find_message-kept, new_deliveries-recipients, select-unknown,
}
use tabc.Send.Outcome.{bus_send-stored, is_stored}
use tabc.Send.Write.{
  Ring, bus_send, is_priority, is_reply_known, is_same_envelope, json_text, message_of,
  new_deliveries, reply_thread, resend_answer, resent, store, stored_recipients, thread_in,
  thread_of, write,
}

-- A thread that is the given one, or else the message's own id, is found again.
text_or-own :
    (thread : Option Text) (tid mid : Text)
    → tid ≡ text_or thread mid
    → text_or thread (if is_nonempty tid then tid else mid) ≡ text_or thread mid
text_or-own none tid mid t = ground arith
text_or-own (some []) tid mid t = ground arith
text_or-own (some (c ∷ s)) tid mid t = refl

-- The thread of an envelope is the same once its message is stored, whether the message answers
-- an older one, itself or none.
thread_in-stored :
    (ms : List Message) (m : Message) (r : Text) (thread : Option Text)
    → m.thread_id ≡ text_or thread (thread_in (find_message ms r) m.id)
    → find_message ms m.id ≡ none
    → (text_eq r m.id || is_some (find_message ms r)) ≡ true
    → text_or thread (thread_in (find_message (ms ++ m ∷ []) r) m.id)
      ≡ text_or thread (thread_in (find_message ms r) m.id)
thread_in-stored ms m r thread t f k = elim (Bool-cases (is_some (find_message ms r))) [
  | inl known ↦ rw (find_message-kept ms m r known) refl
  | inr new ↦
      let same : r ≡ m.id = (text_eq_iff r m.id).0 (ground arith) in
      rw (same, find-stored ms m f, f) (text_or-own thread m.thread_id m.id (rw (same, f) at t))
]

reply_thread-stored :
    (l : Ledger) (m : Message) (reply thread : Option Text)
    → m.thread_id ≡ thread_of l.messages thread reply m.id
    → find_message l.messages m.id ≡ none
    → is_reply_known l m.id reply ≡ true
    → thread_of (l.messages ++ m ∷ []) thread reply m.id ≡ thread_of l.messages thread reply m.id
unfolding thread_of reply_thread is_reply_known
reply_thread-stored l m none thread t f k = refl
reply_thread-stored l m (some []) thread t f k = refl
reply_thread-stored l m (some (c ∷ r)) thread t f k =
    thread_in-stored l.messages m (c ∷ r) thread t f k

stored_recipients-store :
    (h : Host) (ts : ℕ) (l : Ledger) (e : Envelope) (c : Cleared) (mid : Text)
    → IsLinked l
    → find_message l.messages mid ≡ none
    → stored_recipients (store h ts l e c mid) mid ≡ order_by text_le c.valid
unfolding stored_recipients store
stored_recipients-store h ts l e c mid a f = ap (order_by text_le) (
    rw
      (
        select-append (λ d. text_eq d.message_id mid) l.deliveries
            (new_deliveries ts mid c.valid l.next_did),
        select-unknown l.messages l.deliveries mid a f,
      )
      (new_deliveries-recipients ts mid c.valid l.next_did))

-- The comparison with what was stored succeeds for the envelope that stored it.
store-is_same_envelope :
    (h : Host) (ts : ℕ) (l : Ledger) (e : Envelope) (c : Cleared) (mid : Text)
    → IsLinked l
    → find_message l.messages mid ≡ none
    → is_reply_known l mid e.reply_to ≡ true
    → is_same_envelope h (store h ts l e c mid) e c mid (message_of h ts l e c mid) ≡ true
unfolding is_same_envelope message_of store
store-is_same_envelope h ts l e c mid a f k =
    rw
      (
        reply_thread-stored l (message_of h ts l e c mid) e.reply_to e.thread_id refl f k,
        stored_recipients-store h ts l e c mid a f,
        texts_eq_refl (order_by text_le c.valid),
        text_eq_refl e.sender,
        text_eq_refl (h.sha256 (json_text e.body)),
        text_eq_refl (json_text e.subject),
        text_eq_refl e.priority,
        text_eq_refl (thread_of l.messages e.thread_id e.reply_to mid),
        (opt_eq_iff e.reply_to e.reply_to).1 refl,
        (opt_eq_iff c.expiry c.expiry).1 refl,
      )
      refl

found-stored :
    (h : Host) (ts : ℕ) (l : Ledger) (e : Envelope) (c : Cleared) (mid : Text)
    → find_message l.messages mid ≡ none
    → find_message (store h ts l e c mid).messages mid ≡ some (message_of h ts l e c mid)
unfolding store message_of
found-stored h ts l e c mid f = find-stored l.messages (message_of h ts l e c mid) f

-- The write finds what it stored.
resend_answer-stored :
    (h : Host) (ts : ℕ) (l : Ledger) (e : Envelope) (c : Cleared) (mid : Text)
    → IsLinked l
    → find_message l.messages mid ≡ none
    → is_reply_known l mid e.reply_to ≡ true
    → resend_answer h (store h ts l e c mid) e c mid ≡ resent mid
unfolding resend_answer
resend_answer-stored h ts l e c mid a f k =
    rw (resend_answer, found-stored h ts l e c mid f, store-is_same_envelope h ts l e c mid a f k)
      refl

write-again :
    (h : Host) (ts later : ℕ) (other : Text) (second : Ring → Bool) (l : Ledger) (e : Envelope)
    (c : Cleared) {mid : Text}
    → IsLinked l
    → text_or e.message_id other ≡ mid
    → is_priority e.priority ≡ true
    → find_message l.messages mid ≡ none
    → is_reply_known l mid e.reply_to ≡ true
    → write h later other second e c (store h ts l e c mid) ≡ (resent mid, store h ts l e c mid)
unfolding write store
write-again h ts later other second l e c {mid} a t p f k =
    rw (write, t, p, found-stored h ts l e c mid f, resend_answer-stored h ts l e c mid a f k) refl

bus_send-passed :
    (h : Host) (now : ℕ) (fresh : Text) (ringer : Ring → Bool) (e : Envelope) (l : Ledger)
    (c : Cleared)
    → clear h l e ≡ pass c
    → bus_send h now fresh ringer e l ≡ write h now fresh ringer e c l
unfolding bus_send
bus_send-passed h now fresh ringer e l c g = rw (g, bus_send) refl

-- An envelope with an id of its own that was stored, and that the gates pass again with the same
-- recipients and expiry: the second send answers `resent` with the first one's id, and neither
-- stores nor rings.
pub bus_send-again :
    (h : Host) (now : ℕ) (fresh : Text) (ringer : Ring → Bool) (e : Envelope) (l : Ledger)
    (c : Cleared) (later : ℕ) (other : Text) (second : Ring → Bool) {mid : Text}
    → IsLinked l
    → e.message_id ≡ some mid
    → is_nonempty mid ≡ true
    → is_stored (bus_send h now fresh ringer e l).0 ≡ true
    → clear h l e ≡ pass c
    → clear h (bus_send h now fresh ringer e l).1 e ≡ pass c
    → bus_send h later other second e (bus_send h now fresh ringer e l).1
      ≡ (resent mid, (bus_send h now fresh ringer e l).1)
bus_send-again h now fresh ringer e l c later other second {mid} a i n s g g2 =
    let (c1, p, x) = bus_send-stored h now fresh ringer e l s in
    let (w, pr, f, k, d) = x in
    let same : c1 ≡ c = ground (arith, p, g) in
    let named : (o : Text) → text_or e.message_id o ≡ mid = λ o. rw (i, n) refl in
    let first : (bus_send h now fresh ringer e l).1 ≡ store h (seconds now) l e c mid =
      rw (w, same, named fresh) refl in
    rw (first) (
      bus_send-passed h later other second e (store h (seconds now) l e c mid) c (rw (first) at g2)
      ∙ write-again h (seconds now) later other second l e c a (named other) pr
          (rw (named fresh) at f) (rw (named fresh) at k))
