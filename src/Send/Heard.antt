-- ===== src/Send/Heard.antt =====
-- The unopened mail of a sender, and the gates of `bus_send` that ask for it.
use tabc.Prelude.{
  ==_iff, All, All-map, Bool, Bool-cases, List, Option, [], ap, arith, false, inl, inr, is_some,
  length, none, not, refl, some, sym, true, ◌&&◌, ◌==◌, ◌∙◌, ◌∷◌, ◌≡◌, ◌≢◌,
}
use tabc.Text.{Text, is_nonempty, opt_eq, opt_eq_iff, text_eq, text_eq_iff}
use tabc.Host.{Host}
use tabc.Ledger.{
  Delivery, Ledger, Message, Tac, accepted, claimed, find_message, is_program_node, tac_exists,
}
use tabc.Table.{any, count}
use tabc.Table.Counts.{All-of_count}
use tabc.Send.Envelope.{>>=-eq_pass, Envelope, pass}
use tabc.Send.Gates.{
  Cleared, blocking, clear, conversation_gate, is_closed_row, is_unopened, message_has, route,
  route_to, tac_gate, unread_in, unread_of,
}
use tabc.Send.Cleared.{clear-stages}
use tabc.Send.Recipients.{IsOpenTac, is_for_group, routed_injective, tac_gate-pass}

blocking-empty :
    (l : Ledger) (sender : Text) (ts : List Text)
    → (length (blocking l sender ts) == 0) ≡ true
    → All (λ t. unread_of l sender t ≡ 0) ts
unfolding blocking
blocking-empty l sender [] h = tt
blocking-empty l sender (t ∷ ts) h = elim (Bool-cases (unread_of l sender t == 0)) [
  | inl e ↦ ((==_iff (unread_of l sender t) 0).0 e, blocking-empty l sender ts (rw e at h))
  | inr e ↦ absurd (ground arith)
]

conversation_gate-pass :
    (l : Ledger) (e : Envelope) (ts : List Text)
    → conversation_gate l e ts ≡ pass tt
    → is_for_group e ≡ false
    → is_program_node l e.sender ≡ false
    → (length (blocking l e.sender ts) == 0) ≡ true
unfolding conversation_gate
conversation_gate-pass l e ts h g p = ground arith

some_tac-IsOpenTac :
    (l : Ledger) (e : Envelope) (given : Text) (p : Option Text × List Text)
    → is_nonempty given ≡ true
    → route_to l e (some given) ≡ pass p
    → IsOpenTac l e.sender given × (p.0 ≡ some given)
unfolding route_to
some_tac-IsOpenTac l e given p n h =
    let (q, t, u) = >>=-eq_pass (tac_gate l e.sender given) _ (rw n at h) in
    let g = tac_gate-pass l e.sender given q t in
    (
      g.0,
      sym (ap (λ (r : Option Text × List Text). r.0) (routed_injective (some q.0, q.1) p u))
          ∙ ap some g.1,
    )

route_to-IsOpenTac :
    (l : Ledger) (e : Envelope) (tac : Option Text) (given : Text) (p : Option Text × List Text)
    → tac ≡ some given
    → is_nonempty given ≡ true
    → route_to l e tac ≡ pass p
    → IsOpenTac l e.sender given × (p.0 ≡ some given)
route_to-IsOpenTac l e tac given p k n h = some_tac-IsOpenTac l e given p n (rw k at h)

-- In the sender's mailbox no message of a kind waits: none is ACCEPTED, and none is CLAIMED.
pub NoneWaits : Ledger → Text → (Message → Type 0) → Type 0
NoneWaits l sender P =
    All
      (λ d.
        (m : Message)
        → d.recipient_id ≡ sender
        → find_message l.messages d.message_id ≡ some m
        → P m
        → (d.state ≢ accepted) × (d.state ≢ claimed))
      l.deliveries

-- a row that the two gates count
abbrev waits : Ledger → Text → (Message → Bool) → Delivery → Bool
waits l sender p d =
    text_eq d.recipient_id sender && (is_unopened d.state && message_has l.messages p d.message_id)

waits-row :
    (l : Ledger) (sender : Text) (p : Message → Bool) (d : Delivery) (m : Message)
    → d.recipient_id ≡ sender
    → find_message l.messages d.message_id ≡ some m
    → p m ≡ true
    → is_unopened d.state ≡ true
    → waits l sender p d ≡ true
waits-row l sender p d m r f k u =
    let same = (text_eq_iff d.recipient_id sender).1 r in
    let here : message_has l.messages p d.message_id ≡ true = rw (f, message_has) k in
    rw (same, u) here

none_waits :
    (l : Ledger) (sender : Text) (p : Message → Bool) (P : Message → Type 0)
    → ((m : Message) → P m → p m ≡ true)
    → count (waits l sender p) l.deliveries ≡ 0
    → NoneWaits l sender P
unfolding NoneWaits
none_waits l sender p P k h =
    All-map (λ d. waits l sender p d ≡ true → false ≡ true)
      (λ d.
        (m : Message)
        → d.recipient_id ≡ sender
        → find_message l.messages d.message_id ≡ some m
        → P m
        → (d.state ≢ accepted) × (d.state ≢ claimed))
      (λ d n m r f q. (
        λ s. absurd (ground (arith, n (waits-row l sender p d m r f (k m q) (rw s refl)))),
        λ s. absurd (ground (arith, n (waits-row l sender p d m r f (k m q) (rw s refl)))),
      ))
      l.deliveries (All-of_count (waits l sender p) (λ d. false) l.deliveries h)

none_closed :
    (tac : Text) (ts : List Tac)
    → any (is_closed_row tac) ts ≡ false
    → All (λ t. t.tac_id ≡ tac → t.closed_at ≡ none) ts
unfolding any
none_closed tac [] h = tt
none_closed tac (t ∷ ts) h = (
  λ same. (let e = (text_eq_iff t.tac_id tac).1 same in ground arith),
  none_closed tac ts (ground arith),
)

pub none_closed-any :
    (tac : Text) (ts : List Tac)
    → All (λ t. t.tac_id ≡ tac → t.closed_at ≡ none) ts
    → any (is_closed_row tac) ts ≡ false
unfolding any
none_closed-any tac [] h = refl
none_closed-any tac (t ∷ ts) h =
    ground (arith, text_eq_iff t.tac_id tac, h.0, none_closed-any tac ts h.1)

-- A tac in which the sender may speak.
pub record IsListening (l : Ledger) (sender tac : Text) : Type 0 where
  pub there : tac_exists l tac ≡ true
  pub open_yet : All (λ t. t.tac_id ≡ tac → t.closed_at ≡ none) l.tacs
  pub all_opened : NoneWaits l sender (λ m. m.tac_id ≡ some tac)

-- a message that its sender wrote to a node directly
abbrev pub IsDirect : Text → Message → Type 0
IsDirect from m = (m.sender_id ≡ from) × (m.tac_id ≡ none) × (m.broadcast ≡ false)

IsOpenTac-IsListening :
    (l : Ledger) (sender tac : Text) → IsOpenTac l sender tac → IsListening l sender tac
unfolding unread_in
IsOpenTac-IsListening l sender tac o = record {
  there = o.there;
  open_yet = none_closed tac l.tacs o.open_yet;
  all_opened =
      none_waits l sender (λ m. opt_eq m.tac_id (some tac)) (λ m. m.tac_id ≡ some tac)
        (λ m. (opt_eq_iff m.tac_id (some tac)).1) o.all_opened;
}

IsDirect-of :
    (from : Text) (m : Message)
    → IsDirect from m
    → (text_eq m.sender_id from && (not (is_some m.tac_id) && not m.broadcast)) ≡ true
IsDirect-of from m (s, t, b) = let same = (text_eq_iff m.sender_id from).1 s in rw (same, t, b) refl

none-IsDirect :
    (l : Ledger) (sender from : Text)
    → unread_of l sender from ≡ 0
    → NoneWaits l sender (IsDirect from)
unfolding unread_of
none-IsDirect l sender from =
    none_waits l sender
      (λ m. text_eq m.sender_id from && (not (is_some m.tac_id) && not m.broadcast)) (IsDirect from)
      (IsDirect-of from)

-- A message to a tac passes only if the tac exists and has not been closed, and no message of that
-- tac is ACCEPTED or CLAIMED in the sender's mailbox; it is stored under the identifier that the
-- sender gave. A message to listed recipients, from a node that is no program, passes only if no
-- message that one of the valid recipients wrote to the sender directly is ACCEPTED or CLAIMED.
pub clear-heard :
    (h : Host) (l : Ledger) (e : Envelope) (c : Cleared)
    → clear h l e ≡ pass c
    → ((given : Text)
        → e.tac ≡ some given
        → is_nonempty given ≡ true
        → IsListening l e.sender given × (c.tac ≡ some given))
      × (is_for_group e ≡ false
          → is_program_node l e.sender ≡ false
          → All (λ t. NoneWaits l e.sender (IsDirect t)) c.valid)
unfolding route
clear-heard h l e c s =
    let (_, _, _, (routed, r)) = clear-stages h l e c s in
    (
      λ given n f.
          let g = route_to-IsOpenTac l e e.tac given routed n f r.to in
          (IsOpenTac-IsListening l e.sender given g.0, r.tac_kept ∙ g.1),
      λ g p.
          All-map (λ t. unread_of l e.sender t ≡ 0) (λ t. NoneWaits l e.sender (IsDirect t))
            (λ t. none-IsDirect l e.sender t) c.valid
            (blocking-empty l e.sender c.valid (conversation_gate-pass l e c.valid r.heard g p)),
    )
