-- ===== src/Send/Gates.antt =====
-- Who receives a message, and what stops it: the part of `bus_send` that only reads.
use tabc.Prelude.{
  Bool, List, Option, [], false, if◌then◌else◌, is_some, length, map, none, not, some, ℕ, ◌&&◌, ◌/◌,
  ◌==◌, ◌||◌, ◌∷◌,
}
use tabc.Text.{Text, is_nonempty, opt_eq, text_eq, txt}
use tabc.Text.Order.{text_le}
use tabc.Send.Envelope.{
  Envelope, Gate, broadcast_and_tac, malformed_expiry_given, names_tac, no_members, no_such_tac,
  no_valid_recipients, other_text, pass, payload, program_recipients, removed_sender, stop, stop_if,
  stop_on, tac_closed, tac_refused, unread_from, unread_in_tac, unregistered_sender, ◌>>=◌, ◌>>◌,
}
use tabc.Host.{Host}
use tabc.Ledger.{
  Ledger, Membership, Message, Node, State, Tac, find_message, is_program_node, is_registered,
  is_removed, tac_exists,
}
use tabc.Table.{any, count, order_by, select}
use tabc.Delivery.{is_accepted, is_claimed}
use tabc.Payload.{check_send_payload}
use tabc.Tac.Resolve.{designates, refused, resolve}

-- `parse_instant(expires_at).isoformat(timespec="seconds")`, for a value that is not empty
unfoldable pub normal_expiry : Host → Option Text → Gate (Option Text)
normal_expiry h none = pass none
normal_expiry h (some e) =
    if is_nonempty e
    then elim (h.parse_instant e) [
      | none ↦ stop malformed_expiry_given
      | some t ↦ pass (some (h.isoformat (t / 1000000)))
    ]
    else pass (some e)

-- `bus_broadcast_recipients`: every node that is no program and not removed, by name
unfoldable pub broadcast_recipients : Ledger → List Text
broadcast_recipients l =
    order_by text_le
      (map Node.node_id (select (λ n. not n.is_program && not (is_removed l n.node_id)) l.nodes))

-- `recipients == ["all"]`: every node but the sender that is not removed
unfoldable pub all_recipients : Ledger → Text → List Text
all_recipients l sender = order_by text_le (
    map Node.node_id
      (select (λ n. not (text_eq n.node_id sender) && not (is_removed l n.node_id)) l.nodes))

-- `bus_tac_members` without the removed ones
unfoldable pub tac_members_of : Ledger → Text → List Text
tac_members_of l tac = order_by text_le (
    map Membership.member_node_id
      (select (λ m. text_eq m.tac_id tac && not (is_removed l m.member_node_id)) l.tac_members))

-- `[m for m in ... if m != sender_id]`
unfoldable pub others : Text → List Text → List Text
others sender ts = select (λ t. not (text_eq t sender)) ts

-- the message of a delivery satisfies `p`: the join of the two COUNT queries
abbrev pub message_has : List Message → (Message → Bool) → Text → Bool
message_has ms p mid = elim (find_message ms mid) [ none ↦ false | some m ↦ p m ]

abbrev pub is_unopened : State → Bool
is_unopened s = is_accepted s || is_claimed s

unfoldable pub unread_in : Ledger → Text → Text → ℕ
unread_in l sender tac =
    count
      (λ d.
        text_eq d.recipient_id sender
        && (is_unopened d.state
            && message_has l.messages (λ m. opt_eq m.tac_id (some tac)) d.message_id))
      l.deliveries

unfoldable pub unread_of : Ledger → Text → Text → ℕ
unread_of l sender from =
    count
      (λ d.
        text_eq d.recipient_id sender
        && (is_unopened d.state
            && message_has l.messages
                (λ m. text_eq m.sender_id from && (not (is_some m.tac_id) && not m.broadcast))
                d.message_id))
      l.deliveries

abbrev pub is_closed_row : Text → Tac → Bool
is_closed_row tac t = text_eq t.tac_id tac && is_some t.closed_at

-- the tac must exist, be open, hold nothing unread for the sender, and have another member; the
-- answer is the identifier and the recipients
unfoldable pub open_tac_gate : Ledger → Text → Text → Text → Gate (Text × List Text)
open_tac_gate l sender given tac = do
  stop_if (not (tac_exists l tac)) (no_such_tac given)
  stop_if (any (is_closed_row tac) l.tacs) (tac_closed given)
  stop_if (not (unread_in l sender tac == 0)) (unread_in_tac given (unread_in l sender tac))
  let members = others sender (tac_members_of l tac)
  stop_if (length members == 0) (no_members given)
  pass (tac, members)

-- the tac a sender named must resolve
unfoldable pub tac_gate : Ledger → Text → Text → Gate (Text × List Text)
unfolding open_tac_gate
tac_gate l sender given = elim (resolve l given) [
  | refused r ↦ stop (tac_refused r)
  | designates tac ↦ open_tac_gate l sender given tac
]

-- the recipients where no tac is named
unfoldable pub listed : Ledger → Envelope → List Text
listed l e = if e.broadcast then others e.sender (broadcast_recipients l) else e.recipients

-- Where the message goes: the tac's identifier, if it is for one, and the recipients named so far.
unfoldable pub route_to : Ledger → Envelope → Option Text → Gate (Option Text × List Text)
unfolding tac_gate
route_to l e none = pass (none, listed l e)
route_to l e (some given) =
    if is_nonempty given
    then (tac_gate l e.sender given >>= λ p. pass (some p.0, p.1))
    else pass (some given, listed l e)

unfoldable pub route : Ledger → Envelope → Gate (Option Text × List Text)
unfolding route_to
route l e = route_to l e e.tac

-- `if recipients == ["all"]`
unfoldable pub expand_all : Ledger → Text → List Text → List Text
expand_all l sender (t ∷ []) = if text_eq t (txt "all") then all_recipients l sender else t ∷ []
expand_all l sender ts = ts

unfoldable pub programs_among : Ledger → List Text → List Text
programs_among l ts = select (λ t. is_program_node l t && not (is_removed l t)) ts

unfoldable pub valid_among : Ledger → List Text → List Text
valid_among l ts = select (λ t. is_registered l t && not (is_removed l t)) ts

-- the recipients whose own messages to the sender are still unopened, with their numbers
unfoldable pub blocking : Ledger → Text → List Text → List (Text × ℕ)
blocking l sender [] = []
blocking l sender (t ∷ ts) =
    let rest = blocking l sender ts in
    if unread_of l sender t == 0 then rest else (t, unread_of l sender t) ∷ rest

-- Read before send, for conversations only: no tac, no broadcast, and not for a program.
unfoldable pub conversation_gate : Ledger → Envelope → List Text → Gate (Unit {0})
conversation_gate l e ts =
    if not (names_tac e.tac) && (not e.broadcast && not (is_program_node l e.sender))
    then stop_if (not (length (blocking l e.sender ts) == 0)) (unread_from (blocking l e.sender ts))
    else pass tt

-- What the gates hand to the write.
pub record Cleared : Type 0 where
  pub expiry : Option Text
  pub tac : Option Text
  pub valid : List Text

unfoldable pub clear : Host → Ledger → Envelope → Gate Cleared
clear h l e = do
  stop_on (check_send_payload e.subject e.body (other_text e)) payload
  expiry ← normal_expiry h e.expires_at
  stop_if (not (is_registered l e.sender)) (unregistered_sender e.sender)
  stop_if (is_removed l e.sender) (removed_sender e.sender)
  stop_if (e.broadcast && names_tac e.tac) broadcast_and_tac
  routed ← route l e
  let named = expand_all l e.sender routed.1
  stop_if (not (length (programs_among l named) == 0)) (program_recipients (programs_among l named))
  let valid = valid_among l named
  stop_if (length valid == 0) no_valid_recipients
  conversation_gate l e valid
  pass (record { expiry = expiry; tac = routed.0; valid = valid })
