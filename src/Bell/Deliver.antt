-- ===== src/Bell/Deliver.antt =====
-- `deliver_doorbell` of tabus/doorbell.py, with the route, the sentence and the queue's boundary.
use tabc.Prelude.{
  Bool, List, Option, [], false, if◌then◌else◌, none, not, some, true, ◌&&◌, ◌||◌, ◌∷◌,
}
use tabc.Text.{Text, is_nonempty, opt_eq, text_eq, txt}
use tabc.Text.Search.{join}
use tabc.Table.{any, find}
use tabc.Ledger.{Ledger, Route}
use tabc.Bell.{negsuc, pos, ℤ}
use tabc.Bell.Queue.{
  Delivered, Ran, Receipt, answered, deliver, disabled, no_delivery_id, no_text, not_a_thread,
  pending, queued, unknown,
}
use tabc.Bell.Senders.{Columns, Sender, bus_unread_senders}
use tabc.Bell.Lang.{t}
use tabc.Bell.Frontend.{executable_kind}
use tabc.Bell.Adapters.{
  Outside, Sent, deliver_unknown, send_to_iterm_session, send_to_tmux_pane, unknown_sent,
}

-- The rest of what the process finds outside: the catalogues of tabus/locales, the language, the
-- resolved path of `codex` and the home directory, its queue command, and whether the store can be opened for each of the
-- two queries.
pub record Site : Type 0 where
  pub outside : Outside
  pub catalog : Text → Text → Option Text
  pub lang : Text
  pub codex_path : Option Text
  pub home : Text
  pub queue : Text → Text → Ran
  pub columns : Columns
  pub has_auto_enter : Bool
  pub senders_open : Bool
  pub routes_open : Bool

-- `"?ERROR"`, None, or the triple
pub data RouteFound : Type 0 where
  unreadable absent : RouteFound
  routed : Text → Text → Bool → RouteFound

abbrev pub is_route_of : Text → Route → Bool
is_route_of node r = text_eq r.node_id node && elim r.revoked_at [ none ↦ true | some at ↦ false ]

unfoldable pub route_for : Site → Ledger → Text → RouteFound
route_for w l node =
    if not w.routes_open then unreadable else elim (find (is_route_of node) l.tab_routes) [
      | none ↦ absent
      | some r ↦ routed r.adapter r.target (w.has_auto_enter && r.auto_enter)
    ]

-- None for a failed lookup
unfoldable pub unread_senders : Site → Ledger → Text → Option (List Sender)
unread_senders w l node =
    if w.senders_open then some (bus_unread_senders w.columns l node true) else none

unfoldable pub format_doorbell_who : List Sender → Text
format_doorbell_who [] = []
format_doorbell_who (s ∷ ss) = s.sender

-- truth of a nullable text
abbrev pub is_given : Option Text → Bool
is_given none = false
is_given (some t) = is_nonempty t

abbrev pub mem_scope : Option Text → List (Option Text) → Bool
mem_scope scope seen = any (opt_eq scope) seen

-- the loop over the senders: one sentence a conversation, the first one of each
unfoldable pub ring_parts : Site → List (Option Text) → List Sender → List Text
ring_parts w seen [] = []
ring_parts w seen (item ∷ items) =
    let skipped = ring_parts w seen items in
    let rest = ring_parts w (item.tac_id ∷ seen) items in
    if mem_scope item.tac_id seen
    then skipped
    else t w.catalog w.outside.format w.lang
        (if is_given item.tac_id then txt "doorbell.ring_tac" else txt "doorbell.ring")
        (record {
          who = item.sender;
          unread = item.count;
          tac = if is_given item.tac_name then item.tac_name else item.tac_id;
        })
      ∷ rest

-- the sentence, or none where the latest sender has no name
unfoldable pub ring_message : Site → List Sender → Option Text
ring_message w senders =
    if is_nonempty (format_doorbell_who senders)
    then some (join (txt " / ") (ring_parts w [] senders))
    else none

abbrev pub queue_sent : Delivered → Sent
queue_sent (answered queued id) = record { outcome = txt "QUEUED"; matched = pos 1 }
queue_sent (answered unknown id) = record { outcome = txt "UNKNOWN"; matched = pos 0 }
queue_sent (answered pending id) = record { outcome = txt "PENDING"; matched = pos 0 }
queue_sent disabled = record { outcome = txt "DISABLED"; matched = pos 0 }
queue_sent not_a_thread = unknown_sent
queue_sent no_delivery_id = unknown_sent
queue_sent no_text = unknown_sent

-- only a recognized local native binary
unfoldable pub has_codex : Site → Bool
has_codex w = elim w.codex_path [
  | none ↦ false
  | some path ↦ opt_eq (executable_kind path w.home) (some (txt "codex"))
]

-- `deliver_notification` of tabus/codex_queue.py
unfoldable pub deliver_notification :
    Site → Text → Text → Text → Bool → List Receipt → Sent × List Receipt
deliver_notification w target notification_id message enter rs =
    if not (has_codex w) || not (is_nonempty notification_id)
    then (unknown_sent, rs)
    else (let (answer, ran, rs') = deliver w.queue target notification_id message enter rs in
        (queue_sent answer, rs'))

-- (outcome, adapter, match_count)
pub record Rung : Type 0 where
  pub sent : Sent
  pub adapter : Text

abbrev pub rung : Text → ℤ → Text → Rung
rung outcome matched adapter = record {
  sent = record { outcome = outcome; matched = matched };
  adapter = adapter;
}

-- the if-chain over the adapters
unfoldable pub dispatch :
    Site → Text → Text → Bool → Text → Text → List Receipt → Rung × List Receipt
dispatch w adapter target enter notification_id message rs =
    if text_eq adapter (txt "codex-queue")
    then (let (sent, rs') = deliver_notification w target notification_id message enter rs in
        (record { sent = sent; adapter = adapter }, rs'))
    else if text_eq adapter (txt "iterm2")
    then (
      record { sent = send_to_iterm_session w.outside target message enter; adapter = adapter },
      rs,
    )
    else if text_eq adapter (txt "tmux")
    then (record { sent = send_to_tmux_pane w.outside target message enter; adapter = adapter }, rs)
    else (rung (txt "UNSUPPORTED") (negsuc 0) adapter, rs)

-- from the route on
unfoldable pub deliver_by : Site → Text → Text → List Receipt → RouteFound → Rung × List Receipt
deliver_by w notification_id message rs unreadable = (rung deliver_unknown (negsuc 0) (txt "?"), rs)
deliver_by w notification_id message rs absent = (rung (txt "NOT_MINE") (pos 0) (txt "-"), rs)
deliver_by w notification_id message rs (routed adapter target enter) =
    dispatch w adapter target enter notification_id message rs

-- from the snapshot of the senders on
unfoldable pub deliver_from :
    Site → Ledger → Text → Text → List Receipt → Option (List Sender) → Rung × List Receipt
deliver_from w l node notification_id rs none =
    (rung deliver_unknown (negsuc 0) (txt "metadata"), rs)
deliver_from w l node notification_id rs (some []) =
    (rung (txt "STALE") (pos 0) (txt "metadata"), rs)
deliver_from w l node notification_id rs (some (s ∷ ss)) = elim (ring_message w (s ∷ ss)) [
  | none ↦ (rung deliver_unknown (negsuc 0) (txt "metadata"), rs)
  | some message ↦ deliver_by w notification_id message rs (route_for w l node)
]

unfoldable pub deliver_doorbell : Site → Ledger → Text → Text → List Receipt → Rung × List Receipt
deliver_doorbell w l node notification_id rs =
    deliver_from w l node notification_id rs (unread_senders w l node)
