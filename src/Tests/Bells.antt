-- ===== src/Tests/Bells.antt =====
-- The theorems on the delivery of a ring, at a node with a tmux pane and a queue that answers.
use tabc.Doorbell.{Poller, is_suppressing}
use tabc.Doorbell.Scan.{Schema}
use tabc.Prelude.{List, [], arith, inr, none, refl, some, true, ◌++◌, ◌∷◌, ◌≡◌}
use tabc.Text.{Text, txt}
use tabc.Table.{any, count, find}
use tabc.Ledger.{Ledger, Route, accepted}
use tabc.Bell.{pos}
use tabc.Bell.Queue.{Ran, answered, check_call, deliver, ended, no_result, queued}
use tabc.Bell.Submitted.{Event, IsReceipted, Journal, after, after-IsReceipted, begin, report}
use tabc.Bell.Adapters.{exited, quoted, single_line, success_sent}
use tabc.Bell.Deliver.{Site, deliver_doorbell, has_codex}
use tabc.Bell.Loop.{Bells, ring_round}
use tabc.Bell.Blind.{deliver_doorbell-retold, retold_ledger}
use tabc.Bell.Acted.{IsActed, deliver_doorbell-IsActed}
use tabc.Bell.Reached.{live}
use tabc.Tests.Data.{bob, office}

abbrev thread : Text
thread = txt "0b9d3f5e-7a31-4c1e-9d52-1f00aa21c0de"

abbrev receipt_line : Text
receipt_line =
    txt
      "Queued message 11111111-2222-3333-4444-555555555555 for thread 0b9d3f5e-7a31-4c1e-9d52-1f00aa21c0de.\n"

-- a command that accepts, and one that dies
abbrev accepts : Text → Text → Ran
accepts target message = ended (pos 0) receipt_line

abbrev dies : Text → Text → Ran
dies target message = no_result

abbrev note : Text
note = txt "1 unread"

accepted_run :
    (deliver accepts thread (txt "bob:1") note true []).0
    ≡ answered queued (some (txt "11111111-2222-3333-4444-555555555555"))
unfolding deliver tabc.Bell.Queue.open_call check_call tabc.Tac.Identity.is_uuid_id
    tabc.Tac.Identity.has_shape tabc.Text.Unicode.all_chars tabc.Bell.Queue.reserve find
    tabc.Bell.Queue.outcome_of tabc.Bell.Queue.receipt_of tabc.Text.Unicode.strip
    tabc.Text.Unicode.is_space tabc.Text.text_eq
accepted_run = refl

note_passes : check_call thread (txt "bob:1") note true ≡ none
unfolding check_call tabc.Tac.Identity.is_uuid_id tabc.Tac.Identity.has_shape
    tabc.Text.Unicode.all_chars
note_passes = refl

-- a process that dies, one that asks again, and the report of the first
abbrev two_processes : List Event
two_processes =
    begin thread (txt "bob:1") note true
    ∷ begin thread (txt "bob:1") note true
    ∷ report thread (txt "bob:1") (accepts thread note)
    ∷ []

abbrev no_journal : Journal
no_journal = record { receipts = []; submitted = [] }

no_journal-IsReceipted : IsReceipted no_journal
unfolding count any
no_journal-IsReceipted = record { once = λ t d. omega arith; receipted = λ t d. omega arith }

after-IsReceipted_example : IsReceipted (after two_processes no_journal)
after-IsReceipted_example = after-IsReceipted two_processes no_journal no_journal-IsReceipted

-- a name with a quotation mark, a backslash and a line feed
abbrev hostile : Text
hostile = txt "a\"b\\c\nd"

hostile_line : single_line hostile ≡ txt "a\"b\\cd"
unfolding single_line
hostile_line = refl

abbrev pane_route : Route
pane_route = record {
  node_id = bob;
  adapter = txt "tmux";
  target = txt "/tmp/s\t%1";
  host_id = some (txt "h");
  registered_at = 2;
  last_seen_at = 2;
  revoked_at = none;
  provenance_verified = true;
  auto_enter = true;
}

abbrev at_pane : Ledger
at_pane = record (office accepted 0) { tab_routes = pane_route ∷ [] }

-- everything outside works, and a template is its own sentence
abbrev site : Site
site = record {
  outside = record {
    osascript = λ script. exited (pos 0) (txt "1") [];
    tmux = λ argv. exited (pos 0) [] [];
    int = λ s. some (pos 1);
    format = λ tmpl fields. some (tmpl ++ fields.who);
  };
  catalog = λ lang key. some (txt "unread from ");
  lang = txt "en";
  codex_path = some (txt "/home/u/.codex/packages/standalone/releases/0.1/bin/codex");
  home = txt "/home/u";
  queue = accepts;
  columns = record { has_tac = true; has_tac_name = true; has_owner_email = true };
  has_auto_enter = true;
  senders_open = true;
  routes_open = true;
}

codex_found : has_codex site ≡ true
unfolding has_codex tabc.Bell.Frontend.executable_kind tabc.Bell.Frontend.kind_under
    tabc.Bell.Frontend.relative_to tabc.Bell.Frontend.path_parts tabc.Table.select
    tabc.Text.Search.split_on tabc.Text.text_eq tabc.Bell.Frontend.kind_below
    tabc.Bell.Frontend.is_version tabc.Text.Unicode.all_chars
codex_found = refl

bell_rung :
    (deliver_doorbell site at_pane bob (txt "bob:1") []).0
    ≡ record { sent = success_sent; adapter = txt "tmux" }
unfolding deliver_doorbell tabc.Bell.Deliver.deliver_from tabc.Bell.Deliver.unread_senders
    tabc.Bell.Senders.bus_unread_senders tabc.Table.order_by tabc.Bell.Senders.group_senders
    tabc.Bell.Senders.sender_rows tabc.Table.select tabc.Text.text_eq tabc.Ledger.find_message find
    tabc.Bell.Senders.add_sender tabc.Bell.Deliver.ring_message
    tabc.Bell.Deliver.format_doorbell_who tabc.Bell.Senders.sender_row tabc.Bell.Deliver.deliver_by
    tabc.Bell.Deliver.route_for tabc.Bell.Deliver.dispatch tabc.Bell.Adapters.escaped
    tabc.Bell.Adapters.iterm_outcome tabc.Bell.Adapters.iterm_result tabc.Bell.Adapters.iterm_script
    quoted tabc.Bell.Adapters.says_gone tabc.Bell.Adapters.send_to_iterm_session
    tabc.Bell.Adapters.send_to_tmux_pane single_line tabc.Bell.Adapters.socket_and_pane
    tabc.Bell.Adapters.tmux_refused tabc.Bell.Adapters.write_stmt
    tabc.Bell.Deliver.deliver_notification has_codex tabc.Bell.Deliver.ring_parts tabc.Bell.Lang.t
    tabc.Bell.Frontend.executable_kind tabc.Bell.Frontend.is_version tabc.Bell.Frontend.kind_below
    tabc.Bell.Frontend.kind_under tabc.Bell.Frontend.path_parts tabc.Bell.Frontend.relative_to
    check_call tabc.Bell.Queue.conclude deliver tabc.Bell.Queue.open_call tabc.Bell.Queue.outcome_of
    tabc.Bell.Queue.receipt_of tabc.Bell.Queue.reserve tabc.Bell.Queue.submit
    tabc.Bell.Senders.merged tabc.Bell.Senders.sender_le tabc.Bell.Senders.tac_named
    tabc.Doorbell.Scan.greatest tabc.Ledger.find_node any tabc.Table.insert_by
    tabc.Table.update_where tabc.Tac.Identity.has_shape tabc.Tac.Identity.is_uuid_id
    tabc.Text.Search.contains tabc.Text.Search.has_prefix tabc.Text.Search.join
    tabc.Text.Search.last_of tabc.Text.Search.replace_char tabc.Text.Search.split_on
    tabc.Text.Unicode.all_chars tabc.Text.Unicode.is_space tabc.Text.Unicode.strip
    tabc.Text.Unicode.strip_back tabc.Text.Unicode.strip_front
bell_rung = refl

deliver_doorbell-retold_example :
    deliver_doorbell site
      (retold_ledger (λ m. txt "secret") (λ m. txt "words") at_pane)
      bob
      (txt "bob:1")
      []
    ≡ deliver_doorbell site at_pane bob (txt "bob:1") []
deliver_doorbell-retold_example =
    deliver_doorbell-retold (λ m. txt "secret") (λ m. txt "words") site at_pane bob (txt "bob:1") []

bell_suppresses :
    is_suppressing (deliver_doorbell site at_pane bob (txt "bob:1") []).0.sent.outcome ≡ true
unfolding deliver_doorbell tabc.Text.mem_text tabc.Text.text_eq tabc.Bell.Deliver.deliver_from
    tabc.Bell.Deliver.unread_senders tabc.Bell.Senders.bus_unread_senders tabc.Table.order_by
    tabc.Bell.Senders.group_senders tabc.Bell.Senders.sender_rows tabc.Table.select
    tabc.Ledger.find_message find tabc.Bell.Senders.add_sender tabc.Bell.Deliver.ring_message
    tabc.Bell.Deliver.format_doorbell_who tabc.Bell.Senders.sender_row tabc.Bell.Deliver.deliver_by
    tabc.Bell.Deliver.route_for tabc.Bell.Adapters.escaped tabc.Bell.Adapters.iterm_outcome
    tabc.Bell.Adapters.iterm_result tabc.Bell.Adapters.iterm_script quoted
    tabc.Bell.Adapters.says_gone tabc.Bell.Adapters.send_to_iterm_session
    tabc.Bell.Adapters.send_to_tmux_pane single_line tabc.Bell.Adapters.socket_and_pane
    tabc.Bell.Adapters.tmux_refused tabc.Bell.Adapters.write_stmt
    tabc.Bell.Deliver.deliver_notification tabc.Bell.Deliver.dispatch has_codex
    tabc.Bell.Deliver.ring_parts tabc.Bell.Lang.t tabc.Bell.Frontend.executable_kind
    tabc.Bell.Frontend.is_version tabc.Bell.Frontend.kind_below tabc.Bell.Frontend.kind_under
    tabc.Bell.Frontend.path_parts tabc.Bell.Frontend.relative_to check_call tabc.Bell.Queue.conclude
    deliver tabc.Bell.Queue.open_call tabc.Bell.Queue.outcome_of tabc.Bell.Queue.receipt_of
    tabc.Bell.Queue.reserve tabc.Bell.Queue.submit tabc.Bell.Senders.merged
    tabc.Bell.Senders.sender_le tabc.Bell.Senders.tac_named tabc.Doorbell.Scan.greatest
    tabc.Ledger.find_node any tabc.Table.insert_by tabc.Table.update_where
    tabc.Tac.Identity.has_shape tabc.Tac.Identity.is_uuid_id tabc.Text.Search.contains
    tabc.Text.Search.has_prefix tabc.Text.Search.join tabc.Text.Search.last_of
    tabc.Text.Search.replace_char tabc.Text.Search.split_on tabc.Text.Unicode.all_chars
    tabc.Text.Unicode.is_space tabc.Text.Unicode.strip tabc.Text.Unicode.strip_back
    tabc.Text.Unicode.strip_front
bell_suppresses = refl

deliver_doorbell-IsActed_example : IsActed site at_pane bob (txt "bob:1") []
deliver_doorbell-IsActed_example =
    deliver_doorbell-IsActed site at_pane bob (txt "bob:1") [] bell_suppresses

abbrev quiet_bells : Bells
quiet_bells = record {
  poller = record {
    led = record { observations = []; rings = []; rounds = [] };
    unknown_attempts = [];
  };
  receipts = [];
}

abbrev whole_schema : Schema
whole_schema = record { has_removed = true; has_broadcast = true; has_snooze = true }

-- the same node without a route
abbrev no_pane : Ledger
no_pane = record at_pane { tab_routes = [] }

abbrev after_round : Poller
after_round =
    (ring_round (λ n. txt "1") site 9 9 live whole_schema (inr no_pane) no_pane quiet_bells).poller
