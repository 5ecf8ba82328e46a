-- ===== src/Tests/Counting.antt =====
-- The theorems on the unread counts and the listing of a tac, at bob's copy of one message of
-- alice's, and at two messages to a tac.
use tabc.Text.{text_eq, txt}
use tabc.Prelude.{[], arith, map, none, refl, some, ◌&&◌, ◌==◌, ◌∷◌, ◌≡◌, ◌≤◌}
use tabc.Table.{count}
use tabc.Ledger.{Ledger, accepted}
use tabc.Delivery.Reopen.{is_unread_of}
use tabc.Send.Stored.{IsLinked}
use tabc.Pending.{bus_pending_counts, list_unread_titles, pending_counts_for_recipients, pending_in}
use tabc.Pending.Tallied.{unread_to}
use tabc.Pending.Listed.{list_unread_titles-count}
use tabc.Tac.Resolve.{resolve_or_given}
use tabc.Tac.Listing.{TacMessage, TacRow, bus_tac_list, bus_tac_messages, negsuc}
use tabc.Tac.Newest.{IsNewest, bus_tac_messages-IsNewest}
use tabc.Tests.Data.{alice, bob, office, older, work}

abbrev waiting : Ledger
waiting = office accepted 0

waiting-IsLinked : IsLinked waiting
unfolding tabc.Ledger.find_message tabc.Table.find tabc.Text.text_eq
waiting-IsLinked = (refl, tt)

short : unread_to waiting bob ≤ 5
unfolding count text_eq
short = ground arith

-- alice is shown bob, and only bob
counts_now : bus_pending_counts waiting alice ≡ record { recipient = bob; pending = 1 } ∷ []
unfolding bus_pending_counts tabc.Table.order_by tabc.Pending.group_pending tabc.Table.select
    tabc.Ledger.find_message tabc.Table.find tabc.Text.text_eq tabc.Pending.add_pending
counts_now = refl

-- a recipient without unread mail has an entry, one asked for twice a single one
asked_twice :
    pending_counts_for_recipients waiting (alice ∷ bob ∷ alice ∷ [])
    ≡ record { recipient = alice; pending = 0 } ∷ record { recipient = bob; pending = 1 } ∷ []
unfolding pending_counts_for_recipients pending_in tabc.Table.delete_where tabc.Table.find
    tabc.Text.text_eq tabc.Pending.group_pending tabc.Table.select tabc.Pending.add_pending
asked_twice = refl

list_unread_titles-count_example :
    count (λ t. t.did == 1) (list_unread_titles waiting bob none 5)
    ≡ count (λ d. d.id == 1 && is_unread_of bob d) waiting.deliveries
list_unread_titles-count_example =
    list_unread_titles-count waiting bob 5 waiting-IsLinked short (λ n. n == 1)

-- a second after the older message, both to the tac
abbrev two_in_tac : Ledger
two_in_tac = record waiting {
  messages =
      record older { tac_id = some work }
      ∷ record older { id = txt "m1"; accepted_at = 6; tac_id = some work }
      ∷ [];
}

-- a limit below 1 shows the newest message only
newest_only : map TacMessage.id (bus_tac_messages two_in_tac work (negsuc 0)) ≡ txt "m1" ∷ []
unfolding bus_tac_messages tabc.Table.order_by tabc.Tac.Listing.backwards tabc.Table.select text_eq
    resolve_or_given tabc.Text.Unicode.strip tabc.Text.Unicode.is_space tabc.Tac.Identity.is_uuid_id
    tabc.Tac.Identity.has_shape tabc.Ledger.tac_exists tabc.Table.any tabc.Tac.Listing.tac_message
newest_only = refl

members_now : map TacRow.member_count (bus_tac_list two_in_tac) ≡ 2 ∷ []
unfolding bus_tac_list tabc.Table.order_by tabc.Tac.Listing.tac_row count text_eq
    tabc.Ledger.is_removed tabc.Table.any
members_now = refl

bus_tac_messages-IsNewest_example :
    IsNewest two_in_tac work (negsuc 0) (bus_tac_messages two_in_tac work (negsuc 0))
bus_tac_messages-IsNewest_example = bus_tac_messages-IsNewest two_in_tac work (negsuc 0)
