-- ===== src/Tests/Groups.antt =====
-- The theorems on tacs, at the tac `work` and at one with a name.
use tabc.Prelude.{[], arith, false, none, refl, some, ◌∷◌, ◌≡◌}
use tabc.Text.{Text, text_eq, txt}
use tabc.Text.Unicode.{all_chars, is_space, strip, strip_back, strip_front}
use tabc.Table.{any, count, find}
use tabc.Ledger.{Ledger, injected, is_registered, is_removed, tac_exists}
use tabc.Send.Write.{bus_send}
use tabc.Send.Outcome.{is_stored}
use tabc.Tac.Identity.{check_name, has_shape, is_uuid_id}
use tabc.Tac.Resolve.{name_taken, resolve, resolve_or_given}
use tabc.Tac.Store.{
  bus_tac_create, bus_tac_rename, create, created, find_key, free_id, is_mixed, name_refusal,
  named_tac, refused_create, rename, renamed,
}
use tabc.Tac.Group.{
  add_to, added, bus_tac_add, bus_tac_close, bus_tac_link, close_tac, closed, linked,
}
use tabc.Tac.Named.{IsNamed}
use tabc.Tac.Unique.{bus_tac_create-IsNamed}
use tabc.Tac.Grouped.{bus_tac_close-silences}
use tabc.Tac.Roll.{IsRoll}
use tabc.Tac.Linked.{IsGraph}
use tabc.Tests.Data.{bob, host, office, robot, to_work, work, work_tac}

abbrev group_id : Text
group_id = txt "0b9d3f5e-7a31-4c1e-9d52-1f00aa21c0de"

abbrev second_id : Text
second_id = txt "1c9d3f5e-7a31-4c1e-9d52-1f00aa21c0de"

-- a ledger on the new scheme, with one tac
abbrev converted_ledger : Ledger
converted_ledger = record (office injected 1) {
  tacs = named_tac group_id (txt "crew") (txt "crew") 2 none none ∷ [];
}

converted_ledger-IsNamed : IsNamed converted_ledger.tacs
unfolding count
converted_ledger-IsNamed = record { one_id = λ tac. ground arith; one_name = λ key. ground arith }

-- a second name is taken, and the same one is refused
create_answers :
    ((bus_tac_create host 9000000 (second_id ∷ []) (txt " crew 2 ") none none converted_ledger).0
      ≡ created second_id)
    × ((bus_tac_create host 9000000 (second_id ∷ []) (txt "crew") none none converted_ledger).0
        ≡ refused_create (name_taken (txt "crew") group_id))
    × ((bus_tac_rename host 9000000 none group_id (txt "team") converted_ledger).0
        ≡ renamed group_id (txt "team"))
unfolding bus_tac_create create check_name is_mixed any is_uuid_id has_shape name_refusal
    is_registered find_key find free_id tac_exists text_eq strip strip_front strip_back is_space
    all_chars bus_tac_rename rename resolve
create_answers = (refl, refl, refl)

bus_tac_create-IsNamed_example :
    IsNamed
      (bus_tac_create host 9000000
        (second_id ∷ [])
        (txt " crew 2 ")
        none
        none
        converted_ledger).1.tacs
bus_tac_create-IsNamed_example =
    bus_tac_create-IsNamed host 9000000 (second_id ∷ []) (txt " crew 2 ") none none converted_ledger
      converted_ledger-IsNamed

group_answers :
    ((bus_tac_close 9000000 work (some (txt "done")) (some bob) (office injected 1)).0 ≡ closed)
    × ((bus_tac_add 9000000 work robot (some bob) (office injected 1)).0 ≡ added)
unfolding bus_tac_close close_tac bus_tac_add add_to resolve strip strip_front strip_back is_space
    is_uuid_id has_shape tac_exists is_registered is_removed any count text_eq
group_answers = (refl, refl)

bus_tac_close-silences_example :
    is_stored
      (bus_send host 9500000 []
        (λ r. false)
        to_work
        (bus_tac_close 9000000 work (some (txt "done")) (some bob) (office injected 1)).1).0
    ≡ false
bus_tac_close-silences_example =
    bus_tac_close-silences host 9000000 9500000 work (some (txt "done")) (some bob)
      (office injected 1) [] (λ r. false) to_work group_answers.0 refl

no_members-IsRoll : IsRoll []
no_members-IsRoll = record { once = λ tac node. unfold count in omega arith }

abbrev empty_work : Ledger
empty_work = record (office injected 1) { tac_members = [] }

-- a second tac, which `work` continues from
abbrev two_tacs : Ledger
two_tacs = record (office injected 1) {
  tacs = work_tac ∷ record work_tac { tac_id = txt "plan" } ∷ [];
}

two_tacs-IsGraph : IsGraph two_tacs
two_tacs-IsGraph = record {
  no_loop = tt;
  ends = tt;
  once = λ child parent. unfold count in omega arith;
}

work_linked : (bus_tac_link 9000000 work (txt "plan") none two_tacs).0 ≡ linked
unfolding bus_tac_link resolve_or_given resolve strip strip_front strip_back is_space is_uuid_id
    has_shape tac_exists any text_eq
work_linked = refl
