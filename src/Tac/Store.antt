-- ===== src/Tac/Store.antt =====
-- Creating and renaming tacs: tabus/tac_store.py, and `bus_tac_create` and `bus_tac_rename` of
-- tabus/bus.py.
use tabc.Prelude.{
  Bool, List, Option, [], if◌then◌else◌, is_some, none, not, some, ℕ, ◌++◌, ◌||◌, ◌∷◌,
}
use tabc.Text.{Text, is_nonempty, opt_eq, text_eq}
use tabc.Text.Unicode.{is_space, strip}
use tabc.Host.{Host}
use tabc.Table.{any, find, update_where}
use tabc.Ledger.{Ledger, NameChange, Tac, is_registered, seconds, tac_exists}
use tabc.Tac.Identity.{check_name, is_uuid_id}
use tabc.Tac.Resolve.{
  TacRefusal, designates, id_invalid, name_invalid, name_taken, node_has_name, not_converted,
  not_found, refused, resolve,
}

-- `tac_store.unconverted` of a row
abbrev pub is_unconverted : Tac → Bool
is_unconverted t = not (is_some t.name) || (not (is_some t.name_key) || not (is_uuid_id t.tac_id))

-- `not converted(con) or unconverted(con)`
unfoldable pub is_mixed : Ledger → Bool
is_mixed l = not l.identity_columns || any is_unconverted l.tacs

unfoldable pub find_key : Ledger → Text → Option Tac
find_key l key = find (λ t. opt_eq t.name_key (some key)) l.tacs

-- `new_id()` until it is free: the identifiers that `uuid4` draws, in their order
unfoldable pub free_id : Ledger → List Text → Option Text
free_id l [] = none
free_id l (i ∷ is) = let rest = free_id l is in if tac_exists l i then rest else some i

abbrev pub named_tac : Text → Text → Text → ℕ → Option Text → Option Text → Tac
named_tac i name key ts by label = record {
  tac_id = i;
  label = label;
  name = some name;
  name_key = some key;
  created_at = ts;
  created_by = by;
  closed_at = none;
  close_summary = none;
  closed_by = none;
}

pub data Created : Type 0 where
  tac_id_required : Created
  refused_create : TacRefusal → Created
  node_name_taken : Text → Created
  tac_already_exists : Text → Created
  no_identifier : Created
  created : Text → Created

-- the checks of `create` and `rename` on the name, and the key; `keeps` is the tac that may hold it
unfoldable pub name_refusal : Host → Ledger → Text → Option Text → Option TacRefusal
name_refusal h l display keeps =
    if is_registered l display
    then some (node_has_name display)
    else elim (find_key l (h.name_key display)) [
      | none ↦ none
      | some t ↦ if opt_eq (some t.tac_id) keeps then none else some (name_taken display t.tac_id)
    ]

unfoldable pub create :
    Host → ℕ → List Text → Text → Option Text → Option Text → Ledger → Created × Ledger
create h now ids name label by l =
    let display = strip is_space name in
    elim (check_name h name) [
      | some p ↦ (refused_create (name_invalid p), l)
      | none ↦
          if is_mixed l
          then (refused_create not_converted, l)
          else elim (name_refusal h l display none) [
            | some r ↦ (refused_create r, l)
            | none ↦ elim (free_id l ids) [
              | none ↦ (no_identifier, l)
              | some i ↦ (
                created i,
                record l {
                  tacs =
                      l.tacs
                      ++ named_tac i display (h.name_key display) (seconds now) by label ∷ [];
                },
              )
            ]
          ]
    ]

abbrev pub unnamed_tac : Text → ℕ → Option Text → Option Text → Tac
unnamed_tac i ts by label = record {
  tac_id = i;
  label = label;
  name = none;
  name_key = none;
  created_at = ts;
  created_by = by;
  closed_at = none;
  close_summary = none;
  closed_by = none;
}

-- the old scheme: the string that the caller sends is the identifier
unfoldable pub create_by_id : ℕ → Text → Option Text → Option Text → Ledger → Created × Ledger
create_by_id now given label by l =
    if is_registered l given
    then (node_name_taken given, l)
    else if tac_exists l given
    then (tac_already_exists given, l)
    else (
      created given,
      record l { tacs = l.tacs ++ unnamed_tac given (seconds now) by label ∷ [] },
    )

-- `if ok and label: UPDATE tacs SET label`
abbrev pub truthy : Option Text → Option Text
truthy none = none
truthy (some t) = if is_nonempty t then some t else none

unfoldable pub bus_tac_create :
    Host → ℕ → List Text → Text → Option Text → Option Text → Ledger → Created × Ledger
bus_tac_create h now ids given label by l =
    if not (is_nonempty given)
    then (tac_id_required, l)
    else if l.identity_columns
    then create h now ids given (truthy label) by l
    else create_by_id now given label by l

pub data Renamed : Type 0 where
  refused_rename : TacRefusal → Renamed
  renamed : Text → Text → Renamed

abbrev pub is_tac : Text → Tac → Bool
is_tac tac t = text_eq t.tac_id tac

abbrev pub give_name : Text → Text → Tac → Tac
give_name name key t = record t { name = some name; name_key = some key }

unfoldable pub log_change : ℕ → Option Text → Text → Text → Option Text → List NameChange
log_change ts by tac display old =
    if opt_eq old (some display)
    then []
    else record {
      tac_id = tac;
      old_name = old;
      new_name = display;
      changed_by = by;
      changed_at = ts;
    }
      ∷ []

unfoldable pub write_name : Host → ℕ → Option Text → Text → Text → Tac → Ledger → Ledger
write_name h ts by tac display t l = record l {
  tacs = update_where (is_tac tac) (give_name display (h.name_key display)) l.tacs;
  name_changes = l.name_changes ++ log_change ts by tac display t.name;
}

unfoldable pub rename : Host → ℕ → Option Text → Text → Text → Ledger → Renamed × Ledger
rename h now by tac name l =
    let display = strip is_space name in
    if not (is_uuid_id tac) then (refused_rename id_invalid, l) else elim (check_name h name) [
      | some p ↦ (refused_rename (name_invalid p), l)
      | none ↦
          if is_mixed l
          then (refused_rename not_converted, l)
          else elim (find (is_tac tac) l.tacs) [
            | none ↦ (refused_rename (not_found tac), l)
            | some t ↦ elim (name_refusal h l display (some tac)) [
              | some r ↦ (refused_rename r, l)
              | none ↦ (renamed tac display, write_name h (seconds now) by tac display t l)
            ]
          ]
    ]

unfoldable pub bus_tac_rename : Host → ℕ → Option Text → Text → Text → Ledger → Renamed × Ledger
bus_tac_rename h now by given name l =
    if is_mixed l then (refused_rename not_converted, l) else elim (resolve l given) [
      | refused r ↦ (refused_rename r, l)
      | designates tac ↦ rename h now by tac name l
    ]
