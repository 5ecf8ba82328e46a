-- ===== src/Tac/Resolve.antt =====
-- `resolve` of tabus/tac_store.py, through which every designation of a tac goes, and the refusals
-- of tabus/tac_refusal.py.
use tabc.Prelude.{arith, false, if◌then◌else◌, inl, inr, not, refl, true, ◌≡◌, ◌⊎◌}
use tabc.Text.{Text, is_nonempty}
use tabc.Text.Unicode.{is_space, strip}
use tabc.Ledger.{Ledger, tac_exists}
use tabc.Tac.Identity.{NameProblem, is_uuid_id}

pub data TacRefusal : Type 0 where
  id_invalid not_converted : TacRefusal
  not_found : Text → TacRefusal
  name_invalid : NameProblem → TacRefusal
  node_has_name : Text → TacRefusal
  name_taken : Text → Text → TacRefusal

pub data Resolved : Type 0 where
  designates : Text → Resolved
  refused : TacRefusal → Resolved

pub Resolved-cases :
    (r : Resolved) → ((x : TacRefusal) × (r ≡ refused x)) ⊎ ((t : Text) × (r ≡ designates t))
Resolved-cases (designates t) = inr (t, refl)
Resolved-cases (refused x) = inl (x, refl)

-- `tac_store.resolve` on a string
unfoldable pub resolve : Ledger → Text → Resolved
resolve l given =
    if not (is_nonempty (strip is_space given))
    then refused id_invalid
    else if not l.identity_columns
    then designates given
    else if is_uuid_id given
    then designates given
    else if tac_exists l given
    then designates given
    else refused id_invalid

-- `tac_resolve(con, tac_id)[0] or tac_id`
unfoldable pub resolve_or_given : Ledger → Text → Text
unfolding resolve
resolve_or_given l given = elim (resolve l given) [ designates t ↦ t | refused r ↦ given ]

-- A designation that is accepted is never rewritten: the tac is the string that was given, whether
-- the ledger is on the old scheme, on UUIDs, or between the two; and what `or tac_id` falls back to
-- is the string that was given as well.
pub resolve_keeps :
    (l : Ledger) (given tac : Text)
    → resolve l given ≡ designates tac
    → (tac ≡ given) × (resolve_or_given l given ≡ given)
unfolding resolve resolve_or_given
resolve_keeps l given tac h = ground arith

-- On a ledger with the identity columns, a string designates a tac only if it is a canonical UUID or
-- the identifier of a row; so a display name that is neither is refused.
pub resolve-refuses_names :
    (l : Ledger) (given : Text)
    → l.identity_columns ≡ true
    → is_uuid_id given ≡ false
    → tac_exists l given ≡ false
    → resolve l given ≡ refused id_invalid
unfolding resolve
resolve-refuses_names l given c u e = ground arith
