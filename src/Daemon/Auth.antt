-- ===== src/Daemon/Auth.antt =====
-- `_authorized` of tabus/daemon.py, with `verify` and `canonical_request` of tabus/nodekey.py.
use tabc.Prelude.{
  Bool, List, Option, [], coalesce, false, if◌then◌else◌, ltb, none, not, some, ℕ, ◌&&◌, ◌+◌, ◌-◌,
  ◌==◌, ◌∷◌,
}
use tabc.Text.{Text, is_nonempty, text_eq, txt}
use tabc.Text.Search.{join}
use tabc.Host.{Host}
use tabc.Ledger.{Ledger, Node, find_node}
use tabc.Bell.{negsuc, pos, ℤ}
use tabc.Daemon.Base58.{b58decode}

-- What arrives: the request line, three headers (empty where absent), and the bytes of the body.
pub record HttpRequest : Type 0 where
  pub command : Text
  pub path : Text
  pub node : Text
  pub ts : Text
  pub sig : Text
  pub body : List ℕ

-- What the check calls: Python's `int` (none for a ValueError), the `pubkey` of the body as JSON
-- (none where it is missing or the body does not parse), UTF-8 with replacement, and Ed25519.
pub record Calls : Type 0 where
  pub int : Text → Option ℤ
  pub pubkey_of : List ℕ → Option Text
  pub decode : List ℕ → Text
  pub verifies : List ℕ → Text → List ℕ → Bool

-- the reasons that only the log has
pub data Denial : Type 0 where
  missing_header outside_window bad_timestamp : Denial
  no_key not_registered bad_base58 bad_signature : Denial

-- REQUEST_AUTH_WINDOW_SEC
abbrev pub auth_window : ℕ
auth_window = 300

-- `abs(ts - now)`, the clock in whole seconds
unfoldable pub distance : ℤ → ℕ → ℕ
distance (pos n) now = if ltb n now then now - n else n - now
distance (negsuc n) now = now + n + 1

-- `path.partition("?")[0]`
unfoldable pub before_query : Text → Text
before_query [] = []
before_query (c ∷ s) = let rest = before_query s in if c == b'?' then [] else c ∷ rest

unfoldable pub canonical_request : Host → Text → Text → Text → Text → Text → Text
canonical_request h node method path body ts =
    join (txt "\n")
      (h.sha256 node ∷ h.sha256 method ∷ h.sha256 path ∷ h.sha256 body ∷ h.sha256 ts ∷ [])

-- `verify`: a key that is not base58 verifies nothing
unfoldable pub verify : Calls → Text → Text → List ℕ → Bool
verify c key msg sig = elim (b58decode key) [
  | none ↦ false
  | some pub_key ↦ c.verifies pub_key msg sig
]

-- a text that is there and not empty
abbrev pub given : Option Text → Option Text
given none = none
given (some t) = if is_nonempty t then some t else none

abbrev pub key_of_row : Option Node → Option Text
key_of_row none = none
key_of_row (some n) = given n.node_pubkey

-- the registered key, or, for a first /register, the one that is being registered
unfoldable pub acting_key : Calls → Ledger → HttpRequest → Option Text
acting_key c l r =
    coalesce (key_of_row (find_node l r.node))
      (if text_eq (before_query r.path) (txt "/register") then given (c.pubkey_of r.body) else none)

abbrev pub missing_key : Option Node → Denial
missing_key none = not_registered
missing_key (some n) = no_key

-- the message that the signature is checked on
unfoldable pub signed_text : Host → Calls → HttpRequest → Text
signed_text h c r = canonical_request h r.node r.command r.path (c.decode r.body) r.ts

unfoldable pub check_signature : Host → Calls → Text → HttpRequest → Option Denial
check_signature h c key r = elim (b58decode r.sig) [
  | none ↦ some bad_base58
  | some sig ↦ if verify c key (signed_text h c r) sig then none else some bad_signature
]

unfoldable pub check_key : Host → Calls → Ledger → HttpRequest → Option Denial
check_key h c l r = elim (acting_key c l r) [
  | none ↦ some (missing_key (find_node l r.node))
  | some key ↦ check_signature h c key r
]

-- `_authorized` with its `_deny`s; none is True
unfoldable pub authorized : Host → Calls → ℕ → Ledger → HttpRequest → Option Denial
authorized h c now l r =
    if not (is_nonempty r.node && is_nonempty r.ts && is_nonempty r.sig)
    then some missing_header
    else elim (c.int r.ts) [
      | none ↦ some bad_timestamp
      | some ts ↦
          if ltb auth_window (distance ts now) then some outside_window else check_key h c l r
    ]
