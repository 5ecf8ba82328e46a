-- ===== src/Send/Envelope.antt =====
-- What `bus_send` is given, and the steps of its gates: each refuses or hands on what the next needs.
use tabc.Prelude.{
  Bool, List, Option, [], arith, false, inl, inr, none, refl, some, true, ℕ, ◌∷◌, ◌≡◌, ◌⊎◌,
}
use tabc.Text.{Text, is_nonempty, txt}
use tabc.Payload.{Items, Json, Refusal, arr, cons, nil, null, str}
use tabc.Tac.Resolve.{TacRefusal}

-- The arguments of `bus_send`. Subject and body are as they came from JSON; the other fields have
-- their types, and `other` holds them again for the encoding check.
pub record Envelope : Type 0 where
  pub sender : Text
  pub recipients : List Text
  pub subject : Json
  pub body : Json
  pub priority : Text
  pub expires_at : Option Text
  pub reply_to : Option Text
  pub message_id : Option Text
  pub thread_id : Option Text
  pub tac : Option Text
  pub broadcast : Bool

abbrev opt_json : Option Text → Json
opt_json none = null
opt_json (some t) = str t

abbrev items : List Text → Items
items [] = nil
items (t ∷ ts) = cons (str t) (items ts)

-- the dictionary that is handed to `check_send_payload`
unfoldable pub other_text : Envelope → List (Text × Json)
other_text e =
    (txt "from", str e.sender)
    ∷ (txt "to", arr (items e.recipients))
    ∷ (txt "tac", opt_json e.tac)
    ∷ (txt "priority", str e.priority)
    ∷ (txt "message_id", opt_json e.message_id)
    ∷ (txt "reply_to", opt_json e.reply_to)
    ∷ (txt "thread_id", opt_json e.thread_id)
    ∷ (txt "expires_at", opt_json e.expires_at)
    ∷ []

pub data SendRefusal : Type 0 where
  payload : Refusal → SendRefusal
  malformed_expiry_given : SendRefusal
  unregistered_sender removed_sender : Text → SendRefusal
  broadcast_and_tac : SendRefusal
  tac_refused : TacRefusal → SendRefusal
  no_such_tac tac_closed : Text → SendRefusal
  unread_in_tac : Text → ℕ → SendRefusal
  no_members : Text → SendRefusal
  program_recipients : List Text → SendRefusal
  no_valid_recipients : SendRefusal
  unread_from : List (Text × ℕ) → SendRefusal

-- `if tac_id`
abbrev pub names_tac : Option Text → Bool
names_tac none = false
names_tac (some t) = is_nonempty t

-- An answer of a gate: a refusal, or what the next gate needs.
pub data Gate {ℓ} (A : Type ℓ) : Type ℓ where
  stop : SendRefusal → Gate A
  pass : A → Gate A

infixl 5 ◌>>=◌ ◌>>◌
abbrev pub ◌>>=◌ {ℓ κ} : {A : Type ℓ} {B : Type κ} → Gate A → (A → Gate B) → Gate B
stop r >>= f = stop r
pass a >>= f = f a

abbrev pub ◌>>◌ {ℓ} : {B : Type ℓ} → Gate (Unit {0}) → Gate B → Gate B
m >> k = m >>= λ _. k

abbrev pub stop_if : Bool → SendRefusal → Gate (Unit {0})
stop_if true r = stop r
stop_if false r = pass tt

abbrev pub stop_on : {A : Type 0} → Option A → (A → SendRefusal) → Gate (Unit {0})
stop_on none f = pass tt
stop_on (some a) f = stop (f a)

pub Gate-cases {ℓ} :
    {A : Type ℓ} (g : Gate A) → ((r : SendRefusal) × (g ≡ stop r)) ⊎ ((a : A) × (g ≡ pass a))
Gate-cases (stop r) = inl (r, refl)
Gate-cases (pass a) = inr (a, refl)

pub >>=-eq_pass {ℓ κ} :
    {A : Type ℓ} {B : Type κ} (m : Gate A) (f : A → Gate B) {b : B}
    → (m >>= f) ≡ pass b
    → (a : A) × (m ≡ pass a) × (f a ≡ pass b)
>>=-eq_pass (stop r) f h = absurd (ground arith)
>>=-eq_pass (pass a) f h = (a, refl, h)

pub stop_if-eq_pass {ℓ} :
    {B : Type ℓ} (t : Bool) (r : SendRefusal) (k : Gate B) {b : B}
    → (stop_if t r >> k) ≡ pass b
    → (t ≡ false) × (k ≡ pass b)
stop_if-eq_pass true r k h = absurd (ground arith)
stop_if-eq_pass false r k h = (refl, h)
