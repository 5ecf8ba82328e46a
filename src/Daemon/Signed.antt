-- ===== src/Daemon/Signed.antt =====
-- What a request that `_authorized` lets through has shown.
use tabc.Prelude.{
  ==_iff, Bool-cases, List, Option, Option-cases, [], ap, arith, coalesce, if◌then◌else◌, inl, inr,
  ltb, none, refl, some, sym, true, ℕ, ◌++◌, ◌+◌, ◌<◌, ◌==◌, ◌∷◌, ◌≡◌, ◌≤◌, ◌⊎◌,
}
use tabc.Text.{Text, is_nonempty, text_eq, text_eq_iff, txt}
use tabc.Text.Search.{join}
use tabc.Host.{Host}
use tabc.Ledger.{Ledger, Node, find_node}
use tabc.Bell.{negsuc, pos, ℤ}
use tabc.Daemon.Base58.{b58decode}
use tabc.Daemon.Auth.{
  Calls, HttpRequest, acting_key, auth_window, authorized, before_query, canonical_request,
  check_key, check_signature, distance, given, key_of_row, outside_window, signed_text, verify,
}

-- The path is /register, with or without a query.
pub IsRegisterPath : Text → Type 0
IsRegisterPath path =
    (path ≡ txt "/register") ⊎ ((query : Text) × (path ≡ txt "/register" ++ b'?' ∷ query))

-- The key that speaks for the node: the one that the ledger has for it, or, for a /register while the
-- ledger has none, the one in the body of the request.
pub IsKeyOf : Calls → Ledger → HttpRequest → Text → Type 0
IsKeyOf c l r key =
    (is_nonempty key ≡ true)
    × (((n : Node) × (find_node l r.node ≡ some n) × (n.node_pubkey ≡ some key))
        ⊎ (((n : Node) → find_node l r.node ≡ some n → (k : Text) → n.node_pubkey ≡ some k → k ≡ [])
            × IsRegisterPath r.path
            × (c.pubkey_of r.body ≡ some key)))

-- within 300 seconds of the clock, on either side
pub IsNear : ℤ → ℕ → Type 0
IsNear (pos t) now = (t ≤ now + 300) × (now ≤ t + 300)
IsNear (negsuc n) now = now + (n + 1) ≤ 300

-- A signature that verifies under the node's key, over five lines: the hashes of the node, the
-- method, the path with its query, the decoded body and the timestamp. And the timestamp is near.
pub record IsSigned (h : Host) (c : Calls) (now : ℕ) (l : Ledger) (r : HttpRequest) : Type 0 where
  pub key : Text
  pub key_bytes : List ℕ
  pub sig : List ℕ
  pub ts : ℤ
  pub has_key : IsKeyOf c l r key
  pub has_key_bytes : b58decode key ≡ some key_bytes
  pub has_sig : b58decode r.sig ≡ some sig
  pub has_ts : c.int r.ts ≡ some ts
  pub in_window : IsNear ts now
  pub verified :
      c.verifies key_bytes
        (h.sha256 r.node
          ++ 10
            ∷ (h.sha256 r.command
                ++ 10
                  ∷ (h.sha256 r.path ++ 10 ∷ (h.sha256 (c.decode r.body) ++ 10 ∷ h.sha256 r.ts))))
        sig
      ≡ true

before_query-cases :
    (s t : Text) → before_query s ≡ t → (s ≡ t) ⊎ ((q : Text) × (s ≡ t ++ b'?' ∷ q))
unfolding before_query
before_query-cases [] t h = inl h
before_query-cases (c ∷ s) t h = elim (Bool-cases (c == b'?')) [
  | inl e ↦
      let k : [] ≡ t = rw e at h in inr (s, rw (sym k) (ap (λ x. x ∷ s) ((==_iff c b'?').0 e)))
  | inr e ↦
      let k : c ∷ before_query s ≡ t = rw e at h in
      rw (sym k) (elim (before_query-cases s (before_query s) refl) [
        | inl p ↦ inl (ap (λ x. c ∷ x) p)
        | inr (q, p) ↦ inr (q, ap (λ x. c ∷ x) p)
      ])
]

given-some : (o : Option Text) (k : Text) → given o ≡ some k → (o ≡ some k) × (is_nonempty k ≡ true)
given-some none k h = absurd (ground arith)
given-some (some t) k h = ground arith

given-none : (o : Option Text) (k : Text) → given o ≡ none → o ≡ some k → k ≡ []
given-none o [] h e = refl
given-none o (a ∷ s) h e = absurd (ground (arith, rw e at h))

first_key :
    (c : Calls) (r : HttpRequest) (key : Text)
    → (if text_eq (before_query r.path) (txt "/register") then given (c.pubkey_of r.body) else none)
      ≡ some key
    → (is_nonempty key ≡ true) × IsRegisterPath r.path × (c.pubkey_of r.body ≡ some key)
unfolding IsRegisterPath
first_key c r key h = elim (Bool-cases (text_eq (before_query r.path) (txt "/register"))) [
  | inl e ↦
      let g = given-some (c.pubkey_of r.body) key (rw e at h) in
      (
        g.1,
        before_query-cases r.path (txt "/register")
            ((text_eq_iff (before_query r.path) (txt "/register")).0 e),
        g.0,
      )
  | inr e ↦ absurd (ground arith)
]

key_from :
    (c : Calls) (l : Ledger) (r : HttpRequest) (key : Text) (o : Option Node)
    → find_node l r.node ≡ o
    → coalesce (key_of_row o) (
        if text_eq (before_query r.path) (txt "/register")
        then given (c.pubkey_of r.body)
        else none)
      ≡ some key
    → IsKeyOf c l r key
unfolding IsKeyOf
key_from c l r key none f h =
    let (n, p, b) = first_key c r key h in (n, inr (λ m g. absurd (ground (arith, f, g)), p, b))
key_from c l r key (some m) f h = elim (Option-cases (given m.node_pubkey)) [
  | inl e ↦
      let (n, p, b) = first_key c r key (rw e at h) in
      (
        n,
        inr (
          λ m' g k q.
              let same : m ≡ m' = ground (arith, f, g) in given-none m.node_pubkey k e (rw same q),
          p,
          b,
        ),
      )
  | inr (k, e) ↦
      let same : k ≡ key = ground (arith, rw e at h) in
      let g = given-some m.node_pubkey k e in rw (sym same) (g.1, inl (m, f, g.0))
]

acting_key-IsKeyOf :
    (c : Calls) (l : Ledger) (r : HttpRequest) (key : Text)
    → acting_key c l r ≡ some key
    → IsKeyOf c l r key
unfolding acting_key
acting_key-IsKeyOf c l r key h = key_from c l r key (find_node l r.node) refl h

distance-IsNear : (ts : ℤ) (now : ℕ) → distance ts now ≤ auth_window → IsNear ts now
unfolding distance IsNear
distance-IsNear (pos t) now h = ground arith
distance-IsNear (negsuc n) now h = ground arith

verify-bytes :
    (c : Calls) (key msg : Text) (sig : List ℕ)
    → verify c key msg sig ≡ true
    → (bytes : List ℕ) × (b58decode key ≡ some bytes) × (c.verifies bytes msg sig ≡ true)
unfolding verify
verify-bytes c key msg sig h = elim (Option-cases (b58decode key)) [
  | inl e ↦ absurd (ground arith)
  | inr (bytes, e) ↦ (bytes, e, rw (e, verify) at h)
]

check_signature-none :
    (h : Host) (c : Calls) (key : Text) (r : HttpRequest)
    → check_signature h c key r ≡ none
    → (sig : List ℕ) × (b58decode r.sig ≡ some sig) × (verify c key (signed_text h c r) sig ≡ true)
unfolding check_signature
check_signature-none h c key r e = elim (Option-cases (b58decode r.sig)) [
  | inl d ↦ absurd (ground arith)
  | inr (sig, d) ↦ (sig, d, ground arith)
]

-- Whoever passes has signed: the timestamp is within 300 seconds of the clock, the signature is
-- base58, and it verifies over the hashes of the node, the method, the path with its query, the
-- decoded body and the timestamp of this request, line by line. The key is the one that the ledger
-- has for the node; only where it has none, and the path is /register, is it the one in the body.
pub authorized-IsSigned :
    (h : Host) (c : Calls) (now : ℕ) (l : Ledger) (r : HttpRequest)
    → authorized h c now l r ≡ none
    → IsSigned h c now l r
unfolding authorized check_key signed_text canonical_request join
authorized-IsSigned h c now l r e = elim (Option-cases (c.int r.ts)) [
  | inl t ↦ absurd (ground arith)
  | inr (ts, t) ↦ elim (Option-cases (acting_key c l r)) [
    | inl k ↦ absurd (ground arith)
    | inr (key, k) ↦
        let (sig, d, v) = check_signature-none h c key r (ground arith) in
        let (bytes, b, w) = verify-bytes c key (signed_text h c r) sig v in
        record {
          key = key;
          key_bytes = bytes;
          sig = sig;
          ts = ts;
          has_key = acting_key-IsKeyOf c l r key k;
          has_key_bytes = b;
          has_sig = d;
          has_ts = t;
          in_window = distance-IsNear ts now (ground arith);
          verified = w;
        }
  ]
]

distance-far :
    (ts : ℤ) (now later : ℕ)
    → distance ts now ≤ auth_window
    → now + (auth_window + auth_window) < later
    → ltb auth_window (distance ts later) ≡ true
unfolding distance
distance-far (pos n) now later near far = ground arith
distance-far (negsuc n) now later near far = ground arith

-- A captured request is worth nothing later: the request that was let through at one time is refused
-- at any time more than twice the window away, whatever the ledger holds by then.
pub authorized-replay :
    (h : Host) (c : Calls) (now later : ℕ) (l l' : Ledger) (r : HttpRequest)
    → authorized h c now l r ≡ none
    → now + (auth_window + auth_window) < later
    → authorized h c later l' r ≡ some outside_window
unfolding authorized
authorized-replay h c now later l l' r e far = elim (Option-cases (c.int r.ts)) [
  | inl t ↦ absurd (ground arith)
  | inr (ts, t) ↦ let out = distance-far ts now later (ground arith) far in ground arith
]
