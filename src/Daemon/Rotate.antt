-- ===== src/Daemon/Rotate.antt =====
-- `bus_rotate_key` of tabus/bus.py, and what it means for the requests of the node.
use tabc.Prelude.{
  Bool, Bool-cases, Option, Option-cases, [], ap, arith, if◌then◌else◌, inl, inr, length, none, not,
  refl, some, true, ℕ, ◌++◌, ◌==◌, ◌∙◌, ◌∷◌, ◌≡◌, ◌≢◌,
}
use tabc.Text.{Text, is_nonempty, opt_eq, text_eq, text_or, txt}
use tabc.Table.{update_where}
use tabc.Table.Laws.{find-update_where}
use tabc.Ledger.{Ledger, Node, find_node, seconds}
use tabc.Daemon.Base58.{b58decode}
use tabc.Daemon.Auth.{Calls, HttpRequest, acting_key}

pub data Rotating : Type 0 where
  key_required key_length not_base58 nothing_to_rotate same_key rotated : Rotating

abbrev pub is_keyed_node : Text → Node → Bool
is_keyed_node node n = text_eq n.node_id node

abbrev pub with_key : Text → Node → Node
with_key key n = record n { node_pubkey = some key }

-- the shape of the key: what is wrong with it, if anything
unfoldable pub key_problem : Text → Option Rotating
key_problem key = if not (is_nonempty key) then some key_required else elim (b58decode key) [
  | none ↦ some not_base58
  | some bytes ↦ if length bytes == 32 then none else some key_length
]

-- the UPDATE and the entry of the log
unfoldable pub write_key : ℕ → Text → Text → Option Text → Option Text → Ledger → Ledger
write_key ts node key old by l = record l {
  nodes = update_where (is_keyed_node node) (with_key key) l.nodes;
  key_rotations =
      l.key_rotations
      ++ record {
        node_id = node;
        old_pubkey = old;
        new_pubkey = key;
        rotated_by = text_or by (txt "operator");
        at = ts;
      }
        ∷ [];
}

unfoldable pub bus_rotate_key : ℕ → Text → Text → Option Text → Ledger → Rotating × Ledger
bus_rotate_key now node key by l = elim (key_problem key) [
  | some problem ↦ (problem, l)
  | none ↦ elim (find_node l node) [
    | none ↦ (nothing_to_rotate, l)
    | some n ↦
        if opt_eq n.node_pubkey (some key)
        then (same_key, l)
        else (rotated, write_key (seconds now) node key n.node_pubkey by l)
  ]
]

key_problem-nonempty : (key : Text) → key_problem key ≡ none → is_nonempty key ≡ true
unfolding key_problem
key_problem-nonempty key h = ground arith

key_problem-ne : (key : Text) → key_problem key ≢ some rotated
unfolding key_problem
key_problem-ne key h = ground arith

bus_rotate_key-found :
    (now : ℕ) (node key : Text) (by : Option Text) (l : Ledger)
    → (bus_rotate_key now node key by l).0 ≡ rotated
    → (n : Node) × (find_node l node ≡ some n)
      × (is_nonempty key ≡ true)
      × ((bus_rotate_key now node key by l).1 ≡ write_key (seconds now) node key n.node_pubkey by l)
unfolding bus_rotate_key
bus_rotate_key-found now node key by l h = elim (Option-cases (key_problem key)) [
  | inr (problem, e) ↦ absurd (key_problem-ne key (e ∙ ap some (rw (e, bus_rotate_key) at h)))
  | inl e ↦ elim (Option-cases (find_node l node)) [
    | inl f ↦ absurd (ground arith)
    | inr (n, f) ↦ elim (Bool-cases (opt_eq n.node_pubkey (some key))) [
      | inl s ↦ absurd (ground arith)
      | inr s ↦ rw (e, bus_rotate_key) (rw f (rw s (n, refl, key_problem-nonempty key e, refl)))
    ]
  ]
]

-- After a rotation that is carried out, every request of the node is checked against the new key and
-- no other; a /register cannot bring a key of its own.
pub bus_rotate_key-acting_key :
    (c : Calls) (now : ℕ) (node key : Text) (by : Option Text) (l : Ledger) (r : HttpRequest)
    → (bus_rotate_key now node key by l).0 ≡ rotated
    → r.node ≡ node
    → acting_key c (bus_rotate_key now node key by l).1 r ≡ some key
unfolding acting_key find_node write_key
bus_rotate_key-acting_key c now node key by l r h e =
    let (n, f, full, done) = bus_rotate_key-found now node key by l h in
    let g = find-update_where (is_keyed_node node) (with_key key) l.nodes (λ y. refl) f in
    rw (done, e) (rw g (rw full refl))
