-- ===== src/Nodes/Registered.antt =====
-- What a registration does to the rows of the nodes and to the routes of others.
use tabc.Prelude.{Bool, arith, false, is_some, true, ℕ, ◌≡◌}
use tabc.Text.{Text}
use tabc.Ledger.{Ledger, Node}
use tabc.Table.Grows.{Grows}
use tabc.Nodes.Register.{Registered, Registration, refused_register, registered}
use tabc.Nodes.Upsert.{bus_register}

-- the answer says that nothing was registered
abbrev pub is_refused : Registered → Bool
is_refused (refused_register r) = true
is_refused (registered r) = false

-- A registration that is refused leaves the whole ledger as it was.
pub bus_register-refused :
    (now : ℕ) (local fresh : Text) (q : Registration) (l : Ledger)
    → is_refused (bus_register now local fresh q l).0 ≡ true
    → (bus_register now local fresh q l).1 ≡ l
unfolding bus_register
bus_register-refused now local fresh q l h = ground arith

-- what a registration may not touch in the row of a node that is there
pub record Keeps (n m : Node) : Type 0 where
  pub same_id : m.node_id ≡ n.node_id
  pub same_start : m.registered_at ≡ n.registered_at
  pub same_team : m.is_team ≡ n.is_team
  pub same_snooze : m.snooze_until ≡ n.snooze_until
  pub same_verified : m.owner_email_verified ≡ n.owner_email_verified
  pub same_key : is_some n.node_pubkey ≡ true → m.node_pubkey ≡ n.node_pubkey
