-- ===== src/Nodes/Removal.antt =====
-- `bus_remove` and `bus_restore` of tabus/bus.py: what they undo, and what a purge asks for.
use tabc.Table.Laws.{any-append}
use tabc.Prelude.{
  Bool, Bool-cases, List, Option, [], ap, arith, false, inl, inr, refl, true, ℕ, ◌++◌, ◌∙◌, ◌∷◌,
  ◌≡◌,
}
use tabc.Text.{Text, is_nonempty, text_eq_refl}
use tabc.Ledger.{Ledger, Removed, is_registered, is_removed, restore, seconds, soft}
use tabc.Table.{any, count, delete_where}
use tabc.Nodes.Admin.{
  bus_remove, bus_restore, disable_node, is_named, is_removal_of, logged, purge_node, purged,
  received_by, restored, routed_to, sent_by, upsert_removed,
}

module _ {ℓ} {A : Type ℓ} (p : A → Bool) where
  delete_where-none : (xs : List A) → any p xs ≡ false → delete_where p xs ≡ xs
  unfolding any delete_where
  delete_where-none [] h = refl
  delete_where-none (x ∷ xs) h = elim (Bool-cases (p x)) [
    | inl e ↦ absurd (ground arith)
    | inr e ↦ rw e (ap (λ t. x ∷ t) (delete_where-none xs (ground arith)))
  ]

  any-delete_where : (xs : List A) → any p (delete_where p xs) ≡ false
  unfolding any delete_where
  any-delete_where [] = refl
  any-delete_where (x ∷ xs) = elim (Bool-cases (p x)) [
    | inl e ↦ rw e (any-delete_where xs)
    | inr e ↦ rw e (rw e (any-delete_where xs))
  ]

  -- a row that is added and deleted again
  delete_where-added :
      (xs : List A) (x : A) → any p xs ≡ false → p x ≡ true → delete_where p (xs ++ x ∷ []) ≡ xs
  unfolding any delete_where
  delete_where-added [] x h k = rw k refl
  delete_where-added (y ∷ xs) x h k = elim (Bool-cases (p y)) [
    | inl e ↦ absurd (ground arith)
    | inr e ↦ rw e (ap (λ t. y ∷ t) (delete_where-added xs x (ground arith) k))
  ]

bus_remove-disabled :
    (now : ℕ) (node : Text) (by : Option Text) (l : Ledger)
    → is_nonempty node ≡ true
    → is_registered l node ≡ true
    → (bus_remove now node false by l).1 ≡ disable_node (seconds now) by node l
unfolding bus_remove
bus_remove-disabled now node by l n r = rw (n, r) refl

disable_node-removed :
    (ts : ℕ) (node : Text) (by : Option Text) (l : Ledger)
    → is_removed l node ≡ false
    → (disable_node ts by node l).removed_nodes
      ≡ l.removed_nodes ++ record { node_id = node; removed_at = ts } ∷ []
unfolding disable_node upsert_removed is_removed
disable_node-removed ts node by l m = rw m refl

disable_node-IsRemoved :
    (ts : ℕ) (node : Text) (by : Option Text) (l : Ledger)
    → is_removed l node ≡ false
    → is_removed (disable_node ts by node l) node ≡ true
unfolding is_removed any
disable_node-IsRemoved ts node by l m =
    rw
      (
        disable_node-removed ts node by l m,
        any-append (is_removal_of node) l.removed_nodes
            (record { node_id = node; removed_at = ts } ∷ []),
      )
      (ground (arith, text_eq_refl node))

bus_restore-removed :
    (now : ℕ) (node : Text) (by : Option Text) (l : Ledger)
    → is_nonempty node ≡ true
    → is_removed l node ≡ true
    → bus_restore now node by l ≡ (
      restored,
      record l {
        removed_nodes = delete_where (is_removal_of node) l.removed_nodes;
        removals = l.removals ++ logged restore (seconds now) by node ∷ [];
      },
    )
unfolding bus_restore
bus_restore-removed now node by l n m = rw (n, m) refl

-- A registered node that was active is removed and then restored: the ledger is as it was, but for
-- the two entries in the log.
pub bus_restore-bus_remove :
    (now later : ℕ) (node : Text) (by again : Option Text) (l : Ledger)
    → is_nonempty node ≡ true
    → is_registered l node ≡ true
    → is_removed l node ≡ false
    → bus_restore later node again (bus_remove now node false by l).1 ≡ (
      restored,
      record l {
        removals =
            (l.removals ++ logged soft (seconds now) by node ∷ [])
            ++ logged restore (seconds later) again node ∷ [];
      },
    )
unfolding is_removed disable_node
bus_restore-bus_remove now later node by again l n r m =
    let l' = disable_node (seconds now) by node l in
    let row : Removed = record { node_id = node; removed_at = seconds now } in
    rw (bus_remove-disabled now node by l n r) (
      bus_restore-removed later node again l' n (disable_node-IsRemoved (seconds now) node by l m)
      ∙ ap
          (λ rs. (
            restored,
            record l {
              removed_nodes = rs;
              removals =
                  (l.removals ++ logged soft (seconds now) by node ∷ [])
                  ++ logged restore (seconds later) again node ∷ [];
            },
          ))
          (ap (delete_where (is_removal_of node)) (disable_node-removed (seconds now) node by l m)
            ∙ delete_where-added (is_removal_of node) l.removed_nodes row m (text_eq_refl node)))

-- what a purge that is carried out went through
purged-found :
    (now : ℕ) (node : Text) (purging : Bool) (by : Option Text) (l : Ledger)
    → (bus_remove now node purging by l).0 ≡ purged
    → ((bus_remove now node purging by l).1 ≡ purge_node (seconds now) by node l)
      × (count (sent_by node) l.messages ≡ 0)
      × (count (received_by node) l.deliveries ≡ 0)
      × (count (routed_to node) l.tab_routes ≡ 0)
unfolding bus_remove
purged-found now node purging by l h = ground arith

-- A purge that is carried out leaves the node neither registered nor removed, and the ledger holds
-- no message of it, no delivery to it and no route of it.
pub bus_remove-purged :
    (now : ℕ) (node : Text) (purging : Bool) (by : Option Text) (l : Ledger)
    → let (r, l') = bus_remove now node purging by l in
      r ≡ purged
      → (is_registered l' node ≡ false)
        × (is_removed l' node ≡ false)
        × (count (sent_by node) l'.messages ≡ 0)
        × (count (received_by node) l'.deliveries ≡ 0)
        × (count (routed_to node) l'.tab_routes ≡ 0)
unfolding purge_node is_registered is_removed
bus_remove-purged now node purging by l h =
    let (e, sent, recv, routes) = purged-found now node purging by l h in
    rw e (
      any-delete_where (is_named node) l.nodes,
      any-delete_where (is_removal_of node) l.removed_nodes,
      sent,
      recv,
      routes,
    )
