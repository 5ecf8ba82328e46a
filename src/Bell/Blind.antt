-- ===== src/Bell/Blind.antt =====
-- What the text of a ring depends on (`deliver_doorbell` of tabus/doorbell.py).
use tabc.Prelude.{
  Bool, List, Option, Option-cases, [], ap, arith, if◌then◌else◌, inl, inr, map, none, refl, some,
  true, ◌∙◌, ◌∷◌, ◌≡◌,
}
use tabc.Text.{Text}
use tabc.Table.{find, order_by, select}
use tabc.Ledger.{Delivery, Ledger, Message, find_message, find_node}
use tabc.Bell.Queue.{Receipt}
use tabc.Bell.Senders.{
  Columns, Sender, bus_unread_senders, group_senders, is_filtered, is_unread_by, sender_le,
  sender_row, sender_rows,
}
use tabc.Bell.Deliver.{
  Site, deliver_by, deliver_doorbell, deliver_from, ring_message, route_for, unread_senders,
}

-- The same messages, with other subjects and bodies.
abbrev pub retold : (Message → Text) → (Message → Text) → Message → Message
retold subject body m = record m { subject = subject m; body = body m; body_hash = body m }

abbrev pub retold_ledger : (Message → Text) → (Message → Text) → Ledger → Ledger
retold_ledger subject body l = record l { messages = map (retold subject body) l.messages }

module _ (subject body : Message → Text) where
  retell : Option Message → Option Message
  retell none = none
  retell (some m) = some (retold subject body m)

  find-retold :
      (ms : List Message) (mid : Text)
      → find_message (map (retold subject body) ms) mid ≡ retell (find_message ms mid)
  unfolding find_message find retell
  find-retold [] mid = refl
  find-retold (m ∷ ms) mid = ground (arith, find-retold ms mid)

  sender_rows-retold :
      (c : Columns) (include_tac : Bool) (l : Ledger) (ds : List Delivery)
      → sender_rows c include_tac (retold_ledger subject body l) ds ≡ sender_rows c include_tac l ds
  unfolding sender_rows sender_row find_node retell
  sender_rows-retold c include_tac l [] = refl
  sender_rows-retold c include_tac l (d ∷ ds) =
      rw (find-retold l.messages d.message_id, sender_rows)
        (elim (Option-cases (find_message l.messages d.message_id)) [
          | inl e ↦ rw (e, sender_rows) (sender_rows-retold c include_tac l ds)
          | inr (m, e) ↦
              rw (e, sender_rows)
                (ap
                  (λ rows. if is_filtered c include_tac m then rows else sender_row c l d m ∷ rows)
                  (sender_rows-retold c include_tac l ds))
        ])

  route_for-retold :
      (w : Site) (l : Ledger) (node : Text)
      → route_for w (retold_ledger subject body l) node ≡ route_for w l node
  unfolding route_for
  route_for-retold w l node = refl

  unread_senders-retold :
      (w : Site) (l : Ledger) (node : Text)
      → unread_senders w (retold_ledger subject body l) node ≡ unread_senders w l node
  unfolding unread_senders bus_unread_senders
  unread_senders-retold w l node =
      ap
        (λ rows. if w.senders_open then some (order_by sender_le (group_senders [] rows)) else none)
        (sender_rows-retold w.columns true l (select (is_unread_by node) l.deliveries))

  deliver_from-retold :
      (w : Site) (l : Ledger) (node nid : Text) (rs : List Receipt) (o : Option (List Sender))
      → deliver_from w (retold_ledger subject body l) node nid rs o ≡ deliver_from w l node nid rs o
  unfolding deliver_from
  deliver_from-retold w l node nid rs none = refl
  deliver_from-retold w l node nid rs (some []) = refl
  deliver_from-retold w l node nid rs (some (s ∷ ss)) =
      elim (Option-cases (ring_message w (s ∷ ss))) [
        | inl e ↦ rw (e, deliver_from) refl
        | inr (m, e) ↦ rw (e, deliver_from) (ap (deliver_by w nid m rs) (route_for-retold w l node))
      ]

  -- Two ledgers that differ only in the subjects and bodies of their messages ring alike: the same
  -- text is typed into the same terminal, with the same outcome and the same receipts.
  pub deliver_doorbell-retold :
      (w : Site) (l : Ledger) (node nid : Text) (rs : List Receipt)
      → deliver_doorbell w (retold_ledger subject body l) node nid rs
        ≡ deliver_doorbell w l node nid rs
  unfolding deliver_doorbell
  deliver_doorbell-retold w l node nid rs =
      ap (deliver_from w (retold_ledger subject body l) node nid rs)
        (unread_senders-retold w l node)
      ∙ deliver_from-retold w l node nid rs (unread_senders w l node)
