-- ===== src/Delivery/Follows.antt =====
-- How the life of one delivery may go on: the ladder of its states. The one way back is from CLAIMED
-- to ACCEPTED, when a lease lapses.
use tabc.Prelude.{Bool, List, arith, false, refl, true, ◌∙◌, ◌≡◌, ◌≤◌}
use tabc.Ledger.{Delivery, State, accepted, claimed, dead, injected, processed, quarantined, read}
use tabc.Table.{update_where}
use tabc.Table.Pairs.{Pairs, Pairs-refl, Pairs-trans, Pairs-update_where}

-- The states that a delivery in the first state may be in later.
abbrev pub leads_to : State → State → Bool
leads_to accepted _ = true
leads_to claimed _ = true
leads_to injected injected = true
leads_to injected read = true
leads_to injected processed = true
leads_to read read = true
leads_to read processed = true
leads_to processed processed = true
leads_to quarantined quarantined = true
leads_to dead dead = true
leads_to _ _ = false

pub record Follows (d e : Delivery) : Type 0 where
  pub same_id : e.id ≡ d.id
  pub same_message : e.message_id ≡ d.message_id
  pub same_recipient : e.recipient_id ≡ d.recipient_id
  pub same_creation : e.created_at ≡ d.created_at
  pub ladder : leads_to d.state e.state ≡ true
  pub never_fewer : d.attempts ≤ e.attempts

leads_to_refl : (s : State) → leads_to s s ≡ true
leads_to_refl accepted = refl
leads_to_refl _ = refl

leads_to_trans : (s t u : State) → leads_to s t ≡ true → leads_to t u ≡ true → leads_to s u ≡ true
leads_to_trans accepted _ _ h k = refl
leads_to_trans s t u h k = ground arith

pub Follows-refl : (d : Delivery) → Follows d d
Follows-refl d = record {
  same_id = refl;
  same_message = refl;
  same_recipient = refl;
  same_creation = refl;
  ladder = leads_to_refl d.state;
  never_fewer = omega arith;
}

pub Follows-trans : (c d e : Delivery) → Follows c d → Follows d e → Follows c e
Follows-trans c d e f g = record {
  same_id = g.same_id ∙ f.same_id;
  same_message = g.same_message ∙ f.same_message;
  same_recipient = g.same_recipient ∙ f.same_recipient;
  same_creation = g.same_creation ∙ f.same_creation;
  ladder = leads_to_trans c.state d.state e.state f.ladder g.ladder;
  never_fewer = omega arith;
}

abbrev pub Onward : List Delivery → List Delivery → Type 0
Onward = Pairs Follows

pub Onward-refl : (ds : List Delivery) → Onward ds ds
Onward-refl = Pairs-refl Follows Follows-refl

pub Onward-trans : (a b c : List Delivery) → Onward a b → Onward b c → Onward a c
Onward-trans = Pairs-trans Follows Follows-trans

pub Onward-update :
    (p : Delivery → Bool) (f : Delivery → Delivery)
    → ((d : Delivery) → p d ≡ true → Follows d (f d))
    → (ds : List Delivery) → Onward ds (update_where p f ds)
Onward-update = Pairs-update_where Follows Follows-refl
