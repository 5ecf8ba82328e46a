-- ===== src/Send/Recipients.antt =====
-- Who gets a message that the gates of `bus_send` let pass.
use tabc.Prelude.{
  ==_iff, All, All-map, Bool, Bool-cases, List, Option, [], ap, arith, false, inl, inr, length, map,
  none, not, some, sym, true, ◌&&◌, ◌==◌, ◌||◌, ◌∷◌, ◌≡◌, ◌≢◌,
}
use tabc.Text.{Text, is_nonempty, text_eq, text_eq_iff, txt}
use tabc.Text.Order.{text_le}
use tabc.Host.{Host}
use tabc.Ledger.{Ledger, Node, is_program_node, is_registered, is_removed, tac_exists}
use tabc.Table.{any, select}
use tabc.Table.Laws.{All-order_by, All-select, select-All}
use tabc.Tac.Resolve.{Resolved-cases, resolve, resolve_keeps}
use tabc.Send.Envelope.{>>=-eq_pass, Envelope, Gate, names_tac, pass, stop_if-eq_pass}
use tabc.Send.Gates.{
  Cleared, all_recipients, broadcast_recipients, clear, expand_all, is_closed_row, listed,
  open_tac_gate, others, programs_among, route, route_to, tac_gate, tac_members_of, unread_in,
  valid_among,
}
use tabc.Send.Cleared.{clear-stages, not-eq_false}

-- A node that may receive.
pub record Receives (l : Ledger) (t : Text) : Type 0 where
  pub registered : is_registered l t ≡ true
  pub active : is_removed l t ≡ false
  pub attended : is_program_node l t ≡ false

select-empty {ℓ} :
    {A : Type ℓ} (p : A → Bool) (xs : List A)
    → (length (select p xs) == 0) ≡ true
    → All (λ x. p x ≡ false) xs
unfolding select
select-empty p [] h = tt
select-empty p (x ∷ xs) h = elim (Bool-cases (p x)) [
  | inl e ↦ absurd (ground arith)
  | inr e ↦ (e, select-empty p xs (ground arith))
]

All-both {ℓ} :
    {A : Type ℓ} (P Q : A → Type 0) (xs : List A) → All P xs → All Q xs → All (λ x. P x × Q x) xs
All-both P Q [] h k = tt
All-both P Q (x ∷ xs) h k = ((h.0, k.0), All-both P Q xs h.1 k.1)

-- Every recipient of an envelope that passes the gates is a registered node that is not removed and
-- is no program, and there is at least one.
pub clear-Receives :
    (h : Host) (l : Ledger) (e : Envelope) (c : Cleared)
    → clear h l e ≡ pass c
    → All (Receives l) c.valid × ((length c.valid == 0) ≡ false)
clear-Receives h l e c s =
    let (_, _, _, (routed, r)) = clear-stages h l e c s in
    let named = expand_all l e.sender routed.1 in
    let valid_test = λ (t : Text). is_registered l t && not (is_removed l t) in
    let program_test = λ (t : Text). is_program_node l t && not (is_removed l t) in
    let both =
      All-both (λ t. program_test t ≡ false) (λ t. valid_test t ≡ true) (select valid_test named)
        (All-select (λ t. program_test t ≡ false) valid_test named
          (select-empty program_test named (unfold programs_among in r.no_program)))
        (select-All valid_test named) in
    (
      rw (r.valid_kept) (
          unfold valid_among in
          All-map (λ t. (program_test t ≡ false) × (valid_test t ≡ true)) (Receives l)
            (λ t k. record {
              registered = ground (arith, k);
              active = ground (arith, k);
              attended = ground (arith, k);
            })
            (select valid_test named) both),
      r.some_valid,
    )

pair_injective :
    (a b : Text × List Text) → ◌≡◌ {A = Gate (Text × List Text)} (pass a) (pass b) → a ≡ b
pair_injective a b h = cc

pub routed_injective :
    (a b : Option Text × List Text)
    → ◌≡◌ {A = Gate (Option Text × List Text)} (pass a) (pass b)
    → a ≡ b
routed_injective a b h = cc

abbrev NotSender : Envelope → Text → Type 0
NotSender e t = text_eq t e.sender ≡ false

others-NotSender : (e : Envelope) (ts : List Text) → All (NotSender e) (others e.sender ts)
unfolding others
others-NotSender e ts =
    All-map (λ t. not (text_eq t e.sender) ≡ true) (NotSender e) (λ t h. ground arith)
      (select (λ t. not (text_eq t e.sender)) ts) (select-All (λ t. not (text_eq t e.sender)) ts)

All-of_map {ℓ κ} :
    {A : Type ℓ} {B : Type κ} (P : B → Type 0) (f : A → B) (xs : List A)
    → All (λ x. P (f x)) xs
    → All P (map f xs)
All-of_map P f [] h = tt
All-of_map P f (x ∷ xs) h = (h.0, All-of_map P f xs h.1)

all_recipients-NotSender :
    (l : Ledger) (e : Envelope) → All (NotSender e) (all_recipients l e.sender)
unfolding all_recipients
all_recipients-NotSender l e =
    let p = λ (n : Node). not (text_eq n.node_id e.sender) && not (is_removed l n.node_id) in
    All-order_by (NotSender e) text_le (map Node.node_id (select p l.nodes)) (
      All-of_map (NotSender e) Node.node_id (select p l.nodes) (
        All-map (λ n. p n ≡ true) (λ n. NotSender e n.node_id) (λ n k. ground arith)
          (select p l.nodes) (select-All p l.nodes)))

expand_all-NotSender :
    (l : Ledger) (e : Envelope) (ts : List Text)
    → All (NotSender e) ts
    → All (NotSender e) (expand_all l e.sender ts)
unfolding expand_all
expand_all-NotSender l e [] h = tt
expand_all-NotSender l e (t ∷ []) h = elim (Bool-cases (text_eq t (txt "all"))) [
  | inl k ↦ rw k (all_recipients-NotSender l e)
  | inr k ↦ rw k h
]
expand_all-NotSender l e (t ∷ u ∷ ts) h = h

-- The envelope is for a group, a tac or everyone, and not for recipients that the sender listed.
abbrev pub is_for_group : Envelope → Bool
is_for_group e = e.broadcast || names_tac e.tac

-- A tac that lets the sender speak.
pub record IsOpenTac (l : Ledger) (sender tac : Text) : Type 0 where
  pub there : tac_exists l tac ≡ true
  pub open_yet : any (is_closed_row tac) l.tacs ≡ false
  pub all_opened : unread_in l sender tac ≡ 0

open_tac_gate-pass :
    (l : Ledger) (sender given tac : Text) (p : Text × List Text)
    → open_tac_gate l sender given tac ≡ pass p
    → IsOpenTac l sender tac × (p.0 ≡ tac) × (p.1 ≡ others sender (tac_members_of l tac))
unfolding open_tac_gate
open_tac_gate-pass l sender given tac p h =
    let (p0, s0) = stop_if-eq_pass _ _ _ h in
    let (p1, s1) = stop_if-eq_pass _ _ _ s0 in
    let (p2, s2) = stop_if-eq_pass _ _ _ s1 in
    let (p3, s3) = stop_if-eq_pass _ _ _ s2 in
    let same = pair_injective (tac, others sender (tac_members_of l tac)) p s3 in
    (
      record {
        there = not-eq_false (tac_exists l tac) p0;
        open_yet = p1;
        all_opened = (==_iff (unread_in l sender tac) 0).0 (not-eq_false _ p2);
      },
      sym (ap (λ (q : Text × List Text). q.0) same),
      sym (ap (λ (q : Text × List Text). q.1) same),
    )

pub tac_gate-pass :
    (l : Ledger) (sender given : Text) (p : Text × List Text)
    → tac_gate l sender given ≡ pass p
    → IsOpenTac l sender given × (p.0 ≡ given) × (p.1 ≡ others sender (tac_members_of l given))
unfolding tac_gate
tac_gate-pass l sender given p h = elim (Resolved-cases (resolve l given)) [
  | inl (r, k) ↦ absurd (ground arith)
  | inr (tac, k) ↦
      let g = open_tac_gate-pass l sender given tac p (rw (k, tac_gate) at h) in
      rw (sym (resolve_keeps l given tac k).0) g
]

listed-NotSender : (l : Ledger) (e : Envelope) → e.broadcast ≡ true → All (NotSender e) (listed l e)
unfolding listed
listed-NotSender l e b = rw b (others-NotSender e (broadcast_recipients l))

route_to-NotSender :
    (l : Ledger) (e : Envelope) (tac : Option Text) (p : Option Text × List Text)
    → (e.broadcast || names_tac tac) ≡ true
    → route_to l e tac ≡ pass p
    → All (NotSender e) p.1
unfolding route_to
route_to-NotSender l e none p g h =
    rw (sym (ap (λ (q : Option Text × List Text). q.1) (routed_injective (none, listed l e) p h)))
      (listed-NotSender l e (ground arith))
route_to-NotSender l e (some given) p g h = elim (Bool-cases (is_nonempty given)) [
  | inl n ↦
      let (q, t, u) = >>=-eq_pass (tac_gate l e.sender given) _ (rw n at h) in
      rw (sym (ap (λ (q : Option Text × List Text). q.1) (routed_injective (some q.0, q.1) p u)))
        (rw ((tac_gate-pass l e.sender given q t).2) (others-NotSender e (tac_members_of l given)))
  | inr n ↦
      rw
        (sym (
          ap (λ (q : Option Text × List Text). q.1)
            (routed_injective (some given, listed l e) p (rw n at h))))
        (listed-NotSender l e (ground arith))
]

-- The sender of an announcement or of a tac message is not among its recipients.
pub clear-NotSender :
    (h : Host) (l : Ledger) (e : Envelope) (c : Cleared)
    → is_for_group e ≡ true
    → clear h l e ≡ pass c
    → All (λ t. t ≢ e.sender) c.valid
clear-NotSender h l e c g s =
    let (_, _, _, (routed, r)) = clear-stages h l e c s in
    let named = expand_all l e.sender routed.1 in
    All-map (NotSender e) (λ t. t ≢ e.sender) (λ t k q. cc (k, (text_eq_iff t e.sender).1 q))
      c.valid
      (rw (r.valid_kept) (
        unfold valid_among in
        All-select (NotSender e) (λ t. is_registered l t && not (is_removed l t)) named
          (expand_all-NotSender l e routed.1
            (route_to-NotSender l e e.tac routed g (unfold route in r.to)))))
