-- ===== src/Bell/Acted.antt =====
-- The outcomes of `deliver_doorbell` that may raise the mark, and what stands behind them.
use tabc.Prelude.{
  Bool, Bool-cases, List, Option, Option-cases, [], arith, inl, inr, none, not, refl, some, true,
  ◌∷◌, ◌≡◌,
}
use tabc.Text.{Text, mem_text, text_eq, text_eq_iff}
use tabc.Table.{find}
use tabc.Table.Laws.{find-some}
use tabc.Ledger.{Ledger, Route}
use tabc.Doorbell.{is_suppressing}
use tabc.Bell.Queue.{Receipt}
use tabc.Bell.Senders.{Sender}
use tabc.Bell.Deliver.{
  RouteFound, Site, absent, deliver_by, deliver_doorbell, deliver_from, is_route_of, ring_message,
  route_for, routed, unread_senders, unreadable,
}
use tabc.Bell.Injected.{HasActed, Raises, dispatch-HasActed, unknown_never}

-- The ledger holds a route of the node that is not revoked, with this adapter and target.
pub IsRouted : Ledger → Text → Text → Text → Type 0
IsRouted l node adapter target =
    (r : Route) × (find (is_route_of node) l.tab_routes ≡ some r)
    × (r.node_id ≡ node)
    × (r.revoked_at ≡ none)
    × (r.adapter ≡ adapter)
    × (r.target ≡ target)

-- What stands behind an outcome that raises the mark: senders of unread mail, the sentence made of
-- them, a live route of the node, and an injector of that route that acted on the sentence.
pub record IsActed (w : Site) (l : Ledger) (node nid : Text) (rs : List Receipt) : Type 0 where
  pub sender : Sender
  pub others : List Sender
  pub message : Text
  pub adapter : Text
  pub target : Text
  pub enter : Bool
  pub found_senders : unread_senders w l node ≡ some (sender ∷ others)
  pub found_message : ring_message w (sender ∷ others) ≡ some message
  pub found_route : IsRouted l node adapter target
  pub acted : HasActed w adapter target enter nid message rs

is_route_of-facts :
    (node : Text) (r : Route)
    → is_route_of node r ≡ true
    → (r.node_id ≡ node) × (r.revoked_at ≡ none)
is_route_of-facts node r h = elim (Option-cases r.revoked_at) [
  | inl e ↦ ((text_eq_iff r.node_id node).0 (ground arith), e)
  | inr (at, e) ↦ absurd (ground (arith, rw e at h))
]

route_for-routed :
    (w : Site) (l : Ledger) (node adapter target : Text) (enter : Bool)
    → route_for w l node ≡ routed adapter target enter
    → IsRouted l node adapter target
unfolding route_for IsRouted
route_for-routed w l node adapter target enter h = elim (Bool-cases (not w.routes_open)) [
  | inl e ↦ absurd (ground (arith, rw (e, route_for) at h))
  | inr e ↦ elim (Option-cases (find (is_route_of node) l.tab_routes)) [
    | inl f ↦ absurd (ground (arith, rw (e, f, route_for) at h))
    | inr (r, f) ↦
        let g = rw (e, f, route_for) at h in
        let (n, v) = is_route_of-facts node r (find-some (is_route_of node) l.tab_routes f) in
        (r, f, n, v, ground arith, ground arith)
  ]
]

deliver_by-acted :
    (w : Site) (nid message : Text) (rs : List Receipt) (found : RouteFound)
    → Raises (deliver_by w nid message rs found).0.sent
    → (adapter : Text) × (target : Text) × (enter : Bool) × (found ≡ routed adapter target enter)
      × HasActed w adapter target enter nid message rs
unfolding deliver_by mem_text text_eq
deliver_by-acted w nid message rs unreadable h = absurd (ground arith)
deliver_by-acted w nid message rs absent h = absurd (ground arith)
deliver_by-acted w nid message rs (routed adapter target enter) h =
    (adapter, target, enter, refl, dispatch-HasActed w adapter target enter nid message rs h)

deliver_from-IsActed :
    (w : Site) (l : Ledger) (node nid : Text) (rs : List Receipt) (o : Option (List Sender))
    → unread_senders w l node ≡ o
    → Raises (deliver_from w l node nid rs o).0.sent
    → IsActed w l node nid rs
unfolding deliver_from mem_text text_eq
deliver_from-IsActed w l node nid rs none u h = absurd (ground arith)
deliver_from-IsActed w l node nid rs (some []) u h = absurd (ground arith)
deliver_from-IsActed w l node nid rs (some (s ∷ ss)) u h =
    elim (Option-cases (ring_message w (s ∷ ss))) [
      | inl e ↦ absurd (ground (arith, unknown_never, rw (e, deliver_from) at h))
      | inr (m, e) ↦
          let (adapter, target, enter, k, acted) =
            deliver_by-acted w nid m rs (route_for w l node) (rw (e, deliver_from) at h) in
          record {
            sender = s;
            others = ss;
            message = m;
            adapter = adapter;
            target = target;
            enter = enter;
            found_senders = u;
            found_message = e;
            found_route = route_for-routed w l node adapter target enter k;
            acted = acted;
          }
    ]

-- A ring has a SUPPRESSING outcome only where its command did its work: the ledger has an unrevoked
-- route of the node and senders of unread mail, and, for the sentence made of them, `tmux send-keys`
-- ended with 0 on the route's pane, or the script for the route's session ended with 0 and answered
-- 1 or -2, or the queue command ended with 0 and the line for the route's thread, or had been
-- receipted as queued before.
pub deliver_doorbell-IsActed :
    (w : Site) (l : Ledger) (node nid : Text) (rs : List Receipt)
    → is_suppressing (deliver_doorbell w l node nid rs).0.sent.outcome ≡ true
    → IsActed w l node nid rs
unfolding deliver_doorbell
deliver_doorbell-IsActed w l node nid rs h =
    deliver_from-IsActed w l node nid rs (unread_senders w l node) refl h
