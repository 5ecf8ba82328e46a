-- ===== src/Daemon/Guarded.antt =====
-- What reaches the bus through `do_POST` of tabus/daemon.py.
use tabc.Prelude.{List, length, ℕ, ◌≡◌}
use tabc.Text.{Text}
use tabc.Ledger.{Ledger}
use tabc.Daemon.Auth.{HttpRequest}
use tabc.Daemon.Signed.{IsSigned}
use tabc.Daemon.Endpoints.{
  Post, Serving, handle_post, post_ack, post_beat, post_nowhere, post_register, post_remove,
  post_reopen, post_restore, post_send, post_snooze,
}

-- Who may ask for what: registering, beating, snoozing, reopening, acknowledging and sending are for
-- the node itself; removing and restoring name no node that must sign.
pub IsOwn : Post → Text → Type 0
IsOwn (post_register q) node = q.node_id ≡ node
IsOwn (post_beat n) node = n ≡ node
IsOwn (post_snooze n minutes) node = n ≡ node
IsOwn (post_reopen n mid) node = n ≡ node
IsOwn (post_ack n mid state) node = n ≡ node
IsOwn (post_send e) node = e.sender ≡ node
IsOwn (post_remove n purging by) node = Unit
IsOwn (post_restore n by) node = Unit
IsOwn post_nowhere node = Unit

-- The request was read in full, it is signed, and it is the signing node's to make.
pub record IsHandled (v : Serving) (request : List ℕ → HttpRequest) (parse : List ℕ → Post)
    (l : Ledger) (declared : ℕ) (answer : ℕ × Ledger) : Type 0 where
  pub body : List ℕ
  pub full : length body ≡ declared
  pub signed : IsSigned v.host v.calls v.now_seconds l (request body)
  pub own : IsOwn (parse body) (request body).node
  pub handled : answer ≡ handle_post v (parse body) l
