-- ===== src/Tests/Requests.antt =====
-- The theorems on the daemon, at requests of alice and a hash that shifts each character.
use tabc.Prelude.{
  List, [], arith, false, map, none, refl, replicate, some, true, ℕ, ◌+◌, ◌∷◌, ◌≡◌, ◌⊎◌,
}
use tabc.Text.{Text, text_eq, txt}
use tabc.Text.Unicode.{all_chars}
use tabc.Host.{Host}
use tabc.Ledger.{Ledger, accepted}
use tabc.Bell.{pos}
use tabc.Payload.Length.{declared_length}
use tabc.Daemon.Base58.{b58decode, b58encode}
use tabc.Daemon.Auth.{Calls, HttpRequest, acting_key, authorized, outside_window}
use tabc.Daemon.Bound.{Collision, canonical_request-eq, is_line}
use tabc.Daemon.Signed.{IsSigned, authorized-IsSigned, authorized-replay}
use tabc.Daemon.Body.{
  Arrival, IsBoundedRead, body_read, dropped, read_declared_body, read_declared_body-IsBoundedRead,
  whole,
}
use tabc.Daemon.Endpoints.{Post, Serving, do_post, post_beat}
use tabc.Daemon.Recoded.{b58decode-b58encode}
use tabc.Daemon.Rotate.{bus_rotate_key, bus_rotate_key-acting_key, rotated}
use tabc.Tests.Data.{alice, bob, host, node_named, office}

-- two leading zeros and two bytes
abbrev some_bytes : List ℕ
some_bytes = 0 ∷ 0 ∷ 1 ∷ 255 ∷ []

encoded_bytes : b58encode some_bytes ≡ txt "119p"
unfolding b58encode tabc.Daemon.Base58.leading tabc.Daemon.Base58.base_digits
    tabc.Daemon.Base58.digits_onto tabc.Daemon.Base58.value_from tabc.Daemon.Base58.char_at
encoded_bytes = refl

b58decode-b58encode_example : b58decode (b58encode some_bytes) ≡ some some_bytes
b58decode-b58encode_example =
    b58decode-b58encode some_bytes (omega arith, (omega arith, (omega arith, (omega arith, tt))))

abbrev shifting : Host
shifting = record host { sha256 = map (λ c. c + 11) }

shifting-line : (s : Text) → is_line (shifting.sha256 s) ≡ true
unfolding all_chars
shifting-line [] = refl
shifting-line (a ∷ s) = ground (arith, shifting-line s)

canonical_request-eq_example :
    ((alice ≡ alice)
      × (txt "POST" ≡ txt "POST")
      × (txt "/ack" ≡ txt "/ack")
      × (txt "a\nb" ≡ txt "a\nb")
      × (txt "9" ≡ txt "9"))
    ⊎ Collision shifting
canonical_request-eq_example =
    canonical_request-eq shifting shifting-line alice (txt "POST") (txt "/ack") (txt "a\nb")
      (txt "9") alice (txt "POST") (txt "/ack") (txt "a\nb") (txt "9") refl

-- a signature is the single byte 1
abbrev calls : Calls
calls = record {
  int = λ t. some (pos 9);
  pubkey_of = λ b. none;
  decode = λ b. b;
  verifies = λ key msg sig. text_eq sig (1 ∷ []);
}

abbrev signed_by_alice : List ℕ → HttpRequest
signed_by_alice body = record {
  command = txt "POST";
  path = txt "/beat";
  node = alice;
  ts = txt "9";
  sig = txt "2";
  body = body;
}

abbrev keyed : Ledger
keyed = record (office accepted 0) {
  nodes = record (node_named alice false) { node_pubkey = some (txt "2") } ∷ [];
}

alice_passes : authorized shifting calls 10 keyed (signed_by_alice (7 ∷ [])) ≡ none
unfolding authorized tabc.Daemon.Auth.distance tabc.Daemon.Auth.check_key acting_key
    tabc.Ledger.find_node tabc.Table.find text_eq tabc.Daemon.Auth.check_signature b58decode
    tabc.Daemon.Base58.indices tabc.Daemon.Base58.index_in tabc.Daemon.Auth.verify
    tabc.Daemon.Base58.leading tabc.Daemon.Base58.base_digits tabc.Daemon.Base58.digits_onto
    tabc.Daemon.Base58.value_from
alice_passes = refl

authorized-IsSigned_example : IsSigned shifting calls 10 keyed (signed_by_alice (7 ∷ []))
authorized-IsSigned_example =
    authorized-IsSigned shifting calls 10 keyed (signed_by_alice (7 ∷ [])) alice_passes

authorized-replay_example :
    authorized shifting calls 1000 keyed (signed_by_alice (7 ∷ [])) ≡ some outside_window
authorized-replay_example =
    authorized-replay shifting calls 10 1000 keyed keyed (signed_by_alice (7 ∷ [])) alice_passes
      (omega arith)

-- a byte after a second, and another after two more
abbrev trickle : List Arrival
trickle =
    record { after = 1000000; bytes = 7 ∷ [] } ∷ record { after = 2000000; bytes = 8 ∷ 9 ∷ [] } ∷ []

trickled : read_declared_body 2 trickle ≡ body_read (7 ∷ 8 ∷ []) whole 3000000
unfolding read_declared_body tabc.Daemon.Body.read_loop tabc.Daemon.Body.smaller
trickled = refl

stalled : (read_declared_body 4 trickle).ending ≡ dropped
unfolding read_declared_body tabc.Daemon.Body.read_loop tabc.Daemon.Body.smaller
    tabc.Daemon.Body.expired
stalled = refl

read_declared_body-IsBoundedRead_example : IsBoundedRead 2 (read_declared_body 2 trickle)
read_declared_body-IsBoundedRead_example = read_declared_body-IsBoundedRead 2 trickle

abbrev serving : Serving
serving = record {
  host = shifting;
  calls = calls;
  now = 10000000;
  now_seconds = 10;
  fresh = txt "u";
  ringer = λ r. true;
  local_instance = txt "i";
  local_boot = txt "b";
}

abbrev beat_of : Text → List ℕ → Post
beat_of node body = post_beat node

alice_beats :
    (do_post serving (some (txt "2") ∷ []) trickle signed_by_alice (beat_of alice) keyed).0 ≡ 200
unfolding do_post tabc.Payload.Length.request_length_refusal declared_length
    tabc.Payload.Length.one_length tabc.Payload.Length.raw_length tabc.Text.Unicode.strip all_chars
    tabc.Payload.Length.length_of_digits tabc.Payload.Length.digits_of tabc.Payload.Length.agree
    tabc.Payload.Length.decimal tabc.Daemon.Endpoints.serve_body tabc.Daemon.Body.refused_body_read
    read_declared_body tabc.Daemon.Body.read_loop tabc.Daemon.Body.smaller authorized
    tabc.Daemon.Auth.distance tabc.Daemon.Auth.check_key acting_key tabc.Ledger.find_node
    tabc.Table.find text_eq tabc.Daemon.Auth.check_signature b58decode tabc.Daemon.Base58.indices
    tabc.Daemon.Base58.index_in tabc.Daemon.Auth.verify tabc.Daemon.Base58.leading
    tabc.Daemon.Base58.base_digits tabc.Daemon.Base58.digits_onto tabc.Daemon.Base58.value_from
    tabc.Daemon.Endpoints.handle_signed tabc.Daemon.Endpoints.own_node
    tabc.Daemon.Endpoints.handle_post tabc.Nodes.Admin.bus_beat tabc.Ledger.is_removed
    tabc.Table.any tabc.Table.count
alice_beats = refl

bob_refused :
    (do_post serving (some (txt "2") ∷ []) trickle signed_by_alice (beat_of bob) keyed).0 ≡ 403
unfolding do_post tabc.Payload.Length.request_length_refusal declared_length
    tabc.Payload.Length.one_length tabc.Payload.Length.raw_length tabc.Text.Unicode.strip all_chars
    tabc.Payload.Length.length_of_digits tabc.Payload.Length.digits_of tabc.Payload.Length.agree
    tabc.Payload.Length.decimal tabc.Daemon.Endpoints.serve_body tabc.Daemon.Body.refused_body_read
    read_declared_body tabc.Daemon.Body.read_loop tabc.Daemon.Body.smaller authorized
    tabc.Daemon.Auth.distance tabc.Daemon.Auth.check_key acting_key tabc.Ledger.find_node
    tabc.Table.find text_eq tabc.Daemon.Auth.check_signature b58decode tabc.Daemon.Base58.indices
    tabc.Daemon.Base58.index_in tabc.Daemon.Auth.verify tabc.Daemon.Base58.leading
    tabc.Daemon.Base58.base_digits tabc.Daemon.Base58.digits_onto tabc.Daemon.Base58.value_from
    tabc.Daemon.Endpoints.handle_signed tabc.Daemon.Endpoints.own_node
bob_refused = refl

-- 32 bytes
abbrev new_key : Text
new_key = replicate 32 b'1'

key_rotates : (bus_rotate_key 9 alice new_key none keyed).0 ≡ rotated
unfolding bus_rotate_key tabc.Daemon.Rotate.key_problem b58decode tabc.Daemon.Base58.indices
    tabc.Daemon.Base58.index_in tabc.Daemon.Base58.leading tabc.Daemon.Base58.base_digits
    tabc.Daemon.Base58.digits_onto tabc.Daemon.Base58.value_from tabc.Ledger.find_node
    tabc.Table.find text_eq
key_rotates = refl

bus_rotate_key-acting_key_example :
    acting_key calls (bus_rotate_key 9 alice new_key none keyed).1 (signed_by_alice [])
    ≡ some new_key
bus_rotate_key-acting_key_example =
    bus_rotate_key-acting_key calls 9 alice new_key none keyed (signed_by_alice []) key_rotates refl
