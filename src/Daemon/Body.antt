-- ===== src/Daemon/Body.antt =====
-- The reading of a request's body in tabus/daemon.py: `_read_declared_body`, `_refused_body_read`
-- and `_refused_length`. Time is in microseconds since the reading began.
use tabc.Prelude.{
  ==_iff, Bool, List, [], arith, false, if◌then◌else◌, leb, length, length-append, length-take-le,
  ltb, refl, take, true, ℕ, ◌++◌, ◌+◌, ◌-◌, ◌<◌, ◌==◌, ◌∷◌, ◌≡◌, ◌≢◌, ◌≤◌,
}

-- SOCKET_IDLE_SEC and BODY_READ_SEC
abbrev pub idle_limit : ℕ
idle_limit = 3000000

abbrev pub read_limit : ℕ
read_limit = 30000000

-- What the socket has next: so long after the last read, these bytes, none where the peer is done.
pub record Arrival : Type 0 where
  pub after : ℕ
  pub bytes : List ℕ

-- "whole", "timeout" or "short", and a read that raised, which drops the request
pub data Ending : Type 0 where
  whole timeout short dropped : Ending

pub record BodyRead : Type 0 where
  pub bytes : List ℕ
  pub ending : Ending
  pub elapsed : ℕ

abbrev pub body_read : List ℕ → Ending → ℕ → BodyRead
body_read bytes ending elapsed = record { bytes = bytes; ending = ending; elapsed = elapsed }

unfoldable pub smaller : ℕ → ℕ → ℕ
smaller a b = if ltb b a then b else a

-- a wait that ran out: this limit, or the idle limit of the socket
unfoldable pub expired : ℕ → List ℕ → BodyRead
expired elapsed got =
    let wait = smaller idle_limit (read_limit - elapsed) in
    if leb read_limit (elapsed + wait)
    then body_read got timeout (elapsed + wait)
    else body_read got dropped (elapsed + wait)

-- `while left > 0`, over what arrives; after the last arrival nothing ever comes
unfoldable pub read_loop : ℕ → ℕ → List ℕ → List Arrival → BodyRead
read_loop elapsed left got [] =
    if left == 0
    then body_read got whole elapsed
    else if leb read_limit elapsed
    then body_read got timeout elapsed
    else expired elapsed got
read_loop elapsed left got (a ∷ arrivals) =
    let chunk = take left a.bytes in
    let rest = read_loop (elapsed + a.after) (left - length chunk) (got ++ chunk) arrivals in
    if left == 0
    then body_read got whole elapsed
    else if leb read_limit elapsed
    then body_read got timeout elapsed
    else if ltb (smaller idle_limit (read_limit - elapsed)) a.after
    then expired elapsed got
    else if length a.bytes == 0
    then body_read got short (elapsed + a.after)
    else rest

unfoldable pub read_declared_body : ℕ → List Arrival → BodyRead
read_declared_body declared arrivals = read_loop 0 declared [] arrivals

-- The answer of `_refused_body_read`: the request goes on with its whole body, or gets 408 or 400, or
-- no answer.
pub data BodyAnswer : Type 0 where
  goes_on : List ℕ → BodyAnswer
  too_slow incomplete unanswered : BodyAnswer

unfoldable pub refused_body_read : BodyRead → BodyAnswer
refused_body_read r = elim r.ending [
  | whole ↦ goes_on r.bytes
  | timeout ↦ too_slow
  | short ↦ incomplete
  | dropped ↦ unanswered
]

-- What the loop keeps: no more than was declared, no longer than the limit.
pub record IsBoundedRead (declared : ℕ) (r : BodyRead) : Type 0 where
  pub size : length r.bytes ≤ declared
  pub time : r.elapsed ≤ read_limit
  pub complete : (r.ending ≡ whole → length r.bytes ≡ declared)
  pub partial : (length r.bytes ≡ declared → r.ending ≡ whole)

timeout-ne : timeout ≢ whole
timeout-ne h = ground arith

dropped-ne : dropped ≢ whole
dropped-ne h = ground arith

short-ne : short ≢ whole
short-ne h = ground arith

body_read-IsBoundedRead :
    (declared : ℕ) (got : List ℕ) (elapsed : ℕ) (e : Ending)
    → length got < declared
    → elapsed ≤ read_limit
    → e ≢ whole
    → IsBoundedRead declared (body_read got e elapsed)
body_read-IsBoundedRead declared got elapsed e l t n = record {
  size = omega arith;
  time = t;
  complete = λ w. absurd (n w);
  partial = λ w. absurd (omega arith);
}

if-IsBoundedRead :
    (declared : ℕ) (b : Bool) (x y : BodyRead)
    → (b ≡ true → IsBoundedRead declared x)
    → (b ≡ false → IsBoundedRead declared y)
    → IsBoundedRead declared (if b then x else y)
if-IsBoundedRead declared true x y hx hy = hx refl
if-IsBoundedRead declared false x y hx hy = hy refl

whole-IsBoundedRead :
    (declared left : ℕ) (got : List ℕ) (elapsed : ℕ)
    → length got + left ≡ declared
    → elapsed ≤ read_limit
    → (left == 0) ≡ true
    → IsBoundedRead declared (body_read got whole elapsed)
whole-IsBoundedRead declared left got elapsed h t z =
    let k : left ≡ 0 = (==_iff left 0).0 z in
    record { size = omega arith; time = t; complete = λ w. omega arith; partial = λ w. refl }

smaller-le : (a b : ℕ) → (smaller a b ≤ a) × (smaller a b ≤ b)
unfolding smaller
smaller-le a b = ground arith

expired-IsBoundedRead :
    (declared elapsed : ℕ) (got : List ℕ)
    → length got < declared
    → elapsed ≤ read_limit
    → IsBoundedRead declared (expired elapsed got)
unfolding expired
expired-IsBoundedRead declared elapsed got l t =
    let w = smaller-le idle_limit (read_limit - elapsed) in
    if-IsBoundedRead declared (leb read_limit (elapsed + smaller idle_limit (read_limit - elapsed)))
      _ _ (λ _. body_read-IsBoundedRead declared got _ timeout l (omega (arith, w)) timeout-ne)
      (λ _. body_read-IsBoundedRead declared got _ dropped l (omega (arith, w)) dropped-ne)

read_loop-IsBoundedRead :
    (declared elapsed left : ℕ) (got : List ℕ) (more : List Arrival)
    → length got + left ≡ declared
    → elapsed ≤ read_limit
    → IsBoundedRead declared (read_loop elapsed left got more)
unfolding read_loop
read_loop-IsBoundedRead declared elapsed left got [] h t =
    if-IsBoundedRead declared (left == 0) _ _
      (λ z. whole-IsBoundedRead declared left got elapsed h t z)
      (λ z.
        if-IsBoundedRead declared (leb read_limit elapsed) _ _
          (λ _. body_read-IsBoundedRead declared got elapsed timeout (ground arith) t timeout-ne)
          (λ _. expired-IsBoundedRead declared elapsed got (ground arith) t))
read_loop-IsBoundedRead declared elapsed left got (a ∷ more) h t =
    let chunk = take left a.bytes in
    let held = length-take-le left a.bytes in
    if-IsBoundedRead declared (left == 0) _ _
      (λ z. whole-IsBoundedRead declared left got elapsed h t z)
      (λ z.
        if-IsBoundedRead declared (leb read_limit elapsed) _ _
          (λ _. body_read-IsBoundedRead declared got elapsed timeout (ground arith) t timeout-ne)
          (λ e.
            if-IsBoundedRead declared (ltb (smaller idle_limit (read_limit - elapsed)) a.after) _ _
              (λ _. expired-IsBoundedRead declared elapsed got (ground arith) t)
              (λ w.
                let late : elapsed + a.after ≤ read_limit =
                  ground (arith, smaller-le idle_limit (read_limit - elapsed)) in
                if-IsBoundedRead declared (length a.bytes == 0) _ _
                  (λ _. body_read-IsBoundedRead declared got _ short (ground arith) late short-ne)
                  (λ _.
                    read_loop-IsBoundedRead declared (elapsed + a.after) (left - length chunk)
                      (got ++ chunk) more (omega (arith, length-append got chunk, held)) late))))

-- Whatever the peer sends and when: the daemon holds no more bytes than were declared, it waits 30
-- seconds at most, and it takes the body as whole exactly when it has every declared byte.
pub read_declared_body-IsBoundedRead :
    (declared : ℕ) (arrivals : List Arrival)
    → IsBoundedRead declared (read_declared_body declared arrivals)
unfolding read_declared_body
read_declared_body-IsBoundedRead declared arrivals =
    read_loop-IsBoundedRead declared 0 declared [] arrivals (omega arith) (omega arith)
