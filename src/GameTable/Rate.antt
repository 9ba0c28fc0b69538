-- ===== src/GameTable/Rate.antt =====
-- The token bucket of table.ts. A bucket holds fractions of a token there; here its content is
-- counted in 250ths of a token. Four tokens a second are one such part a millisecond, so the
-- model's numbers are whole and exact.
use olive_branch.Prelude.{
  ℕ, suc, ◌+◌, ◌-◌, ◌*◌, ◌≤◌, min, ◌≡◌, refl, Bool, true, false, List, [], ◌∷◌, ltb, if◌then◌else◌,
  arith, length, ap, ◌/◌,
}

abbrev pub parts : ℕ
parts = 250

-- `RATE_CAPACITY` is 8 tokens.
abbrev pub rate_capacity : ℕ
rate_capacity = 8 * parts

pub record RateBucket : Type 0 where
  pub tokens : ℕ
  pub last_ms : ℕ

unfoldable pub new_rate_bucket : ℕ → RateBucket
new_rate_bucket now = record { tokens = rate_capacity; last_ms = now }

-- `Math.max(0, …)` is the truncated difference.
abbrev pub refilled : RateBucket → ℕ → ℕ
refilled b now = min rate_capacity (b.tokens + (now - b.last_ms))

unfoldable pub take_rate_token : RateBucket → ℕ → Bool × RateBucket
take_rate_token b now =
    if ltb (refilled b now) parts
    then (false, record { tokens = refilled b now; last_ms = now })
    else (true, record { tokens = refilled b now - parts; last_ms = now })

-- How many of the requests at these times are let through, and the bucket after them.
unfoldable pub take_all : RateBucket → List ℕ → ℕ × RateBucket
take_all b [] = (0, b)
take_all b (t ∷ ts) =
    let (ok, next) = take_rate_token b t in
    let (n, last) = take_all next ts in (if ok then suc n else n, last)

-- The times do not go back.
abbrev pub Rising : ℕ → List ℕ → Type 0
Rising from [] = Unit
Rising from (t ∷ ts) = (from ≤ t) × Rising t ts

abbrev pub last_time : ℕ → List ℕ → ℕ
last_time from [] = from
last_time from (t ∷ ts) = last_time t ts

take-step :
    (b : RateBucket) (t : ℕ)
    → b.last_ms ≤ t
    → ((take_rate_token b t).1.last_ms ≡ t)
      × ((if (take_rate_token b t).0 then parts else 0) + (take_rate_token b t).1.tokens
          ≤ b.tokens + (t - b.last_ms))
unfolding take_rate_token
take-step b t h = ground arith

take_all-conserves :
    (b : RateBucket) (from : ℕ) (ts : List ℕ)
    → b.last_ms ≡ from
    → Rising from ts
    → parts * (take_all b ts).0 + from ≤ b.tokens + last_time from ts
unfolding take_all
take_all-conserves b from [] e h = omega arith
take_all-conserves b from (t ∷ ts) e (le, h) =
    let (at_t, spent) = take-step b t (omega arith) in
    ground (arith, e, le, spent, take_all-conserves (take_rate_token b t).1 t ts at_t h)

-- However the requests come, as long as their times do not go back, a fresh bucket lets through at
-- most its burst of eight and one more for each quarter of a second that has passed since it was
-- made.
pub take_all-le :
    (now : ℕ) (ts : List ℕ)
    → Rising now ts
    → (take_all (new_rate_bucket now) ts).0 ≤ 8 + (last_time now ts - now) / parts
unfolding new_rate_bucket
take_all-le now ts h = omega (arith, take_all-conserves (new_rate_bucket now) now ts refl h)

-- Each request comes at least a quarter of a second after the one before.
abbrev pub Spaced : ℕ → List ℕ → Type 0
Spaced from [] = Unit
Spaced from (t ∷ ts) = (from + parts ≤ t) × Spaced t ts

take-spaced :
    (b : RateBucket) (t : ℕ)
    → b.last_ms + parts ≤ t
    → ((take_rate_token b t).0 ≡ true) × ((take_rate_token b t).1.last_ms ≡ t)
unfolding take_rate_token
take-spaced b t h = ground arith

-- Whatever a bucket holds, requests at least a quarter of a second apart all get through.
pub take_all-Spaced :
    (b : RateBucket) (ts : List ℕ) → Spaced b.last_ms ts → (take_all b ts).0 ≡ length ts
unfolding take_all
take_all-Spaced b [] h = refl
take_all-Spaced b (t ∷ ts) (gap, h) =
    let (ok, at_t) = take-spaced b t gap in
    rw (ok, take_all) (ap suc (take_all-Spaced (take_rate_token b t).1 ts (rw at_t h)))
