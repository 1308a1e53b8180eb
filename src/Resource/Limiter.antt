-- ===== src/Resource/Limiter.antt =====
-- gateway/internal/resource/rate_limiter.go: a sliding window of requests for each address.
-- A time is a count of nanoseconds, and `time.Now()` is an argument. The map is an association list;
-- a key that is missing reads as the nil slice.
pub mod Times
pub mod Limit
use Prim.Native.String.{String}
use text.Mathlib.Text.{◌==◌ as str_eq}
use multi_terminal.Base.{
  ℕ, ◌+◌, Bool, true, false, List, [], ◌∷◌, ◌++◌, ltb, leb, if◌then◌else◌, length, keep,
}

abbrev pub Requests : Type 0
Requests = List (String × List ℕ)

pub record RateLimiter : Type 0 where
  pub requests : Requests
  pub window : ℕ
  pub max : ℕ

unfoldable pub new_rate_limiter : ℕ → ℕ → RateLimiter
new_rate_limiter window max = record { requests = []; window = window; max = max }

-- `rl.requests[ip]`
unfoldable pub times : String → Requests → List ℕ
times ip [] = []
times ip ((k, ts) ∷ m) = if str_eq k ip then ts else times ip m

-- `rl.requests[ip] = ts`
unfoldable pub set_times : String → List ℕ → Requests → Requests
set_times ip ts [] = (ip, ts) ∷ []
set_times ip ts ((k, us) ∷ m) = if str_eq k ip then (ip, ts) ∷ m else (k, us) ∷ set_times ip ts m

-- The times after `now - window`, free of subtraction.
abbrev pub recent : ℕ → ℕ → List ℕ → List ℕ
recent window now = keep (λ t. ltb now (t + window))

unfoldable pub allow : RateLimiter → String → ℕ → RateLimiter × Bool
allow rl ip now =
    let valid = recent rl.window now (times ip rl.requests) in
    if leb rl.max (length valid)
    then (record rl { requests = set_times ip valid rl.requests }, false)
    else (record rl { requests = set_times ip (valid ++ now ∷ []) rl.requests }, true)

-- An entry whose recent times are `valid`: it is deleted if there are none.
abbrev pub keep_entry : String → List ℕ → Requests → Requests
keep_entry ip [] rest = rest
keep_entry ip (t ∷ ts) rest = (ip, t ∷ ts) ∷ rest

unfoldable pub cleaned : ℕ → ℕ → Requests → Requests
cleaned window now [] = []
cleaned window now ((ip, ts) ∷ m) = keep_entry ip (recent window now ts) (cleaned window now m)

unfoldable pub cleanup : RateLimiter → ℕ → RateLimiter
cleanup rl now = record rl { requests = cleaned rl.window now rl.requests }
