-- ===== src/Resource/Limiter/Limit.antt =====
-- The promise of the limiter: at most `max` requests of an address in every window.
use Prim.Native.String.{String}
use text.Mathlib.Text.{◌==◌ as str_eq}
use text.Mathlib.TextEquality.{eq_iff}
use native.Mathlib.Decide.{dec_lt}
use multi_terminal.Base.{
  ℕ, ◌+◌, ◌≤◌, ◌<◌, ◌≡◌, ◌↔◌, ◌⊎◌, refl, sym, ap, ◌∙◌, Bool, true, false, List, [], ◌∷◌, ◌++◌, ltb,
  if◌then◌else◌, length, length-append, arith, Bool-cases, inl, inr, length-keep-le, append-nil,
}
use multi_terminal.Resource.Limiter.{
  RateLimiter, new_rate_limiter, times, set_times, recent, allow, cleanup,
}
use multi_terminal.Resource.Limiter.Times.{
  times-set_times, recent-append, recent-recent, length-recent-le, Distinct, set_times-Distinct,
  cleaned-Distinct, times-cleaned,
}

-- The requests that were let through, oldest first.
abbrev pub Log : Type 0
Log = List (String × ℕ)

abbrev pub times_of : String → Log → List ℕ
times_of ip [] = []
times_of ip ((k, t) ∷ log) = let rest = times_of ip log in if str_eq k ip then t ∷ rest else rest

abbrev pub logged : Bool → Log → String → ℕ → Log
logged true log ip now = log ++ (ip, now) ∷ []
logged false log ip now = log

-- A history of calls on a new limiter at times that do not fall: the state, the requests that were
-- let through, and the last time.
pub data History (window max : ℕ) : RateLimiter → Log → ℕ → Type 0 where
  start : History window max (new_rate_limiter window max) [] 0
  asked :
      {rl : RateLimiter} {log : Log} {t : ℕ} (ip : String) (now : ℕ)
      → t ≤ now
      → History window max rl log t
      → History window max (allow rl ip now).0 (logged (allow rl ip now).1 log ip now) now
  swept :
      {rl : RateLimiter} {log : Log} {t : ℕ} (now : ℕ)
      → t ≤ now
      → History window max rl log t
      → History window max (cleanup rl now) log now

times_of-append :
    (ip j : String) (t : ℕ) (log : Log)
    → times_of j (log ++ (ip, t) ∷ []) ≡ times_of j log ++ (if str_eq ip j then t ∷ [] else [])
times_of-append ip j t [] = ground arith
times_of-append ip j t ((k, u) ∷ log) = ground (arith, times_of-append ip j t log)

module _ (window max : ℕ) where
  -- The state against the log: from the last time on the same requests are recent in both, and no
  -- window ever holds more than `max`.
  record Inv (rl : RateLimiter) (log : Log) (t : ℕ) : Type 0 where
    same_window : rl.window ≡ window
    same_max : rl.max ≡ max
    distinct : Distinct rl.requests
    agrees :
        (ip : String) (now : ℕ)
        → t ≤ now
        → recent window now (times ip rl.requests) ≡ recent window now (times_of ip log)
    bounded : (ip : String) (now : ℕ) → t ≤ now → length (recent window now (times_of ip log)) ≤ max

  start-Inv : Inv (new_rate_limiter window max) [] 0
  unfolding new_rate_limiter times
  start-Inv = record {
    same_window = refl;
    same_max = refl;
    distinct = tt;
    agrees = λ ip now h. refl;
    bounded = λ ip now h. omega arith;
  }

  -- What `Allow` does, by the number of recent requests of the address in the log.
  allow_refused :
      {rl : RateLimiter} {log : Log} {t : ℕ} (ip : String) (now : ℕ)
      → Inv rl log t
      → t ≤ now
      → max ≤ length (recent window now (times_of ip log))
      → allow rl ip now ≡ (
        record rl {
          requests = set_times ip (recent window now (times ip rl.requests)) rl.requests;
        },
        false,
      )
  unfolding allow
  allow_refused {rl} ip now v h full =
      rw v.same_window (ground (arith, v.same_max, ap length (v.agrees ip now h)))

  allow_let_through :
      {rl : RateLimiter} {log : Log} {t : ℕ} (ip : String) (now : ℕ)
      → Inv rl log t
      → t ≤ now
      → length (recent window now (times_of ip log)) < max
      → allow rl ip now ≡ (
        record rl {
          requests =
              set_times ip (recent window now (times ip rl.requests) ++ now ∷ []) rl.requests;
        },
        true,
      )
  unfolding allow
  allow_let_through {rl} ip now v h free =
      rw v.same_window (ground (arith, v.same_max, ap length (v.agrees ip now h)))

  refused-Inv :
      {rl : RateLimiter} {log : Log} {t : ℕ} (ip : String) (now : ℕ)
      → Inv rl log t
      → t ≤ now
      → Inv
          (record rl {
            requests = set_times ip (recent window now (times ip rl.requests)) rl.requests;
          })
          log
          now
  refused-Inv {rl} {log} {t} ip now v h = record {
    same_window = v.same_window;
    same_max = v.same_max;
    distinct = set_times-Distinct ip _ rl.requests v.distinct;
    agrees = λ j later k. rw times-set_times (same j later k (Bool-cases (str_eq ip j)));
    bounded = λ j later k. v.bounded j later (omega arith);
  }
    where
      kept : List ℕ
      kept = recent window now (times ip rl.requests)

      same :
          (j : String) (later : ℕ)
          → now ≤ later
          → (str_eq ip j ≡ true) ⊎ (str_eq ip j ≡ false)
          → recent window later (if str_eq ip j then kept else times j rl.requests)
            ≡ recent window later (times_of j log)
      same j later k (inl hit) = rw hit (
          recent-recent window now later (times ip rl.requests) k
          ∙ ap (λ i. recent window later (times i rl.requests)) ((eq_iff ip j).0 hit)
          ∙ v.agrees j later (omega arith))
      same j later k (inr miss) = rw miss (v.agrees j later (omega arith))

  let_through-Inv :
      {rl : RateLimiter} {log : Log} {t : ℕ} (ip : String) (now : ℕ)
      → Inv rl log t
      → t ≤ now
      → length (recent window now (times_of ip log)) < max
      → Inv
          (record rl {
            requests =
                set_times ip (recent window now (times ip rl.requests) ++ now ∷ []) rl.requests;
          })
          (log ++ (ip, now) ∷ [])
          now
  let_through-Inv {rl} {log} {t} ip now v h free = record {
    same_window = v.same_window;
    same_max = v.same_max;
    distinct = set_times-Distinct ip _ rl.requests v.distinct;
    agrees = λ j later k.
        rw (times-set_times, times_of-append) (same j later k (Bool-cases (str_eq ip j)));
    bounded = λ j later k. rw times_of-append (few j later k (Bool-cases (str_eq ip j)));
  }
    where
      kept : List ℕ
      kept = recent window now (times ip rl.requests)

      same :
          (j : String) (later : ℕ)
          → now ≤ later
          → (str_eq ip j ≡ true) ⊎ (str_eq ip j ≡ false)
          → recent window later (if str_eq ip j then kept ++ now ∷ [] else times j rl.requests)
            ≡ recent window later (times_of j log ++ (if str_eq ip j then now ∷ [] else []))
      same j later k (inl hit) = rw hit (
          recent-append window later kept (now ∷ [])
          ∙ ap (λ l. l ++ recent window later (now ∷ []))
              (recent-recent window now later (times ip rl.requests) k
                ∙ v.agrees ip later (omega arith)
                ∙ ap (λ i. recent window later (times_of i log)) ((eq_iff ip j).0 hit))
          ∙ sym (recent-append window later (times_of j log) (now ∷ [])))
      same j later k (inr miss) = rw (miss, append-nil) (v.agrees j later (omega arith))

      few :
          (j : String) (later : ℕ)
          → now ≤ later
          → (str_eq ip j ≡ true) ⊎ (str_eq ip j ≡ false)
          → length (recent window later (times_of j log ++ (if str_eq ip j then now ∷ [] else [])))
            ≤ max
      few j later k (inl hit) =
          rw (hit, recent-append window later (times_of j log) (now ∷ []), ← (eq_iff ip j).0 hit)
            (omega (
              arith,
              length-append (recent window later (times_of ip log))
                  (recent window later (now ∷ [])),
              length-recent-le window now later (times_of ip log) k,
              length-keep-le (λ u. ltb later (u + window)) (now ∷ []),
            ))
      few j later k (inr miss) = rw (miss, append-nil) (v.bounded j later (omega arith))

  swept-Inv :
      {rl : RateLimiter} {log : Log} {t : ℕ} (now : ℕ)
      → Inv rl log t
      → t ≤ now
      → Inv (cleanup rl now) log now
  unfolding cleanup
  swept-Inv {rl} {log} now v h = record {
    same_window = v.same_window;
    same_max = v.same_max;
    distinct = cleaned-Distinct rl.window now rl.requests v.distinct;
    agrees = λ j later k.
        rw (times-cleaned rl.window now j rl.requests v.distinct, v.same_window)
          (recent-recent window now later (times j rl.requests) k ∙ v.agrees j later (omega arith));
    bounded = λ j later k. v.bounded j later (omega arith);
  }

  asked-Inv :
      {rl : RateLimiter} {log : Log} {t : ℕ} (ip : String) (now : ℕ)
      → Inv rl log t
      → t ≤ now
      → Inv (allow rl ip now).0 (logged (allow rl ip now).1 log ip now) now
  asked-Inv {rl} {log} ip now v h =
      elim (dec_lt (length (recent window now (times_of ip log))) max) [
        | yes free ↦ rw (allow_let_through ip now v h free) (let_through-Inv ip now v h free)
        | no full ↦ rw (allow_refused ip now v h (omega arith)) (refused-Inv ip now v h)
      ]

  History-Inv : {rl : RateLimiter} {log : Log} {t : ℕ} → History window max rl log t → Inv rl log t
  History-Inv start = start-Inv
  History-Inv (asked ip now h before) = asked-Inv ip now (History-Inv before) h
  History-Inv (swept now h before) = swept-Inv now (History-Inv before) h

  -- In every history of requests and cleanups at times that do not fall, the next request of an
  -- address is let through exactly if fewer than `max` of its requests were let through in the window
  -- that ends now.
  pub allow_iff :
      {rl : RateLimiter} {log : Log} {t : ℕ} (ip : String) (now : ℕ)
      → History window max rl log t
      → t ≤ now
      → ((allow rl ip now).1 ≡ true) ↔ (length (recent window now (times_of ip log)) < max)
  allow_iff {log = log} ip now past h =
      let v = History-Inv past in
      elim (dec_lt (length (recent window now (times_of ip log))) max) [
        | yes free ↦ rw (allow_let_through ip now v h free) ((λ _. free), (λ _. refl))
        | no full ↦
            rw (allow_refused ip now v h (omega arith)) ((λ e. cc), (λ free. absurd (full free)))
      ]

  -- In every history of requests and cleanups at times that do not fall, no window that ends at or
  -- after the last call holds more than `max` requests of an address that were let through.
  pub window_bounded :
      {rl : RateLimiter} {log : Log} {t : ℕ} (ip : String) (now : ℕ)
      → History window max rl log t
      → t ≤ now
      → length (recent window now (times_of ip log)) ≤ max
  window_bounded ip now past h = (History-Inv past).bounded ip now h
