-- ===== src/Resource/Limiter/Times.antt =====
-- Facts about the request times that the limiter keeps (resource/rate_limiter.go).
use Prim.Native.String.{String}
use text.Mathlib.Text.{◌==◌ as str_eq}
use text.Mathlib.TextEquality.{eq_iff}
use multi_terminal.Base.{
  ℕ, ◌≤◌, ◌≡◌, ◌≢◌, refl, ◌∙◌, List, [], ◌∷◌, ◌++◌, if◌then◌else◌, length, arith,
}
use multi_terminal.Resource.Limiter.{Requests, times, set_times, recent, keep_entry, cleaned}

pub times-set_times :
    (ip j : String) (ts : List ℕ) (m : Requests)
    → times j (set_times ip ts m) ≡ (if str_eq ip j then ts else times j m)
unfolding times set_times
times-set_times ip j ts [] = refl
times-set_times ip j ts ((k, us) ∷ m) =
    ground (arith, eq_iff ip j, eq_iff k ip, eq_iff k j, times-set_times ip j ts m)

pub recent-append :
    (window now : ℕ) (xs ys : List ℕ)
    → recent window now (xs ++ ys) ≡ recent window now xs ++ recent window now ys
recent-append window now [] ys = refl
recent-append window now (x ∷ xs) ys = ground (arith, recent-append window now xs ys)

-- What has left the window does not come back.
pub recent-recent :
    (window now later : ℕ) (xs : List ℕ)
    → now ≤ later
    → recent window later (recent window now xs) ≡ recent window later xs
recent-recent window now later [] h = refl
recent-recent window now later (x ∷ xs) h = ground (arith, recent-recent window now later xs h)

pub length-recent-le :
    (window now later : ℕ) (xs : List ℕ)
    → now ≤ later
    → length (recent window later xs) ≤ length (recent window now xs)
length-recent-le window now later [] h = omega arith
length-recent-le window now later (x ∷ xs) h =
    ground (arith, length-recent-le window now later xs h)

-- No address occurs twice.
abbrev pub Fresh : String → Requests → Type 0
Fresh ip [] = Unit {0}
Fresh ip ((k, _) ∷ m) = (k ≢ ip) × Fresh ip m

abbrev pub Distinct : Requests → Type 0
Distinct [] = Unit {0}
Distinct ((k, _) ∷ m) = Fresh k m × Distinct m

Fresh-set_times :
    (ip j : String) (ts : List ℕ) (m : Requests) → ip ≢ j → Fresh j m → Fresh j (set_times ip ts m)
unfolding set_times
Fresh-set_times ip j ts [] ne f = (ne, tt)
Fresh-set_times ip j ts ((k, us) ∷ m) ne f =
    ground (arith, eq_iff k ip, Fresh-set_times ip j ts m ne f.1)

pub set_times-Distinct :
    (ip : String) (ts : List ℕ) (m : Requests) → Distinct m → Distinct (set_times ip ts m)
unfolding set_times
set_times-Distinct ip ts [] d = (tt, tt)
set_times-Distinct ip ts ((k, us) ∷ m) d =
    ground (arith, eq_iff k ip, set_times-Distinct ip ts m d.1, Fresh-set_times ip k ts m)

times_of_Fresh : (ip : String) (m : Requests) → Fresh ip m → times ip m ≡ []
unfolding times
times_of_Fresh ip [] f = refl
times_of_Fresh ip ((k, us) ∷ m) f = ground (arith, eq_iff k ip, times_of_Fresh ip m f.1)

Fresh-keep_entry :
    (ip j : String) (ts : List ℕ) (m : Requests) → ip ≢ j → Fresh j m → Fresh j (keep_entry ip ts m)
Fresh-keep_entry ip j [] m ne f = f
Fresh-keep_entry ip j (t ∷ ts) m ne f = (ne, f)

Fresh-cleaned :
    (window now : ℕ) (j : String) (m : Requests) → Fresh j m → Fresh j (cleaned window now m)
unfolding cleaned
Fresh-cleaned window now j [] f = tt
Fresh-cleaned window now j ((k, us) ∷ m) f =
    Fresh-keep_entry k j (recent window now us) _ f.0 (Fresh-cleaned window now j m f.1)

pub cleaned-Distinct :
    (window now : ℕ) (m : Requests) → Distinct m → Distinct (cleaned window now m)
unfolding cleaned
cleaned-Distinct window now [] d = tt
cleaned-Distinct window now ((k, us) ∷ m) d =
    entry (recent window now us) (Fresh-cleaned window now k m d.0)
      (cleaned-Distinct window now m d.1)
  where
    entry :
        (ts : List ℕ)
        → Fresh k (cleaned window now m)
        → Distinct (cleaned window now m)
        → Distinct (keep_entry k ts (cleaned window now m))
    entry [] f d' = d'
    entry (t ∷ ts) f d' = (f, d')

times-keep_entry :
    (ip k : String) (ts : List ℕ) (m : Requests)
    → Fresh k m
    → times ip (keep_entry k ts m) ≡ (if str_eq k ip then ts else times ip m)
unfolding times
times-keep_entry ip k [] m f = ground (arith, eq_iff k ip, times_of_Fresh k m f)
times-keep_entry ip k (t ∷ ts) m f = refl

-- A cleanup keeps the recent times of every address.
pub times-cleaned :
    (window now : ℕ) (ip : String) (m : Requests)
    → Distinct m
    → times ip (cleaned window now m) ≡ recent window now (times ip m)
unfolding cleaned times
times-cleaned window now ip [] d = refl
times-cleaned window now ip ((k, us) ∷ m) d =
    times-keep_entry ip k (recent window now us) (cleaned window now m)
      (Fresh-cleaned window now k m d.0)
    ∙ ground (arith, times-cleaned window now ip m d.1)
