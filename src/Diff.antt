-- ===== src/Diff.antt =====
-- gateway/internal/diff/engine.go: the outputs of commands on many hosts, cleaned and compared.
-- `noise` is what the pattern of progress bars removes and `md5` and `sha1` are the hashes as
-- hexadecimal text: parameters, since the pattern is Unicode and hashes are crypto/md5 and crypto/sha1.
-- `compile` is regexp.Compile, in the patterns' initialisation.
pub mod Compare
mod Tests
use Prim.Native.String.{String}
use text.Mathlib.Text.{◌==◌ as str_eq}
use multi_terminal.Base.{
  ℕ, Bool, true, false, not, Option, none, some, List, [], ◌∷◌, ◌++◌, ◌==◌, if◌then◌else◌,
}
use multi_terminal.Base.Int.{ℤ, pos, negsuc}
use multi_terminal.Base.Slices.{Bytes}
use multi_terminal.Base.Outcome.{Outcome, ret, panic, ◌>>=◌}
use multi_terminal.Ansi.{match_ansi, match_timestamp, remove_all}

-- `regexp.MustCompile`
unfoldable pub must_compile : {A : Type 0} → Option A → Outcome A
must_compile none = panic
must_compile (some re) = ret re

abbrev pub ansi_pattern : String
ansi_pattern = "\\x1b\\[[0-9;]*[A-Za-z]"

abbrev pub noise_pattern : String
noise_pattern = "[\\│├└┤┬┴┼─]+\\s*$"

abbrev pub timestamp_pattern : String
timestamp_pattern = "\\[\\d{2}:\\d{2}:\\d{2}\\]"

-- The package's variables: what each compiled pattern removes.
pub record Engine : Type 0 where
  pub ansi : Bytes → Bytes
  pub noise : Bytes → Bytes
  pub timestamp : Bytes → Bytes

-- The initialisation of the package.
unfoldable pub init_package : (String → Option (Bytes → Bytes)) → Outcome Engine
init_package compile = do
  ansi ← must_compile (compile ansi_pattern)
  noise ← must_compile (compile noise_pattern)
  timestamp ← must_compile (compile timestamp_pattern)
  ret (record { ansi = ansi; noise = noise; timestamp = timestamp })

-- `strings.Split(s, "\n")`
unfoldable pub split_from : Bytes → Bytes → List Bytes
split_from line [] = line ∷ []
split_from line (c ∷ cs) = elim (c == 10) [
  | true ↦ line ∷ split_from [] cs
  | false ↦ split_from (line ++ c ∷ []) cs
]

unfoldable pub split_lines : Bytes → List Bytes
split_lines = split_from []

pub record DiffResult : Type 0 where
  pub session_id : ℕ
  pub raw_output : Bytes
  pub clean_output : Bytes
  pub lines : List Bytes
  pub md5_hash : String
  pub sha1_hash : String
  pub exit_code : ℤ
  pub is_different : Bool

unfoldable pub strip_ansi : Bytes → Bytes
strip_ansi input = remove_all match_ansi input

module _ (noise : Bytes → Bytes) where
  unfoldable pub filter_noise : Bytes → Bytes
  filter_noise input = remove_all match_timestamp (noise input)

  unfoldable pub process : (Bytes → String) → (Bytes → String) → ℕ → Bytes → ℤ → DiffResult
  process md5 sha1 id raw exit_code =
      let clean = filter_noise (strip_ansi raw) in
      record {
        session_id = id;
        raw_output = raw;
        clean_output = clean;
        lines = split_lines clean;
        md5_hash = md5 clean;
        sha1_hash = sha1 clean;
        exit_code = exit_code;
        is_different = false;
      }

-- `!=` of two ints
unfoldable pub int_eq : ℤ → ℤ → Bool
int_eq (pos a) (pos b) = a == b
int_eq (negsuc a) (negsuc b) = a == b
int_eq _ _ = false

unfoldable pub compare_results : DiffResult → DiffResult → Bool
compare_results r s =
    if not (int_eq r.exit_code s.exit_code)
    then true
    else if not (str_eq r.md5_hash s.md5_hash)
    then true
    else false
