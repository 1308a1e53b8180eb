-- ===== src/Audit.antt =====
-- gateway/internal/audit: sensitive.go and service.go.
-- A text is the list of its runes, for valid UTF-8. The patterns are matched as the standard regexp
-- package does: where a repetition and what follows it share no rune, the longest run is the only one
-- that can match, and no keyword is the beginning of another. `(?i)` folds the long s and the Kelvin
-- sign too. json.Marshal, whether the directory and the file can be written, whether the zstd encoder can
-- be made, and time.Now in its format are arguments; CompressData is a call of the encoder and left out.
pub mod Filter
pub mod Hiding
mod Tests
use Prim.Native.String.{String}
use multi_terminal.Base.{
  ℕ, zero, suc, ◌+◌, ◌-◌, Bool, true, false, ◌&&◌, ◌||◌, not, Option, none, some, List, [], ◌∷◌,
  ◌++◌, ◌*◌, ◌==◌, leb, if◌then◌else◌, length, take,
}
use multi_terminal.Base.Slices.{codes}
use multi_terminal.Ansi.{is_space}

infixl 10 ◌>>=◌
abbrev pub ◌>>=◌ : {A B : Type 0} → Option A → (A → Option B) → Option B
none >>= f = none
some a >>= f = f a

abbrev pub Runes : Type 0
Runes = List ℕ

-- `(?i)` at a lower-case letter or another sign `p` of the pattern.
abbrev pub folds : ℕ → ℕ → Bool
folds p c =
    c == p
    || (leb 97 p && leb p 122 && c + 32 == p)
    || (p == 115 && c == 383)
    || (p == 107 && c == 8490)

abbrev pub same : ℕ → ℕ → Bool
same p c = c == p

-- What follows a word, compared rune by rune.
unfoldable pub after_word : (ℕ → ℕ → Bool) → Runes → Runes → Option Runes
after_word eq [] s = some s
after_word eq (p ∷ ps) [] = none
after_word eq (p ∷ ps) (c ∷ cs) = if eq p c then after_word eq ps cs else none

-- A replacement, and what follows the match.
pub record Hit : Type 0 where
  pub new : Runes
  pub rest : Runes

-- A group `(a|b|...)`, which keeps the runes of the text.
abbrev pub word_or : Option Runes → Runes → Runes → Option Hit → Option Hit
word_or none w s next = next
word_or (some rest) w s next = some (record { new = take (length w) s; rest = rest })

unfoldable pub first_word : List Runes → Runes → Option Hit
first_word [] s = none
first_word (w ∷ ws) s = word_or (after_word folds w s) w s (first_word ws s)

-- `\s*`
unfoldable pub skip_space : Runes → Runes
skip_space [] = []
skip_space (c ∷ cs) = if is_space c then skip_space cs else c ∷ cs

-- `[:=]`
unfoldable pub after_sep : Runes → Option Runes
after_sep [] = none
after_sep (c ∷ cs) = if c == 58 || c == 61 then some cs else none

abbrev pub is_quote : ℕ → Bool
is_quote c = c == 39 || c == 34

-- `['"]?`
unfoldable pub skip_quote : Runes → Runes
skip_quote [] = []
skip_quote (c ∷ cs) = if is_quote c then cs else c ∷ cs

-- `[^'"\s]`, and a run of such runes.
abbrev pub is_value : ℕ → Bool
is_value c = not (is_quote c || is_space c)

unfoldable pub skip_while : (ℕ → Bool) → Runes → Runes
skip_while p [] = []
skip_while p (c ∷ cs) = if p c then skip_while p cs else c ∷ cs

-- At least one.
unfoldable pub after_some : (ℕ → Bool) → Runes → Option Runes
after_some p [] = none
after_some p (c ∷ cs) = if p c then some (skip_while p cs) else none

abbrev pub mask : Runes
mask = codes "***MASKED***"

-- `(?i)(...)\s*[:=]\s*['"]?([^'"\s]+)`, replaced by `${1}: ***MASKED***`
unfoldable pub match_assignment : List Runes → Runes → Option Hit
match_assignment keys s = do
  key ← first_word keys s
  behind ← after_sep (skip_space key.rest)
  rest ← after_some is_value (skip_quote (skip_space behind))
  some (record { new = key.new ++ (codes ": " ++ mask); rest = rest })

abbrev pub password_keys : List Runes
password_keys = codes "password" ∷ codes "passwd" ∷ codes "pwd" ∷ []

abbrev pub secret_keys : List Runes
secret_keys = codes "secret" ∷ codes "api_key" ∷ codes "apikey" ∷ codes "token" ∷ []

-- `\S`
abbrev pub no_space : ℕ → Bool
no_space c = not (is_space c)

-- `mysql\s+-u\s+(\S+)\s+-p\s+(\S+)`, replaced by `mysql -u ${1} -p ***MASKED***`
unfoldable pub match_mysql : Runes → Option Hit
match_mysql s = do
  a ← after_word same (codes "mysql") s
  b ← after_some is_space a
  c ← after_word same (codes "-u") b
  user ← after_some is_space c
  d ← after_some no_space user
  e ← after_some is_space d
  f ← after_word same (codes "-p") e
  g ← after_some is_space f
  rest ← after_some no_space g
  let name = take (length user - length d) user
  some (record { new = codes "mysql -u " ++ (name ++ (codes " -p " ++ mask)); rest = rest })

-- `ReplaceAllString` and `MatchString`; the number says how many runes of a match are still to be
-- dropped.
module _ (match : Runes → Option Hit) where
  unfoldable pub replace_from : ℕ → Runes → Runes
  replace_from skip [] = []
  replace_from (suc skip) (c ∷ cs) = replace_from skip cs
  replace_from zero (c ∷ cs) = elim (match (c ∷ cs)) [
    | none ↦ c ∷ replace_from zero cs
    | some hit ↦ hit.new ++ replace_from (length cs - length hit.rest) cs
  ]

  unfoldable pub replace_all : Runes → Runes
  replace_all s = replace_from zero s

  unfoldable pub matches : Runes → Bool
  matches [] = false
  matches (c ∷ cs) = elim (match (c ∷ cs)) [ none ↦ matches cs | some hit ↦ true ]

unfoldable pub filter : Runes → Runes
filter input = replace_all match_mysql (
    replace_all (match_assignment secret_keys) (replace_all (match_assignment password_keys) input))

unfoldable pub is_sensitive : Runes → Bool
is_sensitive input =
    matches (match_assignment password_keys) input
    || matches (match_assignment secret_keys) input
    || matches match_mysql input

pub record CommandLog : Type 0 where
  pub timestamp : String
  pub user_id : String
  pub session_id : ℕ
  pub host_id : String
  pub command_type : String
  pub raw_input : Runes
  pub clean_input : Runes
  pub risk_level : String

pub data AuditError : Type 0 where
  marshal_failed write_failed : AuditError

pub data ServiceError : Type 0 where
  mkdir_failed encoder_failed : ServiceError

-- `closed` is the state of the encoder.
pub record Service : Type 0 where
  pub log_dir : String
  pub buffer_size : ℕ
  pub closed : Bool

-- `NewService`, with whether os.MkdirAll and zstd.NewWriter succeed.
pub data NewService : Type 0 where
  refused : ServiceError → NewService
  created : Service → NewService

unfoldable pub new_service : Bool → Bool → String → NewService
new_service makes opens dir =
    if not makes
    then refused mkdir_failed
    else if not opens
    then refused encoder_failed
    else created (record { log_dir = dir; buffer_size = 1024 * 1024; closed = false })

unfoldable pub close_service : Service → Service
close_service s = record s { closed = true }

-- What `LogCommand` returns, and the contents of the file it wrote.
pub record Logged : Type 0 where
  pub log : Option CommandLog
  pub error : Option AuditError
  pub file : Option Runes

unfoldable pub write_log : CommandLog → Option Runes → Bool → Logged
write_log log none writes = record { log = none; error = some marshal_failed; file = none }
write_log log (some json) writes =
    if writes
    then record { log = some log; error = none; file = some json }
    else record { log = some log; error = some write_failed; file = none }

unfoldable pub new_log : String → String → ℕ → String → Runes → String → CommandLog
new_log now user id host raw risk = record {
  timestamp = now;
  user_id = user;
  session_id = id;
  host_id = host;
  command_type = "shell_input";
  raw_input = raw;
  clean_input = filter raw;
  risk_level = risk;
}

unfoldable pub log_command :
    (CommandLog → Option Runes) → Bool → String → String → ℕ → String → Runes → String → Logged
log_command marshal writes now user id host raw risk =
    let log = new_log now user id host raw risk in write_log log (marshal log) writes
