-- ===== src/Resource/Guard.antt =====
-- gateway/internal/resource/guard.go: the checks before the server starts, and the descriptor count.
-- What the operating system answers is an argument, `none` for an error. The log is left out.
pub mod Count
pub mod Memory
use multi_terminal.Base.{
  ℕ, zero, suc, ◌+◌, ◌*◌, ◌-◌, Bool, true, false, Option, none, some, List, [], ◌∷◌, ltb, leb, ◌||◌,
  ◌%◌, ◌^◌, if◌then◌else◌,
}

abbrev pub min_fd_limit : ℕ
min_fd_limit = 4096

abbrev pub default_max_sessions : ℕ
default_max_sessions = 2000

pub record Guard : Type 0 where
  pub max_fd_limit : ℕ
  pub max_sessions : ℕ

-- `maxSessions` is an int, which nothing computes with.
unfoldable pub new_guard : ℕ → Guard
new_guard max = record { max_fd_limit = min_fd_limit; max_sessions = max }

pub data GuardError : Type 0 where
  rlimit_failed statfs_failed : GuardError
  fd_limit_too_low : ℕ → GuardError

-- `CheckFDLimit` on what Getrlimit gives for RLIMIT_NOFILE; `none` is success.
unfoldable pub check_fd_limit : Option ℕ → Option GuardError
check_fd_limit none = some rlimit_failed
check_fd_limit (some cur) = if ltb cur min_fd_limit then some (fd_limit_too_low cur) else none

-- `CheckSystemResources`: `Statfs` is asked only if the limit suffices, and what it answers is only
-- logged.
unfoldable pub check_system_resources : Option ℕ → Option ℕ → Option GuardError
check_system_resources rlim stat = elim (check_fd_limit rlim) [
  | some e ↦ some e
  | none ↦ elim stat [ none ↦ some statfs_failed | some available ↦ none ]
]

-- `int64(availableMem) < minMem` in two's complement, on the fields of `Statfs`.
unfoldable pub low_memory : ℕ → ℕ → Bool
low_memory bavail bsize =
    let available = bavail * bsize % 2 ^ 64 in
    leb (2 ^ 63) available || ltb available (256 * 1024 * 1024)

-- Whether `CheckSystemResources` logs its warning.
unfoldable pub warns : Option ℕ → Option (ℕ × ℕ) → Bool
warns rlim stat = elim (check_fd_limit rlim) [
  | some e ↦ false
  | none ↦ elim stat [ none ↦ false | some (bavail, bsize) ↦ low_memory bavail bsize ]
]

-- `PreFlight` wraps the error.
unfoldable pub pre_flight : Option ℕ → Option ℕ → Option GuardError
pre_flight rlim stat = check_system_resources rlim stat

-- The loop of `GetCurrentFDUsage` over the answers of `Readdirnames(100)`: the number of names, or
-- `none` for an error, io.EOF included. `none` as the result: the answers ran out.
unfoldable pub count_names : List (Option ℕ) → ℕ → Option ℕ
count_names [] count = none
count_names (none ∷ later) count = some count
count_names (some names ∷ later) count =
    let more = count_names later (count + names) in
    if ltb names 100 then some (count + names) else more

-- `GetCurrentFDUsage`, with whether /proc/self/fd can be opened.
unfoldable pub get_current_fd_usage : Bool → List (Option ℕ) → Option ℕ
get_current_fd_usage false answers = none
get_current_fd_usage true answers = count_names answers 0
