-- ===== src/Ssh.antt =====
-- gateway/internal/ssh: the client and its terminal (client.go), and the manager's map (manager.go).
-- crypto/ssh is outside: whether each of its calls fails is an argument. `sessions` counts the SSH
-- sessions that are open. A connection is the number that its dial gave it; the configuration and the
-- terminal modes have no model. `ptySession` passes its calls on, and its deadlines do nothing.
pub mod Pty
pub mod Clients
mod Tests
use Prim.Native.String.{String}
use text.Mathlib.Text.{◌==◌ as str_eq}
use multi_terminal.Base.{
  ℕ, ◌+◌, ◌-◌, Bool, true, false, not, Option, none, some, List, [], ◌∷◌, if◌then◌else◌,
}

-- `connection` is the field `Client`, `none` for nil.
pub record Client : Type 0 where
  pub connection : Option ℕ

pub data SshError : Type 0 where
  dial_failed not_connected session_failed pty_failed stdin_failed stdout_failed : SshError
  stderr_failed shell_failed client_not_found : SshError

-- `Connect`; `dialled` is what ssh.Dial gives.
unfoldable pub connect : Client → Option ℕ → Client × Option SshError
connect c none = (c, some dial_failed)
connect c (some connection) = (record c { connection = some connection }, none)

-- Which calls of OpenPTY fail.
pub record Failures : Type 0 where
  pub session : Bool
  pub request : Bool
  pub stdin : Bool
  pub stdout : Bool
  pub stderr : Bool
  pub shell : Bool

-- The error, `none` for a terminal, and how many sessions are open then.
pub record Opened : Type 0 where
  pub error : Option SshError
  pub sessions : ℕ

-- `session.Close()` and the return of an error
abbrev pub close_with : ℕ → SshError → Opened
close_with sessions e = record { error = some e; sessions = sessions - 1 }

-- `NewSession`
unfoldable pub session_on : Option ℕ → Bool → ℕ → Option SshError × ℕ
session_on none fails sessions = (some not_connected, sessions)
session_on (some connection) fails sessions =
    if fails then (some session_failed, sessions) else (none, sessions + 1)

unfoldable pub new_session : Client → Bool → ℕ → Option SshError × ℕ
new_session c fails sessions = session_on c.connection fails sessions

-- OpenPTY with a session, `sessions` of which are open.
unfoldable pub set_up : Failures → ℕ → Opened
set_up f sessions =
    if f.request
    then close_with sessions pty_failed
    else if f.stdin
    then close_with sessions stdin_failed
    else if f.stdout
    then close_with sessions stdout_failed
    else if f.stderr
    then close_with sessions stderr_failed
    else if f.shell
    then close_with sessions shell_failed
    else record { error = none; sessions = sessions }

unfoldable pub set_up_unless : Failures → Option SshError × ℕ → Opened
set_up_unless f (none, sessions) = set_up f sessions
set_up_unless f (some e, sessions) = record { error = some e; sessions = sessions }

unfoldable pub open_pty : Client → Failures → ℕ → Opened
open_pty c f sessions = set_up_unless f (new_session c f.session sessions)

-- The sync.Map of manager.go, by host.
abbrev pub Clients : Type 0
Clients = List (String × Client)

unfoldable pub load_client : String → Clients → Option Client
load_client host [] = none
load_client host ((k, c) ∷ m) = if str_eq k host then some c else load_client host m

unfoldable pub store_client : String → Client → Clients → Clients
store_client host c [] = (host, c) ∷ []
store_client host c ((k, d) ∷ m) =
    if str_eq k host then (host, c) ∷ m else (k, d) ∷ store_client host c m

unfoldable pub delete_client : String → Clients → Clients
delete_client host [] = []
delete_client host ((k, d) ∷ m) =
    if str_eq k host then delete_client host m else (k, d) ∷ delete_client host m

-- `NewManager`
abbrev pub no_clients : Clients
no_clients = []

-- A tick of `keepaliveLoop`: the connections that are sent a request.
unfoldable pub keepalive : Clients → List ℕ
keepalive [] = []
keepalive ((host, c) ∷ m) = elim c.connection [
  | none ↦ keepalive m
  | some connection ↦ connection ∷ keepalive m
]

pub data Created : Type 0 where
  client : Client → Created
  failed : SshError → Created

-- The end of GetOrCreate, after its `Load` found nothing: the new client is stored if it connects.
unfoldable pub store_connected : Clients → String → Client × Option SshError → Clients × Created
store_connected m host (c, none) = (store_client host c m, client c)
store_connected m host (c, some e) = (m, failed e)

unfoldable pub create : Clients → String → Option ℕ → Clients × Created
create m host dialled = store_connected m host (connect (record { connection = none }) dialled)

-- GetOrCreate on what `Load` found.
unfoldable pub get_or_create_from : Option Client → Clients → String → Option ℕ → Clients × Created
get_or_create_from (some c) m host dialled = (m, client c)
get_or_create_from none m host dialled = create m host dialled

unfoldable pub get_or_create : Clients → String → Option ℕ → Clients × Created
get_or_create m host dialled = get_or_create_from (load_client host m) m host dialled

-- `Close`: the error, and the connection that is closed.
unfoldable pub close_found : Option Client → Clients → String → Clients × Option ℕ × Option SshError
close_found none m host = (m, none, some client_not_found)
close_found (some c) m host = (delete_client host m, c.connection, none)

unfoldable pub close_client : Clients → String → Clients × Option ℕ × Option SshError
close_client m host = close_found (load_client host m) m host
