-- ===== src/Main/Tests.antt =====
-- The theorem on the program at three signals.
use Prim.Native.String.{String}
use text.Mathlib.Text.{◌==◌ as str_eq}
use multi_terminal.Base.{
  ◌≡◌, refl, true, false, none, some, [], ◌∷◌, ◌++◌, ◌⊎◌, Bool, List, Option, ℕ, arith,
  if◌then◌else◌,
}
use multi_terminal.Base.Slices.{Bytes, codes}
use multi_terminal.Base.Outcome.{ret}
use multi_terminal.Resource.Guard.{GuardError, pre_flight}
use multi_terminal.Server.{Hub}
use multi_terminal.Risk.{RuleConfig, Engine, new_engine, default_rules, add_default_rules}
use multi_terminal.Base.Steps
use multi_terminal.Base.Steps.{at}
use multi_terminal.Server.Pumps.{
  Pumps, message_read, sent, received, write_done, sending, selecting, start, step,
}
use multi_terminal.Server.Service
use multi_terminal.Main.Echo.{service_echoes}
use multi_terminal.Main.{on_input, System, usr2, terminate, Happening}
use multi_terminal.Base.Int.{ℤ, pos}
use multi_terminal.Config.{Viper, not_loaded}
use multi_terminal.Main.Boot.{Booted, refused, ended, Serves, boot, boot_lem}
use multi_terminal.Main.Serve.{any_failure}

abbrev empty_hub : Hub
empty_hub = record { id_gen = 0; conns = [] }

abbrev works : System
works = record { writes = true; listens = true }

-- viper answers every number with 8, and the check before the start succeeds.
abbrev answers : Viper ℕ
answers = record { get_int = λ key. pos 8; get_string = λ key. ""; get_float = λ key. 0 }

abbrev format : ℤ → String
format n = ":8"

abbrev three_signals : List Happening
three_signals = usr2 works ∷ terminate ∷ usr2 works ∷ []

boot_lem_example :
    ((e : GuardError) × (pre_flight (some 65536) (some 3) ≡ some e)
      × (boot format (λ st. none) not_loaded answers (some 65536) (some 3) empty_hub three_signals
          ≡ ret (refused e)))
    ⊎ ((pre_flight (some 65536) (some 3) ≡ none)
        × (any_failure three_signals ≡ true)
        × (boot format (λ st. none) not_loaded answers (some 65536) (some 3) empty_hub three_signals
            ≡ ret ended))
    ⊎ ((b : Booted) × (pre_flight (some 65536) (some 3) ≡ none)
        × (any_failure three_signals ≡ false)
        × (boot format (λ st. none) not_loaded answers (some 65536) (some 3) empty_hub three_signals
            ≡ ret b)
        × Serves format (λ st. none) answers 8 three_signals empty_hub b)
boot_lem_example =
    boot_lem format (λ st. none) answers (some 65536) (some 3) empty_hub three_signals 8 tt refl
      (omega arith)

-- Every pattern but that with the look-ahead compiles, to the text itself.
abbrev compile_text : String → Option (String → Bool)
compile_text pattern =
    if str_eq pattern "^rm\\s+-r[fF]?\\s+/(?!\\w)" then none else some (str_eq pattern)

abbrev no_wrapper : String → Option (List RuleConfig)
no_wrapper text = none

abbrev array_text : String → Option (List RuleConfig)
array_text text = some default_rules

abbrev command : Bytes → String
command m = "mkfs"

abbrev engine : Engine
engine = (add_default_rules compile_text no_wrapper array_text (λ configs. "[]") new_engine).0

-- What the client gets for `mkfs`.
abbrev answer : Bytes
answer = on_input command (λ t. codes t) engine (codes "mkfs")

-- The first client sends it twice, and a second one comes in between.
abbrev two_commands : List Service.Event
two_commands =
    Service.registered
    ∷ Service.acts 1 (message_read (codes "mkfs"))
    ∷ Service.registered
    ∷ Service.acts 1 sent
    ∷ Service.acts 1 received
    ∷ Service.acts 1 write_done
    ∷ Service.acts 1 (message_read (codes "mkfs"))
    ∷ []

abbrev answered : Pumps
answered = record {
  conn = record { id = 1; queue = []; closed = false };
  reader = sending answer;
  writer = selecting;
  accepted = answer ∷ [];
  written = answer ∷ [];
}

abbrev answering : Service.Service
answering = record { id_gen = 2; clients = (1, answered) ∷ (2, start 2) ∷ [] }

run-answering :
    Steps.run
      (Service.step (λ id. on_input command (λ t. codes t) engine))
      Service.opened
      two_commands
    ≡ at answering
unfolding Steps.run Service.step Service.opened Service.register Service.act Service.after_act
    multi_terminal.Base.Maps.lookup multi_terminal.Base.Maps.store step start
    multi_terminal.Server.Pumps.on_message multi_terminal.Server.Pumps.on_sent
    multi_terminal.Server.Pumps.on_received multi_terminal.Server.Pumps.enqueue
    multi_terminal.Server.Pumps.receive_from multi_terminal.Server.Pumps.on_write_done
    multi_terminal.Server.new_conn
run-answering = refl

service_echoes_example :
    ((answer ∷ []) ++ ([] ++ [])) ++ answer ∷ [] ≡ codes "mkfs" ∷ codes "mkfs" ∷ []
service_echoes_example =
    service_echoes command (λ t. codes t) compile_text no_wrapper array_text (λ configs. "[]")
      two_commands answering 1 answered refl refl refl (omega arith) run-answering
      (unfold multi_terminal.Base.Maps.lookup in refl) (refl, (refl, tt))
      (refl, (refl, (refl, (refl, (refl, tt)))))
