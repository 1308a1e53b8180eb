-- ===== src/Main/Echo.antt =====
-- What the running program does with a client's input (server.go, from `init` to the pumps).
use Prim.Native.String.{String}
use multi_terminal.Base.{
  ℕ, ◌^◌, ◌<◌, ◌≡◌, refl, ap, ap₂, ◌∙◌, Bool, true, false, none, some, Option, List, [], ◌∷◌, ◌++◌,
  map, All,
}
use multi_terminal.Base.Slices.{Bytes}
use multi_terminal.Risk.{
  RuleConfig, Engine, new_engine, add_default_rules, default_rules, handle_input,
}
use multi_terminal.Risk.Rules.{defaults_never_load}
use multi_terminal.Base.Steps.{run, at}
use multi_terminal.Server.Pumps.{Pumps, Event, start, step}
use multi_terminal.Server.Pumps.Invariant.{in_flight}
use multi_terminal.Server.Pumps.Replies.{waiting, reads, is_broadcast, replies_stream}
use multi_terminal.Base.Maps.{lookup}
use multi_terminal.Server.Service
use multi_terminal.Server.Service.Alone.{registrations, own_events}
use multi_terminal.Server.Service.Independence.{clients_independent}
use multi_terminal.Main.{on_input}

on_input_echo :
    (text : Bytes → String) (bytes : String → Bytes) (e : Engine) (messages : List Bytes)
    → ((s : String) → handle_input e s ≡ (true, s))
    → All (λ m. bytes (text m) ≡ m) messages
    → map (on_input text bytes e) messages ≡ messages
unfolding on_input
on_input_echo text bytes e [] passes valid = refl
on_input_echo text bytes e (m ∷ messages) passes valid =
    ap₂ (λ x l. x ∷ l) (ap (λ r. bytes r.1) (passes (text m)) ∙ valid.0)
      (on_input_echo text bytes e messages passes valid.1)

-- If regexp rejects the look-ahead of the first default rule, and json decodes the default rules as an
-- array and not as an object, then no command is refused: in every interleaving of a new connection that
-- has no broadcast and has not crashed, the messages of the client, if they are valid texts, are sent
-- back as they are, each once and in order: first what the socket took, then what the writer holds or
-- lost, what is queued, and what the handler waits with.
pub input_echoes :
    (text : Bytes → String) (bytes : String → Bytes) (compile : String → Option (String → Bool))
    (unmarshal_wrapper unmarshal_array : String → Option (List RuleConfig))
    (marshal : List RuleConfig → String) (id : ℕ) (es : List Event) (s : Pumps)
    → compile "^rm\\s+-r[fF]?\\s+/(?!\\w)" ≡ none
    → unmarshal_wrapper (marshal default_rules) ≡ none
    → unmarshal_array (marshal default_rules) ≡ some default_rules
    → All (λ m. bytes (text m) ≡ m) (reads es)
    → All (λ e. is_broadcast e ≡ false) es
    → run
        (step (
          on_input text bytes
            (add_default_rules compile unmarshal_wrapper unmarshal_array marshal new_engine).0))
        (start id)
        es
      ≡ at s
    → (s.written ++ (in_flight s.writer ++ s.conn.queue)) ++ waiting s.reader ≡ reads es
input_echoes text bytes compile wrapper array marshal id es s rejects object decodes valid quiet h =
    let e = (add_default_rules compile wrapper array marshal new_engine).0 in
    replies_stream (on_input text bytes e) id es s quiet h
    ∙ on_input_echo text bytes e (reads es)
        (λ t. (defaults_never_load compile wrapper array marshal t rejects object decodes).1) valid

-- If regexp rejects the look-ahead of the first default rule, and json decodes the default rules as an
-- array and not as an object, then in every interleaving of a server with fewer than 2 ^ 32
-- registrations: a client of valid texts that no broadcast reaches gets its own messages back as they
-- are, each once and in order, and nothing of any other client: first what its socket took, then what
-- its writer holds or lost, what is queued, and what its handler waits with.
pub service_echoes :
    (text : Bytes → String) (bytes : String → Bytes) (compile : String → Option (String → Bool))
    (unmarshal_wrapper unmarshal_array : String → Option (List RuleConfig))
    (marshal : List RuleConfig → String) (es : List Service.Event) (s : Service.Service) (n : ℕ)
    (p : Pumps)
    → compile "^rm\\s+-r[fF]?\\s+/(?!\\w)" ≡ none
    → unmarshal_wrapper (marshal default_rules) ≡ none
    → unmarshal_array (marshal default_rules) ≡ some default_rules
    → registrations es < 2 ^ 32
    → run
        (Service.step (λ id.
          on_input text bytes
            (add_default_rules compile unmarshal_wrapper unmarshal_array marshal new_engine).0))
        Service.opened
        es
      ≡ at s
    → lookup n s.clients ≡ some p
    → All (λ m. bytes (text m) ≡ m) (reads (own_events n es))
    → All (λ e. is_broadcast e ≡ false) (own_events n es)
    → (p.written ++ (in_flight p.writer ++ p.conn.queue)) ++ waiting p.reader
      ≡ reads (own_events n es)
service_echoes text bytes compile wrapper array marshal es s n p rejects object decodes few h found
      valid quiet =
    let e = (add_default_rules compile wrapper array marshal new_engine).0 in
    input_echoes text bytes compile wrapper array marshal n (own_events n es) p rejects object
      decodes valid quiet (clients_independent (λ id. on_input text bytes e) es s n p few h found)
