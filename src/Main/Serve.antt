-- ===== src/Main/Serve.antt =====
-- What the running program does with signals and requests (cmd/server/main.go).
use Prim.Native.String.{String}
use multi_terminal.Base.{
  ℕ, ◌≡◌, refl, sym, ap, ◌∙◌, subst, Bool, true, false, ◌||◌, Option, none, some, List, [], ◌∷◌,
  if◌then◌else◌, All, arith, ◌⊎◌, inl, inr,
}
use multi_terminal.Base.Slices.{Bytes}
use multi_terminal.Base.Outcome.{ret}
use multi_terminal.Resource.Guard.{GuardError, pre_flight}
use multi_terminal.Server.{Hub, Conn, new_conn, run_register}
use multi_terminal.Server.Messages.{IsOpen, all_with, all_with-IsOpen}
use multi_terminal.Server.Service.{Service, register}
use multi_terminal.Server.Service.Broadcast.{hub_of}
use multi_terminal.Server.Service.Running.{register_refines}
use multi_terminal.Graceful.{GracefulState, restart_message}
use multi_terminal.Graceful.Maintenance.{maintenance_wire}
use multi_terminal.Graceful.Handover.{handle_usr2_signal_lem}
use multi_terminal.Admission.{Gateway, Answer, not_upgraded, connected, handle_ws}
use multi_terminal.Main.{
  Happening, usr2, terminate, listen_failed, Program, Ran, serve, not_started, waiting, exited,
  started, run_checked, run, served,
}

-- Whether a signal to terminate is among them.
abbrev pub any_terminate : List Happening → Bool
any_terminate [] = false
any_terminate (terminate ∷ later) = true
any_terminate (listen_failed ∷ later) = any_terminate later
any_terminate (usr2 sys ∷ later) = any_terminate later

-- Whether the goroutine that listens fails among them.
abbrev pub any_failure : List Happening → Bool
any_failure [] = false
any_failure (listen_failed ∷ later) = true
any_failure (terminate ∷ later) = any_failure later
any_failure (usr2 sys ∷ later) = any_failure later

-- What the connections hold after the signals.
abbrev pub told : List Happening → List (ℕ × Conn) → List (ℕ × Conn)
told [] conns = conns
told (terminate ∷ later) conns = told later conns
told (listen_failed ∷ later) conns = told later conns
told (usr2 sys ∷ later) conns = told later (all_with (maintenance_wire restart_message) conns)

-- Nothing calls InitResourceGuard or SetSessionManager, so every request whose upgrade succeeds gets a
-- new connection: none is over the rate or refused by the breaker, and none resumes a session.
pub handle_ws-served :
    (h : Hub) (ip : String) (now : ℕ) (upgraded : Bool) (wanted : Option ℕ)
    → handle_ws (served h) ip now upgraded wanted ≡ (
        if upgraded
        then (served (run_register h (new_conn 0)), connected)
        else (served h, not_upgraded))
unfolding handle_ws multi_terminal.Admission.over_rate multi_terminal.Admission.breaker_refuses
    multi_terminal.Admission.open_connection multi_terminal.Admission.reconnect
    multi_terminal.Admission.connect
handle_ws-served h ip now true none = refl
handle_ws-served h ip now true (some id) = refl
handle_ws-served h ip now false wanted = refl

-- A request whose upgrade succeeds is a registration among the connections of the running server.
pub request_registers :
    (s : Service) (ip : String) (now : ℕ) (wanted : Option ℕ)
    → handle_ws (served (hub_of s)) ip now true wanted ≡ (served (hub_of (register s)), connected)
request_registers s ip now wanted =
    handle_ws-served (hub_of s) ip now true wanted
    ∙ ap (λ h. (served h, connected)) (register_refines s 0)

-- What a program is after the signals.
abbrev pub After : List Happening → Program → Program → Type 0
After later p q =
    (q.cancelled ≡ p.cancelled || any_terminate later) × (q.hub.conns ≡ told later p.hub.conns)

-- How a program that was started goes on: it exits if the goroutine that listens fails, and else waits.
abbrev pub GoesOn : List Happening → Program → Ran → Type 0
GoesOn later p r =
    ((any_failure later ≡ true) × (r ≡ exited))
    ⊎ ((q : Program) × (any_failure later ≡ false) × (r ≡ waiting q) × After later p q)

-- What the first signal changes, for all that follow.
goes-on-cons :
    (e : Happening) (later : List Happening) (p p' : Program) (r : Ran)
    → any_failure (e ∷ later) ≡ any_failure later
    → ((q : Program) → After later p' q → After (e ∷ later) p q)
    → GoesOn later p' r
    → GoesOn (e ∷ later) p r
goes-on-cons e later p p' r same step (inl (fails, out)) = inl (same ∙ fails, out)
goes-on-cons e later p p' r same step (inr (q, none_fails, out, after)) =
    inr (q, same ∙ none_fails, out, step q after)

serve_open :
    (marshal : GracefulState → Option Bytes) (later : List Happening) (p : Program)
    → All IsOpen p.hub.conns
    → (r : Ran) × (serve marshal p later ≡ ret r) × GoesOn later p r
unfolding serve
serve_open marshal [] p up = (waiting p, refl, inr (p, refl, refl, (ground arith, refl)))
serve_open marshal (listen_failed ∷ later) p up = (exited, refl, inl (refl, refl))
serve_open marshal (terminate ∷ later) p up =
    let (r, out, on) = serve_open marshal later (record p { cancelled = true }) up in
    (
      r,
      out,
      goes-on-cons terminate later p (record p { cancelled = true }) r refl
          (λ q after. (ground (arith, after.0), after.1)) on,
    )
serve_open marshal (usr2 sys ∷ later) p up =
    let (state, after, out, offered, kept, listed, version, file, listener) =
      handle_usr2_signal_lem marshal p.manager p.hub sys.writes sys.listens up in
    let next : Program = record p { hub = after.hub; manager = after.manager } in
    let (r, more, on) =
      serve_open marshal later next
        (subst (All IsOpen) (sym offered) (all_with-IsOpen _ p.hub.conns up)) in
    (
      r,
      rw out more,
      goes-on-cons (usr2 sys) later p next r refl
          (λ q held. (held.0, held.1 ∙ ap (told later) offered)) on,
    )

-- `run` returns the error of the check before the start if that fails. Else, whatever signals come, in
-- any order and number, while no connection of the hub is closed and nothing else changes the hub
-- between them: only the failure of the goroutine that listens ends it. Without one it waits for the
-- next signal; a signal to terminate has cancelled the context and ended nothing, and each SIGUSR2, also
-- one after that, has offered the message to every connection.
pub run_lem :
    (marshal : GracefulState → Option Bytes) (rlim stat : Option ℕ) (h : Hub)
    (later : List Happening)
    → All IsOpen h.conns
    → ((e : GuardError) × (pre_flight rlim stat ≡ some e)
        × (run marshal rlim stat h later ≡ ret (not_started e)))
      ⊎ ((r : Ran) × (pre_flight rlim stat ≡ none)
          × (run marshal rlim stat h later ≡ ret r)
          × GoesOn later (started h) r)
unfolding run run_checked
run_lem marshal rlim stat h later up = by_check (pre_flight rlim stat) refl
  where
    Result : Type 0
    Result =
        ((e : GuardError) × (pre_flight rlim stat ≡ some e)
          × (run marshal rlim stat h later ≡ ret (not_started e)))
        ⊎ ((r : Ran) × (pre_flight rlim stat ≡ none)
            × (run marshal rlim stat h later ≡ ret r)
            × GoesOn later (started h) r)

    by_check : (checked : Option GuardError) → pre_flight rlim stat ≡ checked → Result
    by_check (some e) found = inl (e, found, rw found refl)
    by_check none found =
        let (r, out, on) = serve_open marshal later (started h) up in
        inr (r, found, rw (found, out) refl, on)
