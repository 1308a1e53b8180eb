-- ===== src/Main/Boot.antt =====
-- gateway/cmd/server/main.go: `run` from the configuration on, with the HTTP server that it makes.
-- The server itself is net/http's; an error of its goroutine is one of the happenings (`Main`). `format` is `fmt.Sprintf(":%d", ...)`.
use Prim.Native.String.{String}
use multi_terminal.Base.{
  ℕ, suc, ◌-◌, ◌*◌, ◌%◌, ◌^◌, ◌<◌, ◌≡◌, refl, ap, ◌∙◌, Option, none, some, List, true, false, ltb,
  lt→ltb, if◌then◌else◌, All, arith, ◌⊎◌, inl, inr,
}
use multi_terminal.Base.Int.{ℤ, pos, negsuc}
use multi_terminal.Base.Slices.{Bytes}
use multi_terminal.Base.Outcome.{Outcome, ret, ◌>>=◌}
use multi_terminal.Config.{
  ServerConfig, Config, Viper, Loader, not_loaded, config_from, load, get_from, get_config,
}
use multi_terminal.Resource.Guard.{GuardError, pre_flight}
use multi_terminal.Server.{Hub}
use multi_terminal.Server.Messages.{IsOpen}
use multi_terminal.Graceful.{GracefulState}
use multi_terminal.Main.{Happening, Program, Ran, not_started, waiting, exited, started, run}
use multi_terminal.Main.Serve.{After, any_failure, run_lem}

-- The times are nanoseconds.
pub record HttpServer : Type 0 where
  pub addr : String
  pub read_timeout : ℤ
  pub write_timeout : ℤ
  pub idle_timeout : ℤ

-- The int64 of a bit pattern.
abbrev pub int64_of : ℕ → ℤ
int64_of p = if ltb p (2 ^ 63) then pos p else negsuc (2 ^ 64 - 1 - p)

-- `time.Duration(n) * time.Second`, which wraps.
unfoldable pub seconds : ℤ → ℤ
seconds (pos n) = int64_of (n * 10 ^ 9 % 2 ^ 64)
seconds (negsuc n) = int64_of ((2 ^ 64 - suc n * 10 ^ 9 % 2 ^ 64) % 2 ^ 64)

seconds_small : (n : ℕ) → n * 10 ^ 9 < 2 ^ 63 → seconds (pos n) ≡ pos (n * 10 ^ 9)
unfolding seconds
seconds_small n small = fitted (n * 10 ^ 9) small
  where
    fitted : (p : ℕ) → p < 2 ^ 63 → int64_of (p % 2 ^ 64) ≡ pos p
    fitted p h = let same : p % 2 ^ 64 ≡ p = omega (arith, h) in rw (same, lt→ltb p (2 ^ 63) h) refl

unfoldable pub http_server : (ℤ → String) → ServerConfig → HttpServer
http_server format cfg = record {
  addr = format cfg.port;
  read_timeout = seconds cfg.read_timeout;
  write_timeout = seconds cfg.write_timeout;
  idle_timeout = seconds cfg.idle_timeout;
}

pub data Booted : Type 0 where
  refused : GuardError → Booted
  serving : HttpServer → Program → Booted
  ended : Booted

module _ {F : Type 0} (format : ℤ → String) (marshal : GracefulState → Option Bytes) where
  unfoldable pub booted : Config F → Ran → Booted
  booted cfg (not_started e) = refused e
  booted cfg (waiting p) = serving (http_server format cfg.server_config) p
  booted cfg exited = ended

  unfoldable pub boot :
      Loader F → Viper F → Option ℕ → Option ℕ → Hub → List Happening → Outcome Booted
  boot l v rlim stat h later = do
    cfg ← get_config (load l v)
    r ← run marshal rlim stat h later
    ret (booted cfg r)

  -- A program whose server listens at an address with an idle timeout, and that waits.
  abbrev pub Serves : Viper F → ℕ → List Happening → Hub → Booted → Type 0
  Serves v idle later h b =
      (s : HttpServer) × (q : Program) × (b ≡ serving s q)
      × (s.addr ≡ format (v.get_int "server.port"))
      × (s.idle_timeout ≡ pos (idle * 10 ^ 9))
      × After later (started h) q

  pub boot_lem :
      (v : Viper F) (rlim stat : Option ℕ) (h : Hub) (later : List Happening) (idle : ℕ)
      → All IsOpen h.conns
      → v.get_int "server.idle_timeout" ≡ pos idle
      → idle * 10 ^ 9 < 2 ^ 63
      → ((e : GuardError) × (pre_flight rlim stat ≡ some e)
          × (boot not_loaded v rlim stat h later ≡ ret (refused e)))
        ⊎ ((pre_flight rlim stat ≡ none)
            × (any_failure later ≡ true)
            × (boot not_loaded v rlim stat h later ≡ ret ended))
        ⊎ ((b : Booted) × (pre_flight rlim stat ≡ none)
            × (any_failure later ≡ false)
            × (boot not_loaded v rlim stat h later ≡ ret b)
            × Serves v idle later h b)
  unfolding boot booted load get_config get_from not_loaded http_server config_from
  boot_lem v rlim stat h later idle up given small = elim (run_lem marshal rlim stat h later up) [
    | inl (e, failed, r) ↦ inl (e, failed, ap finish r)
    | inr (o, passed, r, inl (fails, out)) ↦
        inr (inl (passed, fails, ap finish r ∙ ap (λ x. ret (booted (config_from v) x)) out))
    | inr (o, passed, r, inr (q, fine, out, after)) ↦ inr (
        inr (
          serving server q,
          passed,
          fine,
          ap finish r ∙ ap (λ x. ret (booted (config_from v) x)) out,
          (server, q, refl, refl, ap seconds given ∙ seconds_small idle small, after),
        ))
  ]
    where
      server : HttpServer
      server = http_server format (config_from v).server_config

      finish : Outcome Ran → Outcome Booted
      finish o = o >>= λ r. ret (booted (config_from v) r)
