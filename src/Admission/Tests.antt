-- ===== src/Admission/Tests.antt =====
-- The theorems on `HandleWS` at a gateway whose session 7 is away.
use Prim.Native.String.{◌++◌}
use multi_terminal.Base.{◌≡◌, true, false, arith, ◌&&◌, some, [], ◌∷◌}
use multi_terminal.Session.{Session, detached, prompt_unknown, Manager, default_ttl}
use multi_terminal.Server.{new_hub}
use multi_terminal.Resource.Limiter.{new_rate_limiter}
use multi_terminal.Resource.Breaker.{new_circuit_breaker}
use multi_terminal.Admission.{Gateway, extract_ip, handle_ws}
use multi_terminal.Admission.Address.{extract_ip_lem}
use multi_terminal.Admission.Gate.{rate_ok, breaker_ok, resumable, Handles, handle_ws_admits}

abbrev waiting : Session
waiting = record {
  session_id = 7;
  user_id = "u";
  host_id = "h";
  cols = 80;
  rows = 24;
  state = detached;
  last_active_at = 1000;
  write_buffer_size = 0;
  is_slow = false;
  prompt_state = prompt_unknown;
  has_stream = true;
}

abbrev gateway : Gateway
gateway =
    let sessions : Manager = record { sessions = (7, waiting) ∷ []; ttl = default_ttl } in
    record {
      limiter = some (new_rate_limiter 60 100);
      breaker = some (new_circuit_breaker 4096);
      manager = some sessions;
      hub = new_hub;
    }

handle_ws_admits_example :
    Handles gateway
      (rate_ok gateway.limiter "10.0.0.1" 2000 && breaker_ok gateway.breaker 2000 && true)
      (resumable gateway.manager (some 7) 2000)
      (handle_ws gateway "10.0.0.1" 2000 true (some 7))
handle_ws_admits_example = handle_ws_admits gateway "10.0.0.1" 2000 true (some 7)

extract_ip_lem_example :
    (extract_ip
        (λ s. s)
        (record {
          forwarded_for = "1.2.3.4" ++ ("," ++ " 5.6.7.8");
          real_ip = "9.9.9.9";
          remote_addr = "";
        })
      ≡ "1.2.3.4")
    × (extract_ip
          (λ s. s)
          (record {
            forwarded_for = "";
            real_ip = "";
            remote_addr = "[2001" ++ (":" ++ "db8::1]:80");
          })
        ≡ "[2001")
extract_ip_lem_example =
    extract_ip_lem (λ s. s) "1.2.3.4" " 5.6.7.8" "9.9.9.9" "" "[2001" "db8::1]:80" (ground arith)
      (ground arith)
