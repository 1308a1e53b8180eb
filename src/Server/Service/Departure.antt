-- ===== src/Server/Service/Departure.antt =====
-- A client that leaves, among all the others (server.go and conn.go).
use multi_terminal.Base.{ℕ, ◌+◌, ◌^◌, ◌<◌, ◌≡◌, ◌≢◌, refl, sym, subst, some, List, arith}
use multi_terminal.Base.Maps.{lookup}
use multi_terminal.Base.Slices.{Bytes}
use multi_terminal.Base.Steps.{Ran, stuck, crashed, at, run}
use multi_terminal.Server.Pumps.{Pumps, ended, start}
use multi_terminal.Server.Pumps
use multi_terminal.Server.Pumps.Invariant.{IsSound, pumps_stream}
use multi_terminal.Server.Pumps.Crash.{busy, todo, next_event, crash_inevitable}
use multi_terminal.Server.Service.{Service, Event, acts, opened, after_act, act, step}
use multi_terminal.Server.Service.Alone.{registrations, own_events, life}
use multi_terminal.Server.Service.Independence.{
  Tracks, run-Tracks, opened-Unused, clients_independent,
}

module _ (reply : ℕ → Bytes → Bytes) where
  after-ne-stuck : (s : Service) (n : ℕ) (r : Ran Pumps) → r ≢ stuck → after_act s n r ≢ stuck
  unfolding after_act
  after-ne-stuck s n stuck ne = absurd (ne refl)
  after-ne-stuck s n crashed ne = λ e. cc e
  after-ne-stuck s n (at p) ne = λ e. cc e

  step-ne-stuck :
      (s : Service) (n : ℕ) (p : Pumps) (e : Pumps.Event)
      → lookup n s.clients ≡ some p
      → Pumps.step (reply n) p e ≢ stuck
      → step reply s (acts n e) ≢ stuck
  unfolding step act
  step-ne-stuck s n p e found ne =
      subst (λ o. act reply s n e o ≢ stuck) (sym found)
        (after-ne-stuck s n (Pumps.step (reply n) p e) ne)

  -- While the counter of ids does not wrap: once one client of a running server has left, the server is
  -- about to die, whatever the other clients do. As long as it runs on, fewer events of that connection
  -- other than answered pings have happened than two for each message then queued and two more, one
  -- fewer unless a message was then being written; and its writer always has a next event that is no
  -- ping. Answered pings may come in between, in any number.
  pub departure_kills :
      (before after : List Event) (s t : Service) (n : ℕ) (p q : Pumps)
      → registrations before + registrations after < 2 ^ 32
      → run (step reply) opened before ≡ at s
      → lookup n s.clients ≡ some p
      → p.reader ≡ ended
      → run (step reply) s after ≡ at t
      → lookup n t.clients ≡ some q
      → (busy (own_events n after) < todo p) × (step reply t (acts n (next_event q.writer)) ≢ stuck)
  departure_kills before after s t n p q room first found left later found_later =
      let (bound, next) = crash_inevitable (reply n) p q (own_events n after) sound left moved in
      (bound, step-ne-stuck t n q (next_event q.writer) found_later next)
    where
      sound : IsSound p
      sound =
          pumps_stream (reply n) n (own_events n before) p
            (clients_independent reply before s n p (omega (arith, room)) first found)

      reached : Tracks reply opened before (at s)
      reached = subst (Tracks reply opened before) first (
          run-Tracks reply opened before (opened-Unused reply)
            (unfold opened in omega (arith, room)))

      goes_on : Tracks reply s after (at t)
      goes_on =
          subst (Tracks reply s after) later
            (run-Tracks reply s after reached.0 (unfold opened in omega (arith, reached.1, room)))

      moved : run (Pumps.step (reply n)) p (own_events n after) ≡ at q
      moved =
          subst (λ o. run (Pumps.step (reply n)) (life n o) (own_events n after) ≡ at q) found
            (goes_on.2 n q found_later)
