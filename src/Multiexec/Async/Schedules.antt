-- ===== src/Multiexec/Async/Schedules.antt =====
-- What the shells are given, whatever the scheduler does (multiexec/engine.go).
use mathlib.Core.List.{Perm}
use mathlib.Core.Quot
use mathlib.Core.Quot.{Quot}
use multi_terminal.Base.{
  ℕ, ◌≡◌, refl, ap, ap₂, subst, ◌∙◌, false, some, List, [], ◌∷◌, ◌++◌, append-nil, map, ==_refl,
  All, Bool, true, not, ◌&&◌, Option, none, if◌then◌else◌, ◌==◌,
}
use multi_terminal.Base.Steps.{at, run}
use multi_terminal.Base.Slices.{Bytes}
use multi_terminal.Session.{Session, Manager, is_active, get}
use multi_terminal.Multiexec.{
  session_not_active, session_slow, skip, refuse, deliver, examine, found, turn, Broadcast,
  after_turn, broadcast,
}
use multi_terminal.Multiexec.Async.{
  Memory, overwrite, World, Call, Event, called, scheduled, overwritten, idle, goroutine, started,
  take_out, delivery, after_write, step,
}
use multi_terminal.Multiexec.Async.Order.{due, asked, is_overwrite, run-Perm}

-- What was handed over, whatever the order.
abbrev pub Bag : Type 0
Bag = Quot {α = List (ℕ × Bytes)} Perm

abbrev pub bag : List (ℕ × Bytes) → Bag
bag l = Quot.mk l

abbrev pub calls : List Event → List Call
calls [] = []
calls (called c ∷ es) = c ∷ calls es
calls (scheduled n ∷ es) = calls es
calls (overwritten buffer bytes ∷ es) = calls es

-- The input for the session of a target, where there is one that is active and not slow.
abbrev pub given_to : Option Session → Bytes → List (ℕ × Bytes)
given_to none bytes = []
given_to (some s) bytes =
    if is_active s.state && not s.is_slow then (s.session_id, bytes) ∷ [] else []

-- The input for every target other than the source.
abbrev pub asked_of : Manager → ℕ → List ℕ → Bytes → List (ℕ × Bytes)
asked_of m source [] bytes = []
asked_of m source (target ∷ targets) bytes =
    let rest = asked_of m source targets bytes in
    if target == source then rest else given_to (get m target) bytes ++ rest

-- What the calls are meant to hand over.
abbrev pub intended : Memory → List Call → List (ℕ × Bytes)
intended memory [] = []
intended memory (c ∷ cs) =
    asked_of c.manager c.source c.targets (memory c.buffer) ++ intended memory cs

inputs : Bytes → List Session → List (ℕ × Bytes)
inputs bytes ss = map (λ s. (s.session_id, bytes)) ss

inputs-found :
    (target : ℕ) (bytes : Bytes) (o : Option Session) (rest : Broadcast)
    → inputs bytes (after_turn (found target o) rest).picked
      ≡ given_to o bytes ++ inputs bytes rest.picked
unfolding inputs found examine after_turn
inputs-found target bytes none rest = refl
inputs-found target bytes (some s) rest = by_tests (is_active s.state) s.is_slow
  where
    by_tests :
        (up slow : Bool)
        → inputs bytes
            (after_turn
              (if not up
                then refuse (session_not_active target)
                else if slow
                then refuse (session_slow target)
                else deliver s)
              rest).picked
          ≡ (if up && not slow then (s.session_id, bytes) ∷ [] else []) ++ inputs bytes rest.picked
    by_tests false slow = refl
    by_tests true true = refl
    by_tests true false = refl

picked-asked :
    (m : Manager) (source : ℕ) (targets : List ℕ) (bytes : Bytes)
    → inputs bytes (broadcast m source targets).picked ≡ asked_of m source targets bytes
unfolding inputs broadcast turn after_turn
picked-asked m source [] bytes = refl
picked-asked m source (target ∷ targets) bytes =
    by_test (target == source) (picked-asked m source targets bytes)
  where
    rest : Broadcast
    rest = broadcast m source targets

    by_test :
        (own : Bool)
        → inputs bytes rest.picked ≡ asked_of m source targets bytes
        → inputs bytes (after_turn (if own then skip else found target (get m target)) rest).picked
          ≡ (if own
              then asked_of m source targets bytes
              else given_to (get m target) bytes ++ asked_of m source targets bytes)
    by_test true h = h
    by_test false h =
        inputs-found target bytes (get m target) rest
        ∙ ap (λ l. given_to (get m target) bytes ++ l) h

map-started :
    (memory : Memory) (buffer : ℕ) (ss : List Session)
    → map (delivery memory) (map (goroutine buffer) ss)
      ≡ map (λ s. (s.session_id, memory buffer)) ss
unfolding delivery goroutine
map-started memory buffer [] = refl
map-started memory buffer (s ∷ ss) =
    ap (λ l. (s.session_id, memory buffer) ∷ l) (map-started memory buffer ss)

asked-calls : (memory : Memory) (es : List Event) → asked memory es ≡ intended memory (calls es)
unfolding started inputs
asked-calls memory [] = refl
asked-calls memory (called c ∷ es) =
    ap₂ (λ a b. a ++ b)
      (map-started memory c.buffer (broadcast c.manager c.source c.targets).picked
        ∙ picked-asked c.manager c.source c.targets (memory c.buffer))
      (asked-calls memory es)
asked-calls memory (scheduled n ∷ es) = asked-calls memory es
asked-calls memory (overwritten buffer bytes ∷ es) = asked-calls memory es

finished-Perm :
    (w v : World) (es : List Event)
    → w.handed ≡ []
    → All (λ e. is_overwrite e ≡ false) es
    → run step w es ≡ at v
    → v.pending ≡ []
    → Perm v.handed (due w ++ asked w.memory es)
finished-Perm w v es none_before quiet h done =
    subst (λ l. Perm l (due w ++ asked w.memory es))
      (ap (λ gs. v.handed ++ map (delivery v.memory) gs) done ∙ append-nil v.handed)
      (subst (λ l. Perm (v.handed ++ due v) ((l ++ due w) ++ asked w.memory es)) none_before
        (run-Perm w v es quiet h))

-- As long as the caller leaves its slices alone, every schedule of any calls hands over the same when all
-- goroutines have written, none to a stream that was not set, but for the order: each call's input once for each of its targets (a target
-- that is listed twice counts twice) that is not the source and is registered, active and not slow at
-- the call, to that target's session.
pub handed_over :
    (memory : Memory) (es : List Event) (v : World)
    → All (λ e. is_overwrite e ≡ false) es
    → run step (idle memory) es ≡ at v
    → v.pending ≡ []
    → bag v.handed ≡ bag (intended memory (calls es))
handed_over memory es v quiet h done = Quot.sound (
    subst (Perm v.handed) (asked-calls memory es)
      (finished-Perm (idle memory) v es refl quiet h done))

scheduled_quiet : (ns : List ℕ) → All (λ e. is_overwrite e ≡ false) (map scheduled ns)
scheduled_quiet [] = tt
scheduled_quiet (n ∷ ns) = (refl, scheduled_quiet ns)

asked-scheduled : (memory : Memory) (ns : List ℕ) → asked memory (map scheduled ns) ≡ []
asked-scheduled memory [] = refl
asked-scheduled memory (n ∷ ns) = asked-scheduled memory ns

-- `Broadcast` does not copy its input: what the caller writes to the slice after the call, before the
-- goroutines run, is what every session gets in its place, in every schedule.
pub overwrite_reaches_all :
    (memory : Memory) (c : Call) (bytes : Bytes) (ns : List ℕ) (v : World)
    → run step (idle memory) (called c ∷ overwritten c.buffer bytes ∷ map scheduled ns) ≡ at v
    → v.pending ≡ []
    → bag v.handed
      ≡ bag (map (λ s. (s.session_id, bytes)) (broadcast c.manager c.source c.targets).picked)
unfolding run step overwrite started
overwrite_reaches_all memory c bytes ns v h done = Quot.sound (
    subst (Perm v.handed) same
      (finished-Perm after v (map scheduled ns) refl (scheduled_quiet ns) h done))
  where
    after : World
    after = record { memory = overwrite memory c.buffer bytes; pending = started c; handed = [] }

    same :
        due after ++ asked after.memory (map scheduled ns)
        ≡ map (λ s. (s.session_id, bytes)) (broadcast c.manager c.source c.targets).picked
    same =
        ap (λ l. due after ++ l) (asked-scheduled after.memory ns)
        ∙ append-nil (due after)
        ∙ map-started after.memory c.buffer (broadcast c.manager c.source c.targets).picked
        ∙ ap (λ b. map (λ s. (s.session_id, b)) (broadcast c.manager c.source c.targets).picked)
            (rw (==_refl c.buffer) refl)

-- Two broadcasts to one session can overtake each other: the scheduler may let the goroutine of the
-- second write first.
pub broadcasts_overtake :
    (memory : Memory) (c d : Call) (s t : Session)
    → (broadcast c.manager c.source c.targets).picked ≡ s ∷ []
    → (broadcast d.manager d.source d.targets).picked ≡ t ∷ []
    → s.has_stream ≡ true
    → t.has_stream ≡ true
    → (v : World) × (run step (idle memory) (called c ∷ called d ∷ scheduled 1 ∷ scheduled 0 ∷ [])
        ≡ at v)
      × (v.pending ≡ [])
      × (v.handed ≡ (t.session_id, memory d.buffer) ∷ (s.session_id, memory c.buffer) ∷ [])
unfolding run step started take_out after_write delivery goroutine
broadcasts_overtake memory c d s t one other first second = (
  record {
    memory = memory;
    pending = [];
    handed = (t.session_id, memory d.buffer) ∷ (s.session_id, memory c.buffer) ∷ [];
  },
  rw (one, other, first, second) refl,
  refl,
  refl,
)
