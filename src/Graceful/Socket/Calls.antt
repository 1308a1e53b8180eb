-- ===== src/Graceful/Socket/Calls.antt =====
-- What the calls of `WaitForHandoff` owe to connections (server/graceful.go).
use multi_terminal.Base.{
  ℕ, zero, suc, ◌+◌, ◌≤◌, ◌≡◌, refl, Option, none, some, List, [], ◌∷◌, All, arith,
}
use multi_terminal.Graceful.Socket.{
  Acceptor, accepting, accepted, failed, WaitError, Wait, waiting, returned, Call, accept,
  fail_accept, receive, expire, changed, behind, change,
}

-- The connections that an acceptor has taken.
abbrev pub taken : Acceptor → ℕ
taken accepting = 0
taken accepted = 1
taken failed = 0

abbrev pub nil_answer : Option (Option WaitError) → ℕ
nil_answer none = 0
nil_answer (some none) = 1
nil_answer (some (some e)) = 0

abbrev pub succeeded : Wait → ℕ
succeeded waiting = 0
succeeded (returned none) = 1
succeeded (returned (some e)) = 0

-- The calls of `WaitForHandoff` that returned nil.
abbrev pub successes : List Call → ℕ
successes [] = 0
successes (c ∷ cs) = succeeded c.wait + successes cs

abbrev pub all_taken : List Call → ℕ
all_taken [] = 0
all_taken (c ∷ cs) = taken c.goroutine + all_taken cs

-- A call has a nil error only from a connection.
abbrev pub IsEarned : Call → Type 0
IsEarned c = nil_answer c.done + succeeded c.wait ≤ taken c.goroutine

-- What a change of a call does to it, with the connections that it takes.
abbrev pub Keeps : ℕ → Call → Option Call → Type 0
Keeps k c none = Unit {0}
Keeps k c (some d) = IsEarned d × (taken d.goroutine ≡ taken c.goroutine + k)

-- A call from its parts.
abbrev pub call : Acceptor → Option (Option WaitError) → Wait → Call
call g answer w = record { goroutine = g; done = answer; wait = w }

pub accept-Keeps :
    (g : Acceptor) (answer : Option (Option WaitError)) (w : Wait)
    → IsEarned (call g answer w)
    → Keeps 1 (call g answer w) (accept (call g answer w))
unfolding accept
accept-Keeps accepting answer w h = (omega (arith, h), refl)
accept-Keeps accepted answer w h = tt
accept-Keeps failed answer w h = tt

pub fail_accept-Keeps :
    (g : Acceptor) (answer : Option (Option WaitError)) (w : Wait)
    → IsEarned (call g answer w)
    → Keeps 0 (call g answer w) (fail_accept (call g answer w))
unfolding fail_accept
fail_accept-Keeps accepting answer w h = (omega (arith, h), refl)
fail_accept-Keeps accepted answer w h = tt
fail_accept-Keeps failed answer w h = tt

pub receive-Keeps :
    (g : Acceptor) (answer : Option (Option WaitError)) (w : Wait)
    → IsEarned (call g answer w)
    → Keeps 0 (call g answer w) (receive (call g answer w))
unfolding receive
receive-Keeps g none waiting h = tt
receive-Keeps g (some none) waiting h = (omega (arith, h), omega arith)
receive-Keeps g (some (some e)) waiting h = (omega (arith, h), omega arith)
receive-Keeps g answer (returned r) h = tt

pub expire-Keeps :
    (g : Acceptor) (answer : Option (Option WaitError)) (w : Wait)
    → IsEarned (call g answer w)
    → Keeps 0 (call g answer w) (expire (call g answer w))
unfolding expire
expire-Keeps g answer waiting h = (omega (arith, h), omega arith)
expire-Keeps g answer (returned r) h = tt

-- The same of the calls, where one is changed.
abbrev pub AllKept : ℕ → List Call → Option (List Call) → Type 0
AllKept k cs none = Unit {0}
AllKept k cs (some ds) = All IsEarned ds × (all_taken ds ≡ all_taken cs + k)

changed_kept :
    (k : ℕ) (c : Call) (cs : List Call) (o : Option Call)
    → All IsEarned cs
    → Keeps k c o
    → AllKept k (c ∷ cs) (changed o cs)
changed_kept k c cs none h kept = tt
changed_kept k c cs (some d) h kept = ((kept.0, h), omega (arith, kept.1))

behind_kept :
    (k : ℕ) (c : Call) (cs : List Call) (o : Option (List Call))
    → IsEarned c
    → AllKept k cs o
    → AllKept k (c ∷ cs) (behind c o)
behind_kept k c cs none h kept = tt
behind_kept k c cs (some ds) h kept = ((h, kept.0), omega (arith, kept.1))

pub change_kept :
    (k : ℕ) (f : Call → Option Call) (n : ℕ) (cs : List Call)
    → ((g : Acceptor) (answer : Option (Option WaitError)) (w : Wait)
        → IsEarned (call g answer w)
        → Keeps k (call g answer w) (f (call g answer w)))
    → All IsEarned cs
    → AllKept k cs (change f n cs)
unfolding change
change_kept k f n [] keeps h = tt
change_kept k f zero (c ∷ cs) keeps h =
    changed_kept k c cs (f c) h.1 (keeps c.goroutine c.done c.wait h.0)
change_kept k f (suc n) (c ∷ cs) keeps h =
    behind_kept k c cs (change f n cs) h.0 (change_kept k f n cs keeps h.1)
