-- ===== src/Multiexec/Async/Order.antt =====
-- What is handed over, up to the order of the scheduler (multiexec/engine.go).
use mathlib.Core.List.{Perm, map-append}
use mathlib.Core.List.Perm
use multi_terminal.Base.{
  ℕ, zero, suc, ◌≡◌, refl, sym, ap, subst, ◌∙◌, Bool, true, false, Option, none, some, List, [],
  ◌∷◌, ◌++◌, append_assoc, append-nil, map, All, if◌then◌else◌,
}
use multi_terminal.Base.Steps.{Ran, stuck, crashed, at, bind, run}
use multi_terminal.Base.Slices.{Bytes}
use multi_terminal.Multiexec.Async.{
  Memory, Goroutine, World, Call, Event, called, scheduled, overwritten, started, behind, take_out,
  delivery, after_write, step,
}

-- What the pending goroutines will hand over, if no slice changes.
abbrev pub due : World → List (ℕ × Bytes)
due w = map (delivery w.memory) w.pending

-- What the calls among the events are to hand over.
abbrev pub asked : Memory → List Event → List (ℕ × Bytes)
asked memory [] = []
asked memory (called c ∷ es) = map (delivery memory) (started c) ++ asked memory es
asked memory (scheduled n ∷ es) = asked memory es
asked memory (overwritten buffer bytes ∷ es) = asked memory es

abbrev pub is_overwrite : Event → Bool
is_overwrite (overwritten buffer bytes) = true
is_overwrite (called c) = false
is_overwrite (scheduled n) = false

take_out-Perm :
    (n : ℕ) (gs : List Goroutine) (g : Goroutine) (rest : List Goroutine)
    → take_out n gs ≡ some (g, rest)
    → Perm gs (g ∷ rest)
unfolding take_out
take_out-Perm n [] g rest e = absurd (cc e)
take_out-Perm zero (x ∷ xs) g rest e =
    let same : ◌≡◌ {A = Goroutine × List Goroutine} (x, xs) (g, rest) = cc e in
    subst (λ p. Perm (x ∷ xs) (p.0 ∷ p.1)) same (Perm.refl (x ∷ xs))
take_out-Perm (suc n) (x ∷ xs) g rest e = by_rest (take_out n xs) (take_out-Perm n xs) e
  where
    by_rest :
        (o : Option (Goroutine × List Goroutine))
        → ((h : Goroutine) (hs : List Goroutine) → o ≡ some (h, hs) → Perm xs (h ∷ hs))
        → behind x o ≡ some (g, rest)
        → Perm (x ∷ xs) (g ∷ rest)
    by_rest none found e = absurd (cc e)
    by_rest (some (y, ys)) found e =
        let same : ◌≡◌ {A = Goroutine × List Goroutine} (y, x ∷ ys) (g, rest) = cc e in
        subst (λ p. Perm (x ∷ xs) (p.0 ∷ p.1)) same
          (Perm.trans (Perm.cons x (found y ys refl)) (Perm.swap y x ys))

-- An event hands over or leaves due what was due and what it asks for.
abbrev Kept : World → Event → Ran World → Type 0
Kept w e stuck = Unit {0}
Kept w e crashed = Unit {0}
Kept w e (at v) =
    (v.memory ≡ w.memory)
    × Perm (v.handed ++ due v) ((w.handed ++ due w) ++ asked w.memory (e ∷ []))

called-Kept : (w : World) (c : Call) → Kept w (called c) (step w (called c))
unfolding step
called-Kept w c = (
  refl,
  subst (λ l. Perm (w.handed ++ map (delivery w.memory) (w.pending ++ started c)) l) same
      (Perm.refl _),
)
  where
    same :
        w.handed ++ map (delivery w.memory) (w.pending ++ started c)
        ≡ (w.handed ++ due w) ++ asked w.memory (called c ∷ [])
    same =
        ap (λ l. w.handed ++ l)
          (map-append (delivery w.memory) w.pending (started c)
            ∙ ap (λ l. due w ++ l) (sym (append-nil (map (delivery w.memory) (started c)))))
        ∙ sym (append_assoc w.handed (due w) (asked w.memory (called c ∷ [])))

scheduled-Kept : (w : World) (n : ℕ) → Kept w (scheduled n) (step w (scheduled n))
unfolding step after_write
scheduled-Kept w n = by_taken (take_out n w.pending) (take_out-Perm n w.pending)
  where
    by_taken :
        (o : Option (Goroutine × List Goroutine))
        → ((g : Goroutine) (rest : List Goroutine) → o ≡ some (g, rest) → Perm w.pending (g ∷ rest))
        → Kept w (scheduled n) (after_write w o)
    by_taken none taken = tt
    by_taken (some (g, rest)) taken = by_stream _ g.has_stream (
      refl,
      subst (λ l. Perm l ((w.handed ++ due w) ++ []))
          (sym (append_assoc w.handed (delivery w.memory g ∷ []) (map (delivery w.memory) rest)))
          (subst (λ l. Perm (w.handed ++ map (delivery w.memory) (g ∷ rest)) l)
            (sym (append-nil (w.handed ++ due w)))
            (Perm.append_left w.handed
              (Perm.map (delivery w.memory) (Perm.symm (taken g rest refl))))),
    )
      where
        by_stream :
            (v : World) (set : Bool)
            → Kept w (scheduled n) (at v)
            → Kept w (scheduled n) (if set then at v else crashed)
        by_stream v true kept = kept
        by_stream v false kept = tt

step-Kept : (w : World) (e : Event) → is_overwrite e ≡ false → Kept w e (step w e)
step-Kept w (called c) h = called-Kept w c
step-Kept w (scheduled n) h = scheduled-Kept w n
step-Kept w (overwritten buffer bytes) h = absurd (cc h)

asked-cons :
    (memory : Memory) (e : Event) (es : List Event)
    → asked memory (e ∷ []) ++ asked memory es ≡ asked memory (e ∷ es)
asked-cons memory (called c) es =
    ap (λ l. l ++ asked memory es) (append-nil (map (delivery memory) (started c)))
asked-cons memory (scheduled n) es = refl
asked-cons memory (overwritten buffer bytes) es = refl

-- Whatever the scheduler does, what was handed over and what is due are together what was before and
-- what the calls ask for.
pub run-Perm :
    (w v : World) (es : List Event)
    → All (λ e. is_overwrite e ≡ false) es
    → run step w es ≡ at v
    → Perm (v.handed ++ due v) ((w.handed ++ due w) ++ asked w.memory es)
unfolding run
run-Perm w v [] quiet e =
    let same : w ≡ v = cc e in
    subst (λ u. Perm (u.handed ++ due u) ((w.handed ++ due w) ++ [])) same
      (subst (Perm (w.handed ++ due w)) (sym (append-nil (w.handed ++ due w))) (Perm.refl _))
run-Perm w v (e ∷ es) quiet h =
    by_step (step w e) (step-Kept w e quiet.0) (λ u. run-Perm u v es quiet.1) h
  where
    by_step :
        (o : Ran World)
        → Kept w e o
        → ((u : World)
            → run step u es ≡ at v
            → Perm (v.handed ++ due v) ((u.handed ++ due u) ++ asked u.memory es))
        → bind o (λ u. run step u es) ≡ at v
        → Perm (v.handed ++ due v) ((w.handed ++ due w) ++ asked w.memory (e ∷ es))
    by_step stuck kept rest h = absurd (cc h)
    by_step crashed kept rest h = absurd (cc h)
    by_step (at u) kept rest h = Perm.trans (rest u h) (
        subst
          (λ m.
            Perm ((u.handed ++ due u) ++ asked m es)
              ((w.handed ++ due w) ++ asked w.memory (e ∷ es)))
          (sym kept.0)
          (subst (Perm ((u.handed ++ due u) ++ asked w.memory es))
            (append_assoc (w.handed ++ due w) (asked w.memory (e ∷ [])) (asked w.memory es)
              ∙ ap (λ l. (w.handed ++ due w) ++ l) (asked-cons w.memory e es))
            (Perm.append_right (asked w.memory es) kept.1)))
