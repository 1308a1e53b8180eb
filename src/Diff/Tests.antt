-- ===== src/Diff/Tests.antt =====
-- The theorems on the outputs at one with a coloured word.
use multi_terminal.Base.{◌≡◌, refl, false, [], ◌∷◌}
use multi_terminal.Base.Int.{pos}
use multi_terminal.Ansi.Strip.{plain, escape, render}
use multi_terminal.Diff.{process, compare_results}
use multi_terminal.Diff.Compare.{compare_results-render}

compare_results-render_example :
    compare_results
      (process
        (λ b. b)
        (λ b. "m")
        (λ b. "s")
        1
        (render (escape (49 ∷ 59 ∷ 51 ∷ []) 109 ∷ plain 65 ∷ plain 10 ∷ []))
        (pos 0))
      (process (λ b. b) (λ b. "m") (λ b. "s") 2 (render (plain 65 ∷ plain 10 ∷ [])) (pos 0))
    ≡ false
compare_results-render_example =
    compare_results-render (λ b. b) (λ b. "m") (λ b. "s")
      (escape (49 ∷ 59 ∷ 51 ∷ []) 109 ∷ plain 65 ∷ plain 10 ∷ []) (plain 65 ∷ plain 10 ∷ []) 1 2
      (pos 0) (((refl, (refl, (refl, tt))), refl), ((λ e. cc), ((λ e. cc), tt)))
      ((λ e. cc), ((λ e. cc), tt)) refl
