-- ===== src/Config/Once.antt =====
-- Which configuration the program has (config/config.go).
use multi_terminal.Base.{◌≡◌, refl, true, Option, some, List, [], ◌∷◌}
use multi_terminal.Base.Outcome.{Outcome, ret, panic}
use multi_terminal.Config.{
  Config, Viper, Loader, not_loaded, config_from, load, get_from, get_config,
}

module _ {F : Type 0} where
  -- Calls of `Load`, with what viper answers at each.
  pub loads : Loader F → List (Viper F) → Loader F
  loads l [] = l
  loads l (v ∷ vs) = loads (load l v) vs

  loads_done :
      (cfg : Option (Config F)) (vs : List (Viper F))
      → loads (record { done = true; cfg = cfg }) vs ≡ record { done = true; cfg = cfg }
  unfolding loads load
  loads_done cfg [] = refl
  loads_done cfg (v ∷ vs) = loads_done cfg vs

  -- What `Get` gives after the calls.
  abbrev pub first_of : List (Viper F) → Outcome (Config F)
  first_of [] = panic
  first_of (v ∷ vs) = ret (config_from v)

  -- `Get` panics before the first `Load`, and from then on gives the configuration of that one, whatever
  -- viper answers at later calls.
  pub get-loads : (vs : List (Viper F)) → get_config (loads not_loaded vs) ≡ first_of vs
  unfolding loads load get_config get_from not_loaded
  get-loads [] = refl
  get-loads (v ∷ vs) = rw (loads_done (some (config_from v)) vs) refl
