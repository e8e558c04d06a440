-- ===== src/Examples/Karma.antt =====
-- The karma system at concrete inputs.
use zdx_paralell_pyxel_vm.Base.{ℕ, ◌/◌, ◌*◌, ◌≡◌, refl, true, List, [], ◌∷◌, arith}
use zdx_paralell_pyxel_vm.Base.Dict.{get, contains, insert, delete}
use zdx_paralell_pyxel_vm.Karma.Score.{compute_level, revocation_violation}
use zdx_paralell_pyxel_vm.Karma.System.{KarmaSystem, nodes_of}
use zdx_paralell_pyxel_vm.Karma.Sound.{IsSound}
use zdx_paralell_pyxel_vm.Karma.Sound.Sequence.{
  KarmaStep, reported, active, joins, decays, after, after-IsSound,
}

abbrev empty_system : KarmaSystem
empty_system = record { scores = []; suspension_queue = []; eviction_queue = []; clusters = [] }

abbrev fifteen_percent : ℕ → ℕ
fifteen_percent xp = xp * 15 / 100

-- A node joins, is evicted, and is active again.
abbrev some_steps : List KarmaStep
some_steps =
    joins 10 "n" "c"
    ∷ reported 20 "n" revocation_violation true
    ∷ active 30 "n" "c" true
    ∷ decays 700000 "n"
    ∷ []

-- An activity puts an evicted node into its cluster again.
evicted_node_back :
    (contains "n" (after fifteen_percent some_steps empty_system).eviction_queue ≡ true)
    × (contains "n" (nodes_of "c" (after fifteen_percent some_steps empty_system)) ≡ true)
unfolding after get contains insert delete
evicted_node_back = (refl, refl)

empty_system-IsSound : IsSound empty_system.scores empty_system.clusters
unfolding get contains compute_level
empty_system-IsSound = record { each = λ n. (ground arith, refl); linked = λ n c. refl }

after-IsSound_example :
    IsSound
      (after fifteen_percent some_steps empty_system).scores
      (after fifteen_percent some_steps empty_system).clusters
after-IsSound_example = after-IsSound fifteen_percent some_steps empty_system empty_system-IsSound
