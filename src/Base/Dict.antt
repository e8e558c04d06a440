-- ===== src/Base/Dict.antt =====
-- A Python `dict` with text keys: an association list in insertion order.
use Prim.Native.Nat.{◌+◌, ◌≤◌}
use Prim.Native.String.{String}
use mathlib.Core.Path.{◌≡◌, refl}
use mathlib.Core.Bool.{Bool, true, false}
use mathlib.Core.List.{List, [], ◌∷◌, map}
use mathlib.Core.Logic.{inl, inr}
use mathlib.Core.Option.{Option, none, some}
use native.Mathlib.Omega.{arith}
use text.Mathlib.Text.{◌==◌ as str_eq}
use text.Mathlib.TextEquality.{eq_iff}
use zdx_paralell_pyxel_vm.Base.Tests.{if◌then◌else◌, Bool-cases}
use zdx_paralell_pyxel_vm.Base.Lists.{length}

abbrev pub Dict {ℓ} : Type ℓ → Type ℓ
Dict V = List (String × V)

module _ {ℓ} {V : Type ℓ} where
  -- `d.get(k)`
  unfoldable pub get : String → Dict V → Option V
  get k [] = none
  get k ((j, v) ∷ d) = if str_eq j k then some v else get k d

  -- `k in d`
  unfoldable pub contains : String → Dict V → Bool
  contains k [] = false
  contains k ((j, v) ∷ d) = if str_eq j k then true else contains k d

  -- `d[k] = v`: a key that is there keeps its place
  unfoldable pub insert : String → V → Dict V → Dict V
  insert k v [] = (k, v) ∷ []
  insert k v ((j, w) ∷ d) = if str_eq j k then (j, v) ∷ d else (j, w) ∷ insert k v d

  -- `del d[k]`, `d.pop(k, None)`
  unfoldable pub delete : String → Dict V → Dict V
  delete k [] = []
  delete k ((j, w) ∷ d) = let rest = delete k d in if str_eq j k then rest else (j, w) ∷ rest

  abbrev pub keys : Dict V → List String
  keys = map (λ e. e.0)

  abbrev pub values : Dict V → List V
  values = map (λ e. e.1)

module _ {ℓ} {V : Type ℓ} (k j : String) where
  pub get-insert :
      (v : V) (d : Dict V) → get j (insert k v d) ≡ (if str_eq k j then some v else get j d)
  unfolding get insert
  get-insert v [] = refl
  get-insert v ((i, w) ∷ d) = ground (arith, get-insert v d, eq_iff i k, eq_iff i j, eq_iff k j)

  pub get-delete : (d : Dict V) → get j (delete k d) ≡ (if str_eq k j then none else get j d)
  unfolding get delete
  get-delete [] = ground arith
  get-delete ((i, w) ∷ d) = ground (arith, get-delete d, eq_iff i k, eq_iff i j, eq_iff k j)

module _ {ℓ} {V : Type ℓ} (k : String) where
  pub contains_lem : (d : Dict V) → contains k d ≡ elim (get k d) [ none ↦ false | some v ↦ true ]
  unfolding get contains
  contains_lem [] = refl
  contains_lem ((i, w) ∷ d) = ground (arith, contains_lem d)

  pub length-delete-le : (d : Dict V) → length (delete k d) ≤ length d
  unfolding delete
  length-delete-le [] = omega arith
  length-delete-le ((i, w) ∷ d) = ground (arith, length-delete-le d)

  pub length-delete : (d : Dict V) (v : V) → get k d ≡ some v → length (delete k d) + 1 ≤ length d
  unfolding get delete
  length-delete [] v h = cc
  length-delete ((i, w) ∷ d) v h = ground (arith, length-delete d v, length-delete-le d)

-- No key stands twice.
abbrev pub IsDict {ℓ} : {V : Type ℓ} → Dict V → Type ℓ
IsDict [] = Unit
IsDict ((j, w) ∷ d) = (get j d ≡ none) × IsDict d

module _ {ℓ} {V : Type ℓ} where
  pub insert-IsDict : (k : String) (v : V) (d : Dict V) → IsDict d → IsDict (insert k v d)
  unfolding insert
  insert-IsDict k v [] i = (unfold get in refl, tt)
  insert-IsDict k v ((j, w) ∷ d) i = elim (Bool-cases (str_eq j k)) [
    | inl same ↦ rw (same, insert) i
    | inr other ↦
        rw (other, insert)
          (ground (arith, get-insert k j v d, eq_iff j k, eq_iff k j), insert-IsDict k v d i.1)
  ]

  pub delete-IsDict : (k : String) (d : Dict V) → IsDict d → IsDict (delete k d)
  unfolding delete
  delete-IsDict k [] i = tt
  delete-IsDict k ((j, w) ∷ d) i = elim (Bool-cases (str_eq j k)) [
    | inl same ↦ rw (same, delete) (delete-IsDict k d i.1)
    | inr other ↦ rw (other, delete) (ground (arith, get-delete k j d), delete-IsDict k d i.1)
  ]

  abbrev pub AllOf {κ} : (V → Type κ) → List V → Type κ
  AllOf P [] = Unit
  AllOf P (v ∷ vs) = P v × AllOf P vs

  -- What holds of every value that `get` finds holds of the values, where no key stands twice.
  pub values-AllOf {κ} :
      (P : V → Type κ) (d : Dict V)
      → IsDict d
      → ((k : String) (v : V) → get k d ≡ some v → P v)
      → AllOf P (values d)
  unfolding get
  values-AllOf P [] i h = tt
  values-AllOf P ((j, w) ∷ d) i h = (
    h j w (ground (arith, eq_iff j j)),
    values-AllOf P d i.1 (λ k v e. h k v (ground (arith, eq_iff j k, e, i.0))),
  )

pub ruleset dict_laws = (get-insert, get-delete)
