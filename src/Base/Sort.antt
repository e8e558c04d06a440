-- ===== src/Base/Sort.antt =====
-- `sorted` of Python with a key: insertion sort, which is stable, and the sorted values of a `dict`.
use Prim.Native.String.{String}
use mathlib.Core.Path.{◌≡◌, refl, sym, ◌∙◌, ap}
use mathlib.Core.Logic.{◌≢◌, inl, inr}
use mathlib.Core.Bool.{Bool, true, false, not, ◌||◌}
use mathlib.Core.List.{List, [], ◌∷◌}
use mathlib.Core.Option.{none, some}
use native.Mathlib.Omega.{arith}
use text.Mathlib.Text.{◌==◌ as str_eq}
use text.Mathlib.TextEquality.{eq_iff}
use zdx_paralell_pyxel_vm.Base.Tests.{if◌then◌else◌, Bool-cases}
use zdx_paralell_pyxel_vm.Base.Dict.{Dict, get, delete, values, IsDict, delete-IsDict, get-delete}

module _ {ℓ} {A : Type ℓ} (before : A → A → Bool) where
  unfoldable pub insert_by : A → List A → List A
  insert_by t [] = t ∷ []
  insert_by t (u ∷ us) = let rest = insert_by t us in if before u t then u ∷ rest else t ∷ u ∷ us

  unfoldable pub sort_by : List A → List A
  unfolding insert_by
  sort_by [] = []
  sort_by (t ∷ ts) = insert_by t (sort_by ts)

  -- A strict order, whose incomparable items may be many.
  pub record IsOrder : Type ℓ where
    pub asym : (t u : A) → before t u ≡ true → before u t ≡ false
    pub between : (t u v : A) → before t v ≡ true → (before t u || before u v) ≡ true

  module _ (o : IsOrder) where
    insert_by_comm :
        (a b : A) (l : List A)
        → before a b ≡ not (before b a)
        → insert_by a (insert_by b l) ≡ insert_by b (insert_by a l)
    unfolding insert_by
    insert_by_comm a b [] h = ground arith
    insert_by_comm a b (u ∷ us) h =
        ground
          (arith, insert_by_comm a b us h, o.between u a b, o.between u b a, o.asym a b, o.asym b a)

    -- A dictionary whose entries under different keys are ordered one way or the other.
    abbrev pub Separates : Dict A → Type ℓ
    Separates d =
        (i j : String) (v w : A)
        → get i d ≡ some v
        → get j d ≡ some w
        → i ≢ j
        → before v w ≡ not (before w v)

delete_absent {ℓ} : {A : Type ℓ} (k : String) (d : Dict A) → get k d ≡ none → delete k d ≡ d
unfolding get delete
delete_absent k [] h = refl
delete_absent k ((j, w) ∷ d) h = elim (Bool-cases (str_eq j k)) [
  | inl same ↦ cc (rw (same, get) at h)
  | inr other ↦ rw (other, delete) (ap (λ t. (j, w) ∷ t) (delete_absent k d (rw (other, get) at h)))
]

get_below {ℓ} :
    {A : Type ℓ} (i j : String) (v w : A) (d : Dict A)
    → get j d ≡ none
    → get i d ≡ some v
    → get i ((j, w) ∷ d) ≡ some v
unfolding get
get_below i j v w d absent h = ground (arith, eq_iff j i, absent, h)

get_kept {ℓ} :
    {A : Type ℓ} (i k : String) (v : A) (d : Dict A)
    → get i (delete k d) ≡ some v
    → get i d ≡ some v
get_kept i k v d h = ground (arith, get-delete k i d, h)

module _ {ℓ} {A : Type ℓ} (before : A → A → Bool) (o : IsOrder before) where
  Separates-tail :
      (j : String) (w : A) (d : Dict A)
      → get j d ≡ none
      → Separates before o ((j, w) ∷ d)
      → Separates before o d
  Separates-tail j w d absent s i k v u e f apart =
      s i k v u (get_below i j v w d absent e) (get_below k j u w d absent f) apart

  -- The value under a key can be taken out and sorted in again.
  sort_by-delete :
      (k : String) (v : A) (d : Dict A)
      → IsDict d
      → Separates before o d
      → get k d ≡ some v
      → sort_by before (values d) ≡ insert_by before v (sort_by before (values (delete k d)))
  unfolding sort_by get delete
  sort_by-delete k v [] i s h = cc
  sort_by-delete k v ((j, w) ∷ d) i s h = elim (Bool-cases (str_eq j k)) [
    | inl same ↦
        let value : w ≡ v = cc (rw (same, get) at h) in
        let absent : get k d ≡ none = ground (arith, eq_iff j k, same, i.0) in
        rw (same, delete_absent k d absent, value) refl
    | inr other ↦
        let there : get k d ≡ some v = rw (other, get) at h in
        let apart : j ≢ k = ground (arith, eq_iff j k, other) in
        rw other (
          ap (insert_by before w) (sort_by-delete k v d i.1 (Separates-tail j w d i.0 s) there)
          ∙ insert_by_comm before o w v (sort_by before (values (delete k d)))
              (s j k w v (get_first j w d) (get_below k j v w d i.0 there) apart))
  ]
    where
      get_first : (j : String) (w : A) (d : Dict A) → get j ((j, w) ∷ d) ≡ some w
      get_first j w d = ground (arith, eq_iff j j)

  -- Dictionaries with the same entries have the same sorted values, whatever their insertion order.
  pub sort_by_same :
      (d e : Dict A)
      → IsDict d
      → IsDict e
      → Separates before o d
      → Separates before o e
      → ((k : String) → get k d ≡ get k e)
      → sort_by before (values d) ≡ sort_by before (values e)
  unfolding sort_by get
  sort_by_same [] [] i j s t h = refl
  sort_by_same [] ((k, w) ∷ e) i j s t h = absurd (ground (arith, h k, eq_iff k k))
  sort_by_same ((k, v) ∷ d) e i j s t h =
      let there : get k e ≡ some v = ground (arith, h k, eq_iff k k) in
      let below : sort_by before (values d) ≡ sort_by before (values (delete k e)) =
        sort_by_same d (delete k e) i.1 (delete-IsDict k e j) (Separates-tail k v d i.0 s)
          (λ x y u w f g apart. t x y u w (get_kept x k u e f) (get_kept y k w e g) apart)
          (λ x. ground (arith, h x, get-delete k x e, eq_iff k x, i.0)) in
      ap (insert_by before v) below ∙ sym (sort_by-delete k v e j t there)
