-- ===== src/Compute/Claim/Order.antt =====
-- The order of the candidates, and that the loop takes the first one that fits.
use zdx_paralell_pyxel_vm.Base.{
  ℕ, subst, str_eq, ◌≡◌, String, true, false, some, List, [], ◌∷◌, arith, Bool-cases, inl, inr,
}
use zdx_paralell_pyxel_vm.Base.Dict.{Dict, get, values, AllOf}
use zdx_paralell_pyxel_vm.Base.Results.{ok}
use zdx_paralell_pyxel_vm.Compiler.Text.{codes}
use zdx_paralell_pyxel_vm.Compiler.TextOrder.{text_lt_asym, text_lt_between}
use zdx_paralell_pyxel_vm.Compute.Task.{ComputeTask, validate}
use zdx_paralell_pyxel_vm.Compute.Claim.{sorts_before, insert_sorted, sorted, fits, pick}
use zdx_paralell_pyxel_vm.Compute.Claim.Picks.{insert_sorted-AllOf}

sorts_before_asym : (t u : ComputeTask) → sorts_before t u ≡ true → sorts_before u t ≡ false
unfolding sorts_before
sorts_before_asym t u h = ground (arith, text_lt_asym (codes t.task_id) (codes u.task_id))

sorts_before_irrefl : (t : ComputeTask) → sorts_before t t ≡ false
sorts_before_irrefl t = ground (arith, sorts_before_asym t t)

sorts_before_between :
    (x u t : ComputeTask)
    → sorts_before x u ≡ false
    → sorts_before u t ≡ false
    → sorts_before x t ≡ false
unfolding sorts_before
sorts_before_between x u t h k =
    ground (arith, text_lt_between (codes x.task_id) (codes u.task_id) (codes t.task_id))

AllOf-map {κ} :
    (P Q : ComputeTask → Type κ) (us : List ComputeTask)
    → ((u : ComputeTask) → P u → Q u)
    → AllOf P us
    → AllOf Q us
AllOf-map P Q [] f a = tt
AllOf-map P Q (u ∷ us) f a = (f u a.0, AllOf-map P Q us f a.1)

abbrev pub IsSorted : List ComputeTask → Type 0
IsSorted [] = Unit
IsSorted (t ∷ ts) = AllOf (λ u. sorts_before u t ≡ false) ts × IsSorted ts

insert_sorted-IsSorted :
    (t : ComputeTask) (us : List ComputeTask) → IsSorted us → IsSorted (insert_sorted t us)
unfolding insert_sorted
insert_sorted-IsSorted t [] s = (tt, tt)
insert_sorted-IsSorted t (u ∷ us) s = elim (Bool-cases (sorts_before u t)) [
  | inl before ↦
      rw (before, insert_sorted)
        (
          insert_sorted-AllOf (λ x. sorts_before x u ≡ false) t us (sorts_before_asym u t before)
              s.0,
          insert_sorted-IsSorted t us s.1,
        )
  | inr behind ↦
      rw (behind, insert_sorted)
        (
          (
            behind,
            AllOf-map (λ x. sorts_before x u ≡ false) (λ x. sorts_before x t ≡ false) us
                (λ x h. sorts_before_between x u t h behind) s.0,
          ),
          s,
        )
]

pub sorted-IsSorted : (ts : List ComputeTask) → IsSorted (sorted ts)
unfolding sorted
sorted-IsSorted [] = tt
sorted-IsSorted (t ∷ ts) = insert_sorted-IsSorted t (sorted ts) (sorted-IsSorted ts)

-- What holds of the sorted tasks holds of the tasks.
module _ {κ} (P : ComputeTask → Type κ) where
  inserted-AllOf :
      (t : ComputeTask) (us : List ComputeTask) → AllOf P (insert_sorted t us) → AllOf P (t ∷ us)
  unfolding insert_sorted
  inserted-AllOf t [] a = a
  inserted-AllOf t (u ∷ us) a = elim (Bool-cases (sorts_before u t)) [
    | inl before ↦
        let b : AllOf P (u ∷ insert_sorted t us) = rw (before, insert_sorted) at a in
        let c = inserted-AllOf t us b.1 in (c.0, (b.0, c.1))
    | inr behind ↦ rw (behind, insert_sorted) at a
  ]

  pub unsorted-AllOf : (ts : List ComputeTask) → AllOf P (sorted ts) → AllOf P ts
  unfolding sorted
  unsorted-AllOf [] a = tt
  unsorted-AllOf (t ∷ ts) a = let b = inserted-AllOf t (sorted ts) a in (b.0, unsorted-AllOf ts b.1)

  pub get-AllOf :
      (d : Dict ComputeTask) (k : String) (t : ComputeTask)
      → AllOf P (values d)
      → get k d ≡ some t
      → P t
  unfolding get
  get-AllOf [] k t a h = cc
  get-AllOf ((j, u) ∷ d) k t a h = elim (Bool-cases (str_eq j k)) [
    | inl same ↦ subst P (cc (rw (same, get) at h)) a.0
    | inr other ↦ get-AllOf d k t a.1 (rw (other, get) at h)
  ]

pub pick-first :
    (memory cpu : ℕ) (features : List String) (raws : List ComputeTask) (t : ComputeTask)
    → IsSorted raws
    → AllOf (λ u. validate u ≡ ok u) raws
    → pick memory cpu features raws ≡ ok (some t)
    → AllOf (λ u. fits memory cpu features u ≡ true → sorts_before u t ≡ false) raws
unfolding pick
pick-first memory cpu features [] t s v h = tt
pick-first memory cpu features (raw ∷ rest) t s v h =
    elim (Bool-cases (fits memory cpu features raw)) [
      | inl fit ↦
          let same : raw ≡ t = cc (rw (v.0, fit, pick) at h) in
          (
            λ _. subst (λ x. sorts_before raw x ≡ false) same (sorts_before_irrefl raw),
            AllOf-map (λ u. sorts_before u raw ≡ false)
                (λ u. fits memory cpu features u ≡ true → sorts_before u t ≡ false) rest
                (λ u first _. subst (λ x. sorts_before u x ≡ false) same first) s.0,
          )
      | inr over ↦
          (λ fit. cc, pick-first memory cpu features rest t s.1 v.1 (rw (v.0, over, pick) at h))
    ]
