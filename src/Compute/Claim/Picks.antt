-- ===== src/Compute/Claim/Picks.antt =====
-- What the loop of `claim` picks: a queued task that fits.
use zdx_paralell_pyxel_vm.Base.{
  ℕ, ◌≡◌, String, true, some, List, [], ◌∷◌, arith, Bool-cases, inl, inr,
}
use zdx_paralell_pyxel_vm.Base.Dict.{AllOf}
use zdx_paralell_pyxel_vm.Base.Results.{ok, Result-cases}
use zdx_paralell_pyxel_vm.Compute.Task.{ComputeTask, validate}
use zdx_paralell_pyxel_vm.Compute.Claim.{sorts_before, insert_sorted, sorted, fits, pick}

module _ {κ} (P : ComputeTask → Type κ) where
  pub insert_sorted-AllOf :
      (t : ComputeTask) (us : List ComputeTask) → P t → AllOf P us → AllOf P (insert_sorted t us)
  unfolding insert_sorted
  insert_sorted-AllOf t [] p a = (p, tt)
  insert_sorted-AllOf t (u ∷ us) p a = elim (Bool-cases (sorts_before u t)) [
    | inl before ↦ rw (before, insert_sorted) (a.0, insert_sorted-AllOf t us p a.1)
    | inr behind ↦ rw (behind, insert_sorted) (p, a)
  ]

  pub sorted-AllOf : (ts : List ComputeTask) → AllOf P ts → AllOf P (sorted ts)
  unfolding sorted
  sorted-AllOf [] a = tt
  sorted-AllOf (t ∷ ts) a = insert_sorted-AllOf t (sorted ts) a.0 (sorted-AllOf ts a.1)

  pub pick-found :
      (memory cpu : ℕ) (features : List String) (raws : List ComputeTask) (t : ComputeTask)
      → AllOf P raws
      → pick memory cpu features raws ≡ ok (some t)
      → (raw : ComputeTask) × P raw × (validate raw ≡ ok t) × (fits memory cpu features t ≡ true)
  unfolding pick
  pick-found memory cpu features [] t a h = cc
  pick-found memory cpu features (raw ∷ rest) t a h = elim (Result-cases (validate raw)) [
    | inl (e, refused) ↦ ground (arith, h, refused)
    | inr (u, valid) ↦ elim (Bool-cases (fits memory cpu features u)) [
      | inl fit ↦
          let same : u ≡ t = ground (arith, h, valid, fit) in
          (raw, a.0, rw same at valid, rw same at fit)
      | inr over ↦ pick-found memory cpu features rest t a.1 (ground (arith, h, valid, over))
    ]
  ]
