-- ===== src/Cluster/Queue/Converges.antt =====
-- Replicas that merge each other's logs.
use zdx_paralell_pyxel_vm.Base.{
  ℕ, ◌≡◌, refl, sym, ◌∙◌, ap, String, true, Option, none, some, str_eq, eq_iff, arith,
}
use zdx_paralell_pyxel_vm.Base.Dict.{Dict, get}
use zdx_paralell_pyxel_vm.Base.Results.{ok}
use zdx_paralell_pyxel_vm.Base.Sort.{IsOrder, Separates, sort_by_same}
use zdx_paralell_pyxel_vm.Compiler.Text.{codes}
use zdx_paralell_pyxel_vm.Compiler.TextOrder.{text_lt_asym, text_lt_between, text_lt_total}
use zdx_paralell_pyxel_vm.Cluster.Log.{Operation, Snapshot, merge_operations, merge}
use zdx_paralell_pyxel_vm.Cluster.Log.Intact.{
  IsLog, IsReplica, Agree, merge_operations-IsLog, merge_operations-get, merge_operations-ok,
}
use zdx_paralell_pyxel_vm.Cluster.Queue.{earlier_operation, materialized}

earlier-IsOrder : IsOrder earlier_operation
unfolding earlier_operation
earlier-IsOrder = record {
  asym = λ o p h. ground (arith, text_lt_asym (codes o.operation_id) (codes p.operation_id));
  between = λ o p q h.
      ground (
        arith,
        text_lt_between (codes o.operation_id) (codes p.operation_id) (codes q.operation_id),
      );
}

first_of :
    (x y : Option Operation)
    → ((o p : Operation) → x ≡ some o → y ≡ some p → o ≡ p)
    → (elim x [ none ↦ y | some o ↦ some o ]) ≡ (elim y [ none ↦ x | some o ↦ some o ])
first_of none none h = refl
first_of none (some p) h = refl
first_of (some o) none h = refl
first_of (some o) (some p) h = ap (λ x. some x) (h o p refl refl)

module _ (digest : Operation → String) where
  -- Operations under different ids are never simultaneous in the order of the log.
  IsLog-Separates :
      (log : Dict Operation) → IsLog digest log → Separates earlier_operation earlier-IsOrder log
  unfolding earlier_operation
  IsLog-Separates log l i j v w e f apart = ground (
    arith,
    l.intact i v e,
    l.intact j w f,
    eq_iff v.operation_id i,
    eq_iff w.operation_id j,
    apart,
    text_lt_total v.operation_id w.operation_id,
  )

  merge_lem :
      (cluster : String) (s t : Snapshot)
      → IsReplica digest cluster s
      → IsReplica digest cluster t
      → (n : ℕ) × ((merge digest t s).1 ≡ ok n)
        × ((merge digest t s).0.operations
            ≡ (merge_operations digest 0 t.operations s.operations).0)
        × ((merge_operations digest 0 t.operations s.operations).1 ≡ ok n)
  unfolding merge
  merge_lem cluster s t a b =
      let (n, succeeds) = merge_operations-ok digest 0 t.operations s.operations b.log in
      let same : str_eq t.cluster_id s.cluster_id ≡ true =
        ground (arith, a.same_cluster, b.same_cluster, eq_iff t.cluster_id s.cluster_id) in
      (
        n,
        ground (arith, succeeds, b.first_version, same, b.bounded),
        ground (arith, b.first_version, same, b.bounded),
        succeeds,
      )

  -- Replicas of a cluster that do not have different operations under one id can merge each other's
  -- snapshots, and then stand for the same queue.
  pub merge_converges :
      (cluster : String) (s t : Snapshot)
      → IsReplica digest cluster s
      → IsReplica digest cluster t
      → Agree digest s t
      → (m n : ℕ) × ((merge digest t s).1 ≡ ok m)
        × ((merge digest s t).1 ≡ ok n)
        × (materialized (merge digest t s).0 ≡ materialized (merge digest s t).0)
  unfolding materialized
  merge_converges cluster s t a b agree =
      let (m, here, mine, done) = merge_lem cluster s t a b in
      let (n, there, yours, over) = merge_lem cluster t s b a in
      let left : IsLog digest (merge_operations digest 0 t.operations s.operations).0 =
        merge_operations-IsLog digest 0 t.operations s.operations a.log in
      let right : IsLog digest (merge_operations digest 0 s.operations t.operations).0 =
        merge_operations-IsLog digest 0 s.operations t.operations b.log in
      (
        m,
        n,
        here,
        there,
        rw
            (
              mine,
              yours,
              sort_by_same earlier_operation earlier-IsOrder _ _ left.keys_once right.keys_once
                  (IsLog-Separates _ left) (IsLog-Separates _ right)
                  (λ k.
                    merge_operations-get digest 0 m t.operations s.operations k done
                    ∙ first_of (get k s.operations) (get k t.operations) (agree k)
                    ∙ sym (merge_operations-get digest 0 n s.operations t.operations k over)),
            )
            refl,
      )
