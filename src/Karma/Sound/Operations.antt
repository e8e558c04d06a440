-- ===== src/Karma/Sound/Operations.antt =====
-- The operations of the karma system, one by one and in sequence.
use zdx_paralell_pyxel_vm.Base.{
  ℕ, refl, ◌∙◌, String, Bool, true, List, [], ◌∷◌, eq_iff, arith, Bool-cases, inl, inr,
}
use zdx_paralell_pyxel_vm.Base.Dict.{contains, keys}
use zdx_paralell_pyxel_vm.Karma.Score.{
  KarmaEvent, KarmaScore, adjusted, must_suspend, suspended, evicts,
}
use zdx_paralell_pyxel_vm.Karma.System.{
  KarmaSystem, score_of, nodes_of, put_score, new_membership, enter, leave_cluster, leave_clusters,
  mark_eviction, suspend_node, report_event,
}
use zdx_paralell_pyxel_vm.Karma.Sound.{
  IsScore, IsSound, put-IsSound, link-IsSound, contains-insert, contains-delete,
}

abbrev pub Sound : KarmaSystem → Type 0
Sound s = IsSound s.scores s.clusters

adjusted-IsScore : (now : ℕ) (event : KarmaEvent) (k : KarmaScore) → IsScore (adjusted now event k)
unfolding adjusted
adjusted-IsScore now event k = (omega arith, refl)

module _ (s : KarmaSystem) (i : Sound s) where
  pub enter-Sound : (n c : String) (now : ℕ) → Sound (enter n c now s)
  enter-Sound n c now =
      let k = score_of n s in
      link-IsSound s.scores s.clusters i n _ (i.each n) c _
        (contains-insert c c (new_membership now) k.cluster_memberships
          ∙ ground (arith, contains-insert n n tt (nodes_of c s), eq_iff c c, eq_iff n n))
        (λ d other.
          ground (arith, contains-insert c d (new_membership now) k.cluster_memberships, other))
        (λ q other. ground (arith, contains-insert n q tt (nodes_of c s), other))

  pub leave_cluster-Sound : (n c : String) → Sound (leave_cluster n c s).0
  unfolding leave_cluster
  leave_cluster-Sound n c = elim (Bool-cases (contains c (score_of n s).cluster_memberships)) [
    | inr absent ↦ rw (absent, leave_cluster) i
    | inl there ↦
        let k = score_of n s in
        rw (there, leave_cluster)
          (link-IsSound s.scores s.clusters i n _ (i.each n) c _
            (ground (
              arith,
              contains-delete c c k.cluster_memberships,
              contains-delete n n (nodes_of c s),
              eq_iff c c,
              eq_iff n n,
            ))
            (λ d other. ground (arith, contains-delete c d k.cluster_memberships, other))
            (λ q other. ground (arith, contains-delete n q (nodes_of c s), other)))
  ]

  suspend_node-Sound : (now : ℕ) (n : String) → Sound (suspend_node now n s)
  unfolding suspend_node
  suspend_node-Sound now n =
      put-IsSound s.scores s.clusters i n (suspended now (score_of n s)) (i.each n) (λ c. refl)

  adjust-Sound :
      (now : ℕ) (n : String) (event : KarmaEvent)
      → Sound (put_score n (adjusted now event (score_of n s)) s)
  unfolding adjusted
  adjust-Sound now n event =
      put-IsSound s.scores s.clusters i n (adjusted now event (score_of n s))
        (adjusted-IsScore now event (score_of n s)) (λ c. refl)

leave_clusters-Sound :
    (n : String) (cs : List String) (s : KarmaSystem) → Sound s → Sound (leave_clusters n cs s)
unfolding leave_clusters
leave_clusters-Sound n [] s i = i
leave_clusters-Sound n (c ∷ cs) s i =
    leave_clusters-Sound n cs (leave_cluster n c s).0 (leave_cluster-Sound s i n c)

mark_eviction-Sound : (n : String) (s : KarmaSystem) → Sound s → Sound (mark_eviction n s)
unfolding mark_eviction
mark_eviction-Sound n s i = leave_clusters-Sound n (keys (score_of n s).cluster_memberships) _ (
    put-IsSound s.scores s.clusters i n (record (score_of n s) { eviction_pending = true })
      (i.each n) (λ c. refl))

pub report_event-Sound :
    (now : ℕ) (n : String) (event : KarmaEvent) (severe : Bool) (s : KarmaSystem)
    → Sound s
    → Sound (report_event now n event severe s)
unfolding report_event
report_event-Sound now n event severe s i =
    let k : KarmaScore = adjusted now event (score_of n s) in
    let filed : Sound (put_score n k s) = adjust-Sound s i now n event in
    let suspends : Sound (suspend_node now n (put_score n k s)) =
      suspend_node-Sound (put_score n k s) filed now n in
    elim (Bool-cases (must_suspend severe k)) [
      | inl yes_suspend ↦ elim (Bool-cases (evicts event)) [
        | inl out ↦ rw (yes_suspend, out, report_event) (mark_eviction-Sound n _ suspends)
        | inr stays ↦ rw (yes_suspend, stays, report_event) suspends
      ]
      | inr not_suspended ↦ elim (Bool-cases (evicts event)) [
        | inl out ↦ rw (not_suspended, out, report_event) (mark_eviction-Sound n _ filed)
        | inr stays ↦ rw (not_suspended, stays, report_event) filed
      ]
    ]
