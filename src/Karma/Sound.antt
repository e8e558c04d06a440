-- ===== src/Karma/Sound.antt =====
-- What every operation keeps of the scores and the clusters.
pub mod Operations
pub mod Sequence
use zdx_paralell_pyxel_vm.Base.{
  ℕ, ◌≤◌, ◌≡◌, refl, sym, ap, subst, ◌∙◌, String, Bool, true, false, not, ◌&&◌, ◌||◌, Option, none,
  some, str_eq, eq_iff, if◌then◌else◌, arith, Bool-cases, inl, inr,
}
use zdx_paralell_pyxel_vm.Base.Dict.{
  Dict, get, contains, insert, delete, contains_lem, get-insert, get-delete,
}
use zdx_paralell_pyxel_vm.Karma.Score.{KarmaScore, ClusterMembership, NodeLevel, compute_level}
use zdx_paralell_pyxel_vm.Karma.System.{found_score, found_nodes}

pub contains-insert {ℓ} :
    {V : Type ℓ} (k j : String) (v : V) (d : Dict V)
    → contains j (insert k v d) ≡ (str_eq k j || contains j d)
contains-insert k j v d =
    ground (arith, contains_lem j (insert k v d), contains_lem j d, get-insert k j v d)

pub contains-delete {ℓ} :
    {V : Type ℓ} (k j : String) (d : Dict V)
    → contains j (delete k d) ≡ (not (str_eq k j) && contains j d)
contains-delete k j d =
    ground (arith, contains_lem j (delete k d), contains_lem j d, get-delete k j d)

-- The karma is at most 100 and the level is that of the experience.
abbrev pub IsScore : KarmaScore → Type 0
IsScore k = (k.karma ≤ 100) × (k.level ≡ compute_level k.total_experience)

abbrev pub score_in : String → Dict KarmaScore → KarmaScore
score_in n scores = found_score (get n scores)

abbrev pub nodes_in : String → Dict (Dict (Unit {0})) → Dict (Unit {0})
nodes_in c clusters = found_nodes (get c clusters)

-- Every score is one, and a node has a membership in a cluster exactly if the cluster has the node.
pub record IsSound (scores : Dict KarmaScore) (clusters : Dict (Dict (Unit {0}))) : Type 0 where
  pub each : (n : String) → IsScore (score_in n scores)
  pub linked :
      (n c : String)
      → contains c (score_in n scores).cluster_memberships ≡ contains n (nodes_in c clusters)

module _ (n q : String) (k : KarmaScore) (scores : Dict KarmaScore) where
  score_in-own : str_eq n q ≡ true → score_in q (insert n k scores) ≡ k
  score_in-own same = ground (arith, same, get-insert n q k scores)

  score_in-other : str_eq n q ≡ false → score_in q (insert n k scores) ≡ score_in q scores
  score_in-other other = ground (arith, other, get-insert n q k scores)

module _ (c d : String) (nodes : Dict (Unit {0})) (clusters : Dict (Dict (Unit {0}))) where
  nodes_in-own : str_eq c d ≡ true → nodes_in d (insert c nodes clusters) ≡ nodes
  nodes_in-own same = ground (arith, same, get-insert c d nodes clusters)

  nodes_in-other : str_eq c d ≡ false → nodes_in d (insert c nodes clusters) ≡ nodes_in d clusters
  nodes_in-other other = ground (arith, other, get-insert c d nodes clusters)

module _ (scores : Dict KarmaScore) (clusters : Dict (Dict (Unit {0})))
    (s : IsSound scores clusters) (n : String) (k : KarmaScore) (good : IsScore k) where
  put_each : (q : String) → IsScore (score_in q (insert n k scores))
  put_each q = elim (Bool-cases (str_eq n q)) [
    | inl same ↦ subst (λ x. IsScore x) (sym (score_in-own n q k scores same)) good
    | inr other ↦ subst (λ x. IsScore x) (sym (score_in-other n q k scores other)) (s.each q)
  ]

  -- A score with the same clusters.
  pub put-IsSound :
      ((c : String)
        → contains c k.cluster_memberships ≡ contains c (score_in n scores).cluster_memberships)
      → IsSound (insert n k scores) clusters
  put-IsSound h = record {
    each = put_each;
    linked = λ q c. elim (Bool-cases (str_eq n q)) [
      | inl same ↦
          let e : n ≡ q = ground (arith, same, eq_iff n q) in
          ap (λ x. contains c x.cluster_memberships) (score_in-own n q k scores same)
          ∙ h c
          ∙ s.linked n c
          ∙ ap (λ x. contains x (nodes_in c clusters)) e
      | inr other ↦
          ap (λ x. contains c x.cluster_memberships) (score_in-other n q k scores other)
          ∙ s.linked q c
    ];
  }

  -- A score with other memberships, and a cluster with other nodes: where they agree on the node and the
  -- cluster, and are as before elsewhere.
  pub link-IsSound :
      (c : String) (nodes : Dict (Unit {0}))
      → contains c k.cluster_memberships ≡ contains n nodes
      → ((d : String)
          → str_eq c d ≡ false
          → contains d k.cluster_memberships ≡ contains d (score_in n scores).cluster_memberships)
      → ((q : String) → str_eq n q ≡ false → contains q nodes ≡ contains q (nodes_in c clusters))
      → IsSound (insert n k scores) (insert c nodes clusters)
  link-IsSound c nodes both rest_of_score rest_of_nodes = record {
    each = put_each;
    linked = λ q d. elim (Bool-cases (str_eq n q)) [
      | inl same ↦
          let e : n ≡ q = ground (arith, same, eq_iff n q) in
          ap (λ x. contains d x.cluster_memberships) (score_in-own n q k scores same)
          ∙ elim (Bool-cases (str_eq c d)) [
            | inl here ↦
                let f : c ≡ d = ground (arith, here, eq_iff c d) in
                subst
                  (λ x.
                    contains x k.cluster_memberships
                    ≡ contains q (nodes_in x (insert c nodes clusters)))
                  f
                  (both
                    ∙ ap (λ x. contains x nodes) e
                    ∙ sym (
                        ap (contains q)
                          (nodes_in-own c c nodes clusters (ground (arith, eq_iff c c)))))
            | inr elsewhere ↦
                rest_of_score d elsewhere
                ∙ s.linked n d
                ∙ ap (λ x. contains x (nodes_in d clusters)) e
                ∙ sym (ap (contains q) (nodes_in-other c d nodes clusters elsewhere))
          ]
      | inr other ↦
          ap (λ x. contains d x.cluster_memberships) (score_in-other n q k scores other)
          ∙ s.linked q d
          ∙ elim (Bool-cases (str_eq c d)) [
            | inl here ↦
                let f : c ≡ d = ground (arith, here, eq_iff c d) in
                ap (λ x. contains q (nodes_in x clusters)) (sym f)
                ∙ sym (rest_of_nodes q other)
                ∙ sym (ap (contains q) (nodes_in-own c d nodes clusters here))
            | inr elsewhere ↦ sym (ap (contains q) (nodes_in-other c d nodes clusters elsewhere))
          ]
    ];
  }
