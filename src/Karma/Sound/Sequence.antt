-- ===== src/Karma/Sound/Sequence.antt =====
-- The operations of the karma system in sequence.
use zdx_paralell_pyxel_vm.Base.{
  ℕ, ◌-◌, ◌≡◌, refl, sym, ap, subst, ◌∙◌, String, Bool, true, false, ◌||◌, some, List, [], ◌∷◌,
  str_eq, eq_iff, ltb, leb, arith, Bool-cases, Option-cases, inl, inr, length,
}
use zdx_paralell_pyxel_vm.Base.Dict.{Dict, get, contains, contains_lem}
use zdx_paralell_pyxel_vm.Karma.Score.{
  KarmaEvent, compute_cycle_completed, KarmaScore, is_suspended, compute_level,
}
use zdx_paralell_pyxel_vm.Karma.System.{
  KarmaSystem, score_of, nodes_of, put_score, leave_cluster, report_event, active_score, touched,
  touch, entered, register_cluster_activity, can_participate, join_cluster, apply_inactivity_decay,
}
use zdx_paralell_pyxel_vm.Karma.Sound.{IsScore, IsSound, score_in, put-IsSound, contains-insert}
use zdx_paralell_pyxel_vm.Karma.Sound.Operations.{
  Sound, enter-Sound, leave_cluster-Sound, report_event-Sound,
}

-- The operations that change the system, each with its reading of the clock where it has one.
pub data KarmaStep : Type 0 where
  reported : ℕ → String → KarmaEvent → Bool → KarmaStep
  active : ℕ → String → String → Bool → KarmaStep
  asked : ℕ → String → KarmaStep
  joins : ℕ → String → String → KarmaStep
  leaves : String → String → KarmaStep
  decays : ℕ → String → KarmaStep

contains_again {ℓ} :
    {V : Type ℓ} (c d : String) (dict : Dict V) (v : V)
    → get c dict ≡ some v
    → (str_eq c d || contains d dict) ≡ contains d dict
contains_again c d dict v h = elim (Bool-cases (str_eq c d)) [
  | inl same ↦
      let e : c ≡ d = ground (arith, same, eq_iff c d) in
      let there : contains d dict ≡ true =
        subst (λ x. contains x dict ≡ true) e (ground (arith, contains_lem c dict, h)) in
      ground (arith, same, there)
  | inr other ↦ ground (arith, other)
]

is_suspended-keeps :
    (now : ℕ) (k : KarmaScore)
    → ((is_suspended now k).0.karma ≡ k.karma)
      × ((is_suspended now k).0.level ≡ k.level)
      × ((is_suspended now k).0.total_experience ≡ k.total_experience)
      × ((is_suspended now k).0.cluster_memberships ≡ k.cluster_memberships)
unfolding is_suspended
is_suspended-keeps now k = (ground arith, ground arith, ground arith, ground arith)

is_suspended-IsScore : (now : ℕ) (k : KarmaScore) → IsScore k → IsScore (is_suspended now k).0
is_suspended-IsScore now k i =
    let (karma, level, xp, memberships) = is_suspended-keeps now k in
    (rw karma i.0, level ∙ i.1 ∙ ap compute_level (sym xp))

module _ (s : KarmaSystem) (i : Sound s) where
  entered-Sound : (n c : String) (now : ℕ) → Sound (entered n c now s)
  entered-Sound n c now = elim (Bool-cases (contains c (score_of n s).cluster_memberships)) [
    | inl member ↦ rw (member, entered) i
    | inr outside ↦ rw (outside, entered) (enter-Sound s i n c now)
  ]

  touch-Sound : (n c : String) (now : ℕ) (done : Bool) → Sound (touch n c now done s)
  touch-Sound n c now done =
      let k = score_of n s in
      elim (Option-cases (get c k.cluster_memberships)) [
        | inl absent ↦ rw (absent, touch) i
        | inr (m, there) ↦
            rw (there, touch)
              (put-IsSound s.scores s.clusters i n _ (i.each n) (λ d.
                contains-insert c d (touched now done m) k.cluster_memberships
                ∙ contains_again c d k.cluster_memberships m there))
      ]

  activate-Sound : (n : String) (now : ℕ) → Sound (put_score n (active_score now (score_of n s)) s)
  activate-Sound n now =
      put-IsSound s.scores s.clusters i n (active_score now (score_of n s)) (i.each n) (λ c. refl)

  can_participate-Sound : (now : ℕ) (n : String) → Sound (can_participate now n s).0
  unfolding can_participate
  can_participate-Sound now n = elim (Bool-cases (contains n s.eviction_queue)) [
    | inl out ↦
        rw (out, can_participate)
          (put-IsSound s.scores s.clusters i n (score_of n s) (i.each n) (λ c. refl))
    | inr stays ↦
        rw (stays, can_participate)
          (put-IsSound s.scores s.clusters i n (is_suspended now (score_of n s)).0
            (is_suspended-IsScore now (score_of n s) (i.each n))
            (λ c. ap (contains c) (is_suspended-keeps now (score_of n s)).3))
  ]

  leave-Sound : (n c : String) → Sound (leave_cluster n c s).0
  leave-Sound n c = leave_cluster-Sound s i n c

  decay-Sound :
      (decay_loss : ℕ → ℕ) (now : ℕ) (n : String)
      → Sound (apply_inactivity_decay decay_loss now n s).0
  unfolding apply_inactivity_decay
  decay-Sound decay_loss now n = elim (Option-cases (get n s.scores)) [
    | inl unknown ↦ rw (unknown, apply_inactivity_decay) i
    | inr (k, there) ↦ elim (Bool-cases (ltb (now - k.last_activity_time) 604800)) [
      | inl recent ↦ rw (there, recent, apply_inactivity_decay) i
      | inr idle ↦
          let found : score_in n s.scores ≡ k = rw there refl in
          rw (there, idle, apply_inactivity_decay)
            (put-IsSound s.scores s.clusters i n _
              ((subst (λ x. IsScore x) found (i.each n)).0, refl)
              (λ c. ap (λ x. contains c x.cluster_memberships) (sym found)))
    ]
  ]

join_cluster-Sound :
    (now : ℕ) (n c : String) (s : KarmaSystem) → Sound s → Sound (join_cluster now n c s).0
unfolding join_cluster
join_cluster-Sound now n c s i =
    let asked : Sound (can_participate now n s).0 = can_participate-Sound s i now n in
    elim (Bool-cases (can_participate now n s).1) [
      | inr refused ↦ rw (refused, join_cluster) asked
      | inl may ↦ elim (Bool-cases (leb 100 (length (nodes_of c (can_participate now n s).0)))) [
        | inl full ↦ rw (may, full, join_cluster) asked
        | inr room ↦
            rw (may, room, join_cluster) (entered-Sound (can_participate now n s).0 asked n c now)
      ]
    ]

register_cluster_activity-Sound :
    (now : ℕ) (n c : String) (done : Bool) (s : KarmaSystem)
    → Sound s
    → Sound (register_cluster_activity now n c done s)
unfolding register_cluster_activity
register_cluster_activity-Sound now n c done s i =
    let present : KarmaSystem = touch n c now done (entered n c now s) in
    let before : Sound present =
      touch-Sound (entered n c now s) (entered-Sound s i n c now) n c now done in
    let reported : KarmaSystem = report_event now n compute_cycle_completed false present in
    let later : Sound reported =
      report_event-Sound now n compute_cycle_completed false present before in
    elim (Bool-cases done) [
      | inl yes_done ↦
          rw (yes_done, register_cluster_activity)
            (rw yes_done at (activate-Sound reported later n now))
      | inr not_done ↦
          rw (not_done, register_cluster_activity)
            (rw not_done at (activate-Sound present before n now))
    ]

module _ (decay_loss : ℕ → ℕ) where
  unfoldable pub stepped : KarmaStep → KarmaSystem → KarmaSystem
  unfolding report_event register_cluster_activity can_participate join_cluster leave_cluster
      apply_inactivity_decay
  stepped (reported now n event severe) s = report_event now n event severe s
  stepped (active now n c done) s = register_cluster_activity now n c done s
  stepped (asked now n) s = (can_participate now n s).0
  stepped (joins now n c) s = (join_cluster now n c s).0
  stepped (leaves n c) s = (leave_cluster n c s).0
  stepped (decays now n) s = (apply_inactivity_decay decay_loss now n s).0

  unfoldable pub after : List KarmaStep → KarmaSystem → KarmaSystem
  unfolding stepped
  after [] s = s
  after (step ∷ steps) s = after steps (stepped step s)

  stepped-Sound : (step : KarmaStep) (s : KarmaSystem) → Sound s → Sound (stepped step s)
  unfolding stepped
  stepped-Sound (reported now n event severe) s i = report_event-Sound now n event severe s i
  stepped-Sound (active now n c done) s i = register_cluster_activity-Sound now n c done s i
  stepped-Sound (asked now n) s i = can_participate-Sound s i now n
  stepped-Sound (joins now n c) s i = join_cluster-Sound now n c s i
  stepped-Sound (leaves n c) s i = leave_cluster-Sound s i n c
  stepped-Sound (decays now n) s i = decay-Sound s i decay_loss now n

  -- Whatever events, activities, requests and decays follow each other, every score has a karma of at most
  -- 100 and the level of its experience, and a node has a membership in a cluster exactly if the cluster
  -- has the node.
  pub after-IsSound :
      (steps : List KarmaStep) (s : KarmaSystem)
      → IsSound s.scores s.clusters
      → IsSound (after steps s).scores (after steps s).clusters
  unfolding after
  after-IsSound [] s i = i
  after-IsSound (step ∷ steps) s i = after-IsSound steps (stepped step s) (stepped-Sound step s i)
