-- ===== src/Karma/System.antt =====
-- The operations of ZDXKarmaSystem. Sets are dictionaries of `tt`. The event log, which only printing
-- reads, and the saving of the state are left out, and so are the election, which compares masses, and
-- the reports. The experience that a period of inactivity costs, `int(xp * 0.15)`, is the parameter
-- `decay_loss`.
use zdx_paralell_pyxel_vm.Base.{
  ℕ, zero, suc, ◌+◌, ◌-◌, ◌/◌, String, Bool, true, false, not, ◌&&◌, Option, none, some, List, [],
  ◌∷◌, ltb, leb, if◌then◌else◌, length,
}
use zdx_paralell_pyxel_vm.Base.Dict.{Dict, get, contains, insert, delete, keys}
use zdx_paralell_pyxel_vm.Karma.Score.{
  KarmaEvent, compute_cycle_completed, KarmaScore, ClusterMembership, new_score, adjusted,
  must_suspend, suspended, is_suspended, compute_level, evicts,
}

pub record KarmaSystem : Type 0 where
  pub scores : Dict KarmaScore
  pub suspension_queue : Dict ℕ
  pub eviction_queue : Dict (Unit {0})
  pub clusters : Dict (Dict (Unit {0}))

abbrev pub found_score : Option KarmaScore → KarmaScore
found_score none = new_score
found_score (some k) = k

-- `get_score`, which `put_score` files.
abbrev pub score_of : String → KarmaSystem → KarmaScore
score_of n s = found_score (get n s.scores)

abbrev pub found_nodes : Option (Dict (Unit {0})) → Dict (Unit {0})
found_nodes none = []
found_nodes (some nodes) = nodes

-- `clusters[cluster_id]` of a `defaultdict`; a cluster that is only read stays unfiled.
abbrev pub nodes_of : String → KarmaSystem → Dict (Unit {0})
nodes_of c s = found_nodes (get c s.clusters)

abbrev pub put_score : String → KarmaScore → KarmaSystem → KarmaSystem
put_score n k s = record s { scores = insert n k s.scores }

abbrev pub new_membership : ℕ → ClusterMembership
new_membership now = record {
  joined_at = now;
  last_active = now;
  cycles_completed = 0;
  cycles_in_progress = 0;
}

-- A node enters a cluster, on both sides.
abbrev pub enter : String → String → ℕ → KarmaSystem → KarmaSystem
enter n c now s =
    let k = score_of n s in
    record s {
      scores =
          insert n
            (record k { cluster_memberships = insert c (new_membership now) k.cluster_memberships })
            s.scores;
      clusters = insert c (insert n tt (nodes_of c s)) s.clusters;
    }

unfoldable pub leave_cluster : String → String → KarmaSystem → KarmaSystem × Bool
leave_cluster n c s =
    let k = score_of n s in
    if contains c k.cluster_memberships
    then (
      record s {
        scores =
            insert n (record k { cluster_memberships = delete c k.cluster_memberships }) s.scores;
        clusters = insert c (delete n (nodes_of c s)) s.clusters;
      },
      true,
    )
    else (s, false)

unfoldable pub leave_clusters : String → List String → KarmaSystem → KarmaSystem
unfolding leave_cluster
leave_clusters n [] s = s
leave_clusters n (c ∷ cs) s = leave_clusters n cs (leave_cluster n c s).0

-- `_mark_eviction`
unfoldable pub mark_eviction : String → KarmaSystem → KarmaSystem
unfolding leave_clusters
mark_eviction n s =
    let k = score_of n s in
    leave_clusters n (keys k.cluster_memberships) (record s {
      scores = insert n (record k { eviction_pending = true }) s.scores;
      eviction_queue = insert n tt s.eviction_queue;
    })

-- `_suspend_node`
unfoldable pub suspend_node : ℕ → String → KarmaSystem → KarmaSystem
suspend_node now n s = record s {
  scores = insert n (suspended now (score_of n s)) s.scores;
  suspension_queue = insert n now s.suspension_queue;
}

-- `report_event`. Karma does not go below 0, so that it never is at most -50.
unfoldable pub report_event : ℕ → String → KarmaEvent → Bool → KarmaSystem → KarmaSystem
unfolding adjusted suspend_node mark_eviction
report_event now n event severe s =
    let k = adjusted now event (score_of n s) in
    let filed = put_score n k s in
    let judged = if must_suspend severe k then suspend_node now n filed else filed in
    if evicts event then mark_eviction n judged else judged

abbrev pub active_score : ℕ → KarmaScore → KarmaScore
active_score now k = record k { last_activity_time = now }

-- The membership after an activity.
abbrev pub touched : ℕ → Bool → ClusterMembership → ClusterMembership
touched now done m =
    let active : ClusterMembership = record m { last_active = now } in
    if done then record active { cycles_completed = active.cycles_completed + 1 } else active

abbrev pub touch : String → String → ℕ → Bool → KarmaSystem → KarmaSystem
touch n c now done s =
    let k = score_of n s in
    elim (get c k.cluster_memberships) [
      | none ↦ s
      | some m ↦
          put_score n
            (record k { cluster_memberships = insert c (touched now done m) k.cluster_memberships })
            s
    ]

-- The node's score is there, and the node is in the cluster.
abbrev pub entered : String → String → ℕ → KarmaSystem → KarmaSystem
entered n c now s = if contains c (score_of n s).cluster_memberships then s else enter n c now s

unfoldable pub register_cluster_activity : ℕ → String → String → Bool → KarmaSystem → KarmaSystem
unfolding report_event
register_cluster_activity now n c done s =
    let present = touch n c now done (entered n c now s) in
    let reported =
      if done then report_event now n compute_cycle_completed false present else present in
    put_score n (active_score now (score_of n reported)) reported

-- `can_participate`, which files the score and lifts a suspension that is over.
unfoldable pub can_participate : ℕ → String → KarmaSystem → KarmaSystem × Bool
unfolding is_suspended
can_participate now n s =
    let k = score_of n s in
    if contains n s.eviction_queue
    then (put_score n k s, false)
    else let r = is_suspended now k in (put_score n r.0 s, not r.1 && ltb 0 r.0.karma)

unfoldable pub join_cluster : ℕ → String → String → KarmaSystem → KarmaSystem × Bool
unfolding can_participate
join_cluster now n c s =
    let asked = can_participate now n s in
    if not asked.1
    then (asked.0, false)
    else if leb 100 (length (nodes_of c asked.0))
    then (asked.0, false)
    else (entered n c now asked.0, true)

-- The experience left after so many periods.
unfoldable pub decayed : (ℕ → ℕ) → ℕ → ℕ → ℕ
decayed decay_loss zero xp = xp
decayed decay_loss (suc periods) xp = decayed decay_loss periods (xp - decay_loss xp)

-- `apply_inactivity_decay`, with the experience that is lost.
unfoldable pub apply_inactivity_decay : (ℕ → ℕ) → ℕ → String → KarmaSystem → KarmaSystem × ℕ
unfolding decayed compute_level
apply_inactivity_decay decay_loss now n s = elim (get n s.scores) [
  | none ↦ (s, 0)
  | some k ↦
      let idle = now - k.last_activity_time in
      if ltb idle 604800
      then (s, 0)
      else let xp = decayed decay_loss (idle / 604800) k.total_experience in
        (
          put_score n (record k { total_experience = xp; level = compute_level xp }) s,
          k.total_experience - xp,
        )
]
