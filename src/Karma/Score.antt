-- ===== src/Karma/Score.antt =====
-- KarmaEvent, NodeLevel, KarmaScore and ClusterMembership of zdx_karma_system.py. Times are in
-- seconds; the node's name is the key of its score. The mass, a floating-point product, is left out.
use zdx_paralell_pyxel_vm.Base.{
  ℕ, ◌+◌, ◌-◌, min, Bool, true, false, ◌||◌, ◌&&◌, Option, none, some, [], ltb, leb, if◌then◌else◌,
}
use zdx_paralell_pyxel_vm.Base.Dict.{Dict}

pub data KarmaEvent : Type 0 where
  valid_contribution correct_computation compute_cycle_completed uptime_heartbeat : KarmaEvent
  peer_validation frame_sync_success : KarmaEvent
  auth_failure replay_attack_attempt signature_forgery dos_attempt revocation_violation : KarmaEvent
  malformed_packet timeout_violation enrollment_abuse computation_fraud state_corruption :
      KarmaEvent
  heartbeat routine_operation inactivity_decay : KarmaEvent

-- What an event adds or takes of karma and of experience.
pub record Adjustment : Type 0 where
  pub karma_gain : ℕ
  pub karma_loss : ℕ
  pub xp_gain : ℕ
  pub xp_loss : ℕ

abbrev pub gains : ℕ → ℕ → Adjustment
gains k x = record { karma_gain = k; karma_loss = 0; xp_gain = x; xp_loss = 0 }

abbrev pub losses : ℕ → ℕ → Adjustment
losses k x = record { karma_gain = 0; karma_loss = k; xp_gain = 0; xp_loss = x }

-- `KARMA_ADJUSTMENTS.get(event, …)`
unfoldable pub adjustment : KarmaEvent → Adjustment
adjustment valid_contribution = gains 10 15
adjustment correct_computation = gains 5 10
adjustment compute_cycle_completed = gains 8 20
adjustment uptime_heartbeat = gains 1 1
adjustment peer_validation = gains 3 5
adjustment frame_sync_success = gains 2 3
adjustment auth_failure = losses 5 0
adjustment replay_attack_attempt = losses 20 10
adjustment signature_forgery = losses 50 25
adjustment dos_attempt = losses 30 15
adjustment revocation_violation = losses 100 0
adjustment malformed_packet = losses 3 0
adjustment timeout_violation = losses 2 0
adjustment enrollment_abuse = losses 25 10
adjustment computation_fraud = losses 40 20
adjustment state_corruption = losses 60 30
adjustment heartbeat = gains 0 0
adjustment routine_operation = gains 0 0
adjustment inactivity_decay = gains 0 0

abbrev pub evicts : KarmaEvent → Bool
evicts revocation_violation = true
evicts _ = false

pub data NodeLevel : Type 0 where
  trustee contributor validator sentinel master : NodeLevel

-- `_compute_level`
unfoldable pub compute_level : ℕ → NodeLevel
compute_level xp =
    if leb 100000 xp
    then master
    else if leb 10000 xp
    then sentinel
    else if leb 1000 xp
    then validator
    else if leb 100 xp
    then contributor
    else trustee

pub record ClusterMembership : Type 0 where
  pub joined_at : ℕ
  pub last_active : ℕ
  pub cycles_completed : ℕ
  pub cycles_in_progress : ℕ

pub record KarmaScore : Type 0 where
  pub karma : ℕ
  pub total_experience : ℕ
  pub level : NodeLevel
  pub last_event_time : ℕ
  pub last_activity_time : ℕ
  pub suspension_status : Bool
  pub suspension_time : Option ℕ
  pub eviction_pending : Bool
  pub consecutive_violations : ℕ
  pub cluster_memberships : Dict ClusterMembership

abbrev pub new_score : KarmaScore
new_score = record {
  karma = 50;
  total_experience = 0;
  level = trustee;
  last_event_time = 0;
  last_activity_time = 0;
  suspension_status = false;
  suspension_time = none;
  eviction_pending = false;
  consecutive_violations = 0;
  cluster_memberships = [];
}

-- The score after the adjustment of an event, before its suspension. One of gain and loss is 0.
unfoldable pub adjusted : ℕ → KarmaEvent → KarmaScore → KarmaScore
unfolding adjustment compute_level
adjusted now event k =
    let a = adjustment event in
    let xp = k.total_experience + a.xp_gain - a.xp_loss in
    record k {
      karma = min 100 (k.karma + a.karma_gain - a.karma_loss);
      total_experience = xp;
      level = compute_level xp;
      last_event_time = now;
      last_activity_time = now;
      consecutive_violations =
          if ltb 0 a.karma_loss then k.consecutive_violations + 1 else k.consecutive_violations;
    }

-- Whether the score is suspended after an event, severe or not.
abbrev pub must_suspend : Bool → KarmaScore → Bool
must_suspend severe k = leb k.karma 0 || (leb 3 k.consecutive_violations && severe)

abbrev pub suspended : ℕ → KarmaScore → KarmaScore
suspended now k = record k { suspension_status = true; suspension_time = some now }

abbrev pub day_passed : ℕ → Option ℕ → Bool
day_passed now none = false
day_passed now (some since) = ltb (since + 86400) now

-- `is_suspended`, which lifts a suspension after a day.
unfoldable pub is_suspended : ℕ → KarmaScore → KarmaScore × Bool
is_suspended now k =
    if k.suspension_status
    then (if day_passed now k.suspension_time
        then (record k { suspension_status = false; consecutive_violations = 0 }, false)
        else (k, true))
    else (k, false)
