-- ===== src/Config/Learning.antt =====
-- `DetectionConfig.learning_status` of config.py.
pub mod Period
use pondsecndr.Prelude.{
  ℕ, ◌-◌, ◌/◌, ◌*◌, String, Bool, true, false, not, ◌&&◌, Option, none, some, ltb, if◌then◌else◌,
}
use pondsecndr.Config.{DetectionConfig}

pub data Phase : Type 0 where
  disabled override learning armed : Phase

pub record LearningStatus : Type 0 where
  pub status : Phase
  pub active : Bool
  pub started_at : Option ℕ
  pub required_days : ℕ
  pub elapsed_days : ℕ
  pub remaining_days : ℕ

abbrev pub microseconds_per_day : ℕ
microseconds_per_day = 86400 * 1000000

-- `parse` is `_parse_datetime`: the moment that an ISO text names, in UTC.
module _ (parse : String → Option ℕ) (c : DetectionConfig) (now : ℕ) where
  unfoldable pub elapsed : Option ℕ → ℕ
  elapsed none = 0
  elapsed (some started) = (now - started) / microseconds_per_day

  unfoldable pub remaining : Option ℕ → ℕ
  unfolding elapsed
  remaining none = c.learning_days
  remaining (some started) = c.learning_days - elapsed (some started)

  unfoldable pub still_learning : Option ℕ → Bool
  unfolding elapsed
  still_learning none = true
  still_learning (some started) = ltb (elapsed (some started)) c.learning_days

  unfoldable pub phase : Phase
  unfolding still_learning
  phase =
      if not c.machine_learning
      then disabled
      else if c.learning_mode && c.early_ai_activation_override
      then override
      else if c.learning_mode && still_learning (parse c.learning_started_at)
      then learning
      else armed

  unfoldable pub is_active : Phase → Bool
  is_active learning = true
  is_active _ = false

  unfoldable pub learning_status : LearningStatus
  unfolding phase is_active elapsed remaining
  learning_status = record {
    status = phase;
    active = is_active phase;
    started_at = parse c.learning_started_at;
    required_days = c.learning_days;
    elapsed_days = elapsed (parse c.learning_started_at);
    remaining_days = remaining (parse c.learning_started_at);
  }
