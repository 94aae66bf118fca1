-- ===== src/Config/Learning/Period.antt =====
-- When the learning phase is active: from the start for the configured number of days.
use pondsecndr.Prelude.{
  ℕ, ◌≤◌, ◌<◌, ◌+◌, ◌*◌, ◌≡◌, ◌≢◌, ◌↔◌, String, true, false, Option, none, some, arith,
  Option-cases, inl, inr,
}
use pondsecndr.Config.{DetectionConfig}
use pondsecndr.Config.Learning.{learning_status, armed, microseconds_per_day}

module _ (parse : String → Option ℕ) (c : DetectionConfig) where
  -- With learning on, no override and a start marker, learning is active exactly until the
  -- configured number of days after the start has passed.
  pub learning_status-active_iff :
      (now started : ℕ)
      → c.machine_learning ≡ true
      → c.learning_mode ≡ true
      → c.early_ai_activation_override ≡ false
      → parse c.learning_started_at ≡ some started
      → started ≤ now
      → ((learning_status parse c now).active ≡ true)
        ↔ (now < started + c.learning_days * microseconds_per_day)
  unfolding learning_status
  learning_status-active_iff now started ml mode over start h =
      (λ active. ground arith, λ early. ground arith)

  -- Learning does not come back: if it is active at some moment, it was active before.
  pub learning_status-active_mono :
      (now later : ℕ)
      → now ≤ later
      → (learning_status parse c later).active ≡ true
      → (learning_status parse c now).active ≡ true
  unfolding learning_status
  learning_status-active_mono now later h active = ground arith

  -- An armed detector that is in learning mode has a start, and no days remain.
  pub learning_status_armed :
      (now : ℕ)
      → c.learning_mode ≡ true
      → (learning_status parse c now).status ≡ armed
      → ((learning_status parse c now).remaining_days ≡ 0)
        × ((learning_status parse c now).started_at ≢ none)
  unfolding learning_status
  learning_status_armed now mode h = elim (Option-cases (parse c.learning_started_at)) [
    | inl absent ↦ ground (arith, absent)
    | inr (t, found) ↦ ground (arith, found)
  ]
