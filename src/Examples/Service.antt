-- ===== src/Examples/Service.antt =====
-- The theorems on service.py, on samples.
use pondsecndr.Prelude.{
  ℕ, ◌≤◌, ◌≡◌, ◌⊎◌, refl, arith, false, List, [], ◌∷◌, ◌++◌, some, length, count_if, replicate,
}
use pondsecndr.Python.Value.{null}
use pondsecndr.Config.{PondSecConfig}
use pondsecndr.Service.Rate.{limit_rate}
use pondsecndr.Service.Rate.Window.{Run, start, call, is_in_window, limit_rate_window}
use pondsecndr.Service.AutoResponse.{Candidate, Moment, Service, attempt, auto_response}
use pondsecndr.Service.AutoResponse.Commands.{Enforced, attempt-Enforced, auto_response-commands}
use pondsecndr.Service.AutoResponse.Pace.{Forward, Paced, auto_response-pace}
use pondsecndr.Samples

abbrev items : List ℕ
items = 7 ∷ 8 ∷ 9 ∷ []

-- Two calls within a window of room for two.
abbrev two_calls :
    Run ℕ 2 1000 (limit_rate items (limit_rate items [] 2 400).timestamps 2 1000).timestamps (
      ([] ++ replicate (length (limit_rate items [] 2 400).accepted) 400)
      ++ replicate
          (length (limit_rate items (limit_rate items [] 2 400).timestamps 2 1000).accepted)
          1000)
two_calls = call items (omega arith) (call items (omega arith) start)

limit_rate_window_example :
    count_if (is_in_window 100) (
      ([] ++ replicate (length (limit_rate items [] 2 400).accepted) 400)
      ++ replicate
          (length (limit_rate items (limit_rate items [] 2 400).timestamps 2 1000).accepted)
          1000)
    ≤ 2
limit_rate_window_example = limit_rate_window two_calls 100

abbrev candidate : Candidate
candidate = record {
  incident_id = "case-1";
  source_ip = some Samples.external_host;
  evidence = null;
}

abbrev moment : Moment
moment = record { now = Samples.now; fresh = "block-2" }

abbrev service : Service
service = record {
  system = Samples.system;
  pf_action_rate_timestamps = [];
  last_response_errors = [];
}

abbrev recommending : PondSecConfig
recommending = record Samples.config { response = record Samples.response { mode = "recommend" } }

attempt-Enforced_example :
    ((attempt Samples.platform Samples.config Samples.shell Samples.enforcer false moment candidate
        Samples.system).1.commands
      ≡ [])
    ⊎ Enforced Samples.platform Samples.config Samples.shell Samples.enforcer false moment candidate
        Samples.blocked_store
attempt-Enforced_example =
    attempt-Enforced Samples.platform Samples.config Samples.shell Samples.enforcer false moment
      candidate Samples.system

auto_response-commands_example :
    (auto_response Samples.platform recommending Samples.shell Samples.enforcer
      (λ n. moment)
      (candidate ∷ [])
      service).1.system.commands
    ≡ []
auto_response-commands_example =
    auto_response-commands Samples.platform recommending Samples.shell Samples.enforcer
      (λ n. moment) (candidate ∷ []) service refl

abbrev steady : Forward 0 (λ n. moment)
steady = record { begins = omega arith; goes_on = λ n. omega arith }

auto_response-pace_example :
    (paced : Paced Samples.config.pf_action_rate_limit_per_minute 0 [] (
      auto_response Samples.platform Samples.config Samples.shell Samples.enforcer
        (λ n. moment)
        (candidate ∷ [])
        service))
    × ((from : ℕ)
        → count_if (is_in_window from) ([] ++ paced.added)
          ≤ Samples.config.pf_action_rate_limit_per_minute)
auto_response-pace_example =
    auto_response-pace Samples.platform Samples.config Samples.shell Samples.enforcer (λ n. moment)
      (candidate ∷ []) service steady start
