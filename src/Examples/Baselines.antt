-- ===== src/Examples/Baselines.antt =====
-- The theorems on the baselines of storage/database.py, on one host that has been seen before and now
-- sends much more.
use pondsecndr.Prelude.{
  ℕ, ◌+◌, ◌≤◌, ◌≡◌, refl, String, ◌&&◌, List, [], ◌∷◌, some, All, count_if, str_eq, is_in,
}
use pondsecndr.Python.Value.{
  float, Fields, end, field, float_or_zero, truthy, get, to_float, int_or_zero, to_int,
}
use pondsecndr.Python.Result.{Result, ok, raise}
use pondsecndr.Detection.{Detection, Feature}
use pondsecndr.Detection.Windows.{detect_each, baseline_item}
use pondsecndr.Storage.{Store}
use pondsecndr.Storage.Baselines.{
  metrics, set_field, score_features_against_baselines, update_host_baselines, update_baselines,
  update_baseline, observe, mean_metrics, first_metrics, running_mean, set_learning, replace_row,
  baseline_row, observations, score_features, score_feature, score_row, compare_metrics,
  compare_metric, reason_of, metric_score, enrich, established_row,
}
use pondsecndr.Storage.Baselines.Observations.{is_observed, update_host_baselines-observations}
use pondsecndr.Storage.Baselines.Silence.{score_features-silent}
use pondsecndr.Storage.{find_baseline}
use pondsecndr.Samples

-- The nine metrics with one value.
abbrev every : ℕ → List String → Fields
every n [] = end
every n (metric ∷ rest) = field metric (float (Samples.hundredths n)) (every n rest)

abbrev busy : Feature
busy = record {
  source_ip = Samples.external_host;
  fields = field "baseline_deviation" (float (Samples.hundredths 0)) (every 9000 metrics);
}

abbrev seen_store : Store
seen_store = record Samples.store {
  baselines =
      record {
        host_ip = Samples.external_host;
        observation_count = 60;
        baseline = every 100 metrics;
      }
      ∷ [];
}

abbrev given_or {ℓ} : {A : Type ℓ} → A → Result A → A
given_or default (ok a) = a
given_or default (raise e) = default

abbrev updated : ℕ × Store
updated =
    given_or (0, Samples.store)
      (update_host_baselines Samples.tools [] (busy ∷ busy ∷ []) seen_store)

updated_lem : update_host_baselines Samples.tools [] (busy ∷ busy ∷ []) seen_store ≡ ok updated
unfolding update_host_baselines update_baselines update_baseline observe mean_metrics first_metrics
    set_field running_mean set_learning replace_row baseline_row observations is_in float_or_zero
    truthy get to_float
updated_lem = refl

update_host_baselines-observations_example :
    (find_baseline Samples.external_host updated.1.baselines
      ≡ find_baseline Samples.external_host seen_store.baselines
        + count_if
            (λ item. str_eq item.source_ip Samples.external_host && is_observed [] item)
            (busy ∷ busy ∷ []))
    × (updated.0 ≡ count_if (is_observed []) (busy ∷ busy ∷ []))
update_host_baselines-observations_example =
    update_host_baselines-observations Samples.tools Samples.external_host [] (busy ∷ busy ∷ [])
      seen_store updated_lem

abbrev scored : List Feature
scored = given_or [] (score_features_against_baselines Samples.tools 50 seen_store (busy ∷ []))

abbrev found : List Detection
found = given_or [] (detect_each (baseline_item Samples.tools) scored)

scored_lem : score_features_against_baselines Samples.tools 50 seen_store (busy ∷ []) ≡ ok scored
unfolding score_features_against_baselines score_features score_feature score_row compare_metrics
    compare_metric reason_of metric_score enrich established_row set_field baseline_row observations
    float_or_zero truthy get to_float
scored_lem = refl

found_lem : detect_each (baseline_item Samples.tools) scored ≡ ok found
unfolding detect_each baseline_item score_features_against_baselines float_or_zero truthy get
    baseline_row to_float int_or_zero to_int
found_lem = refl

score_features-silent_example :
    All
      (λ d. (ip : String) × (d.source_ip ≡ some ip) × (50 ≤ find_baseline ip seen_store.baselines))
      found
score_features-silent_example =
    score_features-silent Samples.tools 50 seen_store (busy ∷ []) {scored = scored} {found = found}
      scored_lem found_lem
