-- ===== src/Storage/Baselines.antt =====
-- The host baselines of storage/database.py: score_features_against_baselines and
-- update_host_baselines. A transaction that raises is rolled back.
pub mod Observations
pub mod Silence
use pondsecndr.Prelude.{
  ℕ, ◌+◌, String, true, false, ◌||◌, List, [], ◌∷◌, ◌++◌, Option, none, some, map, take, leb,
  str_eq, is_in, if◌then◌else◌,
}
use pondsecndr.Prelude.Int.{pos}
use pondsecndr.Python.Float.{Float, float_max, float_min}
use pondsecndr.Python.Value.{
  Value, int, float, str, obj, arr, Fields, end, field, get, float_or_zero,
}
use pondsecndr.Python.Result.{Result, ok, ◌>>=◌}
use pondsecndr.Detection.{Feature, Tools}
use pondsecndr.Detection.Explain.{dict, items}
use pondsecndr.Storage.{Baseline, Host, Store, update_host}

abbrev pub metrics : List String
metrics =
    "destination_count" ∷ "port_count" ∷ "bytes_out" ∷ "upload_download_ratio" ∷ "dns_entropy"
    ∷ "dns_name_length" ∷ "connections_60s" ∷ "internal_connections" ∷ "external_connections" ∷ []

-- `d[key] = value`
unfoldable pub set_field : Fields → String → Value → Fields
set_field end key value = field key value end
set_field (field k v rest) key value =
    if str_eq k key then field k value rest else field k v (set_field rest key value)

-- `SELECT ... FROM host_baselines WHERE host_ip = ?`
unfoldable pub baseline_row : String → List Baseline → Option Baseline
baseline_row ip [] = none
baseline_row ip (b ∷ bs) = if str_eq b.host_ip ip then some b else baseline_row ip bs

unfoldable pub observations : Option Baseline → ℕ
observations none = 0
observations (some b) = b.observation_count

-- `UPDATE host_baselines SET ... WHERE host_ip = ?`
unfoldable pub replace_row : Baseline → List Baseline → List Baseline
replace_row row baselines = map (λ b. if str_eq b.host_ip row.host_ip then row else b) baselines

-- The row counts if it has enough observations.
unfoldable pub established_row : (minimum : ℕ) → Option Baseline → Option Baseline
established_row minimum none = none
established_row minimum (some b) = if leb minimum b.observation_count then some b else none

module _ (tools : Tools) where
  abbrev pub at : Fields → String → Result Float
  at fields key = float_or_zero tools.floats tools.texts (get fields key)

  -- An entry of `reasons`.
  unfoldable pub reason_of : (metric : String) (current expected ratio : Float) → Value
  reason_of metric current expected ratio = obj (
      dict (
        ("metric", str metric)
        ∷ ("current", float (tools.floats.round current 4))
        ∷ ("baseline", float (tools.floats.round expected 4))
        ∷ ("ratio", float (tools.floats.round ratio 4))
        ∷ []))

  -- `min(1.0, (ratio - 1) / 10)`
  unfoldable pub metric_score : Float → Float
  metric_score ratio = float_min tools.floats (tools.floats.of_int (pos 1)) (
      tools.floats.div (tools.sub ratio (tools.floats.of_int (pos 1)))
        (tools.floats.of_int (pos 10)))

  -- One round of the loop over the metrics, on the score and the reasons so far.
  unfoldable pub compare_metric :
      (metric : String) (current expected : Float) → Float × List Value → Float × List Value
  unfolding reason_of metric_score
  compare_metric metric current expected (score, reasons) =
      let zero_float = tools.floats.of_int (pos 0) in
      let ratio =
        tools.floats.div current (float_max tools.floats expected (tools.floats.of_int (pos 1))) in
      if tools.le current zero_float || tools.le expected zero_float
      then (score, reasons)
      else if tools.le (tools.floats.of_int (pos 3)) ratio
      then (
        float_max tools.floats score (metric_score ratio),
        reasons ++ reason_of metric current expected ratio ∷ [],
      )
      else (score, reasons)

  unfoldable pub compare_metrics :
      (fields baseline : Fields) → List String → Float × List Value → Result (Float × List Value)
  unfolding compare_metric
  compare_metrics fields baseline [] found = ok found
  compare_metrics fields baseline (metric ∷ rest) found = at fields metric >>= λ current.
      at baseline metric >>= λ expected.
      compare_metrics fields baseline rest (compare_metric metric current expected found)

  -- The four keys that are set on the copy of the item.
  unfoldable pub enrich :
      (fields : Fields) (status : String) (observed : ℕ) (reasons : List Value) (score : Float)
      → Fields
  unfolding set_field
  enrich fields status observed reasons score =
      set_field
        (set_field
          (set_field (set_field fields "baseline_status" (str status)) "baseline_observations"
            (int (pos observed)))
          "baseline_anomaly_reasons" (arr (items reasons)))
        "baseline_deviation"
        (float (tools.floats.round (float_min tools.floats (tools.floats.of_int (pos 1)) score) 4))

  unfoldable pub score_row :
      Fields → (score : Float) (row established : Option Baseline) → Result Fields
  unfolding compare_metrics enrich observations
  score_row fields score row none = ok (enrich fields "learning" (observations row) [] score)
  score_row fields score row (some b) =
      compare_metrics fields b.baseline metrics (score, []) >>= λ (found, reasons).
      ok (enrich fields "established" b.observation_count (take 6 reasons) found)

  unfoldable pub score_feature : (minimum : ℕ) → List Baseline → Feature → Result Feature
  unfolding score_row established_row
  score_feature minimum baselines item =
      let row = baseline_row item.source_ip baselines in
      at item.fields "baseline_deviation" >>= λ score.
      score_row item.fields score row (established_row minimum row) >>= λ fields.
      ok (record item { fields = fields })

  unfoldable pub score_features :
      (minimum : ℕ) → List Baseline → List Feature → Result (List Feature)
  unfolding score_feature
  score_features minimum baselines [] = ok []
  score_features minimum baselines (item ∷ rest) =
      score_feature minimum baselines item >>= λ scored.
      score_features minimum baselines rest >>= λ others. ok (scored ∷ others)

  -- `score_features_against_baselines`
  unfoldable pub score_features_against_baselines :
      (minimum_observations : ℕ) → Store → List Feature → Result (List Feature)
  unfolding score_features
  score_features_against_baselines minimum s features = score_features minimum s.baselines features

  -- `((old * count) + current) / next_count`
  unfoldable pub running_mean : (old current : Float) (count : ℕ) → Float
  running_mean old current count =
      tools.floats.div
        (tools.floats.add (tools.floats.mul old (tools.floats.of_int (pos count))) current)
        (tools.floats.of_int (pos (count + 1)))

  unfoldable pub mean_metrics : (count : ℕ) (fields : Fields) → List String → Fields → Result Fields
  unfolding running_mean set_field
  mean_metrics count fields [] baseline = ok baseline
  mean_metrics count fields (metric ∷ rest) baseline = at fields metric >>= λ current.
      at baseline metric >>= λ old.
      mean_metrics count fields rest
        (set_field baseline metric (float (running_mean old current count)))

  -- `{metric: float(item.get(metric) or 0) for metric in metrics}`
  unfoldable pub first_metrics : (fields : Fields) → List String → Result Fields
  first_metrics fields [] = ok end
  first_metrics fields (metric ∷ rest) = at fields metric >>= λ current.
      first_metrics fields rest >>= λ others. ok (field metric (float current) others)

  -- The rows after one observation.
  unfoldable pub observe : Feature → Option Baseline → List Baseline → Result (List Baseline)
  unfolding mean_metrics first_metrics replace_row
  observe item none baselines = first_metrics item.fields metrics >>= λ values. ok (
      baselines
      ++ record { host_ip = item.source_ip; observation_count = 1; baseline = values } ∷ [])
  observe item (some row) baselines =
      mean_metrics row.observation_count item.fields metrics row.baseline >>= λ values. ok (
        replace_row
          (record {
            host_ip = item.source_ip;
            observation_count = row.observation_count + 1;
            baseline = values;
          })
          baselines)

  unfoldable pub set_learning : (observed : ℕ) (deviation : Float) → Host → Host
  set_learning observed deviation h = record h {
    learning_status = if leb 50 observed then "established" else "learning";
    baseline_deviation = deviation;
  }

  -- One round of the loop, of an item that is not skipped.
  unfoldable pub update_baseline : Feature → Store → Result Store
  unfolding observe set_learning
  update_baseline item s =
      let row = baseline_row item.source_ip s.baselines in
      observe item row s.baselines >>= λ baselines.
      at item.fields "baseline_deviation" >>= λ deviation. ok (record s {
        baselines = baselines;
        hosts = update_host item.source_ip (set_learning (observations row + 1) deviation) s.hosts;
      })

  unfoldable pub update_baselines :
      (skip_sources : List String) → List Feature → ℕ → Store → Result (ℕ × Store)
  unfolding update_baseline
  update_baselines skip [] updated s = ok (updated, s)
  update_baselines skip (item ∷ rest) updated s = elim (is_in item.source_ip skip) [
    | true ↦ update_baselines skip rest updated s
    | false ↦ update_baseline item s >>= λ after. update_baselines skip rest (updated + 1) after
  ]

  -- `update_host_baselines`: an exception leaves the store as it was.
  unfoldable pub update_host_baselines :
      (skip_sources : List String) → List Feature → Store → Result (ℕ × Store)
  unfolding update_baselines
  update_host_baselines skip features s = update_baselines skip features 0 s
