-- ===== src/Storage/Baselines/Silence.antt =====
-- A host whose baseline is not established stays silent, through the scores of
-- storage/database.py and HostBaselineAnomalyDetector of detection/detectors.py.
use pondsecndr.Prelude.{
  ℕ, ◌≤◌, ◌≡◌, refl, ap, sym, subst, take, All, All-append, All-map, ◌∙◌, arith, String, Bool, true,
  false, not, ◌||◌, List, [], ◌∷◌, Option, none, some, str_eq, eq_iff, if◌then◌else◌,
}
use pondsecndr.Python.Value.{Value, str, Fields, end, field, get}
use pondsecndr.Python.Float.{Float}
use pondsecndr.Python.Result.{ok, >>=-eq-ok, ok-injective}
use pondsecndr.Detection.{Detection, Feature, Tools}
use pondsecndr.Detection.Make.{make_detection}
use pondsecndr.Detection.Windows.{
  detect_each, float_at, int_at, is_established, baseline_item, baseline_finding,
}
use pondsecndr.Storage.{Baseline, Store, find_baseline}
use pondsecndr.Storage.Baselines.Observations.{find_baseline-row}
use pondsecndr.Storage.Baselines.{
  set_field, at, baseline_row, observations, metrics, established_row, compare_metrics, enrich,
  score_row, score_feature, score_features, score_features_against_baselines,
}

get-set_field :
    (fields : Fields) (key : String) (value : Value) (other : String)
    → get (set_field fields key value) other
      ≡ (if str_eq key other then value else get fields other)
unfolding get set_field
get-set_field end key value other = refl
get-set_field (field k v rest) key value other =
    ground
      (arith, eq_iff k key, eq_iff k other, eq_iff key other, get-set_field rest key value other)

abbrev is_some {ℓ} : {A : Type ℓ} → Option A → Bool
is_some none = false
is_some (some a) = true

-- The items that `score_features` returns are those of established rows only where they say so.
only_established :
    (established low : Bool) (source_ip : String) (d : Detection)
    → d.source_ip ≡ some source_ip
    → All
        (λ (d : Detection). (d.source_ip ≡ some source_ip) × (established ≡ true))
        (if not established || low then [] else d ∷ [])
only_established true true source_ip d h = tt
only_established true false source_ip d h = ((h, refl), tt)
only_established false low source_ip d h = tt

established_row-le :
    (minimum : ℕ) (row : Option Baseline)
    → is_some (established_row minimum row) ≡ true
    → minimum ≤ observations row
unfolding established_row observations
established_row-le minimum none h = absurd (ground (arith, h))
established_row-le minimum (some b) h = ground (arith, h)

says_established :
    (b : Bool) → is_established (if b then str "established" else str "learning") ≡ true → b ≡ true
says_established true h = refl
says_established false h = absurd (ground (arith, h))

module _ (tools : Tools) where
  enrich-status :
      (fields : Fields) (status : String) (observed : ℕ) (reasons : List Value) (score : Float)
      → get (enrich tools fields status observed reasons score) "baseline_status" ≡ str status
  unfolding enrich
  enrich-status fields status observed reasons score = simp get-set_field

  score_row-status :
      (fields : Fields) (score : Float) (row established : Option Baseline) (scored : Fields)
      → score_row tools fields score row established ≡ ok scored
      → get scored "baseline_status"
        ≡ (if is_some established then str "established" else str "learning")
  unfolding score_row
  score_row-status fields score row none scored e =
      subst (λ f. get f "baseline_status" ≡ str "learning") (ok-injective e)
        (enrich-status fields "learning" _ [] score)
  score_row-status fields score row (some b) scored e =
      let ((found, reasons), compared, returned) =
        >>=-eq-ok (compare_metrics tools fields b.baseline metrics (score, [])) _ e in
      subst (λ f. get f "baseline_status" ≡ str "established") (ok-injective returned)
        (enrich-status fields "established" b.observation_count (take 6 reasons) found)

  -- A detection of the baseline detector is of an item whose status is established.
  baseline_item-status :
      (item : Feature) (found : List Detection)
      → baseline_item tools item ≡ ok found
      → All
          (λ d.
            (d.source_ip ≡ some item.source_ip)
            × (is_established (get item.fields "baseline_status") ≡ true))
          found
  unfolding baseline_item baseline_finding make_detection
  baseline_item-status item found e =
      let (deviation, read, rest) =
        >>=-eq-ok (float_at tools item.fields "baseline_deviation") _ e in
      let (observations, counted, returned) =
        >>=-eq-ok (int_at tools item.fields "baseline_observations") _ rest in
      subst
        (All (λ (d : Detection).
          (d.source_ip ≡ some item.source_ip)
          × (is_established (get item.fields "baseline_status") ≡ true)))
        (ok-injective returned)
        (only_established (is_established (get item.fields "baseline_status"))
          (tools.floats.lt deviation (tools.floats.decimal 65 2)) item.source_ip
          (make_detection tools (baseline_finding tools item deviation observations)) refl)

  score_feature-established :
      (minimum : ℕ) (bs : List Baseline) (item scored : Feature)
      → score_feature tools minimum bs item ≡ ok scored
      → (scored.source_ip ≡ item.source_ip)
        × (is_established (get scored.fields "baseline_status") ≡ true
            → minimum ≤ find_baseline item.source_ip bs)
  unfolding score_feature
  score_feature-established minimum bs item scored e =
      let (score, read, rest) = >>=-eq-ok (at tools item.fields "baseline_deviation") _ e in
      let row = baseline_row item.source_ip bs in
      let (fields, made, returned) =
        >>=-eq-ok (score_row tools item.fields score row (established_row minimum row)) _ rest in
      subst
        (λ (f : Feature).
          (f.source_ip ≡ item.source_ip)
          × (is_established (get f.fields "baseline_status") ≡ true
              → minimum ≤ find_baseline item.source_ip bs))
        (ok-injective returned)
        (
          refl,
          λ h.
              let status =
                score_row-status item.fields score row (established_row minimum row) fields made in
              subst (λ n. minimum ≤ n) (sym (find_baseline-row item.source_ip bs))
                (established_row-le minimum row
                  (says_established (is_some (established_row minimum row)) (rw status at h))),
        )

  abbrev pub IsObserved : ℕ → List Baseline → Detection → Type 0
  IsObserved minimum bs d =
      (ip : String) × (d.source_ip ≡ some ip) × (minimum ≤ find_baseline ip bs)

  item-IsObserved :
      (minimum : ℕ) (bs : List Baseline) (item scored : Feature) (found : List Detection)
      → score_feature tools minimum bs item ≡ ok scored
      → baseline_item tools scored ≡ ok found
      → All (IsObserved minimum bs) found
  item-IsObserved minimum bs item scored found e f =
      let (same, enough) = score_feature-established minimum bs item scored e in
      All-map
        (λ (d : Detection).
          (d.source_ip ≡ some scored.source_ip)
          × (is_established (get scored.fields "baseline_status") ≡ true))
        (IsObserved minimum bs) found
        (λ d (about, says). (item.source_ip, about ∙ ap some same, enough says))
        (baseline_item-status scored found f)

  silent :
      (minimum : ℕ) (bs : List Baseline) (features scored : List Feature) (found : List Detection)
      → score_features tools minimum bs features ≡ ok scored
      → detect_each (baseline_item tools) scored ≡ ok found
      → All (IsObserved minimum bs) found
  unfolding score_features detect_each
  silent minimum bs [] scored found e f =
      let none_left =
        subst (λ (xs : List Feature). detect_each (baseline_item tools) xs ≡ ok found)
          (sym (ok-injective e)) f in
      subst (All (IsObserved minimum bs)) (ok-injective none_left) tt
  silent minimum bs (item ∷ rest) scored found e f =
      let (one, made, others_made) = >>=-eq-ok (score_feature tools minimum bs item) _ e in
      let (others, rest_made, returned) =
        >>=-eq-ok (score_features tools minimum bs rest) _ others_made in
      let detected =
        subst (λ (xs : List Feature). detect_each (baseline_item tools) xs ≡ ok found)
          (sym (ok-injective returned)) f in
      let (here, of_one, rest_detected) = >>=-eq-ok (baseline_item tools one) _ detected in
      let (later, of_others, both) =
        >>=-eq-ok (detect_each (baseline_item tools) others) _ rest_detected in
      subst (All (IsObserved minimum bs)) (ok-injective both) (
        All-append (IsObserved minimum bs) here later
          (item-IsObserved minimum bs item one here made of_one)
          (silent minimum bs rest others later rest_made of_others))

  -- Of the scored features, the baseline detector only reports hosts whose row of the table has at least
  -- the configured number of observations.
  pub score_features-silent :
      (minimum : ℕ) (s : Store) (features : List Feature) {scored : List Feature}
      {found : List Detection}
      → score_features_against_baselines tools minimum s features ≡ ok scored
      → detect_each (baseline_item tools) scored ≡ ok found
      → All
          (λ d. (ip : String) × (d.source_ip ≡ some ip) × (minimum ≤ find_baseline ip s.baselines))
          found
  unfolding score_features_against_baselines
  score_features-silent minimum s features {scored} {found} e f =
      silent minimum s.baselines features scored found e f
