-- ===== src/Storage/Evidence.antt =====
-- What storage/database.py keeps of the evidence and the risk factors of two incidents that it merges:
-- _merge_evidence and _merge_risk_factors. `dumps` is `_stable_set_value` of a value that is no text.
use pondsecndr.Prelude.{
  ◌-◌, String, Bool, true, false, not, ◌&&◌, ◌||◌, List, [], ◌∷◌, ◌++◌, map, length, drop, str_eq,
  is_empty, is_in, if◌then◌else◌,
}
use pondsecndr.Prelude.Int.{pos}
use pondsecndr.Python.Value.{
  Value, null, bool, int, str, obj, arr, Fields, end, empty, get, has, as_dict, as_list, elements,
}
use pondsecndr.Detection.{Tools}
use pondsecndr.Detection.Explain.{items, entries}
use pondsecndr.Storage.Baselines.{set_field}
use pondsecndr.Storage.Related.{is_given, shown, detections_of}

-- `xs[-50:]`
unfoldable pub last_fifty {ℓ} : {A : Type ℓ} → List A → List A
last_fifty xs = drop (length xs - 50) xs

-- `d[id] = detection`, in the order of the first occurrence of an id.
unfoldable pub put_detection : String → Fields → List (String × Fields) → List (String × Fields)
put_detection id detection [] = (id, detection) ∷ []
put_detection id detection ((other, old) ∷ rest) =
    if str_eq other id
    then (other, detection) ∷ rest
    else (other, old) ∷ put_detection id detection rest

-- `value in (None, {}, [], "")`
unfoldable pub is_void : Value → Bool
is_void null = true
is_void (obj end) = true
is_void (arr empty) = true
is_void (str s) = is_empty s
is_void _ = false

-- `d.update(...)`
unfoldable pub update_fields : Fields → List (String × Value) → Fields
unfolding set_field
update_fields fields [] = fields
update_fields fields ((k, v) ∷ rest) = update_fields (set_field fields k v) rest

-- The keys of the incoming evidence that are missing or void.
unfoldable pub fill_missing : Fields → List (String × Value) → Fields
unfolding set_field is_void
fill_missing merged [] = merged
fill_missing merged ((k, v) ∷ rest) =
    fill_missing
      (if not (str_eq k "detections") && (not (has merged k) || is_void (get merged k))
        then set_field merged k v
        else merged)
      rest

abbrev pub with_detections : Fields → List Fields → Fields
with_detections merged [] = merged
with_detections merged (d ∷ ds) =
    set_field merged "detections" (arr (items (map obj (last_fifty (d ∷ ds)))))

module _ (tools : Tools) (dumps : Value → String) where
  -- `_stable_set_value`
  unfoldable pub stable_value : Value → String
  stable_value (str s) = s
  stable_value value = dumps value

  -- `str(detection.get("detection_id") or _stable_set_value(detection))`
  unfoldable pub identity : Fields → String
  unfolding stable_value
  identity d =
      let id = get d "detection_id" in
      if is_given tools id then shown tools id else stable_value (obj d)

  unfoldable pub gather : List (String × Fields) → List Fields → List (String × Fields)
  unfolding put_detection identity
  gather by_id [] = by_id
  gather by_id (d ∷ ds) = gather (put_detection (identity d) d by_id) ds

  unfoldable pub merge_evidence : (existing : Value) (incoming : Fields) → Fields
  unfolding gather last_fifty fill_missing update_fields
  merge_evidence existing incoming =
      let by_id =
        gather (gather [] (detections_of tools (as_dict existing)))
          (detections_of tools incoming) in
      let merged = with_detections (as_dict existing) (map (λ (id, d). d) by_id) in
      let filled = fill_missing merged (entries incoming) in
      let retained = length (elements (as_list (get filled "detections"))) in
      set_field filled "correlation" (
        obj (
          update_fields (as_dict (get filled "correlation")) (
            ("deduplicated", bool true)
            ∷ (
              "dedupe_rule",
              str
                  "related source, entity role, target or target network, validation tag, and time window",
            )
            ∷ ("category_equality_required", bool false)
            ∷ ("retained_detection_records", int (pos retained))
            ∷ [])))

  -- The factors that are not yet there, by their text.
  unfoldable pub new_factors : (seen : List String) → List Value → List Value
  unfolding stable_value
  new_factors seen [] = []
  new_factors seen (f ∷ fs) =
      let key = stable_value f in
      let skipped = new_factors seen fs in
      let kept = f ∷ new_factors (key ∷ seen) fs in if is_in key seen then skipped else kept

  unfoldable pub merge_risk_factors : (existing incoming : List Value) → List Value
  unfolding new_factors last_fifty
  merge_risk_factors existing incoming = last_fifty (new_factors [] (existing ++ incoming))
