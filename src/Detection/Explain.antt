-- ===== src/Detection/Explain.antt =====
-- `_notable_features`, `_default_admin_guidance` and `_build_explainability` of detection/base.py.
use pondsecndr.Prelude.{
  String, Bool, true, false, not, ◌&&◌, ◌||◌, List, [], ◌∷◌, ◌++◌, map, keep, take, is_in, str_eq,
  if◌then◌else◌,
}
use pondsecndr.Python.Float.{Floats}
use pondsecndr.Python.Value.{
  Value, bool, int, float, str, obj, arr, Fields, end, field, Items, empty, item, Texts, get,
  truthy,
}

-- A dictionary and a list, as the code writes them.
abbrev pub dict : List (String × Value) → Fields
dict [] = end
dict ((k, v) ∷ rest) = field k v (dict rest)

abbrev pub items : List Value → Items
items [] = empty
items (v ∷ rest) = item v (items rest)

abbrev pub entries : Fields → List (String × Value)
entries end = []
entries (field k v rest) = (k, v) ∷ entries rest

-- `isinstance(value, (int, float, str, bool))`
abbrev is_scalar : Value → Bool
is_scalar (bool b) = true
is_scalar (int n) = true
is_scalar (float x) = true
is_scalar (str s) = true
is_scalar _ = false

-- `isinstance(value, (int, float))`, which a Boolean is too.
abbrev is_number : Value → Bool
is_number (bool b) = true
is_number (int n) = true
is_number (float x) = true
is_number _ = false

abbrev ignored : List String
ignored = "thresholds" ∷ "validation" ∷ "explainability" ∷ "feature_values" ∷ []

module _ (floats : Floats) (texts : Texts) where
  unfoldable pub is_notable : String × Value → Bool
  is_notable (key, value) =
      not (is_in key ignored) && (is_scalar value || truthy floats texts value)

  unfoldable pub notable_features : Fields → List (String × Value)
  unfolding is_notable
  notable_features evidence = take 12 (keep is_notable (entries evidence))

  abbrev named_value : String × Value → Value
  named_value (name, value) = obj (dict (("name", str name) ∷ ("value", value) ∷ []))

  abbrev defined_threshold : String × Value → Value
  defined_threshold (name, value) = obj (
      dict
        (("feature", str name) ∷ ("observed", value) ∷ ("threshold", str "detector-defined") ∷ []))

  -- The thresholds of the evidence, if they are a list.
  unfoldable pub thresholds_exceeded : Value → Fields → Value
  thresholds_exceeded (arr thresholds) evidence = arr thresholds
  thresholds_exceeded _ evidence =
      arr (items (map defined_threshold (keep (λ (n, v). is_number v) (notable_features evidence))))

  unfoldable pub category_guidance : String → List String
  category_guidance category =
      if str_eq category "reconnaissance"
      then "Confirm whether the source is an approved scanner or administrator workstation."
        ∷ "Review firewall and Suricata logs for failed connection bursts from the same source."
        ∷ "Check whether the destination services should be reachable from this network segment."
        ∷ []
      else if str_eq category "command_and_control"
      then "Inspect DNS and TLS metadata for repeated or high-entropy destinations."
        ∷ "Check endpoint telemetry on the source host for unknown processes or scheduled tasks."
        ∷ "Block or isolate the source if the destination is not business-approved." ∷ []
      else if str_eq category "lateral_movement"
      then "Validate whether administrative protocols were expected for this source host."
        ∷ "Review authentication logs on contacted internal hosts."
        ∷ "Check segmentation rules between the involved VLANs." ∷ []
      else if str_eq category "exfiltration"
      then "Identify the destination and confirm whether large outbound transfer is expected."
        ∷ "Review proxy, DNS, TLS, and application logs for the same transfer window."
        ∷ "Consider temporary isolation while validating data sensitivity." ∷ []
      else if str_eq category "machine_learning"
      then "Review the model score together with deterministic detections for the same host."
        ∷ "Inspect the feature values that drove the pretrained model decision."
        ∷ "Treat this as supporting evidence until correlated with real traffic context." ∷ []
      else if str_eq category "anomaly"
      then "Compare the host's current behavior with its normal role and recent changes."
        ∷ "Look for new destinations, new ports, or volume changes that explain the deviation."
        ∷ "Avoid automatic isolation unless this correlates with stronger attack evidence." ∷ []
      else if str_eq category "signature"
      then "Open the referenced Suricata alert and verify source, destination, signature, and action."
        ∷ "Check whether the traffic was dropped upstream or still reached the target."
        ∷ "Update or suppress the signature only after validating false-positive context." ∷ []
      else "Review the source host, destination, and surrounding traffic window." ∷ []

  unfoldable pub default_admin_guidance : (category recommended_action : String) → List String
  unfolding category_guidance
  default_admin_guidance category recommended_action =
      if str_eq recommended_action "block"
      then category_guidance category
        ++ "If confirmed malicious, apply the matching PondSec response policy." ∷ []
      else category_guidance category

  -- `evidence.get("combined_events", default)`
  unfoldable pub get_or : Fields → String → Value → Value
  get_or end key default = default
  get_or (field k v rest) key default = if str_eq k key then v else get_or rest key default

  unfoldable pub build_explainability :
      (category description : String) (evidence : Fields) (recommended_action : String) → Value
  unfolding notable_features thresholds_exceeded default_admin_guidance get_or
  build_explainability category description evidence recommended_action = obj (
      dict (
        ("why", str description)
        ∷ (
          "combined_events",
          get_or evidence "combined_events" (str "aggregated Suricata/flow feature window"),
        )
        ∷ ("thresholds_exceeded", thresholds_exceeded (get evidence "thresholds") evidence)
        ∷ ("notable_features", arr (items (map named_value (notable_features evidence))))
        ∷ (
          "policy_response",
          obj (
              dict (
                ("recommended_action", str recommended_action)
                ∷ ("category", str category)
                ∷ ("automatic_response_eligible", bool (str_eq recommended_action "block"))
                ∷ [])),
        )
        ∷ (
          "administrator_guidance",
          arr (items (map str (default_admin_guidance category recommended_action))),
        )
        ∷ []))
