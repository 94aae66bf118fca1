-- ===== src/Config/Load/Bounds.antt =====
-- What `load_config` guarantees of the configuration that it returns, whatever the file holds.
use pondsecndr.Prelude.{
  ℕ, ◌≤◌, ◌≡◌, ◌↔◌, refl, String, true, false, [], arith, str_eq, is_in, lower, strip, Bool-cases,
  inl, inr, subst, sym, any, List,
}
use mathlib.Core.List.{append-nil}
use pondsecndr.Prelude.Int.{ℤ, pos, negsuc}
use pondsecndr.Python.Float.{Floats}
use pondsecndr.Python.Value.{
  Value, null, bool, int, float, str, obj, arr, Fields, Texts, text_or, get, truthy, as_dict,
}
use pondsecndr.Python.Result.{Result, ok, raise, >>-eq-ok, >>=-eq-ok, ok-injective, Result-cases}
use pondsecndr.Config.{
  modes, response_modes, directions, PondSecConfig, number_errors, choice_errors, validate,
}
use pondsecndr.Config.Load.{
  Conversions, clamp, as_int, load_mode, load_response_mode, load_config, config_of, text_default,
  section_of, check_numbers, top_numbers, detection_numbers, threat_intel_numbers, response_numbers,
}

-- The ranges that the rest of the program relies on.
pub record InBounds (c : PondSecConfig) : Type 0 where
  pub retention_days : 1 ≤ c.retention_days
  pub max_database_mb : 64 ≤ c.max_database_mb
  pub max_queue_length : 1 ≤ c.max_queue_length
  pub incident_rate : 1 ≤ c.incident_rate_limit_per_minute
  pub pf_action_rate : 1 ≤ c.pf_action_rate_limit_per_minute
  pub correlation_window : 1 ≤ c.detection.correlation_window_minutes
  pub feedback_days : 1 ≤ c.detection.false_positive_feedback_days
  pub cache_ttl : 1 ≤ c.threat_intel.cache_ttl_hours
  pub risk_score : (1 ≤ c.response.minimum_risk_score) × (c.response.minimum_risk_score ≤ 100)
  pub confidence : (1 ≤ c.response.minimum_confidence) × (c.response.minimum_confidence ≤ 100)
  pub severity : (1 ≤ c.response.minimum_severity) × (c.response.minimum_severity ≤ 10)
  pub block_seconds : 60 ≤ c.response.max_block_seconds

-- The modes are words that the program knows.
pub record HasModes (c : PondSecConfig) : Type 0 where
  pub mode : is_in c.mode modes ≡ true
  pub response_mode : is_in c.response.mode response_modes ≡ true

number_errors-eq-nil : (c : PondSecConfig) → InBounds c → number_errors c ≡ []
unfolding number_errors
number_errors-eq-nil c h = ground arith

-- What the file itself must get right.
pub record IsConsistent (c : PondSecConfig) : Type 0 where
  pub direction : is_in c.interfaces.direction directions ≡ true
  pub fail_open : c.fail_open ≡ true
  pub prevent :
      str_eq c.mode "prevent" ≡ true
      → c.response.manual_confirmation ≡ false
      → 75 ≤ c.response.minimum_confidence
  pub enforce : str_eq c.response.mode "enforce" ≡ true → c.response.automatic_blocking ≡ true

choices_iff : (c : PondSecConfig) → HasModes c → (choice_errors c ≡ []) ↔ IsConsistent c
unfolding choice_errors
choices_iff c h = (
  λ e. record {
    direction = ground arith;
    fail_open = ground arith;
    prevent = λ p m. ground arith;
    enforce = λ p. ground arith;
  },
  λ k. ground (arith, k.prevent, k.enforce),
)

validate_iff : (c : PondSecConfig) → HasModes c → InBounds c → (validate c ≡ []) ↔ IsConsistent c
unfolding validate
validate_iff c h b = rw (number_errors-eq-nil c b, append-nil) (choices_iff c h)

clamp_bounds : (lo hi : ℕ) (n : ℤ) → lo ≤ hi → (lo ≤ clamp lo hi n) × (clamp lo hi n ≤ hi)
unfolding clamp
clamp_bounds lo hi (pos n) h = ground arith
clamp_bounds lo hi (negsuc n) h = ground arith

module _ (floats : Floats) (texts : Texts) (conv : Conversions) where
  as_int_bounds :
      (v : Value) (default lo hi : ℕ)
      → lo ≤ hi
      → (lo ≤ as_int floats texts conv v default lo hi)
        × (as_int floats texts conv v default lo hi ≤ hi)
  unfolding as_int
  as_int_bounds v default lo hi h = clamp_bounds lo hi _ h

  as_int_min :
      (v : Value) (default lo hi : ℕ) → lo ≤ hi → lo ≤ as_int floats texts conv v default lo hi
  as_int_min v default lo hi h = (as_int_bounds v default lo hi h).0

  load_mode-is_in : (raw : Fields) → is_in (load_mode floats texts conv raw) modes ≡ true
  unfolding load_mode is_in
  load_mode-is_in raw =
      let mode = lower (strip (text_default floats texts conv raw "mode" "monitor")) in
      elim (Bool-cases (is_in mode modes)) [
        | inl known ↦ rw known known
        | inr other ↦ rw other refl
      ]

  load_response_mode-is_in :
      (response : Fields)
      → is_in (load_response_mode floats texts conv response) response_modes ≡ true
  unfolding load_response_mode is_in
  load_response_mode-is_in response =
      let mode = lower (strip (text_or floats texts (get response "mode") "observe")) in
      elim (Bool-cases (is_in mode response_modes)) [
        | inl known ↦ rw known known
        | inr other ↦ rw other refl
      ]

  config_of-InBounds :
      (raw interfaces detection threat_intel response : Fields) (marker : String)
      → InBounds (config_of floats texts conv raw interfaces detection threat_intel response marker)
  unfolding config_of
  config_of-InBounds raw interfaces detection threat_intel response marker = record {
    retention_days = as_int_min _ _ _ _ (omega arith);
    max_database_mb = as_int_min _ _ _ _ (omega arith);
    max_queue_length = as_int_min _ _ _ _ (omega arith);
    incident_rate = as_int_min _ _ _ _ (omega arith);
    pf_action_rate = as_int_min _ _ _ _ (omega arith);
    correlation_window = as_int_min _ _ _ _ (omega arith);
    feedback_days = as_int_min _ _ _ _ (omega arith);
    cache_ttl = as_int_min _ _ _ _ (omega arith);
    risk_score = as_int_bounds _ _ _ _ (omega arith);
    confidence = as_int_bounds _ _ _ _ (omega arith);
    severity = as_int_bounds _ _ _ _ (omega arith);
    block_seconds = as_int_min _ _ _ _ (omega arith);
  }

  config_of-HasModes :
      (raw interfaces detection threat_intel response : Fields) (marker : String)
      → HasModes (config_of floats texts conv raw interfaces detection threat_intel response marker)
  unfolding config_of
  config_of-HasModes raw interfaces detection threat_intel response marker = record {
    mode = load_mode-is_in _;
    response_mode = load_response_mode-is_in _;
  }

  -- A section is an object, or a value that counts as none.
  abbrev pub IsSection : Value → Type 0
  IsSection (obj fields) = Unit
  IsSection v = truthy floats texts v ≡ false

  -- None of the numbers is infinite.
  abbrev pub IsFinite : Fields → List String → Type 0
  IsFinite d keys = any (λ key. conv.overflows (get d key)) keys ≡ false

  -- Every section of the file is one, and no number in it is infinite.
  pub record IsReadable (loaded : Value) : Type 0 where
    pub interfaces : IsSection (get (as_dict loaded) "interfaces")
    pub detection : IsSection (get (as_dict loaded) "detection")
    pub threat_intel : IsSection (get (as_dict loaded) "threat_intel")
    pub response : IsSection (get (as_dict loaded) "response")
    pub numbers : IsFinite (as_dict loaded) top_numbers
    pub detection_part : IsFinite (as_dict (get (as_dict loaded) "detection")) detection_numbers
    pub threat_intel_part :
        IsFinite (as_dict (get (as_dict loaded) "threat_intel")) threat_intel_numbers
    pub response_part : IsFinite (as_dict (get (as_dict loaded) "response")) response_numbers

  section_of-ok : (v : Value) → IsSection v → section_of floats texts conv v ≡ ok (as_dict v)
  unfolding section_of as_dict
  section_of-ok (obj fields) h = refl
  section_of-ok null h = rw h refl
  section_of-ok (bool b) h = rw h refl
  section_of-ok (int n) h = rw h refl
  section_of-ok (float x) h = rw h refl
  section_of-ok (str s) h = rw h refl
  section_of-ok (arr items) h = rw h refl

  check_numbers-ok :
      (d : Fields) (keys : List String)
      → IsFinite d keys
      → check_numbers floats texts conv d keys ≡ ok tt
  unfolding check_numbers
  check_numbers-ok d keys h = rw h refl

  load_config-ok :
      (loaded : Value) (marker : String)
      → IsReadable loaded
      → (c : PondSecConfig) × (load_config floats texts conv loaded marker ≡ ok c)
  unfolding load_config
  load_config-ok loaded marker h =
      let raw = as_dict loaded in
      (
        config_of floats texts conv raw (as_dict (get raw "interfaces"))
            (as_dict (get raw "detection")) (as_dict (get raw "threat_intel"))
            (as_dict (get raw "response")) marker,
        rw
            (
              load_config,
              check_numbers-ok _ _ h.numbers,
              section_of-ok (get raw "interfaces") h.interfaces,
              section_of-ok (get raw "detection") h.detection,
              check_numbers-ok _ _ h.detection_part,
              section_of-ok (get raw "threat_intel") h.threat_intel,
              check_numbers-ok _ _ h.threat_intel_part,
              section_of-ok (get raw "response") h.response,
              check_numbers-ok _ _ h.response_part,
            )
            refl,
      )

  -- What is returned comes of five parts.
  load_config-config_of :
      (loaded : Value) (marker : String) (c : PondSecConfig)
      → load_config floats texts conv loaded marker ≡ ok c
      → (raw : Fields) × (interfaces : Fields) × (detection : Fields) × (threat_intel : Fields)
        × (response : Fields) × (config_of floats texts conv raw interfaces detection threat_intel
              response marker
            ≡ c)
  unfolding load_config
  load_config-config_of loaded marker c h =
      let raw = as_dict loaded in
      let h1 = >>-eq-ok (check_numbers floats texts conv raw top_numbers) _ h in
      let (interfaces, _, h2) =
        >>=-eq-ok (section_of floats texts conv (get raw "interfaces")) _ h1 in
      let (detection, _, h3) =
        >>=-eq-ok (section_of floats texts conv (get raw "detection")) _ h2 in
      let h4 = >>-eq-ok (check_numbers floats texts conv detection detection_numbers) _ h3 in
      let (threat_intel, _, h5) =
        >>=-eq-ok (section_of floats texts conv (get raw "threat_intel")) _ h4 in
      let h6 = >>-eq-ok (check_numbers floats texts conv threat_intel threat_intel_numbers) _ h5 in
      let (response, _, h7) = >>=-eq-ok (section_of floats texts conv (get raw "response")) _ h6 in
      let h8 = >>-eq-ok (check_numbers floats texts conv response response_numbers) _ h7 in
      (raw, interfaces, detection, threat_intel, response, ok-injective h8)

  returned_iff :
      (loaded : Value) (marker : String) (c : PondSecConfig)
      → load_config floats texts conv loaded marker ≡ ok c
      → (validate c ≡ []) ↔ IsConsistent c
  returned_iff loaded marker c h =
      let (raw, interfaces, detection, threat_intel, response, made) =
        load_config-config_of loaded marker c h in
      subst (λ c. (validate c ≡ []) ↔ IsConsistent c) made
        (validate_iff
          (config_of floats texts conv raw interfaces detection threat_intel response marker)
          (config_of-HasModes raw interfaces detection threat_intel response marker)
          (config_of-InBounds raw interfaces detection threat_intel response marker))

  -- The judgement of `validate` on a configuration, or no file that could be read.
  abbrev pub Judged : Value → Result PondSecConfig → Type 0
  Judged loaded (ok c) = (validate c ≡ []) ↔ IsConsistent c
  Judged loaded (raise e) = ¬ IsReadable loaded

  -- Of a file whose sections are objects or empty and whose numbers are finite, a configuration is
  -- returned. What is returned is valid exactly when the direction is known, `fail_open` is set,
  -- prevention without confirmation asks for 75 percent, and enforcement comes with blocking.
  pub load_config-validate_iff :
      (loaded : Value) (marker : String)
      → Judged loaded (load_config floats texts conv loaded marker)
  load_config-validate_iff loaded marker =
      elim (Result-cases (load_config floats texts conv loaded marker)) [
        | inl (c, returned) ↦
            subst (Judged loaded) (sym returned) (returned_iff loaded marker c returned)
        | inr (e, raised) ↦ subst (Judged loaded) (sym raised) (λ h.
            let (c, returned) = load_config-ok loaded marker h in
            absurd (ground (arith, raised, returned)))
      ]
