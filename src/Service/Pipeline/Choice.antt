-- ===== src/Service/Pipeline/Choice.antt =====
-- What `_enabled_detectors` and `_apply_queue_backpressure` of service.py guarantee.
use pondsecndr.Prelude.{
  ◌≤◌, ◌+◌, max, ◌≡◌, ◌⊎◌, inl, inr, refl, arith, String, Bool, true, false, not, ◌&&◌, ◌||◌, List,
  [], ◌∷◌, ◌++◌, ap, drop, keep, length, leb, str_eq, is_in, eq_iff, length-take, take_all,
  append-drop, Bool-cases,
}
use pondsecndr.Config.{PondSecConfig}
use pondsecndr.Service.Pipeline.{
  Event, default_ids, ai_detector_ids, is_suppressed, enabled_detectors, detectors_to_run,
  apply_queue_backpressure,
}

-- A text is among those that a filter keeps exactly if it was there and passes.
is_in-keep :
    (p : String → Bool) (s : String) (xs : List String) → is_in s (keep p xs) ≡ is_in s xs && p s
unfolding is_in keep
is_in-keep p s [] = refl
is_in-keep p s (x ∷ xs) =
    let rest = is_in-keep p s xs in
    elim (Bool-cases (str_eq s x)) [
      | inl same ↦
          let equal : p s ≡ p x = ap p ((eq_iff s x).0 same) in ground (arith, rest, equal, same)
      | inr other ↦ ground (arith, rest, other)
    ]

is_in_nothing : (s : String) → is_in s [] ≡ false
unfolding is_in
is_in_nothing s = refl

module _ (config : PondSecConfig) where
  -- Whether learning is active or not, a detector is enabled exactly if it is one of the default
  -- ones and either is none of the two that learn, or machine learning is on and learning is over.
  -- The default detectors that are not enabled are the suppressed ones, and while learning is
  -- active none runs.
  pub enabled_detectors_iff :
      (learning_active : Bool) (d : String)
      → (is_in d (enabled_detectors config learning_active).0
          ≡ is_in d default_ids
            && (not (is_in d ai_detector_ids)
                || config.detection.machine_learning && not learning_active))
        × (is_in d (enabled_detectors config learning_active).1
            ≡ is_in d default_ids && not (is_in d (enabled_detectors config learning_active).0))
        × (is_in d (detectors_to_run config learning_active)
            ≡ is_in d (enabled_detectors config learning_active).0 && not learning_active)
  unfolding enabled_detectors is_suppressed detectors_to_run
  enabled_detectors_iff true d =
      let on = is_in-keep (λ d. not (is_suppressed config true d)) d default_ids in
      let off = is_in-keep (is_suppressed config true) d default_ids in
      (ground (arith, on), ground (arith, on, off), ground (arith, is_in_nothing d))
  enabled_detectors_iff false d =
      let on = is_in-keep (λ d. not (is_suppressed config false d)) d default_ids in
      let off = is_in-keep (is_suppressed config false) d default_ids in
      (ground (arith, on), ground (arith, on, off), ground arith)

  -- What goes on from the queue is a prefix of the events, no longer than the configured length or
  -- 1 if that is 0, the other events are counted as dropped, and one is dropped only if the queue is
  -- full.
  pub apply_queue_backpressure-split :
      (events : List Event)
      → (apply_queue_backpressure config events).0
            ++ drop (length (apply_queue_backpressure config events).0) events
          ≡ events
        × (length (apply_queue_backpressure config events).0
              + (apply_queue_backpressure config events).1
            ≡ length events)
        × (length (apply_queue_backpressure config events).0 ≤ max 1 config.max_queue_length)
        × (((apply_queue_backpressure config events).1 ≡ 0)
            ⊎ (length (apply_queue_backpressure config events).0 ≡ max 1 config.max_queue_length))
  unfolding apply_queue_backpressure
  apply_queue_backpressure-split events =
      let limit = max 1 config.max_queue_length in
      let short = length-take limit events in
      elim (Bool-cases (leb (length events) limit)) [
        | inl fits ↦ rw fits ((append-drop events, omega arith, ground (arith, fits), inl refl))
        | inr full ↦ rw full (
            (
              take_all limit events,
              ground (arith, short, full),
              ground (arith, short, full),
              inr (ground (arith, short, full)),
            ))
      ]
