-- ===== src/Correlation/Cases/Growth.antt =====
-- How a case of correlation.py grows: by detections near in time that share an address with it.
use pondsecndr.Prelude.{
  ℕ, ◌≤◌, ◌≡◌, refl, sym, subst, some-injective, ◌∙◌, arith, true, List, [], ◌∷◌, Option, none,
  some, inl, inr, All, All-append, All-map, sort_by, Bool-cases,
}
use pondsecndr.Response.Policy.{Platform}
use pondsecndr.Detection.{Detection}
use pondsecndr.Correlation.Cases.{
  Case, new_case, extend_case, fits, attach_by, attach, place_by, place, group, build_cases,
  effective_window, detection_time,
}
use pondsecndr.Correlation.Cases.Partition.{
  detections-extend_case, detections-new_case, attach_by-fits, new_case-times, extend_case-times,
}

module _ (p : Platform) (now : ℕ) where
  -- The cases that arise from one detection by adding those that fit.
  pub data Grown (window : ℕ) : Case → Type 0 where
    opened : (d : Detection) → Grown window (new_case p now d)
    extended :
        (c : Case) (d : Detection)
        → Grown window c
        → fits p now window d c ≡ true
        → Grown window (extend_case p now d c)

  module _ (window : ℕ) where
    attach_by-Grown :
        (d : Detection) (c : Case) (cs : List Case) (r : Option (List Case))
        → ((changed : List Case) → r ≡ some changed → All (Grown window) changed)
        → All (Grown window) (c ∷ cs)
        → (rest : List Case) → attach_by p now window d c cs r ≡ some rest
        → All (Grown window) rest
    unfolding attach_by
    attach_by-Grown d c cs (some changed) k h rest e =
        subst (All (Grown window)) (some-injective e) (h.0, k changed refl)
    attach_by-Grown d c cs none k h rest e = elim (Bool-cases (fits p now window d c)) [
      | inr unfit ↦ absurd (ground (arith, unfit))
      | inl fitting ↦
          subst (All (Grown window))
            (some-injective (sym (attach_by-fits p now window d c cs fitting) ∙ e))
            (extended c d h.0 fitting, h.1)
    ]

    attach-Grown :
        (d : Detection) (cs : List Case)
        → All (Grown window) cs
        → (rest : List Case) → attach p now window d cs ≡ some rest
        → All (Grown window) rest
    unfolding attach
    attach-Grown d [] h rest e = absurd (ground arith)
    attach-Grown d (c ∷ cs) h rest e =
        attach_by-Grown d c cs (attach p now window d cs) (attach-Grown d cs h.1) h rest e

    place_by-Grown :
        (d : Detection) (cs : List Case) (r : Option (List Case))
        → attach p now window d cs ≡ r
        → All (Grown window) cs
        → All (Grown window) (place_by p now d cs r)
    unfolding place_by
    place_by-Grown d cs (some changed) e h = attach-Grown d cs h changed e
    place_by-Grown d cs none e h =
        All-append (Grown window) cs (new_case p now d ∷ []) h (opened d, tt)

    group-Grown :
        (ds : List Detection) (cs : List Case)
        → All (Grown window) cs
        → All (Grown window) (group p now window ds cs)
    unfolding group place
    group-Grown [] cs h = h
    group-Grown (d ∷ ds) cs h =
        group-Grown ds (place p now window d cs) (place_by-Grown d cs _ refl h)

  pub build_cases-Grown :
      (window_seconds : ℕ) (ds : List Detection)
      → All (Grown (effective_window p now window_seconds)) (build_cases p now window_seconds ds)
  unfolding build_cases
  build_cases-Grown window_seconds ds =
      group-Grown (effective_window p now window_seconds) (sort_by (λ d. d.timestamp) ds) [] tt

  -- The detection is of a moment that the case covers.
  pub IsCovered : Case → Detection → Type 0
  IsCovered c d = (c.first_seen ≤ detection_time p now d) × (detection_time p now d ≤ c.last_seen)

  new_case-IsCovered :
      (d : Detection) → All (IsCovered (new_case p now d)) (new_case p now d).detections
  unfolding IsCovered
  new_case-IsCovered d =
      let (first, last) = new_case-times p now d in
      subst (All (IsCovered (new_case p now d))) (sym (detections-new_case p now d))
        ((omega (arith, first), omega (arith, last)), tt)

  extend_case-IsCovered :
      (d : Detection) (c : Case)
      → All (IsCovered c) c.detections
      → All (IsCovered (extend_case p now d c)) (extend_case p now d c).detections
  unfolding IsCovered
  extend_case-IsCovered d c h =
      let (first, last) = extend_case-times p now d c in
      subst (All (IsCovered (extend_case p now d c))) (sym (detections-extend_case p now d c)) (
        All-append (IsCovered (extend_case p now d c)) c.detections (d ∷ [])
          (All-map (IsCovered c) (IsCovered (extend_case p now d c)) c.detections
            (λ e (early, late). (omega (arith, first), omega (arith, last))) h)
          ((omega (arith, first), omega (arith, last)), tt))

  Grown-IsCovered : {window : ℕ} (c : Case) → Grown window c → All (IsCovered c) c.detections
  Grown-IsCovered c (opened d) = new_case-IsCovered d
  Grown-IsCovered c (extended b d g fitting) = extend_case-IsCovered d b (Grown-IsCovered b g)

  -- Every case covers its detections: none is earlier than the first moment of the case or later
  -- than its last.
  pub build_cases-IsCovered :
      (window_seconds : ℕ) (ds : List Detection)
      → All (λ c. All (IsCovered c) c.detections) (build_cases p now window_seconds ds)
  build_cases-IsCovered window_seconds ds =
      All-map (Grown (effective_window p now window_seconds)) (λ c. All (IsCovered c) c.detections)
        (build_cases p now window_seconds ds) Grown-IsCovered (build_cases-Grown window_seconds ds)
