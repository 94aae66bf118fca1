-- ===== src/Correlation/Incidents/Built.antt =====
-- What every incident of `correlate_detections` in correlation.py satisfies.
use pondsecndr.Prelude.{
  ℕ, ◌≤◌, ◌≡◌, refl, arith, String, false, List, [], ◌∷◌, inl, inr, All, All-append, Bool-cases,
  length,
}
use pondsecndr.Prelude.Int.{ℤ, pos, negsuc, ltb_ℤ, ◌≤ℤ◌}
use pondsecndr.Response.Policy.{Platform}
use pondsecndr.Detection.{Detection}
use pondsecndr.Correlation.Risk.{score_detection_group, severity_from_risk}
use pondsecndr.Correlation.Risk.Bounds.{score_detection_group_bounds}
use pondsecndr.Correlation.Cases.{Case, build_cases}
use pondsecndr.Correlation.Roles.Sides.{HasSides, entity_roles-HasSides}
use pondsecndr.Correlation.Incidents.{
  NewIncident, build_incident, report, report_cases, correlate_detections,
}

module _ (p : Platform) (uuid5 : String → String) (clock : String) where
  pub record IsReported (i : NewIncident) : Type 0 where
    pub risky : pos 35 ≤ℤ i.risk_score
    pub bounded : i.risk_score ≤ℤ pos 100
    pub severity : (4 ≤ i.severity) × (i.severity ≤ 10)
    pub scored : i.risk_score ≡ (score_detection_group p.floats i.detections).0
    pub events : 1 ≤ i.event_count
    pub counted : i.detection_count ≡ length i.detections
    pub sides : HasSides p i.entity_roles

  severity_bounds : (a : ℤ) → (4 ≤ severity_from_risk a) × (severity_from_risk a ≤ 10)
  unfolding severity_from_risk
  severity_bounds (pos a) = ground arith
  severity_bounds (negsuc a) = ground arith

  build_incident-IsReported :
      (d : Detection) (ds : List Detection)
      → ltb_ℤ (score_detection_group p.floats (d ∷ ds)).0 (pos 35) ≡ false
      → IsReported (
          build_incident p uuid5 clock
            (score_detection_group p.floats (d ∷ ds)).0
            (score_detection_group p.floats (d ∷ ds)).1
            d
            ds)
  unfolding build_incident
  build_incident-IsReported d ds h =
      let (low, high) = score_detection_group_bounds p.floats d ds in
      record {
        risky = ground (arith, h);
        bounded = high;
        severity = severity_bounds _;
        scored = refl;
        events = omega arith;
        counted = refl;
        sides = entity_roles-HasSides p (d ∷ ds);
      }

  report-IsReported :
      (ds : List Detection)
      → All IsReported (report p uuid5 clock (score_detection_group p.floats ds) ds)
  unfolding report
  report-IsReported [] = tt
  report-IsReported (d ∷ ds) =
      elim (Bool-cases (ltb_ℤ (score_detection_group p.floats (d ∷ ds)).0 (pos 35))) [
        | inl low ↦ rw low tt
        | inr high ↦ rw high (build_incident-IsReported d ds high, tt)
      ]

  report_cases-IsReported : (cs : List Case) → All IsReported (report_cases p uuid5 clock cs)
  unfolding report_cases
  report_cases-IsReported [] = tt
  report_cases-IsReported (c ∷ cs) =
      All-append IsReported _ _ (report-IsReported c.detections) (report_cases-IsReported cs)

  -- Every incident has a risk from 35 to 100, which is the score of its detections, a severity from
  -- 4 to 10, at least one event, and roles on their sides of the network.
  pub correlate_detections-IsReported :
      (now : ℕ) (ds : List Detection) (window_seconds : ℕ)
      → All IsReported (correlate_detections p uuid5 clock now ds window_seconds)
  unfolding correlate_detections
  correlate_detections-IsReported now ds window_seconds =
      report_cases-IsReported (build_cases p now window_seconds ds)
