-- ===== src/Detection/Scans/Reports.antt =====
-- Which hosts the counting detectors report.
use pondsecndr.Prelude.{
  ℕ, String, leb, ◌≡◌, refl, ◌∙◌, arith, Bool, ◌&&◌, List, [], ◌∷◌, any, keep, length, Bool-cases,
  inl, inr,
}
use pondsecndr.Storage.{is_some_text}
use pondsecndr.Schema.{Event}
use pondsecndr.Detection.{Detection, Tools}
use pondsecndr.Detection.Make.{make_detection}
use pondsecndr.Detection.Groups.{Key, Groups, group_pairs, text_key, number_key, pair_key}
use pondsecndr.Detection.Groups.Exact.{distinct_values, large_group_iff}
use pondsecndr.Detection.Scans.{
  report_large, vertical_pairs, vertical_detection, detect_vertical_scan, lateral_pairs,
  lateral_detection, detect_lateral_movement, collect, tls_pair, tls_detection,
  detect_unusual_tls_fingerprint,
}

module _ {ℓ κ} {K : Type ℓ} {V : Type κ} ⦃k : Key K⦄ ⦃v : Key V⦄ where
  any-report_large :
      (minimum : ℕ) (make : K → List V → Detection) (about : Detection → Bool) (key : K)
      (groups : Groups K V)
      → ((other : K) (values : List V) → about (make other values) ≡ k.eqb other key)
      → any about (report_large minimum make groups)
        ≡ any (λ (other, values). k.eqb other key && leb minimum (length values)) groups
  unfolding any report_large keep
  any-report_large minimum make about key [] h = refl
  any-report_large minimum make about key ((other, values) ∷ groups) h =
      elim (Bool-cases (leb minimum (length values))) [
        | inl large ↦
            rw (large, h other values)
              (ground (arith, any-report_large minimum make about key groups h))
        | inr small ↦ rw small (ground (arith, any-report_large minimum make about key groups h))
      ]

module _ (tools : Tools) where
  -- A detection of these two addresses.
  abbrev pub is_between : (src dst : String) → Detection → Bool
  is_between src dst d = is_some_text d.source_ip src && is_some_text d.destination_ip dst

  -- A vertical scan is reported between two addresses exactly if the events show at least ten
  -- different ports of the one that the other contacted.
  pub detect_vertical_scan_iff :
      (src dst : String) (events : List Event)
      → any (is_between src dst) (detect_vertical_scan tools events)
        ≡ leb 10 (length (distinct_values (src, dst) (vertical_pairs tools events)))
  unfolding detect_vertical_scan vertical_detection make_detection
  detect_vertical_scan_iff src dst events =
      any-report_large 10 (vertical_detection tools) (is_between src dst) (src, dst)
        (group_pairs (vertical_pairs tools events)) (λ other values. refl)
      ∙ large_group_iff 10 (src, dst) (vertical_pairs tools events) (omega arith)

  abbrev pub is_from : (src : String) → Detection → Bool
  is_from src d = is_some_text d.source_ip src

  -- Lateral movement is reported of a host exactly if the events show at least five different internal
  -- hosts that it contacted at a watched port.
  pub detect_lateral_movement_iff :
      (src : String) (events : List Event)
      → any (is_from src) (detect_lateral_movement tools events)
        ≡ leb 5 (length (distinct_values src (lateral_pairs tools events)))
  unfolding detect_lateral_movement lateral_detection make_detection
  detect_lateral_movement_iff src events =
      any-report_large 5 (lateral_detection tools) (is_from src) src
        (group_pairs (lateral_pairs tools events)) (λ other values. refl)
      ∙ large_group_iff 5 src (lateral_pairs tools events) (omega arith)

  pub detect_unusual_tls_fingerprint_iff :
      (src : String) (events : List Event)
      → any (is_from src) (detect_unusual_tls_fingerprint tools events)
        ≡ leb 8 (length (distinct_values src (collect (tls_pair tools) events)))
  unfolding detect_unusual_tls_fingerprint tls_detection make_detection
  detect_unusual_tls_fingerprint_iff src events =
      any-report_large 8 (tls_detection tools) (is_from src) src
        (group_pairs (collect (tls_pair tools) events)) (λ other values. refl)
      ∙ large_group_iff 8 src (collect (tls_pair tools) events) (omega arith)
