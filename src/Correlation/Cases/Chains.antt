-- ===== src/Correlation/Cases/Chains.antt =====
-- A description of the cases of correlation.py that does without their indexes: every detection after
-- the first shares an address with an earlier one, and is near one in time.
use pondsecndr.Prelude.{
  ℕ, ◌+◌, ◌*◌, max, ◌≡◌, refl, sym, subst, ◌∙◌, arith, String, Bool, true, false, ◌&&◌, ◌||◌, List,
  [], ◌∷◌, ◌++◌, Option, none, some, inl, inr, any, All, All-map, Bool-cases, leb, ◌==◌,
}
use pondsecndr.Response.Policy.{Platform}
use pondsecndr.Detection.{Detection}
use pondsecndr.Correlation.Cases.{
  microseconds, Case, text_or_none, within_window, is_related, is_related_by, fits, build_cases,
  effective_window, detection_time,
}
use pondsecndr.Correlation.Cases.Partition.{
  detections-extend_case, detections-new_case, new_case-times, extend_case-times,
}
use pondsecndr.Correlation.Cases.Growth.{Grown, opened, extended, build_cases-Grown}
use pondsecndr.Correlation.Cases.Links.{
  is_source, is_end, Indexed, Grown-Indexed, any-snoc, any_end,
}

-- The source is an end of the earlier detection, or the destination is its source.
unfoldable pub shares_by : (source destination : Option String) → Detection → Bool
shares_by none none e = false
shares_by none (some dst) e = is_source dst e
shares_by (some src) none e = is_end src e
shares_by (some src) (some dst) e = is_end src e || is_source dst e

unfoldable pub shares_address : Detection → Detection → Bool
unfolding shares_by
shares_address d e = shares_by (text_or_none d.source_ip) (text_or_none d.destination_ip) e

any-|| :
    (q r : Detection → Bool) (ds : List Detection)
    → any (λ e. q e || r e) ds ≡ (any q ds || any r ds)
unfolding any
any-|| q r [] = refl
any-|| q r (d ∷ ds) = ground (arith, any-|| q r ds)

module _ (p : Platform) (now : ℕ) where
  unfoldable pub is_near : (window : ℕ) → Detection → Detection → Bool
  is_near window d e =
      leb (detection_time p now d) (detection_time p now e + window * microseconds)
      && leb (detection_time p now e) (detection_time p now d + window * microseconds)

  -- The detections of one case.
  pub data Linked (window : ℕ) : List Detection → Type 0 where
    single : (d : Detection) → Linked window (d ∷ [])
    linked :
        (ds : List Detection) (d : Detection)
        → Linked window ds
        → any (shares_address d) ds ≡ true
        → any (is_near window d) ds ≡ true
        → Linked window (ds ++ d ∷ [])

  related_shares :
      (c : Case) (ds : List Detection) (src dst : Option String)
      → Indexed c ds
      → is_related_by p now src dst c ≡ true
      → any (shares_by src dst) ds ≡ true
  unfolding is_related_by shares_by
  related_shares c ds none none h r = absurd (ground arith)
  related_shares c ds none (some dst) h r = h.sources dst r
  related_shares c ds (some src) none h r =
      ground (arith, r, h.sources src, h.internals src, any_end src ds)
  related_shares c ds (some src) (some dst) h r =
      any-|| (is_end src) (is_source dst) ds
      ∙ ground (
        arith,
        r,
        h.sources src,
        h.internals src,
        h.sources dst,
        h.pairs src dst,
        h.externals src,
        any_end src ds,
      )

  -- The last moment of a case is that of one of its detections.
  is_last : ℕ → Detection → Bool
  is_last t e = detection_time p now e == t

  last_snoc :
      (t : ℕ) (ds : List Detection) (d : Detection)
      → any (is_last t) ds ≡ true
      → any (is_last (max t (detection_time p now d))) (ds ++ d ∷ []) ≡ true
  unfolding is_last
  last_snoc t ds d h = elim (Bool-cases (leb (detection_time p now d) t)) [
    | inl earlier ↦
        subst (λ m. any (is_last m) (ds ++ d ∷ []) ≡ true) {x = t} (ground (arith, earlier))
          (ground (arith, any-snoc (is_last t) ds d, h))
    | inr later ↦
        subst (λ m. any (is_last m) (ds ++ d ∷ []) ≡ true) {x = detection_time p now d}
          (ground (arith, later)) (ground (arith, any-snoc (is_last (detection_time p now d)) ds d))
  ]

  Grown-last :
      {window : ℕ} (c : Case) → Grown p now window c → any (is_last c.last_seen) c.detections ≡ true
  unfolding any is_last
  Grown-last c (opened d) =
      rw (detections-new_case p now d) (ground (arith, (new_case-times p now d).1))
  Grown-last c (extended b d g fitting) =
      let last = (extend_case-times p now d b).1 in
      rw (detections-extend_case p now d b) (
        subst (λ m. any (is_last m) (b.detections ++ d ∷ []) ≡ true) (sym last)
          (last_snoc b.last_seen b.detections d (Grown-last b g)))

  near_last :
      (window : ℕ) (d : Detection) (t : ℕ) (ds : List Detection)
      → any (is_last t) ds ≡ true
      → leb (detection_time p now d) (t + window * microseconds) ≡ true
      → leb t (detection_time p now d + window * microseconds) ≡ true
      → any (is_near window d) ds ≡ true
  unfolding any is_last is_near
  near_last window d t [] h late early = h
  near_last window d t (e ∷ ds) h late early =
      ground (arith, h, late, early, near_last window d t ds)

  fits-Linked :
      (window : ℕ) (d : Detection) (c : Case)
      → Grown p now window c
      → fits p now window d c ≡ true
      → (any (shares_address d) c.detections ≡ true) × (any (is_near window d) c.detections ≡ true)
  unfolding fits is_related within_window shares_address
  fits-Linked window d c g fitting = (
    related_shares c c.detections _ _ (Grown-Indexed p now c g) (ground (arith, fitting)),
    near_last window d c.last_seen c.detections (Grown-last c g) (ground (arith, fitting))
        (ground (arith, fitting)),
  )

  Grown-Linked : {window : ℕ} (c : Case) → Grown p now window c → Linked window c.detections
  Grown-Linked {window} c (opened d) =
      subst (Linked window) (sym (detections-new_case p now d)) (single d)
  Grown-Linked {window} c (extended b d g fitting) =
      let (shares, near) = fits-Linked window d b g fitting in
      subst (Linked window) (sym (detections-extend_case p now d b))
        (linked b.detections d (Grown-Linked b g) shares near)

  -- In every case, each detection after the first shares an address with an earlier one and is
  -- within the window of an earlier one.
  pub build_cases-Linked :
      (window_seconds : ℕ) (ds : List Detection)
      → All
          (λ c. Linked (effective_window p now window_seconds) c.detections)
          (build_cases p now window_seconds ds)
  build_cases-Linked window_seconds ds =
      All-map (Grown p now (effective_window p now window_seconds))
        (λ c. Linked (effective_window p now window_seconds) c.detections)
        (build_cases p now window_seconds ds) Grown-Linked
        (build_cases-Grown p now window_seconds ds)
