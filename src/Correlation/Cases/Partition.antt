-- ===== src/Correlation/Cases/Partition.antt =====
-- The grouping of correlation.py loses no detection and repeats none.
use pondsecndr.Prelude.{
  ℕ, min, max, ◌+◌, ◌≡◌, refl, sym, subst, some-injective, ◌∙◌, arith, String, Bool, true, List, [],
  ◌∷◌, ◌++◌, Option, none, some, inl, inr, count_if, count_if-append, insert_sorted, sort_by,
  Bool-cases,
}
use pondsecndr.Response.Policy.{Platform}
use pondsecndr.Detection.{Detection}
use pondsecndr.Correlation.Cases.{
  Case, add_source, add_destination, add_pair, text_or_none, update_case_indexes, new_case,
  extend_case, detection_time, fits, attach_by, attach, place_by, place, effective_window, group,
  build_cases,
}

-- How many detections of the cases pass a test.
pub total : (Detection → Bool) → List Case → ℕ
total q [] = 0
total q (c ∷ cs) = count_if q c.detections + total q cs

total-append :
    (q : Detection → Bool) (cs : List Case) (c : Case)
    → total q (cs ++ c ∷ []) ≡ total q cs + count_if q c.detections
unfolding total
total-append q [] c = omega arith
total-append q (b ∷ cs) c = omega (arith, total-append q cs c)

count-insert_sorted {ℓ} :
    {A : Type ℓ} (key : A → String) (q : A → Bool) (x : A) (ys : List A)
    → count_if q (insert_sorted key x ys) ≡ count_if q (x ∷ ys)
unfolding insert_sorted count_if
count-insert_sorted key q x [] = refl
count-insert_sorted key q x (y ∷ ys) = ground (arith, count-insert_sorted key q x ys)

-- Sorting keeps every element.
count-sort_by {ℓ} :
    {A : Type ℓ} (key : A → String) (q : A → Bool) (xs : List A)
    → count_if q (sort_by key xs) ≡ count_if q xs
unfolding sort_by count_if
count-sort_by key q [] = refl
count-sort_by key q (x ∷ xs) =
    omega (arith, count-insert_sorted key q x (sort_by key xs), count-sort_by key q xs)

module _ (p : Platform) (now : ℕ) where
  -- The first case has the detections and the times of the second.
  pub Agrees : Case → Case → Type 0
  Agrees c b =
      (c.detections ≡ b.detections) × (c.first_seen ≡ b.first_seen) × (c.last_seen ≡ b.last_seen)

  Agrees-trans : (a b c : Case) → Agrees a b → Agrees b c → Agrees a c
  unfolding Agrees
  Agrees-trans a b c h k = (h.0 ∙ k.0, h.1 ∙ k.1, h.2 ∙ k.2)

  add_source-Agrees : (src : Option String) (c : Case) → Agrees (add_source p now src c) c
  unfolding add_source Agrees
  add_source-Agrees none c = (refl, refl, refl)
  add_source-Agrees (some src) c = ground arith

  add_destination-Agrees : (dst : Option String) (c : Case) → Agrees (add_destination p now dst c) c
  unfolding add_destination Agrees
  add_destination-Agrees none c = (refl, refl, refl)
  add_destination-Agrees (some dst) c = ground arith

  add_pair-Agrees : (src dst : Option String) (c : Case) → Agrees (add_pair p now src dst c) c
  unfolding add_pair Agrees
  add_pair-Agrees none dst c = (refl, refl, refl)
  add_pair-Agrees (some src) none c = (refl, refl, refl)
  add_pair-Agrees (some src) (some dst) c = (refl, refl, refl)

  -- The indexes are kept beside the detections and the times.
  pub update_case_indexes-Agrees :
      (d : Detection) (c : Case) → Agrees (update_case_indexes p now d c) c
  unfolding update_case_indexes
  update_case_indexes-Agrees d c =
      let src = text_or_none d.source_ip in
      let dst = text_or_none d.destination_ip in
      Agrees-trans _ _ _ (add_pair-Agrees src dst _)
        (Agrees-trans _ _ _ (add_destination-Agrees dst _) (add_source-Agrees src c))

  pub detections-extend_case :
      (d : Detection) (c : Case) → (extend_case p now d c).detections ≡ c.detections ++ d ∷ []
  unfolding extend_case Agrees
  detections-extend_case d c = (update_case_indexes-Agrees d _).0

  pub detections-new_case : (d : Detection) → (new_case p now d).detections ≡ d ∷ []
  unfolding new_case Agrees
  detections-new_case d = (update_case_indexes-Agrees d _).0

  -- The times of a new case and of an extended one.
  pub new_case-times :
      (d : Detection)
      → ((new_case p now d).first_seen ≡ detection_time p now d)
        × ((new_case p now d).last_seen ≡ detection_time p now d)
  unfolding new_case Agrees
  new_case-times d = let h = update_case_indexes-Agrees d _ in (h.1, h.2)

  pub extend_case-times :
      (d : Detection) (c : Case)
      → ((extend_case p now d c).first_seen ≡ min c.first_seen (detection_time p now d))
        × ((extend_case p now d c).last_seen ≡ max c.last_seen (detection_time p now d))
  unfolding extend_case Agrees
  extend_case-times d c = let h = update_case_indexes-Agrees d _ in (h.1, h.2)

  pub attach_by-fits :
      (window : ℕ) (d : Detection) (c : Case) (cs : List Case)
      → fits p now window d c ≡ true
      → attach_by p now window d c cs none ≡ some (extend_case p now d c ∷ cs)
  unfolding attach_by
  attach_by-fits window d c cs h = rw h refl

  module _ (q : Detection → Bool) (window : ℕ) where
    attach_by-total :
        (d : Detection) (c : Case) (cs : List Case) (r : Option (List Case))
        → ((changed : List Case)
            → r ≡ some changed
            → total q changed ≡ total q cs + count_if q (d ∷ []))
        → (rest : List Case) → attach_by p now window d c cs r ≡ some rest
        → total q rest ≡ total q (c ∷ cs) + count_if q (d ∷ [])
    unfolding attach_by total
    attach_by-total d c cs (some changed) k rest h =
        subst (λ x. total q x ≡ total q (c ∷ cs) + count_if q (d ∷ [])) (some-injective h)
          (omega (arith, k changed refl))
    attach_by-total d c cs none k rest h = elim (Bool-cases (fits p now window d c)) [
      | inr unfit ↦ absurd (ground (arith, unfit))
      | inl fitting ↦
          subst (λ x. total q x ≡ total q (c ∷ cs) + count_if q (d ∷ []))
            (some-injective (sym (attach_by-fits window d c cs fitting) ∙ h))
            (rw (detections-extend_case d c)
              (omega (arith, count_if-append q c.detections (d ∷ []))))
    ]

    attach-total :
        (d : Detection) (cs rest : List Case)
        → attach p now window d cs ≡ some rest
        → total q rest ≡ total q cs + count_if q (d ∷ [])
    unfolding attach
    attach-total d [] rest h = absurd (ground arith)
    attach-total d (c ∷ cs) rest h =
        attach_by-total d c cs (attach p now window d cs) (attach-total d cs) rest h

    place_by-total :
        (d : Detection) (cs : List Case) (r : Option (List Case))
        → attach p now window d cs ≡ r
        → total q (place_by p now d cs r) ≡ total q cs + count_if q (d ∷ [])
    unfolding place_by
    place_by-total d cs (some changed) h = attach-total d cs changed h
    place_by-total d cs none h =
        total-append q cs (new_case p now d) ∙ rw (detections-new_case d) refl

    place-total :
        (d : Detection) (cs : List Case)
        → total q (place p now window d cs) ≡ total q cs + count_if q (d ∷ [])
    unfolding place
    place-total d cs = place_by-total d cs _ refl

    group-total :
        (ds : List Detection) (cs : List Case)
        → total q (group p now window ds cs) ≡ total q cs + count_if q ds
    unfolding group count_if
    group-total [] cs = omega arith
    group-total (d ∷ ds) cs =
        omega (arith, group-total ds (place p now window d cs), place-total d cs)

  -- Every detection is in exactly one case: any test is passed by as many detections of the cases as
  -- of the input.
  pub build_cases_partition :
      (q : Detection → Bool) (window_seconds : ℕ) (ds : List Detection)
      → total q (build_cases p now window_seconds ds) ≡ count_if q ds
  unfolding build_cases total
  build_cases_partition q window_seconds ds = omega (
    arith,
    group-total q (effective_window p now window_seconds) (sort_by (λ d. d.timestamp) ds) [],
    count-sort_by (λ d. d.timestamp) q ds,
  )
