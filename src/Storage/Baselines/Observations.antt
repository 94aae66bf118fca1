-- ===== src/Storage/Baselines/Observations.antt =====
-- How many observations the baselines of storage/database.py count.
use pondsecndr.Prelude.{
  ℕ, ◌+◌, ◌≡◌, refl, ap, sym, subst, ◌∙◌, arith, String, Bool, false, not, ◌&&◌, List, [], ◌∷◌,
  ◌++◌, Option, none, some, count_if, str_eq, eq_iff, is_in, Bool-cases, inl, inr, if◌then◌else◌,
}
use pondsecndr.Storage.{Baseline, Store, find_baseline}
use pondsecndr.Storage.Baselines.{
  metrics, baseline_row, observations, replace_row, first_metrics, mean_metrics, observe,
  update_baseline, update_baselines, update_host_baselines, at,
}
use pondsecndr.Detection.{Feature, Tools}
use pondsecndr.Python.Result.{ok, >>=-eq-ok, ok-injective}

pub find_baseline-row :
    (ip : String) (bs : List Baseline) → find_baseline ip bs ≡ observations (baseline_row ip bs)
unfolding find_baseline baseline_row observations
find_baseline-row ip [] = refl
find_baseline-row ip (b ∷ bs) = ground (arith, find_baseline-row ip bs)

find_baseline-append :
    (ip : String) (bs : List Baseline) (row : Baseline)
    → baseline_row row.host_ip bs ≡ none
    → find_baseline ip (bs ++ row ∷ [])
      ≡ (if str_eq row.host_ip ip then row.observation_count else find_baseline ip bs)
unfolding find_baseline baseline_row
find_baseline-append ip [] row h = refl
find_baseline-append ip (b ∷ bs) row h = ground (
  arith,
  h,
  eq_iff b.host_ip ip,
  eq_iff b.host_ip row.host_ip,
  eq_iff row.host_ip ip,
  find_baseline-append ip bs row,
)

find_baseline-replace_ne :
    (ip : String) (bs : List Baseline) (row : Baseline)
    → str_eq row.host_ip ip ≡ false
    → find_baseline ip (replace_row row bs) ≡ find_baseline ip bs
unfolding find_baseline replace_row
find_baseline-replace_ne ip [] row h = refl
find_baseline-replace_ne ip (b ∷ bs) row h =
    ground (arith, h, eq_iff b.host_ip row.host_ip, find_baseline-replace_ne ip bs row h)

find_baseline-replace :
    (ip : String) (bs : List Baseline) (row old : Baseline)
    → baseline_row row.host_ip bs ≡ some old
    → find_baseline ip (replace_row row bs)
      ≡ (if str_eq row.host_ip ip then row.observation_count else find_baseline ip bs)
unfolding find_baseline baseline_row replace_row
find_baseline-replace ip [] row old h = absurd (ground (arith, h))
find_baseline-replace ip (b ∷ bs) row old h = elim (Bool-cases (str_eq b.host_ip row.host_ip)) [
  | inl same ↦ elim (Bool-cases (str_eq row.host_ip ip)) [
    | inl here ↦ rw (same, here) refl
    | inr there ↦
        let apart : str_eq b.host_ip ip ≡ false =
          ap (λ x. str_eq x ip) ((eq_iff b.host_ip row.host_ip).0 same) ∙ there in
        rw (same, there, apart) (find_baseline-replace_ne ip bs row there)
  ]
  | inr differs ↦ ground (
    arith,
    differs,
    h,
    eq_iff b.host_ip ip,
    eq_iff row.host_ip ip,
    eq_iff b.host_ip row.host_ip,
    find_baseline-replace ip bs row old,
  )
]

-- One observation more of one host.
one_more :
    (ip source_ip : String) (bs : List Baseline) (row : Option Baseline)
    → baseline_row source_ip bs ≡ row
    → (if str_eq source_ip ip then observations row + 1 else find_baseline ip bs)
      ≡ find_baseline ip bs + (if str_eq source_ip ip then 1 else 0)
one_more ip source_ip bs row h = elim (Bool-cases (str_eq source_ip ip)) [
  | inr apart ↦ rw apart (omega arith)
  | inl same ↦
      let counted : find_baseline ip bs ≡ observations row =
        ap (λ x. find_baseline x bs) (sym ((eq_iff source_ip ip).0 same))
        ∙ find_baseline-row source_ip bs
        ∙ ap observations h in
      rw (same, counted) refl
]

abbrev pub is_observed : (skip : List String) → Feature → Bool
is_observed skip item = not (is_in item.source_ip skip)

module _ (tools : Tools) where
  observe-count :
      (ip : String) (item : Feature) (row : Option Baseline) (bs after : List Baseline)
      → baseline_row item.source_ip bs ≡ row
      → observe tools item row bs ≡ ok after
      → find_baseline ip after ≡ find_baseline ip bs + (if str_eq item.source_ip ip then 1 else 0)
  unfolding observe observations
  observe-count ip item none bs after h e =
      let (values, made, returned) = >>=-eq-ok (first_metrics tools item.fields metrics) _ e in
      let row : Baseline = record {
        host_ip = item.source_ip;
        observation_count = 1;
        baseline = values;
      } in
      subst
        (λ rows.
          find_baseline ip rows ≡ find_baseline ip bs + (if str_eq item.source_ip ip then 1 else 0))
        (ok-injective returned)
        (find_baseline-append ip bs row h ∙ one_more ip item.source_ip bs none h)
  observe-count ip item (some row) bs after h e =
      let (values, made, returned) =
        >>=-eq-ok (mean_metrics tools row.observation_count item.fields metrics row.baseline) _ e in
      let next : Baseline = record {
        host_ip = item.source_ip;
        observation_count = row.observation_count + 1;
        baseline = values;
      } in
      subst
        (λ rows.
          find_baseline ip rows ≡ find_baseline ip bs + (if str_eq item.source_ip ip then 1 else 0))
        (ok-injective returned)
        (find_baseline-replace ip bs next row h ∙ one_more ip item.source_ip bs (some row) h)

  update_baseline-count :
      (ip : String) (item : Feature) (s after : Store)
      → update_baseline tools item s ≡ ok after
      → find_baseline ip after.baselines
        ≡ find_baseline ip s.baselines + (if str_eq item.source_ip ip then 1 else 0)
  unfolding update_baseline
  update_baseline-count ip item s after e =
      let (baselines, observed, rest) =
        >>=-eq-ok (observe tools item (baseline_row item.source_ip s.baselines) s.baselines) _ e in
      let (deviation, read, returned) =
        >>=-eq-ok (at tools item.fields "baseline_deviation") _ rest in
      subst
        (λ (t : Store).
          find_baseline ip t.baselines
          ≡ find_baseline ip s.baselines + (if str_eq item.source_ip ip then 1 else 0))
        (ok-injective returned)
        (observe-count ip item (baseline_row item.source_ip s.baselines) s.baselines baselines refl
          observed)

  update_baselines-count :
      (ip : String) (skip : List String) (features : List Feature) (updated : ℕ) (s : Store)
      (total : ℕ) (after : Store)
      → update_baselines tools skip features updated s ≡ ok (total, after)
      → (find_baseline ip after.baselines
          ≡ find_baseline ip s.baselines
            + count_if (λ item. str_eq item.source_ip ip && is_observed skip item) features)
        × (total ≡ updated + count_if (is_observed skip) features)
  unfolding update_baselines count_if
  update_baselines-count ip skip [] updated s total after e =
      let same = ok-injective e in
      (
        ap (λ (r : ℕ × Store). find_baseline ip r.1.baselines) (sym same) ∙ omega arith,
        ap (λ (r : ℕ × Store). r.0) (sym same) ∙ omega arith,
      )
  update_baselines-count ip skip (item ∷ rest) updated s total after e =
      elim (Bool-cases (is_in item.source_ip skip)) [
        | inl skipped ↦
            let (counted, sum) =
              update_baselines-count ip skip rest updated s total after
                (rw (skipped, update_baselines) at e) in
            (ground (arith, skipped, counted), ground (arith, skipped, sum))
        | inr taken ↦
            let (next, one, others) =
              >>=-eq-ok (update_baseline tools item s) _ (rw (taken, update_baselines) at e) in
            let (counted, sum) =
              update_baselines-count ip skip rest (updated + 1) next total after others in
            let here = update_baseline-count ip item s next one in
            (ground (arith, taken, counted, here), ground (arith, taken, sum))
      ]

  -- The loop counts one observation more in the row of a host, which it may have to make, for every
  -- item of it that is not skipped, and none
  -- for the others, and returns how many items were taken.
  pub update_host_baselines-observations :
      (ip : String) (skip : List String) (features : List Feature) (s : Store) {total : ℕ}
      {after : Store}
      → update_host_baselines tools skip features s ≡ ok (total, after)
      → (find_baseline ip after.baselines
          ≡ find_baseline ip s.baselines
            + count_if (λ item. str_eq item.source_ip ip && is_observed skip item) features)
        × (total ≡ count_if (is_observed skip) features)
  unfolding update_host_baselines
  update_host_baselines-observations ip skip features s {total} {after} e =
      let (counted, sum) = update_baselines-count ip skip features 0 s total after e in
      (counted, omega (arith, sum))
