-- ===== src/Service/AutoResponse/Pace.antt =====
-- How often `_auto_response` of service.py tries to respond.
use mathlib.Core.List.{append-nil, append_assoc}
use pondsecndr.Prelude.{
  ℕ, suc, ◌≤◌, ◌≡◌, refl, sym, subst, arith, Bool, true, false, List, [], ◌∷◌, ◌++◌, length,
  replicate, count_if, str_eq, is_empty, ltb, length-append, length-replicate, Bool-cases, inl, inr,
  if◌then◌else◌,
}
use pondsecndr.Python.Result.{
  Result, ok, raise, response_denied, normalization_error, type_error, attribute_error,
  integrity_error, value_error, overflow_error,
}
use pondsecndr.Config.{PondSecConfig}
use pondsecndr.Response.Policy.{Platform}
use pondsecndr.Response.Pf.{Shell, Enforcer}
use pondsecndr.Service.Rate.{limit_rate, is_nonempty, consume_rate}
use pondsecndr.Service.Rate.Window.{Run, call, is_in_window, limit_rate_window}
use pondsecndr.Service.AutoResponse.{
  Candidate, Moment, Service, Outcome, Report, skipped_rate, observed, audit_store, keep_error,
  attempt, caught, respond, respond_all, observe_all, auto_response, requires_manual_response,
}

-- The report of an incident that was granted a response: it is neither skipped for the rate nor only
-- observed.
abbrev pub is_granted : Report → Bool
is_granted r = elim (r.outcome) [ skipped_rate ↦ false | observed ↦ false | _ ↦ true ]

-- The moments of a clock do not go back, and begin no earlier than `last`.
pub record Forward (last : ℕ) (clock : ℕ → Moment) : Type 0 where
  pub begins : last ≤ (clock 0).now
  pub goes_on : (n : ℕ) → (clock n).now ≤ (clock (suc n)).now

Forward-tail :
    {last : ℕ} {clock : ℕ → Moment} → Forward last clock → Forward last (λ n. clock (suc n))
Forward-tail f = record {
  begins = omega (arith, f.begins, f.goes_on 0);
  goes_on = λ n. f.goes_on (suc n);
}

length_nonempty {ℓ} : {A : Type ℓ} (xs : List A) → is_nonempty xs ≡ true → 1 ≤ length xs
unfolding is_nonempty
length_nonempty [] h = absurd (ground (arith, h))
length_nonempty (x ∷ xs) h = omega arith

-- The history of granted moments behind a counter is continued by `added`.
pub record Paced (limit last : ℕ) (history : List ℕ) (result : List Report × Service) : Type 0 where
  pub added : List ℕ
  pub latest : ℕ
  pub run : Run Bool limit latest (result.1.pf_action_rate_timestamps) (history ++ added)
  pub later : last ≤ latest
  pub granted : count_if is_granted result.0 ≤ length added

module _ (p : Platform) (config : PondSecConfig) (shell : Shell) (pf : Enforcer) where
  caught-timestamps :
      (c : Candidate) (result : Result Outcome) (s : Service)
      → (caught p config shell pf c result s).1.pf_action_rate_timestamps
        ≡ s.pf_action_rate_timestamps
  unfolding caught keep_error
  caught-timestamps c (ok outcome) s = refl
  caught-timestamps c (raise (response_denied reason)) s = ground arith
  caught-timestamps c (raise type_error) s = refl
  caught-timestamps c (raise integrity_error) s = refl
  caught-timestamps c (raise attribute_error) s = refl
  caught-timestamps c (raise (normalization_error m)) s = refl
  caught-timestamps c (raise value_error) s = refl
  caught-timestamps c (raise overflow_error) s = refl

  respond-timestamps :
      (mass : Bool) (m : Moment) (c : Candidate) (s : Service)
      → (respond p config shell pf mass m c s).1.pf_action_rate_timestamps
        ≡ (consume_rate s.pf_action_rate_timestamps config.pf_action_rate_limit_per_minute m.now).1
  unfolding respond
  respond-timestamps mass m c s =
      elim (Bool-cases
        (consume_rate s.pf_action_rate_timestamps config.pf_action_rate_limit_per_minute m.now).0) [
          | inr full ↦ rw full refl
          | inl granted ↦ elim (Bool-cases (requires_manual_response c)) [
            | inl manual ↦ rw (granted, manual) refl
            | inr automatic ↦
                rw (granted, automatic)
                  (caught-timestamps c (attempt p config shell pf mass m c s.system).0 _)
          ]
        ]

  respond-skipped :
      (mass : Bool) (m : Moment) (c : Candidate) (s : Service)
      → (consume_rate s.pf_action_rate_timestamps config.pf_action_rate_limit_per_minute m.now).0
        ≡ false
      → is_granted (respond p config shell pf mass m c s).0 ≡ false
  unfolding respond
  respond-skipped mass m c s full = rw full refl

  -- An incident that is not granted a response is reported as skipped.
  respond-granted :
      (mass : Bool) (m : Moment) (c : Candidate) (s : Service)
      → is_granted (respond p config shell pf mass m c s).0 ≡ true
      → (consume_rate s.pf_action_rate_timestamps config.pf_action_rate_limit_per_minute m.now).0
        ≡ true
  respond-granted mass m c s h = ground (arith, h, respond-skipped mass m c s)

  respond-Paced :
      {last : ℕ} {history : List ℕ} (mass : Bool) (m : Moment) (c : Candidate) (s : Service)
      → last ≤ m.now
      → Run Bool config.pf_action_rate_limit_per_minute last s.pf_action_rate_timestamps history
      → (added : List ℕ) × Run Bool config.pf_action_rate_limit_per_minute m.now
          (respond p config shell pf mass m c s).1.pf_action_rate_timestamps
          (history ++ added)
        × ((if is_granted (respond p config shell pf mass m c s).0 then 1 else 0) ≤ length added)
  unfolding consume_rate
  respond-Paced {history = history} mass m c s h run =
      let limited =
        limit_rate (true ∷ []) s.pf_action_rate_timestamps config.pf_action_rate_limit_per_minute
          m.now in
      let added = replicate (length limited.accepted) m.now in
      (
        added,
        subst (λ t. Run Bool config.pf_action_rate_limit_per_minute m.now t (history ++ added))
            (sym (respond-timestamps mass m c s)) (call (true ∷ []) h run),
        ground (
          arith,
          length-replicate (length limited.accepted) m.now,
          length_nonempty limited.accepted,
          respond-granted mass m c s,
        ),
      )

  respond_all-Paced :
      {last : ℕ} {history : List ℕ} (mass : Bool) (clock : ℕ → Moment) (cs : List Candidate)
      (s : Service)
      → Forward last clock
      → Run Bool config.pf_action_rate_limit_per_minute last s.pf_action_rate_timestamps history
      → Paced config.pf_action_rate_limit_per_minute last history
          (respond_all p config shell pf mass clock cs s)
  unfolding respond_all count_if
  respond_all-Paced {last = last} {history = history} mass clock [] s forward run = record {
    added = [];
    latest = last;
    run =
        subst (Run Bool config.pf_action_rate_limit_per_minute last s.pf_action_rate_timestamps)
          (sym (append-nil history)) run;
    later = omega arith;
    granted = omega arith;
  }
  respond_all-Paced {last = last} {history = history} mass clock (c ∷ cs) s forward run =
      elim (is_empty c.incident_id)
        as (λ b. Paced config.pf_action_rate_limit_per_minute last history (elim b [
          | true ↦ respond_all p config shell pf mass (λ n. clock (suc n)) cs s
          | false ↦
              (let (report, after) = respond p config shell pf mass (clock 0) c s in
                let (reports, end) =
                  respond_all p config shell pf mass (λ n. clock (suc n)) cs after in
                (report ∷ reports, end))
        ])) [
          | true ↦
              respond_all-Paced {last = last} {history = history} mass (λ n. clock (suc n)) cs s
                (Forward-tail forward) run
          | false ↦
              let (added, run_here, here) = respond-Paced mass (clock 0) c s forward.begins run in
              let rest =
                respond_all-Paced {last = (clock 0).now} {history = history ++ added} mass
                  (λ n. clock (suc n)) cs (respond p config shell pf mass (clock 0) c s).1
                  (record { begins = forward.goes_on 0; goes_on = λ n. forward.goes_on (suc n) })
                  run_here in
              record {
                added = added ++ rest.added;
                latest = rest.latest;
                run =
                    subst (Run Bool config.pf_action_rate_limit_per_minute rest.latest _)
                      (append_assoc history added rest.added) rest.run;
                later = omega (arith, rest.later, forward.begins);
                granted = omega (arith, here, rest.granted, length-append added rest.added);
              }
        ]

  observe_all-Paced :
      {last : ℕ} {history : List ℕ} (clock : ℕ → Moment) (cs : List Candidate) (s : Service)
      → Run Bool config.pf_action_rate_limit_per_minute last s.pf_action_rate_timestamps history
      → Paced config.pf_action_rate_limit_per_minute last history
          (observe_all p config shell pf clock cs s)
  unfolding observe_all count_if
  observe_all-Paced {last = last} {history = history} clock [] s run = record {
    added = [];
    latest = last;
    run =
        subst (Run Bool config.pf_action_rate_limit_per_minute last s.pf_action_rate_timestamps)
          (sym (append-nil history)) run;
    later = omega arith;
    granted = omega arith;
  }
  observe_all-Paced {last = last} {history = history} clock (c ∷ cs) s run =
      let rest =
        observe_all-Paced {last = last} {history = history} (λ n. clock (suc n)) cs
          (record s { system = audit_store (clock 0) c.incident_id "response.observe" s.system })
          run in
      record {
        added = rest.added;
        latest = rest.latest;
        run = rest.run;
        later = rest.later;
        granted = omega (arith, rest.granted);
      }

  -- If the counter of the service stands for a history of granted moments, and the clock does not go
  -- back, then after the automatic response to any incidents it stands for a longer history, with at
  -- least one moment more for every incident that was granted a response, and in no 60 seconds of
  -- that history more moments lie than the configuration allows per minute.
  pub auto_response-pace :
      {last : ℕ} {history : List ℕ} (clock : ℕ → Moment) (cs : List Candidate) (s : Service)
      → Forward last clock
      → Run Bool config.pf_action_rate_limit_per_minute last s.pf_action_rate_timestamps history
      → (paced : Paced config.pf_action_rate_limit_per_minute last history
          (auto_response p config shell pf clock cs s))
        × ((from : ℕ)
            → count_if (is_in_window from) (history ++ paced.added)
              ≤ config.pf_action_rate_limit_per_minute)
  unfolding auto_response observe_all
  auto_response-pace {last = last} {history = history} clock cs s forward run =
      let paced : Paced config.pf_action_rate_limit_per_minute last history
          (auto_response p config shell pf clock cs s) =
        elim (Bool-cases config.response.automatic_blocking) [
          | inr off ↦ simp off (observe_all-Paced clock [] s run)
          | inl on ↦ elim (Bool-cases (str_eq config.response.mode "observe")) [
            | inl observes ↦ simp (on, observes) (observe_all-Paced clock cs s run)
            | inr acts ↦
                simp (on, acts)
                  (respond_all-Paced
                    (ltb config.response.max_auto_isolation_candidates_per_run (length cs)) clock cs
                    s forward run)
          ]
        ] in
      (paced, limit_rate_window paced.run)
