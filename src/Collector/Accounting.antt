-- ===== src/Collector/Accounting.antt =====
-- What the counters of collectors/eve.py account for.
use pondsecndr.Prelude.{
  ℕ, ◌+◌, ◌<◌, ◌≤◌, ◌≡◌, refl, subst, arith, String, true, false, ◌||◌, List, [], ◌∷◌, ◌++◌, inl,
  inr, length, length-append, ltb, leb, is_in, str_eq, eq_iff, is_empty, strip, Bool-cases,
  ||-eq-false,
}
use pondsecndr.Collector.{Line, Progress, Parsed, unparsed, unnormalised, ignored, event, accept}
use pondsecndr.Collector.Eve
use pondsecndr.Python.Result.{Result, ok, >>=-eq-ok, ok-injective, Result-cases}

-- No text stands twice in the list.
unfoldable pub Unique : List String → Type 0
Unique [] = Unit
Unique (x ∷ xs) = (is_in x xs ≡ false) × Unique xs

is_in-append : (s : String) (xs ys : List String) → is_in s (xs ++ ys) ≡ (is_in s xs || is_in s ys)
unfolding is_in
is_in-append s [] ys = refl
is_in-append s (x ∷ xs) ys = ground (arith, is_in-append s xs ys)

append-Unique :
    (xs : List String) (s : String) → is_in s xs ≡ false → Unique xs → Unique (xs ++ s ∷ [])
unfolding is_in Unique
append-Unique [] s h u = (refl, tt)
append-Unique (x ∷ xs) s h u =
    let (other, rest) = ||-eq-false (str_eq s x) (is_in s xs) h in
    (
      ground (arith, is_in-append x xs (s ∷ []), u.0, other, eq_iff x s, eq_iff s x),
      append-Unique xs s rest u.1,
    )

-- The events are new and within the limit, and every line that was read is counted at most once.
pub record IsAccounted (queue_limit : ℕ) (s : Progress) : Type 0 where
  pub accepted : s.stats.accepted_events ≡ length s.events
  pub limited : length s.events ≤ queue_limit
  pub distinct : Unique s.events
  pub seen : (e : String) → is_in e s.events ≡ true → is_in e s.seen_ids ≡ true
  pub lines :
      s.stats.parser_errors + s.stats.normalization_errors + s.stats.duplicates
        + s.stats.queue_drops + s.stats.accepted_events
      ≤ s.stats.read_lines
  pub fresh : s.stats.accepted_events + s.stats.queue_drops ≡ length s.seen_ids

-- The counters have room for one line more.
abbrev HasRoom : Progress → Type 0
HasRoom s =
    s.stats.parser_errors + s.stats.normalization_errors + s.stats.duplicates + s.stats.queue_drops
      + s.stats.accepted_events
    < s.stats.read_lines

module _ (parse : String → Result Parsed) (queue_limit : ℕ) where
  accept-IsAccounted :
      (e : String) (s : Progress)
      → IsAccounted queue_limit s
      → HasRoom s
      → IsAccounted queue_limit (accept queue_limit (length s.events) e s)
  unfolding accept is_in
  accept-IsAccounted e s h room = elim (Bool-cases (is_in e s.seen_ids)) [
    | inl old ↦ rw old (record {
      accepted = h.accepted;
      limited = h.limited;
      distinct = h.distinct;
      seen = h.seen;
      lines = omega (arith, room);
      fresh = h.fresh;
    })
    | inr new ↦ elim (Bool-cases (leb queue_limit (length s.events))) [
      | inl full ↦
          rw (new, full)
            (record {
              accepted = h.accepted;
              limited = h.limited;
              distinct = h.distinct;
              seen = λ x i. ground (arith, h.seen x i);
              lines = omega (arith, room);
              fresh = omega (arith, h.fresh);
            })
      | inr space ↦
          let longer = length-append s.events (e ∷ []) in
          rw (new, space)
            (record {
              accepted = omega (arith, h.accepted, longer);
              limited = ground (arith, longer, space);
              distinct = append-Unique s.events e (ground (arith, new, h.seen e)) h.distinct;
              seen = λ x i. ground (arith, is_in-append x s.events (e ∷ []), i, h.seen x);
              lines = omega (arith, room);
              fresh = omega (arith, h.fresh);
            })
    ]
  ]

  take_parsed-IsAccounted :
      (r : Parsed) (s : Progress)
      → IsAccounted queue_limit s
      → HasRoom s
      → IsAccounted queue_limit (Eve.take_parsed queue_limit r s)
  unfolding Eve.take_parsed
  take_parsed-IsAccounted (unparsed message) s h room = record {
    accepted = h.accepted;
    limited = h.limited;
    distinct = h.distinct;
    seen = h.seen;
    lines = omega (arith, room);
    fresh = h.fresh;
  }
  take_parsed-IsAccounted (unnormalised message) s h room = record {
    accepted = h.accepted;
    limited = h.limited;
    distinct = h.distinct;
    seen = h.seen;
    lines = omega (arith, room);
    fresh = h.fresh;
  }
  take_parsed-IsAccounted ignored s h room = h
  take_parsed-IsAccounted (event e) s h room = accept-IsAccounted e s h room

  count_line-IsAccounted :
      (s : Progress)
      → IsAccounted queue_limit s
      → IsAccounted queue_limit (Eve.count_line s) × HasRoom (Eve.count_line s)
  count_line-IsAccounted s h = (
    record {
      accepted = h.accepted;
      limited = h.limited;
      distinct = h.distinct;
      seen = h.seen;
      lines = omega (arith, h.lines);
      fresh = h.fresh;
    },
    omega (arith, h.lines),
  )

  take_line-IsAccounted :
      (line : Line) (s next : Progress)
      → IsAccounted queue_limit s
      → HasRoom s
      → Eve.take_line parse queue_limit line s ≡ ok next
      → IsAccounted queue_limit next
  unfolding Eve.take_line
  take_line-IsAccounted line s next h room e = elim (Bool-cases (is_empty (strip line.text))) [
    | inl blank ↦ subst (IsAccounted queue_limit) (ok-injective (ground (arith, blank, e))) h
    | inr filled ↦
        let (r, parsed, taken) =
          >>=-eq-ok (parse (strip line.text)) (λ r. ok (Eve.take_parsed queue_limit r s)) {b = next}
            (ground (arith, filled, e)) in
        subst (IsAccounted queue_limit) (ok-injective taken) (take_parsed-IsAccounted r s h room)
  ]

  -- The loop over the file of Suricata keeps its counters right, also up to a line that raises: the
  -- events are distinct and within the limit, as many as are counted as accepted, every new id was
  -- accepted or dropped, and no line is counted twice.
  pub read_lines-IsAccounted :
      (max_lines : ℕ) (lines : List Line) (s : Progress)
      → IsAccounted queue_limit s
      → IsAccounted queue_limit (Eve.read_lines parse queue_limit max_lines lines s).0
  unfolding Eve.read_lines
  read_lines-IsAccounted max_lines [] s h = h
  read_lines-IsAccounted max_lines (line ∷ lines) s h =
      let (counted, room) = count_line-IsAccounted s h in
      elim (Bool-cases (ltb max_lines (s.stats.read_lines + 1))) [
        | inl full ↦ rw (Eve.read_lines, full) counted
        | inr space ↦
            elim (Result-cases (Eve.take_line parse queue_limit line (Eve.count_line s))) [
              | inl (next, taken) ↦
                  rw (Eve.read_lines, space, taken)
                    (read_lines-IsAccounted max_lines lines next
                      (take_line-IsAccounted line (Eve.count_line s) next counted room taken))
              | inr (e, failed) ↦ rw (Eve.read_lines, space, failed) counted
            ]
      ]
