-- ===== src/Service/Rate/Window.antt =====
-- What `_limit_rate` of service.py guarantees over many calls: a sliding window, not a fixed one.
use pondsecndr.Prelude.{
  ◌⊎◌, ℕ, zero, suc, ◌≤◌, ◌+◌, ◌-◌, ◌≡◌, refl, arith, Bool, true, false, ◌&&◌, List, [], ◌∷◌, ◌++◌,
  leb, ltb, take, drop, replicate, keep, count_if, length, length-append, take_all,
  length-replicate, length-take, count_if-append, length-keep, Bool-cases, inl, inr,
}
use pondsecndr.Service.Rate.{window, is_recent, limit_rate}

-- The moments in the 60 seconds from `from`.
unfoldable pub is_in_window : ℕ → ℕ → Bool
is_in_window from t = leb from t && ltb t (from + window)

-- The accepted moments of a sequence of calls at moments that do not go back: the last moment, the
-- counter, and every moment at which an item was accepted.
pub data Run {ℓ} (A : Type ℓ) (limit : ℕ) : ℕ → List ℕ → List ℕ → Type ℓ where
  start : Run A limit 0 [] []
  call :
      {last now : ℕ} {timestamps history : List ℕ} (items : List A)
      → last ≤ now
      → Run A limit last timestamps history
      → Run A limit now
          (limit_rate items timestamps limit now).timestamps
          (history ++ replicate (length (limit_rate items timestamps limit now).accepted) now)

count_replicate : (p : ℕ → Bool) (n now : ℕ) → count_if p (replicate n now) ≤ n
unfolding count_if
count_replicate p zero now = omega arith
count_replicate p (suc n) now = ground (arith, count_replicate p n now)

-- A moment outside of the window does not count.
count_outside : (p : ℕ → Bool) (n now : ℕ) → p now ≡ false → count_if p (replicate n now) ≡ 0
unfolding count_if
count_outside p zero now h = refl
count_outside p (suc n) now h = ground (arith, h, count_outside p n now h)

count_mono :
    (p q : ℕ → Bool) (xs : List ℕ)
    → ((x : ℕ) → p x ≡ true → q x ≡ true)
    → count_if p xs ≤ count_if q xs
unfolding count_if
count_mono p q [] h = omega arith
count_mono p q (x ∷ xs) h = ground (arith, h x, count_mono p q xs h)

-- A filter that keeps what is counted does not change the count.
count-keep :
    (p q : ℕ → Bool) (xs : List ℕ)
    → ((x : ℕ) → p x ≡ true → q x ≡ true)
    → count_if p (keep q xs) ≡ count_if p xs
unfolding count_if keep
count-keep p q [] h = refl
count-keep p q (x ∷ xs) h = ground (arith, h x, count-keep p q xs h)

module _ {ℓ} {A : Type ℓ} (items : List A) (timestamps : List ℕ) (limit now : ℕ) where
  -- The accepted items are a prefix of the given ones, every other item is counted as suppressed,
  -- and either none is suppressed or the counter is full after the call.
  pub limit_rate-split :
      (limit_rate items timestamps limit now).accepted
          ++ drop (length (limit_rate items timestamps limit now).accepted) items
        ≡ items
      × (length (limit_rate items timestamps limit now).accepted
            + (limit_rate items timestamps limit now).suppressed
          ≡ length items)
      × (((limit_rate items timestamps limit now).suppressed ≡ 0)
          ⊎ (limit ≤ length (limit_rate items timestamps limit now).timestamps))
  unfolding limit_rate
  limit_rate-split =
      let room = limit - length (keep (is_recent now) timestamps) in
      let short = length-take room items in
      let counted =
        length-append (keep (is_recent now) timestamps)
          (replicate (length (take room items)) now) in
      let added = length-replicate (length (take room items)) now in
      (
        take_all room items,
        omega (arith, short),
        elim (Bool-cases (leb (length items) room)) [
          | inl all_fit ↦ inl (ground (arith, short, all_fit))
          | inr too_many ↦ inr (ground (arith, short, too_many, counted, added))
        ],
      )

recent_earlier : (now later x : ℕ) → now ≤ later → is_recent later x ≡ true → is_recent now x ≡ true
recent_earlier now later x h r = ground arith

-- The counter holds what counts later on, of every accepted moment.
recent_counts {ℓ} :
    {A : Type ℓ} {limit last : ℕ} {timestamps history : List ℕ}
    → Run A limit last timestamps history
    → (later : ℕ) → last ≤ later
    → count_if (is_recent later) history ≡ count_if (is_recent later) timestamps
unfolding limit_rate
recent_counts start later h = refl
recent_counts {limit = limit}
      (call {now = now} {timestamps = timestamps} {history = history} items mono run) later h =
    let added =
      replicate (length (take (limit - length (keep (is_recent now) timestamps)) items)) now in
    omega (
      arith,
      recent_counts run later (omega arith),
      count_if-append (is_recent later) history added,
      count_if-append (is_recent later) (keep (is_recent now) timestamps) added,
      count-keep (is_recent later) (is_recent now) timestamps (λ x. recent_earlier now later x h),
    )

-- The moments of a window that reaches to now are recent.
window_recent :
    (from now x : ℕ)
    → is_in_window from now ≡ true
    → is_in_window from x ≡ true
    → is_recent now x ≡ true
unfolding is_in_window
window_recent from now x h w = ground arith

-- In any 60 seconds at most `limit` items are accepted, wherever the 60 seconds begin, if the clock
-- does not go back.
pub limit_rate_window {ℓ} :
    {A : Type ℓ} {limit last : ℕ} {timestamps history : List ℕ}
    → Run A limit last timestamps history
    → (from : ℕ) → count_if (is_in_window from) history ≤ limit
unfolding limit_rate count_if
limit_rate_window start from = omega arith
limit_rate_window {limit = limit}
      (call {last = last} {now = now} {timestamps = timestamps} {history = history} items mono run)
      from =
    let room = limit - length (keep (is_recent now) timestamps) in
    let added = replicate (length (take room items)) now in
    let appended = count_if-append (is_in_window from) history added in
    elim (Bool-cases (is_in_window from now)) [
      | inr outside ↦ omega (
        arith,
        appended,
        count_outside (is_in_window from) (length (take room items)) now outside,
        limit_rate_window run from,
      )
      | inl inside ↦ omega (
        arith,
        appended,
        count_replicate (is_in_window from) (length (take room items)) now,
        length-take room items,
        length-keep (is_recent now) timestamps,
        recent_counts run now mono,
        count_mono (is_in_window from) (is_recent now) history
            (λ x. window_recent from now x inside),
        limit_rate_window run from,
      )
    ]
