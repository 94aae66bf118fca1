-- ===== src/Service/Rate.antt =====
-- `_limit_rate` and `_consume_rate` of service.py: at most `limit` items in any 60 seconds. The
-- counter is the list of the moments at which items were accepted, in microseconds.
pub mod Window
use pondsecndr.Prelude.{
  ℕ, ◌-◌, ◌*◌, ◌++◌, Bool, true, false, List, [], ◌∷◌, take, replicate, keep, length, ltb,
}

abbrev pub window : ℕ
window = 60 * 1000000

pub record Limited {ℓ} (A : Type ℓ) : Type ℓ where
  pub accepted : List A
  pub suppressed : ℕ
  pub timestamps : List ℕ

-- `now - timestamp < 60`
abbrev pub is_recent : ℕ → ℕ → Bool
is_recent now t = ltb (now - t) window

module _ {ℓ} {A : Type ℓ} where
  unfoldable pub limit_rate : (items : List A) (timestamps : List ℕ) (limit now : ℕ) → Limited A
  limit_rate items timestamps limit now =
      let recent = keep (is_recent now) timestamps in
      let accepted = take (limit - length recent) items in
      record {
        accepted = accepted;
        suppressed = length items - length accepted;
        timestamps = recent ++ replicate (length accepted) now;
      }

-- `_consume_rate`: one token.
unfoldable pub is_nonempty {ℓ} : {A : Type ℓ} → List A → Bool
is_nonempty [] = false
is_nonempty (x ∷ xs) = true

unfoldable pub consume_rate : (timestamps : List ℕ) (limit now : ℕ) → Bool × List ℕ
unfolding is_nonempty
consume_rate timestamps limit now =
    let result = limit_rate (true ∷ []) timestamps limit now in
    (is_nonempty result.accepted, result.timestamps)
