-- ===== src/Prelude/Texts.antt =====
-- Python's operations on texts, over the native `String`, and sets of texts as sorted lists.
use Prim.Native.Nat.{Ordering}
use Prim.Native.Char.{Char, code}
use Prim.Native.String.{String, compare, ◌++◌ as concat}
use mathlib.Core.Bool.{Bool, true, false, ◌&&◌, ◌||◌}
use mathlib.Core.List.{List, [], ◌∷◌}
use text.Mathlib.Text.{◌==◌ as text_eq}
use pondsecndr.Prelude.Tests.{◌==◌, leb, if◌then◌else◌}
use pondsecndr.Prelude.Lists.{any, all}

-- `s == t`
abbrev pub str_eq : String → String → Bool
str_eq s t = text_eq s t

abbrev pub is_empty : String → Bool
is_empty String.[] = true
is_empty (String.◌∷◌ c s) = false

-- `s.startswith(t)`
unfoldable pub starts_with : String → String → Bool
starts_with s String.[] = true
starts_with String.[] (String.◌∷◌ d t) = false
starts_with (String.◌∷◌ c s) (String.◌∷◌ d t) = code c == code d && starts_with s t

-- `t in s`
unfoldable pub contains : String → String → Bool
unfolding starts_with
contains String.[] t = starts_with String.[] t
contains (String.◌∷◌ c s) t = starts_with (String.◌∷◌ c s) t || contains s t

-- The character that stands in `to` where `c` stands in `from`, and `c` itself if it does not.
translate : String → String → Char → Char
translate String.[] to c = c
translate from String.[] c = c
translate (String.◌∷◌ f from) (String.◌∷◌ t to) c =
    if code c == code f then t else translate from to c

-- `s.lower()` and `s.upper()`, of the ASCII letters.
unfoldable pub lower : String → String
unfolding translate
lower String.[] = String.[]
lower (String.◌∷◌ c s) =
    String.◌∷◌ (translate "ABCDEFGHIJKLMNOPQRSTUVWXYZ" "abcdefghijklmnopqrstuvwxyz" c) (lower s)

unfoldable pub upper : String → String
unfolding translate
upper String.[] = String.[]
upper (String.◌∷◌ c s) =
    String.◌∷◌ (translate "abcdefghijklmnopqrstuvwxyz" "ABCDEFGHIJKLMNOPQRSTUVWXYZ" c) (upper s)

-- The ASCII white space that `strip` takes off.
is_space : Char → Bool
is_space c = code c == 32 || leb 9 (code c) && leb (code c) 13 || leb 28 (code c) && leb (code c) 31

strip_left : String → String
unfolding is_space
strip_left String.[] = String.[]
strip_left (String.◌∷◌ c s) = if is_space c then strip_left s else String.◌∷◌ c s

strip_right : String → String
unfolding is_space
strip_right String.[] = String.[]
strip_right (String.◌∷◌ c s) =
    let rest = strip_right s in if is_space c && is_empty rest then String.[] else String.◌∷◌ c rest

-- `s.strip()`
unfoldable pub strip : String → String
unfolding strip_left strip_right
strip s = strip_right (strip_left s)

-- `s in xs`
unfoldable pub is_in : String → List String → Bool
is_in s [] = false
is_in s (x ∷ xs) = str_eq s x || is_in s xs

-- `sorted({...})`: a set of texts is kept as the sorted list of its elements.
unfoldable pub add : String → List String → List String
add s [] = s ∷ []
add s (x ∷ xs) = elim (compare s x) [
  | Ordering.lt ↦ s ∷ x ∷ xs
  | Ordering.eq ↦ x ∷ xs
  | Ordering.gt ↦ x ∷ add s xs
]

unfoldable pub sorted_set : List String → List String
unfolding add
sorted_set [] = []
sorted_set (x ∷ xs) = add x (sorted_set xs)

-- `a & b` is not empty; `a.issubset(b)`.
unfoldable pub meets : List String → List String → Bool
unfolding is_in any
meets a b = any (λ s. is_in s b) a

unfoldable pub is_subset : List String → List String → Bool
unfolding is_in all
is_subset a b = all (λ s. is_in s b) a

-- `s < t`
abbrev pub lt_text : String → String → Bool
lt_text s t = elim (compare s t) [ Ordering.lt ↦ true | _ ↦ false ]

-- `sep.join(parts)`
unfoldable pub join_with : String → List String → String
join_with sep [] = ""
join_with sep (s ∷ []) = s
join_with sep (s ∷ rest) = concat s (concat sep (join_with sep rest))

module _ {ℓ} {A : Type ℓ} (key : A → String) where
  -- `sorted(xs, key=key)`, which is stable.
  unfoldable pub insert_sorted : A → List A → List A
  insert_sorted x [] = x ∷ []
  insert_sorted x (y ∷ ys) = if lt_text (key y) (key x) then y ∷ insert_sorted x ys else x ∷ y ∷ ys

  unfoldable pub sort_by : List A → List A
  unfolding insert_sorted
  sort_by [] = []
  sort_by (x ∷ xs) = insert_sorted x (sort_by xs)
