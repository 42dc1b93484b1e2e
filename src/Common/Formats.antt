-- ===== src/Common/Formats.antt =====
-- The conversions of `sprintf` and `sscanf` that the programs use. A `double` is of an abstract type.
use a2pm.Common.{ℕ, ◌≡◌, false, Option, some, List, [], ◌∷◌, ◌++◌, map, ◌==◌, length}

-- `sscanf` gives the conversions that it makes, the number of them at most the one asked for.
pub record Formats (W : Type 0) : Type 0 where
  pub sscanf_point : List ℕ → Option W × Option ℕ
  pub sscanf_ints : ℕ → List ℕ → List ℕ
  pub sscanf_doubles : ℕ → List ℕ → List W
  pub sprintf_double : W → List ℕ
  pub sprintf_ints : List ℕ → List ℕ
  pub sprintf_doubles : List W → List ℕ
  -- The line that `wc -l` prints.
  pub count_line : ℕ → List ℕ
  -- `%f` has six digits.
  pub rounded : W → W

abbrev pub HasNo : ℕ → List ℕ → Type 0
HasNo c [] = Unit {0}
HasNo c (x ∷ xs) = ((x == c) ≡ false) × HasNo c xs

pub HasNo-append : (c : ℕ) (xs ys : List ℕ) → HasNo c xs → HasNo c ys → HasNo c (xs ++ ys)
HasNo-append c [] ys h k = k
HasNo-append c (x ∷ xs) ys h k = (h.0, HasNo-append c xs ys h.1 k)

abbrev pub colon : ℕ
colon = 58

abbrev pub blank : ℕ
blank = 32

abbrev pub newline : ℕ
newline = 10

-- What is printed is read back, a `double` as far as it is printed, and has no colon in it.
pub record AreFormats (W : Type 0) ⦃f : Formats W⦄ : Type 0 where
  pub read_point :
      (x : W) (n : ℕ)
      → f.sscanf_point (blank ∷ (f.sprintf_double x ++ blank ∷ f.count_line n))
        ≡ (some (f.rounded x), some n)
  pub read_ints :
      (vs : List ℕ) → f.sscanf_ints (length vs) (blank ∷ (f.sprintf_ints vs ++ newline ∷ [])) ≡ vs
  pub read_doubles :
      (vs : List W)
      → f.sscanf_doubles (length vs) (blank ∷ (f.sprintf_doubles vs ++ newline ∷ []))
        ≡ map f.rounded vs
  pub double-HasNo : (x : W) → HasNo colon (f.sprintf_double x)
  pub count-HasNo : (n : ℕ) → HasNo colon (f.count_line n)
  pub ints-HasNo : (vs : List ℕ) → HasNo colon (f.sprintf_ints vs)
  pub doubles-HasNo : (vs : List W) → HasNo colon (f.sprintf_doubles vs)
