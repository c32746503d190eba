-- ===== src/Float/Interface.antt =====
-- The operations on a `float` that the program calls, and Python's `min` and `max` over them.
use package.event_time_mcdm_agent.Common.{ℕ, ℤ, ◌≡◌, Bool, true, if◌then◌else◌}

pub record Float (F : Type 0) : Type 0 where
  pub add : F → F → F
  pub sub : F → F → F
  pub mul : F → F → F
  pub div : F → F → F
  pub neg : F → F
  -- `<=` and `<`; NaN compares false with everything
  pub le : F → F → Bool
  pub lt : F → F → Bool
  pub is_finite : F → Bool
  pub is_nan : F → Bool
  pub nan : F
  pub inf : F
  -- `n / d` of two ints: the float nearest to the quotient. A decimal literal is one of these too.
  pub ratio : ℕ → ℕ → F
  -- `round(x, digits)`
  pub round : F → ℕ → F
  -- `int(x)`
  pub truncate : F → ℤ

module _ {F : Type 0} ⦃f : Float F⦄ where
  infix 50 ◌≼◌ ◌≺◌
  abbrev pub ◌≼◌ : F → F → Type 0
  x ≼ y = f.le x y ≡ true

  abbrev pub ◌≺◌ : F → F → Type 0
  x ≺ y = f.lt x y ≡ true

  abbrev pub IsFinite : F → Type 0
  IsFinite x = f.is_finite x ≡ true

  -- Not NaN: IEEE's `x == x`.
  abbrev pub IsNumber : F → Type 0
  IsNumber x = f.le x x ≡ true

  abbrev pub zero_f : F
  zero_f = f.ratio 0 1

  abbrev pub one_f : F
  one_f = f.ratio 1 1

  -- Python's `min(a, b)` and `max(a, b)` keep the first argument unless the second one is
  -- strictly better.
  unfoldable pub min_f : F → F → F
  min_f a b = if f.lt b a then b else a

  unfoldable pub max_f : F → F → F
  max_f a b = if f.lt a b then b else a
