-- ===== src/Float/Decimal/Laws.antt =====
-- The decimal instance meets the laws of IEEE arithmetic that the proofs use.
use native.Mathlib.Nat.{
  le-div_iff_mul-le, div-mul-le_self, mul-le-mul, mul-div_cancel_left, pow-suc,
  le_of_mul-le-mul_right, mul-le-mul_right,
}
use package.event_time_mcdm_agent.Common.{
  ℕ, zero, suc, ◌+◌, ◌-◌, ◌*◌, ◌/◌, ◌^◌, ◌≤◌, ◌<◌, ◌≡◌, refl, pos, negsuc, arith, ◌⊎◌,
}
use package.event_time_mcdm_agent.Float.Interface.{◌≼◌, ◌≺◌, IsFinite, IsNumber, zero_f, one_f}
use package.event_time_mcdm_agent.Float.Laws.{IsIeee}
use package.event_time_mcdm_agent.Float.Decimal.Defs.{
  Decimal, num, infinity, not_a_number, scale, add_decimal, sub_decimal, mul_decimal, div_decimal,
  neg_decimal, round_decimal, truncate_decimal, ratio_decimal, decimal_float, nearest,
}

-- `num` over non-negative numbers, where the multiplicative laws are.
abbrev of_ℕ : ℕ → Decimal
of_ℕ n = num (pos n)

div_mono : (a b d : ℕ) → 0 < d → a ≤ b → a / d ≤ b / d
div_mono a b d p h = (le-div_iff_mul-le p).1 (omega (arith, div-mul-le_self a d))

nearest_mono : (u a b : ℕ) → 0 < u → a ≤ b → nearest u a ≤ nearest u b
nearest_mono u a b p h =
    mul-le-mul (div_mono (a + u / 2) (b + u / 2) u p (omega arith)) (omega arith)

le_trans' : (x y z : Decimal) → x ≼ y → y ≼ z → x ≼ z
le_trans' x y z h k = ground arith

le_total' : (x y : Decimal) → IsNumber x → IsNumber y → (x ≼ y) ⊎ (y ≼ x)
le_total' x y h k = ground arith

add_le' :
    (x y u v : Decimal)
    → x ≼ y
    → u ≼ v
    → IsNumber (decimal_float.add x u)
    → IsNumber (decimal_float.add y v)
    → decimal_float.add x u ≼ decimal_float.add y v
unfolding add_decimal
add_le' x y u v h k p q = ground arith

sub_le' :
    (x y u v : Decimal)
    → x ≼ y
    → v ≼ u
    → IsNumber (decimal_float.sub x u)
    → IsNumber (decimal_float.sub y v)
    → decimal_float.sub x u ≼ decimal_float.sub y v
unfolding sub_decimal
sub_le' x y u v h k p q = ground arith

-- Written as the operations compute.
mul_scaled_mono :
    (a b c d : ℕ) → a ≤ b → c ≤ d → (a + 0) * (c + 0) / scale ≤ (b + 0) * (d + 0) / scale
mul_scaled_mono a b c d h k =
    div_mono ((a + 0) * (c + 0)) ((b + 0) * (d + 0)) scale (omega arith)
      (mul-le-mul (omega arith) (omega arith))

div_scaled_mono :
    (a b d : ℕ) → 0 < d → a ≤ b → (a + 0) * scale / (d + 0) ≤ (b + 0) * scale / (d + 0)
div_scaled_mono a b d p h =
    div_mono ((a + 0) * scale) ((b + 0) * scale) (d + 0) (omega arith) (omega arith)

div_scaled_self : (d : ℕ) → 0 < d → (d + 0) * scale / (d + 0) ≡ scale
div_scaled_self d p = mul-div_cancel_left scale {n = d + 0} (omega arith)

pow_pos : (k : ℕ) → 0 < 10 ^ k
pow_pos zero = omega arith
pow_pos (suc k) = rw pow-suc (omega (arith, pow_pos k))

ratio_mono : (n d m e : ℕ) → 0 < d → 0 < e → n * e ≤ m * d → n * scale / d ≤ m * scale / e
ratio_mono n d m e p q h = (le-div_iff_mul-le q).1 (
    le_of_mul-le-mul_right {k = d}
      (omega (arith, mul-le-mul_right e (div-mul-le_self (n * scale) d), mul-le-mul_right scale h))
      p)

mul_le' :
    (x y u v : Decimal)
    → zero_f ≼ x
    → x ≼ y
    → zero_f ≼ u
    → u ≼ v
    → IsNumber (decimal_float.mul x u)
    → IsNumber (decimal_float.mul y v)
    → decimal_float.mul x u ≼ decimal_float.mul y v
unfolding mul_decimal ratio_decimal
mul_le' (num (pos a)) (num (pos b)) (num (pos c)) (num (pos d)) p h q k m n =
    ground (arith, mul_scaled_mono a b c d)
mul_le' x y u v p h q k m n = ground arith

div_le' :
    (x y d : Decimal)
    → zero_f ≼ x
    → x ≼ y
    → zero_f ≺ d
    → IsNumber (decimal_float.div x d)
    → IsNumber (decimal_float.div y d)
    → decimal_float.div x d ≼ decimal_float.div y d
unfolding div_decimal ratio_decimal
div_le' (num (pos a)) (num (pos b)) (num (pos d)) p h q m n = ground (arith, div_scaled_mono a b d)
div_le' x y d p h q m n = ground arith

round_le' : (x y : Decimal) (k : ℕ) → x ≼ y → decimal_float.round x k ≼ decimal_float.round y k
unfolding round_decimal
round_le' (num (pos a)) (num (pos b)) k h =
    ground (arith, nearest_mono (10 ^ (30 - k)) a b, pow_pos (30 - k))
round_le' (num (pos a)) (num (negsuc b)) k h = ground arith
round_le' (num (negsuc a)) (num (pos b)) k h = ground arith
round_le' (num (negsuc a)) (num (negsuc b)) k h =
    ground (arith, nearest_mono (10 ^ (30 - k)) (b + 1) (a + 1), pow_pos (30 - k))
round_le' x y k h = ground arith

ratio_le' :
    (n d m e : ℕ)
    → 0 < d
    → 0 < e
    → n * e ≤ m * d
    → decimal_float.ratio n d ≼ decimal_float.ratio m e
unfolding ratio_decimal
ratio_le' n d m e p q h = ground (arith, ratio_mono n d m e)

mul_scaled_one : (a : ℕ) → a * (scale * 1 / 1 + 0) / scale ≡ a
mul_scaled_one a = omega arith

mul_one' : (x : Decimal) → IsFinite x → decimal_float.mul x (one_f {F = Decimal}) ≡ x
unfolding ratio_decimal mul_decimal
mul_one' (num (pos a)) h = ground (arith, mul_scaled_one (a + 0))
mul_one' (num (negsuc a)) h = ground (arith, mul_scaled_one (0 + suc a))
mul_one' x h = ground arith

one_scaled_mul : (a : ℕ) → (scale * 1 / 1 + 0) * a / scale ≡ a
one_scaled_mul a = omega arith

one_mul' : (x : Decimal) → IsFinite x → decimal_float.mul (one_f {F = Decimal}) x ≡ x
unfolding ratio_decimal mul_decimal
one_mul' (num (pos a)) h = ground (arith, one_scaled_mul (a + 0))
one_mul' (num (negsuc a)) h = ground (arith, one_scaled_mul (0 + suc a))
one_mul' x h = ground arith

truncate_pos' :
    (x : Decimal) → IsFinite x → zero_f ≼ x → (k : ℕ) × (decimal_float.truncate x ≡ pos k)
unfolding ratio_decimal truncate_decimal
truncate_pos' (num (pos a)) h p = (a / scale, refl)
truncate_pos' (num (negsuc a)) h p = absurd (ground arith)
truncate_pos' infinity h p = absurd (ground arith)
truncate_pos' not_a_number h p = absurd (ground arith)

div_self' : (d : Decimal) → IsFinite d → zero_f ≺ d → decimal_float.div d d ≡ one_f {F = Decimal}
unfolding ratio_decimal div_decimal
div_self' (num (pos d)) h p = ground (arith, div_scaled_self d)
div_self' x h p = ground arith

pub Decimal-IsIeee : IsIeee Decimal
unfolding ratio_decimal add_decimal sub_decimal mul_decimal div_decimal neg_decimal round_decimal
    truncate_decimal
Decimal-IsIeee = record {
  le_trans = le_trans';
  le_total = le_total';
  le_number = λ x y h. ground arith;
  lt_iff_le = λ x y. ground arith;
  nan_lem = λ x. ground arith;
  finite_number = λ x h. ground arith;
  finite_between = λ x y z p q h k. ground arith;
  inf_above = λ x h. ground arith;
  add_number = λ x y h k. ground arith;
  sub_number = λ x y h k. ground arith;
  mul_number = λ x y h k. ground arith;
  div_number = λ x d h k p. ground arith;
  neg_number = λ x h. ground arith;
  add_le = add_le';
  sub_le = sub_le';
  mul_le = mul_le';
  div_le = div_le';
  neg_le = λ x y p q h. ground arith;
  sub_self = λ x h. ground arith;
  sub_zero = λ x h. ground arith;
  zero_div = λ d h p. ground arith;
  div_self = div_self';
  mul_one = mul_one';
  one_mul = one_mul';
  zero_mul_zero = refl;
  round_le = round_le';
  round_zero = refl;
  round_one = refl;
  ratio_finite = λ n d h p. ground arith;
  ratio_le = ratio_le';
  ratio_pos = λ n d h p q. ground arith;
  truncate_pos = truncate_pos';
}
