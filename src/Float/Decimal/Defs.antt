-- ===== src/Float/Decimal/Defs.antt =====
-- Fixed-point numbers with thirty decimal places.
use package.event_time_mcdm_agent.Common.{
  ℕ, ◌+◌, ◌-◌, ◌*◌, ◌/◌, ◌^◌, Bool, true, false, ℤ, pos, negsuc, pos_part, neg_part, sub_ℕ, ◌+ℤ◌,
  ◌-ℤ◌, ltb_ℤ, leb_ℤ,
}
use package.event_time_mcdm_agent.Float.Interface.{Float}

pub data Decimal : Type 0 where
  num : ℤ → Decimal
  infinity not_a_number : Decimal

abbrev pub scale : ℕ
scale = 10 ^ 30

abbrev pub le_decimal : Decimal → Decimal → Bool
le_decimal (num a) (num b) = leb_ℤ a b
le_decimal (num a) infinity = true
le_decimal infinity infinity = true
le_decimal _ _ = false

abbrev pub lt_decimal : Decimal → Decimal → Bool
lt_decimal (num a) (num b) = ltb_ℤ a b
lt_decimal (num a) infinity = true
lt_decimal _ _ = false

unfoldable pub add_decimal : Decimal → Decimal → Decimal
unfolding ◌+ℤ◌
add_decimal (num a) (num b) = num (a +ℤ b)
add_decimal not_a_number b = not_a_number
add_decimal (num a) not_a_number = not_a_number
add_decimal infinity not_a_number = not_a_number
add_decimal _ _ = infinity

unfoldable pub sub_decimal : Decimal → Decimal → Decimal
unfolding ◌-ℤ◌
sub_decimal (num a) (num b) = num (a -ℤ b)
sub_decimal infinity (num b) = infinity
sub_decimal _ _ = not_a_number

-- The sign of a product or a quotient, and its size cut off to the places.
abbrev pub signed : ℤ → ℤ → ℕ → ℤ
signed (pos a) (pos b) n = pos n
signed (negsuc a) (negsuc b) n = pos n
signed _ _ n = sub_ℕ 0 n

abbrev pub size : ℤ → ℕ
size a = pos_part a + neg_part a

unfoldable pub mul_decimal : Decimal → Decimal → Decimal
mul_decimal (num a) (num b) = num (signed a b (size a * size b / scale))
mul_decimal _ _ = not_a_number

unfoldable pub div_decimal : Decimal → Decimal → Decimal
div_decimal (num a) (num b) = num (signed a b (size a * scale / size b))
div_decimal _ _ = not_a_number

unfoldable pub neg_decimal : Decimal → Decimal
unfolding ◌-ℤ◌
neg_decimal (num a) = num (pos 0 -ℤ a)
neg_decimal _ = not_a_number

-- The nearest multiple of `unit`.
abbrev pub nearest : ℕ → ℕ → ℕ
nearest unit n = (n + unit / 2) / unit * unit

unfoldable pub round_decimal : Decimal → ℕ → Decimal
round_decimal (num (pos n)) digits = num (pos (nearest (10 ^ (30 - digits)) n))
round_decimal (num (negsuc n)) digits = num (sub_ℕ 0 (nearest (10 ^ (30 - digits)) (n + 1)))
round_decimal x digits = x

unfoldable pub truncate_decimal : Decimal → ℤ
truncate_decimal (num (pos n)) = pos (n / scale)
truncate_decimal (num (negsuc n)) = sub_ℕ 0 ((n + 1) / scale)
truncate_decimal _ = pos 0

abbrev pub is_num : Decimal → Bool
is_num (num a) = true
is_num _ = false

abbrev pub is_not_a_number : Decimal → Bool
is_not_a_number not_a_number = true
is_not_a_number _ = false

unfoldable pub ratio_decimal : ℕ → ℕ → Decimal
ratio_decimal n d = num (pos (n * scale / d))

instance abbrev pub decimal_float : Float Decimal
decimal_float = record {
  add = add_decimal;
  sub = sub_decimal;
  mul = mul_decimal;
  div = div_decimal;
  neg = neg_decimal;
  le = le_decimal;
  lt = lt_decimal;
  is_finite = is_num;
  is_nan = is_not_a_number;
  nan = not_a_number;
  inf = infinity;
  ratio = ratio_decimal;
  round = round_decimal;
  truncate = truncate_decimal;
}
