-- ===== src/Float/Laws.antt =====
-- What IEEE 754 guarantees of the operations: the order is total away from NaN, and since every
-- operation returns the rounded exact result, it is monotone wherever the exact one is.
use package.event_time_mcdm_agent.Common.{ℕ, pos, ◌*◌, ◌^◌, ◌≤◌, ◌<◌, ◌≡◌, ◌⊎◌, not, ◌&&◌}
use package.event_time_mcdm_agent.Float.Interface.{
  Float, ◌≼◌, ◌≺◌, IsFinite, IsNumber, zero_f, one_f,
}

pub record IsIeee (F : Type 0) ⦃f : Float F⦄ : Type 0 where
  pub le_trans : (x y z : F) → x ≼ y → y ≼ z → x ≼ z
  pub le_total : (x y : F) → IsNumber x → IsNumber y → (x ≼ y) ⊎ (y ≼ x)
  pub le_number : (x y : F) → x ≼ y → IsNumber x × IsNumber y
  pub lt_iff_le : (x y : F) → f.lt x y ≡ (f.le x y && not (f.le y x))
  pub nan_lem : (x : F) → f.is_nan x ≡ not (f.le x x)
  pub finite_number : (x : F) → IsFinite x → IsNumber x
  pub finite_between : (x y z : F) → IsFinite x → IsFinite z → x ≼ y → y ≼ z → IsFinite y
  pub inf_above : (x : F) → IsFinite x → x ≺ f.inf
  pub add_number : (x y : F) → IsNumber x → IsFinite y → IsNumber (f.add x y)
  pub sub_number : (x y : F) → IsNumber x → IsFinite y → IsNumber (f.sub x y)
  pub mul_number : (x y : F) → IsFinite x → IsFinite y → IsNumber (f.mul x y)
  pub div_number : (x d : F) → IsFinite x → IsFinite d → zero_f ≺ d → IsNumber (f.div x d)
  pub neg_number : (x : F) → IsFinite x → IsNumber (f.neg x)
  pub add_le :
      (x y u v : F)
      → x ≼ y
      → u ≼ v
      → IsNumber (f.add x u)
      → IsNumber (f.add y v)
      → f.add x u ≼ f.add y v
  pub sub_le :
      (x y u v : F)
      → x ≼ y
      → v ≼ u
      → IsNumber (f.sub x u)
      → IsNumber (f.sub y v)
      → f.sub x u ≼ f.sub y v
  pub mul_le :
      (x y u v : F)
      → zero_f ≼ x
      → x ≼ y
      → zero_f ≼ u
      → u ≼ v
      → IsNumber (f.mul x u)
      → IsNumber (f.mul y v)
      → f.mul x u ≼ f.mul y v
  pub div_le :
      (x y d : F)
      → zero_f ≼ x
      → x ≼ y
      → zero_f ≺ d
      → IsNumber (f.div x d)
      → IsNumber (f.div y d)
      → f.div x d ≼ f.div y d
  pub neg_le : (x y : F) → IsFinite x → IsFinite y → x ≼ y → f.neg y ≼ f.neg x
  pub sub_self : (x : F) → IsFinite x → f.sub x x ≡ zero_f
  pub sub_zero : (x : F) → IsFinite x → f.sub x zero_f ≡ x
  pub zero_div : (d : F) → IsFinite d → zero_f ≺ d → f.div zero_f d ≡ zero_f
  pub div_self : (d : F) → IsFinite d → zero_f ≺ d → f.div d d ≡ one_f
  pub mul_one : (x : F) → IsFinite x → f.mul x one_f ≡ x
  pub one_mul : (x : F) → IsFinite x → f.mul one_f x ≡ x
  pub zero_mul_zero : f.mul zero_f zero_f ≡ zero_f
  pub round_le : (x y : F) (digits : ℕ) → x ≼ y → f.round x digits ≼ f.round y digits
  pub round_zero : f.round zero_f 4 ≡ zero_f
  pub round_one : f.round one_f 4 ≡ one_f
  -- In the range where the quotient neither overflows nor underflows.
  pub ratio_finite : (n d : ℕ) → n < 2 ^ 512 → 0 < d → IsFinite (f.ratio n d)
  pub ratio_le : (n d m e : ℕ) → 0 < d → 0 < e → n * e ≤ m * d → f.ratio n d ≼ f.ratio m e
  pub ratio_pos : (n d : ℕ) → 0 < n → 0 < d → d ≤ 10 ^ 30 → zero_f ≺ f.ratio n d
  -- `int(x)` of a finite number that is not negative.
  pub truncate_pos : (x : F) → IsFinite x → zero_f ≼ x → (k : ℕ) × (f.truncate x ≡ pos k)
