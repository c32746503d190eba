-- ===== src/Common/Equality.antt =====
-- Equality tests as an interface, with the instances that the program's keys need.
use Prim.Native.Nat.{ℕ}
use Prim.Native.String.{String}
use mathlib.Core.Path.{◌≡◌, refl}
use mathlib.Core.Logic.{◌↔◌}
use mathlib.Core.Bool.{Bool, true, false, ◌&&◌}
use mathlib.Core.List.{List, [], ◌∷◌}
use native.Mathlib.Omega.{arith}
use text.Mathlib.Text.{◌==◌ as str_eq}
use text.Mathlib.TextEquality.{eq_iff}
use package.event_time_mcdm_agent.Common.Tests.{nat_beq, nat_beq_iff}
use package.event_time_mcdm_agent.Common.Int.{ℤ, int_beq, int_beq_iff}

-- A test of equality that decides the paths of its type.
pub record Comparable {ℓ} (K : Type ℓ) : Type ℓ where
  pub same : K → K → Bool
  pub same_iff : (j k : K) → (same j k ≡ true) ↔ (j ≡ k)

instance abbrev pub string_eq : Comparable String
string_eq = record { same = str_eq; same_iff = eq_iff }

instance abbrev pub int_eq : Comparable ℤ
int_eq = record { same = int_beq; same_iff = int_beq_iff }

instance abbrev pub nat_eq : Comparable ℕ
nat_eq = record { same = nat_beq; same_iff = nat_beq_iff }

module _ {ℓ} {K : Type ℓ} ⦃c : Comparable K⦄ where
  infix 50 ◌==◌
  abbrev pub ◌==◌ : K → K → Bool
  j == k = c.same j k

  pub same_refl : (k : K) → (k == k) ≡ true
  same_refl k = (c.same_iff k k).1 refl

  pub same→eq : (j k : K) → (j == k) ≡ true → j ≡ k
  same→eq j k = (c.same_iff j k).0

module _ {ℓ κ} {A : Type ℓ} {B : Type κ} ⦃c : Comparable A⦄ ⦃d : Comparable B⦄ where
  abbrev pub same_pair : A × B → A × B → Bool
  same_pair (a, b) (a', b') = c.same a a' && d.same b b'

  pub same_pair_iff : (p q : A × B) → (same_pair p q ≡ true) ↔ (p ≡ q)
  same_pair_iff (a, b) (a', b') = ground (arith, c.same_iff a a', d.same_iff b b')

  instance abbrev pub pair_eq : Comparable (A × B)
  pair_eq = record { same = same_pair; same_iff = same_pair_iff }

module _ {ℓ} {A : Type ℓ} ⦃c : Comparable A⦄ where
  abbrev pub same_list : List A → List A → Bool
  same_list [] [] = true
  same_list (x ∷ xs) (y ∷ ys) = c.same x y && same_list xs ys
  same_list _ _ = false

  pub same_list_iff : (xs ys : List A) → (same_list xs ys ≡ true) ↔ (xs ≡ ys)
  same_list_iff [] [] = (λ e. refl, λ e. refl)
  same_list_iff [] (y ∷ ys) = (λ e. cc, λ e. cc)
  same_list_iff (x ∷ xs) [] = (λ e. cc, λ e. cc)
  same_list_iff (x ∷ xs) (y ∷ ys) = ground (arith, c.same_iff x y, same_list_iff xs ys)

  instance abbrev pub list_eq : Comparable (List A)
  list_eq = record { same = same_list; same_iff = same_list_iff }
