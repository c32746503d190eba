-- ===== src/Common/Lists.antt =====
-- Lists measured by native numbers, under the library's names, and predicates by recursion.
use Prim.Native.Nat.{ℕ, zero, suc, ◌+◌, ◌-◌, ◌≤◌}
use mathlib.Core.Path.{◌≡◌, refl, ap}
use mathlib.Core.Logic.{◌↔◌, ◌⊎◌, inl, inr}
use mathlib.Core.List.{List, [], ◌∷◌, ◌++◌, map}
use mathlib.Core.Option.{Option, none, some}
use native.Mathlib.Omega.{arith}

-- No element.
pub data Empty {ℓ} : Type ℓ where

module _ {ℓ} {A : Type ℓ} where
  abbrev pub length : List A → ℕ
  length [] = 0
  length (x ∷ xs) = suc (length xs)

  abbrev pub drop : ℕ → List A → List A
  drop zero xs = xs
  drop (suc n) [] = []
  drop (suc n) (x ∷ xs) = drop n xs

  abbrev pub get_elem? : List A → ℕ → Option A
  get_elem? [] i = none
  get_elem? (x ∷ xs) zero = some x
  get_elem? (x ∷ xs) (suc i) = get_elem? xs i

  abbrev pub All {κ} : (A → Type κ) → List A → Type κ
  All P [] = Unit
  All P (x ∷ xs) = P x × All P xs

  -- Membership as data: where the element stands.
  abbrev pub In : A → List A → Type ℓ
  In a [] = Empty
  In a (x ∷ xs) = (a ≡ x) ⊎ In a xs

  pub length-append : (xs ys : List A) → length (xs ++ ys) ≡ length xs + length ys
  length-append [] ys = omega arith
  length-append (x ∷ xs) ys = omega (arith, length-append xs ys)

  pub length-drop : (n : ℕ) (xs : List A) → length (drop n xs) ≡ length xs - n
  length-drop zero xs = omega arith
  length-drop (suc n) [] = omega arith
  length-drop (suc n) (x ∷ xs) = omega (arith, length-drop n xs)

  pub drop-append : (n : ℕ) (xs ys : List A) → n ≤ length xs → drop n (xs ++ ys) ≡ drop n xs ++ ys
  drop-append zero xs ys h = refl
  drop-append (suc n) [] ys h = absurd (omega arith)
  drop-append (suc n) (x ∷ xs) ys h = drop-append n xs ys (omega arith)

  pub All-append {κ} : (P : A → Type κ) (xs ys : List A) → All P xs → All P ys → All P (xs ++ ys)
  All-append P [] ys p q = q
  All-append P (x ∷ xs) ys (p, ps) q = (p, All-append P xs ys ps q)

  pub All-In {κ} : (P : A → Type κ) (a : A) (xs : List A) → All P xs → In a xs → P a
  All-In P a [] p i = elim i [ ]
  All-In P a (x ∷ xs) (p, ps) (inl e) = rw e p
  All-In P a (x ∷ xs) (p, ps) (inr i) = All-In P a xs ps i

  pub In-append : (a : A) (xs ys : List A) → In a (xs ++ ys) ↔ (In a xs ⊎ In a ys)
  In-append a xs ys = (to xs, λ m. elim m [ inl i ↦ left xs i | inr j ↦ right xs j ])
    where
      to : (zs : List A) → In a (zs ++ ys) → In a zs ⊎ In a ys
      to [] i = inr i
      to (z ∷ zs) (inl e) = inl (inl e)
      to (z ∷ zs) (inr i) = elim (to zs i) [ inl j ↦ inl (inr j) | inr j ↦ inr j ]

      left : (zs : List A) → In a zs → In a (zs ++ ys)
      left [] i = elim i [ ]
      left (z ∷ zs) (inl e) = inl e
      left (z ∷ zs) (inr i) = inr (left zs i)

      right : (zs : List A) → In a ys → In a (zs ++ ys)
      right [] i = i
      right (z ∷ zs) i = inr (right zs i)

  -- No element stands twice.
  abbrev pub AllDistinct : List A → Type ℓ
  AllDistinct [] = Unit
  AllDistinct (x ∷ xs) = ¬ In x xs × AllDistinct xs

  pub AllDistinct-append :
      (xs ys : List A)
      → AllDistinct xs
      → AllDistinct ys
      → ((a : A) → In a xs → ¬ In a ys)
      → AllDistinct (xs ++ ys)
  AllDistinct-append [] ys p q apart = q
  AllDistinct-append (x ∷ xs) ys (new, p) q apart = (
    λ i. elim ((In-append x xs ys).0 i) [ inl j ↦ new j | inr j ↦ apart x (inl refl) j ],
    AllDistinct-append xs ys p q (λ a i. apart a (inr i)),
  )

module _ {ℓ κ} {A : Type ℓ} {B : Type κ} where
  pub length-map : (f : A → B) (xs : List A) → length (map f xs) ≡ length xs
  length-map f [] = refl
  length-map f (x ∷ xs) = ap suc (length-map f xs)

-- Some of the items, in their order.
module _ {ℓ} {A : Type ℓ} where
  pub data Sublist : List A → List A → Type ℓ where
    no_items : Sublist [] []
    skips : {x : A} {xs ys : List A} → Sublist xs ys → Sublist xs (x ∷ ys)
    takes : {x : A} {xs ys : List A} → Sublist xs ys → Sublist (x ∷ xs) (x ∷ ys)

pub some_injective {ℓ} : {A : Type ℓ} (a b : A) → some a ≡ some b → a ≡ b
some_injective a b e = cc
