-- ===== src/Common/Errors.antt =====
-- Python's exceptions as values. A text is the list of its code points.
use Prim.Native.Nat.{ℕ}
use mathlib.Core.Path.{◌≡◌, refl}
use mathlib.Core.List.{List}

abbrev pub Text : Type 0
Text = List ℕ

-- The classes that the program raises or tells apart; `external` is whatever a library raises,
-- with the text that `str(e)` gives.
pub data Exn : Type 0 where
  value_error : Exn
  runtime_error : Exn
  assertion_error : Exn
  not_implemented : Exn
  zero_division : Exn
  key_error : Exn
  index_error : Exn
  http_exception : ℕ → Exn
  external : Text → Exn

pub data Result {ℓ} (A : Type ℓ) : Type ℓ where
  ok : A → Result A
  raised : Exn → Result A

-- What follows runs only after a return.
module _ {ℓ κ} {X : Type ℓ} {Y : Type κ} where
  infixl 5 ◌>>=◌ ◌>>◌
  abbrev pub ◌>>=◌ : Result X → (X → Result Y) → Result Y
  raised e >>= next = raised e
  ok x >>= next = next x

  abbrev pub ◌>>◌ : Result X → Result Y → Result Y
  first >> second = first >>= λ _. second

  -- A chain that returned went through its first step.
  pub >>=-eq-ok :
      (first : Result X) (next : X → Result Y) {y : Y}
      → (first >>= next) ≡ ok y
      → (x : X) × (first ≡ ok x) × (next x ≡ ok y)
  >>=-eq-ok (raised e) next returned = cc
  >>=-eq-ok (ok x) next returned = (x, refl, returned)

pub ok_injective {ℓ} : {A : Type ℓ} (a b : A) → ok a ≡ ok b → a ≡ b
ok_injective a b e = cc
