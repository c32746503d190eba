-- ===== src/Common/Exec.antt =====
-- Code that acts on a state and may raise. What was done before a raise stays done, so the state
-- comes back beside the exception too.
use mathlib.Core.Path.{◌≡◌, refl}
use package.event_time_mcdm_agent.Common.Errors.{Exn, Result, ok, raised}

abbrev pub Exec {ℓ} : Type ℓ → Type ℓ → Type ℓ
Exec S A = S → Result A × S

module _ {ℓ} {S A : Type ℓ} where
  abbrev pub pure : A → Exec S A
  pure a s = (ok a, s)

  abbrev pub raise : Exn → Exec S A
  raise e s = (raised e, s)

  abbrev pub lift : Result A → Exec S A
  lift r s = (r, s)

  abbrev pub recover : Result A → (Exn → Exec S A) → Exec S A
  recover (ok a) handler s = (ok a, s)
  recover (raised e) handler s = handler e s

  -- `try: m except Exception as e: handler(e)`
  unfoldable pub catch : Exec S A → (Exn → Exec S A) → Exec S A
  catch m handler s = let (r, s') = m s in recover r handler s'

module _ {ℓ} {S A B : Type ℓ} where
  abbrev pub continue : Result A → (A → Exec S B) → Exec S B
  continue (ok a) f s = f a s
  continue (raised e) f s = (raised e, s)

  unfoldable pub bind : Exec S A → (A → Exec S B) → Exec S B
  bind m f s = let (r, s') = m s in continue r f s'

infixl 5 ◌>>=◌ ◌>>◌
abbrev pub ◌>>=◌ {ℓ} : {S A B : Type ℓ} → Exec S A → (A → Exec S B) → Exec S B
m >>= f = bind m f

abbrev pub ◌>>◌ {ℓ} : {S A B : Type ℓ} → Exec S A → Exec S B → Exec S B
m >> k = bind m λ _. k

module _ {ℓ} {S A B : Type ℓ} where
  continue-eq-ok :
      (r : Result A) (f : A → Exec S B) (s : S) {b : B}
      → (continue r f s).0 ≡ ok b
      → (a : A) × (r ≡ ok a) × ((f a s).0 ≡ ok b)
  continue-eq-ok (ok a) f s h = (a, refl, h)
  continue-eq-ok (raised e) f s h = cc

  -- A sequence that returned went through its first action.
  pub bind-eq-ok :
      (m : Exec S A) (f : A → Exec S B) (s : S) {b : B}
      → (bind m f s).0 ≡ ok b
      → (a : A) × ((m s).0 ≡ ok a) × ((f a (m s).1).0 ≡ ok b)
  unfolding bind
  bind-eq-ok m f s h = continue-eq-ok (m s).0 f (m s).1 h
