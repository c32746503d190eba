-- ===== src/Main/Emits.antt =====
-- Which transactions an action hands to the chain: a bound on their number and a property of each,
-- with one rule for every way in which actions are composed.
use event_time_mcdm_agent.Common.{
  ℕ, ◌+◌, ◌≤◌, ◌≡◌, refl, ap, ◌∙◌, sym, List, [], ◌++◌, All, All-append, length, length-append,
  Bool, true, false, Result, ok, raised, Exn, arith, if◌then◌else◌,
}
use mathlib.Core.List.{append_assoc}
use event_time_mcdm_agent.Common.Exec.{Exec, pure, lift, catch, bind, continue}
use event_time_mcdm_agent.Main.Backend.{Agent, Submission, on_world}

module _ (P : Submission → Type 0) where
  -- The list grew by at most `n` submissions, all with the property.
  pub record Grows (n : ℕ) (old now : List Submission) : Type 0 where
    pub new : List Submission
    pub grown : now ≡ new ++ old
    pub good : All P new
    pub few : length new ≤ n

  pub Grows-refl : (n : ℕ) (old : List Submission) → Grows n old old
  Grows-refl n old = record { new = []; grown = refl; good = tt; few = omega arith }

  pub Grows-trans :
      (m n k : ℕ) (a b c : List Submission) → m + n ≤ k → Grows m a b → Grows n b c → Grows k a c
  Grows-trans m n k a b c h x y = record {
    new = y.new ++ x.new;
    grown = y.grown ∙ ap (λ t. y.new ++ t) x.grown ∙ sym (append_assoc y.new x.new a);
    good = All-append P y.new x.new y.good x.good;
    few = omega (arith, length-append y.new x.new, x.few, y.few);
  }

  module _ {F W : Type 0} where
    abbrev pub Emits : {A : Type 0} → ℕ → Exec (Agent F W) A → Type 0
    Emits n m = (s : Agent F W) → Grows n s.sent (m s).1.sent

    continue-Emits :
        {A B : Type 0} (n : ℕ) (r : Result A) (k : A → Exec (Agent F W) B) (s : Agent F W)
        → ((x : A) → r ≡ ok x → Emits n (k x))
        → Grows n s.sent (continue r k s).1.sent
    continue-Emits n (ok x) k s h = h x refl s
    continue-Emits n (raised e) k s h = Grows-refl n s.sent

    -- In a sequence the second action may use what the first one returned.
    pub bind-Emits :
        {A B : Type 0} (m n k : ℕ) (a : Exec (Agent F W) A) (f : A → Exec (Agent F W) B)
        → m + n ≤ k
        → Emits m a
        → ((s : Agent F W) (x : A) → (a s).0 ≡ ok x → Emits n (f x))
        → Emits k (bind a f)
    unfolding bind
    bind-Emits m n k a f h x y s =
        Grows-trans m n k _ _ _ h (x s) (continue-Emits n (a s).0 f (a s).1 (y s))

    after-result :
        {A B : Type 0} (n : ℕ) (r : Result A) (k : A → Exec (Agent F W) B) (s : Agent F W)
        → ((x : A) → r ≡ ok x → Grows n s.sent (k x s).1.sent)
        → Grows n s.sent (continue r k s).1.sent
    after-result n (ok x) k s h = h x refl
    after-result n (raised e) k s h = Grows-refl n s.sent

    -- The same from one state: the second action runs in the state that the first one left.
    pub bind-Grows :
        {A B : Type 0} (m n k : ℕ) (a : Exec (Agent F W) A) (f : A → Exec (Agent F W) B)
        (s : Agent F W)
        → m + n ≤ k
        → Emits m a
        → ((x : A) → (a s).0 ≡ ok x → Grows n (a s).1.sent (f x (a s).1).1.sent)
        → Grows k s.sent (bind a f s).1.sent
    unfolding bind
    bind-Grows m n k a f s h x y =
        Grows-trans m n k _ _ _ h (x s) (after-result n (a s).0 f (a s).1 y)

    pub if-Grows :
        {A : Type 0} (n : ℕ) (b : Bool) (x y : Exec (Agent F W) A) (s : Agent F W)
        → (b ≡ true → Grows n s.sent (x s).1.sent)
        → (b ≡ false → Grows n s.sent (y s).1.sent)
        → Grows n s.sent ((if b then x else y) s).1.sent
    if-Grows n true x y s h k = h refl
    if-Grows n false x y s h k = k refl

    pub pure-Emits : {A : Type 0} (n : ℕ) (x : A) → Emits n (pure x)
    pure-Emits n x s = Grows-refl n s.sent

    pub lift-Emits : {A : Type 0} (n : ℕ) (r : Result A) → Emits n (lift r)
    lift-Emits n r s = Grows-refl n s.sent

    pub on_world-Emits : {A : Type 0} (n : ℕ) (m : Exec W A) → Emits n (on_world m)
    on_world-Emits n m s = Grows-refl n s.sent

    handle :
        {A : Type 0} (n : ℕ) (r : Result A) (handler : Exn → Exec (Agent F W) A) (s : Agent F W)
        → ((e : Exn) → Emits n (handler e))
        → Grows n s.sent (catch (λ t. (r, t)) handler s).1.sent
    unfolding catch
    handle n (ok x) handler s h = Grows-refl n s.sent
    handle n (raised e) handler s h = h e s

    pub catch-Emits :
        {A : Type 0} (m n k : ℕ) (a : Exec (Agent F W) A) (handler : Exn → Exec (Agent F W) A)
        → m + n ≤ k
        → Emits m a
        → ((e : Exn) → Emits n (handler e))
        → Emits k (catch a handler)
    unfolding catch
    catch-Emits m n k a handler h x y s =
        Grows-trans m n k _ _ _ h (x s) (handle n (a s).0 handler (a s).1 y)

    pub if-Emits :
        {A : Type 0} (n : ℕ) (b : Bool) (x y : Exec (Agent F W) A)
        → (b ≡ true → Emits n x)
        → (b ≡ false → Emits n y)
        → Emits n (if b then x else y)
    if-Emits n true x y h k = h refl
    if-Emits n false x y h k = k refl
