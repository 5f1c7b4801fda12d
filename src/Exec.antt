-- ===== src/Exec.antt =====
-- Methods that change a state and may raise. What was written before a raise stays written, so the
-- state comes back beside the error too.
use pixeldive.Prelude.{◌≡◌, refl}
use pixeldive.Errors.{Error, Result, ok, err}

abbrev pub Exec : Type 0 → Type 0 → Type 0
Exec S A = S → Result A × S

module _ {S A : Type 0} where
  abbrev pub pure : A → Exec S A
  pure a s = (ok a, s)

  abbrev pub raise : Error → Exec S A
  raise e s = (err e, s)

  abbrev pub lift : Result A → Exec S A
  lift r s = (r, s)

  abbrev pub gets : (S → A) → Exec S A
  gets f s = (ok (f s), s)

abbrev pub modify : {S : Type 0} → (S → S) → Exec S (Unit {0})
modify f s = (ok tt, f s)

module _ {S A B : Type 0} where
  abbrev pub continue : (A → Exec S B) → Result A × S → Result B × S
  continue f (ok a, s) = f a s
  continue f (err e, s) = (err e, s)

  infixl 5 ◌>>=◌ ◌>>◌
  abbrev pub ◌>>=◌ : Exec S A → (A → Exec S B) → Exec S B
  ◌>>=◌ m f s = continue f (m s)

  abbrev pub ◌>>◌ : Exec S A → Exec S B → Exec S B
  ◌>>◌ m k s = continue (λ _. k) (m s)

-- `try: m` with `except: handler; raise`: the handler runs on the state that the failure left, and
-- what it raises itself takes the place of the error.
module _ {S A : Type 0} where
  abbrev pub raise_again : Error → Result (Unit {0}) × S → Result A × S
  raise_again e (ok u, s) = (err e, s)
  raise_again e (err new, s) = (err new, s)

  abbrev pub on_error_after : (Error → Exec S (Unit {0})) → Result A × S → Result A × S
  on_error_after handler (ok a, s) = (ok a, s)
  on_error_after handler (err e, s) = raise_again e (handler e s)

  abbrev pub on_error : Exec S A → (Error → Exec S (Unit {0})) → Exec S A
  on_error m handler s = on_error_after handler (m s)

-- `async with engine.begin()`: an error rolls the transaction back.
module _ {S A : Type 0} where
  abbrev pub commit_or_rollback : S → Result A × S → Result A × S
  commit_or_rollback before (ok a, s) = (ok a, s)
  commit_or_rollback before (err e, s) = (err e, before)

  abbrev pub transaction : Exec S A → Exec S A
  transaction m s = commit_or_rollback s (m s)

-- What holds of a run: `Good` of an answer and its state, `Bad` of the state after an error.
module _ {S A : Type 0} where
  abbrev pub Ends : (A → S → Type 0) → (S → Type 0) → Result A × S → Type 0
  Ends Good Bad (ok a, s) = Good a s
  Ends Good Bad (err e, s) = Bad s

module _ {S A B : Type 0} where
  pub Ends-continue :
      (Good : A → S → Type 0) (Best : B → S → Type 0) (Bad : S → Type 0) (f : A → Exec S B)
      (out : Result A × S)
      → Ends Good Bad out
      → ((a : A) (s : S) → Good a s → Ends Best Bad (f a s))
      → Ends Best Bad (continue f out)
  Ends-continue Good Best Bad f (ok a, s) h next = next a s h
  Ends-continue Good Best Bad f (err e, s) h next = h

-- An answer of a chain comes from an answer of its first step.
pub continue_ok :
    {A B S : Type 0} (f : A → Exec S B) (r : Result A) (s : S) {b : B} {s' : S}
    → continue f (r, s) ≡ (ok b, s')
    → (a : A) × (r ≡ ok a) × (f a s ≡ (ok b, s'))
continue_ok f (ok a) s h = (a, refl, h)
continue_ok f (err e) s h = cc
