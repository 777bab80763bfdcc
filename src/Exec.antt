-- ===== src/Exec.antt =====
-- A method call in Python: the state of the objects, and a result or an exception. What was written
-- before a raise stays written, so the state comes back beside the exception too.
use python_async_api_barebon.Base.{⊤, Bool, if◌then◌else◌}
use python_async_api_barebon.Errors.{PyError}

pub data Result (F A : Type 0) : Type 0 where
  ok : A → Result F A
  err : PyError F → Result F A

abbrev pub Exec : Type 0 → Type 0 → Type 0 → Type 0
Exec F S A = S → Result F A × S

module _ {F S A : Type 0} where
  abbrev pub pure : A → Exec F S A
  pure a s = (ok a, s)

  abbrev pub raise : PyError F → Exec F S A
  raise e s = (err e, s)

  abbrev pub gets : (S → A) → Exec F S A
  gets f s = (ok (f s), s)

module _ {F S : Type 0} where
  abbrev pub modify : (S → S) → Exec F S ⊤
  modify f s = (ok tt, f s)

  abbrev pub raise_if : Bool → PyError F → Exec F S ⊤
  raise_if b e s = (if b then err e else ok tt, s)

infixl 5 ◌>>=◌ ◌>>◌
abbrev pub ◌>>=◌ : {F S A B : Type 0} → Exec F S A → (A → Exec F S B) → Exec F S B
◌>>=◌ m f s = let (r, s') = m s in elim r [ ok a ↦ f a s' | err e ↦ (err e, s') ]

abbrev pub ◌>>◌ : {F S A B : Type 0} → Exec F S A → Exec F S B → Exec F S B
m >> k = m >>= λ _. k
