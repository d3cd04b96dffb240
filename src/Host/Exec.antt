-- ===== src/Host/Exec.antt =====
-- Methods that change an object and may throw: what was written before a throw stays written.
pub mod Loops
pub mod Returns
use arduino_driver.Prelude.{Bool, if◌then◌else◌, List, [], ◌∷◌}
use arduino_driver.Protocol.Errors.{DriverError, Result, ok, err}

abbrev pub Exec : Type 0 → Type 0 → Type 0
Exec S A = S → Result A × S

module _ {S A : Type 0} where
  abbrev pub pure : A → Exec S A
  pure a s = (ok a, s)

  abbrev pub raise : DriverError → Exec S A
  raise e s = (err e, s)

  abbrev pub lift : Result A → Exec S A
  lift r s = (r, s)

module _ {S A B : Type 0} where
  abbrev pub continue : (A → Exec S B) → Result A → Exec S B
  continue f (ok a) s = f a s
  continue f (err e) s = (err e, s)

  infixl 5 ◌>>=◌ ◌>>◌
  abbrev pub ◌>>=◌ : Exec S A → (A → Exec S B) → Exec S B
  ◌>>=◌ m f s = let (r, s') = m s in continue f r s'

  abbrev pub ◌>>◌ : Exec S A → Exec S B → Exec S B
  m >> n = m >>= λ done. n

module _ {S : Type 0} where
  abbrev pub modify : (S → S) → Exec S (Unit {0})
  modify f s = (ok tt, f s)

  -- `if (!test) { throw e; }`
  abbrev pub require : DriverError → Bool → Exec S (Unit {0})
  require e test s = (if test then ok tt else err e, s)

  -- `try { m } catch (...) { }`
  abbrev pub best_effort : Exec S (Unit {0}) → Exec S (Unit {0})
  best_effort m s = (ok tt, (m s).1)

  abbrev pub when : Bool → Exec S (Unit {0}) → Exec S (Unit {0})
  when test m = if test then m else pure tt

module _ {S P : Type 0} where
  -- A loop in a try block over a vector of what is done: the result, and what was done, the last one first.
  unfoldable pub attempt_all :
      (P → Exec S (Unit {0})) → List P → List P → S → (Result (Unit {0}) × List P) × S
  attempt_all act [] added s = ((ok tt, added), s)
  attempt_all act (p ∷ ps) added s =
      let (result, s') = act p s in
      elim result [ err e ↦ ((err e, added), s') | ok done ↦ attempt_all act ps (p ∷ added) s' ]

  -- `for (…) { try { … } catch (...) { } }`
  unfoldable pub best_efforts : (P → Exec S (Unit {0})) → List P → Exec S (Unit {0})
  best_efforts act [] s = (ok tt, s)
  best_efforts act (p ∷ ps) s = best_efforts act ps (act p s).1

-- `catch (...) { …; throw; }`
abbrev pub or_undo : {S A : Type 0} → Exec S (Unit {0}) → Result A → Exec S A
or_undo undo (ok a) s = (ok a, s)
or_undo undo (err e) s = (err e, (undo s).1)
