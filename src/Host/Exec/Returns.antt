-- ===== src/Host/Exec/Returns.antt =====
-- What is known of the parts of an operation that returned.
use arduino_driver.Prelude.{◌≡◌, refl, ap, Bool, true, false, arith}
use arduino_driver.Protocol.Errors.{DriverError, Result, ok, err}
use arduino_driver.Host.Exec.{Exec, continue, lift, require, or_undo, ◌>>=◌, ◌>>◌}

module _ {S A B : Type 0} where
  pub continue-ok :
      (f : A → Exec S B) (r : Result A) (s after : S) (b : B)
      → continue f r s ≡ (ok b, after)
      → (a : A) × (r ≡ ok a) × (f a s ≡ (ok b, after))
  continue-ok f (ok a) s after b h = (a, refl, h)
  continue-ok f (err e) s after b h = absurd (ground arith)

  -- Both statements returned.
  pub bind-ok :
      (m : Exec S A) (f : A → Exec S B) (s after : S) (b : B)
      → (m >>= f) s ≡ (ok b, after)
      → (a : A) × (m s ≡ (ok a, (m s).1)) × (f a (m s).1 ≡ (ok b, after))
  bind-ok m f s after b h =
      let parts = continue-ok f (m s).0 (m s).1 after b h in
      (parts.0, ap (λ (r : Result A). (r, (m s).1)) parts.1, parts.2)

  pub lift-ok :
      (r : Result A) (f : A → Exec S B) (s after : S) (b : B)
      → (lift r >>= f) s ≡ (ok b, after)
      → (a : A) × (r ≡ ok a) × (f a s ≡ (ok b, after))
  lift-ok r f s after b h = continue-ok f r s after b h

module _ {S B : Type 0} where
  pub require-ok :
      (e : DriverError) (test : Bool) (m : Exec S B) (s after : S) (b : B)
      → (require e test >> m) s ≡ (ok b, after)
      → (test ≡ true) × (m s ≡ (ok b, after))
  require-ok e true m s after b h = (refl, h)
  require-ok e false m s after b h = absurd (ground arith)

  pub or_undo-ok :
      (undo : Exec S (Unit {0})) (r : Result B) (s after : S) (b : B)
      → or_undo undo r s ≡ (ok b, after)
      → (r ≡ ok b) × (s ≡ after)
  or_undo-ok undo (ok a) s after b h =
      (ap (λ (x : Result B × S). x.0) h, ap (λ (x : Result B × S). x.1) h)
  or_undo-ok undo (err e) s after b h = absurd (ground arith)

module _ {S A B : Type 0} where
  -- A statement whose result is known.
  pub bind-step :
      (m : Exec S A) (f : A → Exec S B) (s s' : S) (a : A) → m s ≡ (ok a, s') → (m >>= f) s ≡ f a s'
  bind-step m f s s' a h = ap (λ (x : Result A × S). continue f (x.0) (x.1)) h
