-- ===== src/Host/Exec/Loops.antt =====
-- What loops of operations that may throw keep.
use arduino_driver.Prelude.{List, [], ◌∷◌}
use arduino_driver.Protocol.Errors.{Result, ok, err}
use arduino_driver.Host.Exec.{Exec, attempt_all, best_efforts}

-- One operation, from a state with `added` done: what it keeps if it returns, and if it throws.
abbrev pub Kept :
    {S P : Type 0} → (List P → S → Type 0) → P → List P → Result (Unit {0}) × S → Type 0
Kept I p added (ok done, s) = I (p ∷ added) s
Kept I p added (err e, s) = I added s

module _ {S P : Type 0} (act : P → Exec S (Unit {0})) where
  -- `I added s` holds when `added` has been done.
  pub attempt_all-keeps :
      (I : List P → S → Type 0)
      → ((p : P) (added : List P) (s : S) → I added s → Kept I p added (act p s))
      → (ps added : List P) (s : S) → I added s
      → let (result, after) = attempt_all act ps added s in I result.1 after
  unfolding attempt_all
  attempt_all-keeps I step [] added s h = h
  attempt_all-keeps I step (p ∷ ps) added s h =
      after (act p s).0 (act p s).1 (step p added s h)
        (λ s' kept. attempt_all-keeps I step ps (p ∷ added) s' kept)
    where
      after :
          (r : Result (Unit {0})) (s' : S)
          → Kept I p added (r, s')
          → ((t : S)
              → I (p ∷ added) t
              → let (result, end) = attempt_all act ps (p ∷ added) t in I result.1 end)
          → let next : (Result (Unit {0}) × List P) × S = elim r [
            | err e ↦ ((err e, added), s')
            | ok done ↦ attempt_all act ps (p ∷ added) s'
          ] in
            I next.0.1 next.1
      after (err e) s' kept rest = kept
      after (ok done) s' kept rest = rest s' kept

  -- `I ps s` holds when `ps` are left.
  pub best_efforts-keeps :
      (I : List P → S → Type 0)
      → ((p : P) (ps : List P) (s : S) → I (p ∷ ps) s → I ps (act p s).1)
      → (ps : List P) (s : S) → I ps s
      → I [] (best_efforts act ps s).1
  unfolding best_efforts
  best_efforts-keeps I step [] s h = h
  best_efforts-keeps I step (p ∷ ps) s h = best_efforts-keeps I step ps (act p s).1 (step p ps s h)
