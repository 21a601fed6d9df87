-- ===== src/Base/Effect.antt =====
-- Actions of `async` code that calls out of the program: they see and change a world `W`, and may
-- raise. What was done before a raise stays done.
use codex_py.Base.{err, Error, ◌≡◌}
use codex_py.Base.Errors.{Error, Result, ok, err}
use mathlib.Core.Path.{◌≡◌, refl}

abbrev pub Run {ℓ κ} : Type ℓ → Type κ → Type (ℓ ⊔ κ)
Run W A = W → Result A × W

module _ {ℓ κ} {W : Type ℓ} {A : Type κ} where
  abbrev pub pure : A → Run W A
  pure a w = (ok a, w)

  abbrev pub raise : Error → Run W A
  raise e w = (err e, w)

  abbrev pub lift : Result A → Run W A
  lift r w = (r, w)

module _ {ℓ κ μ} {W : Type ℓ} {A : Type κ} {B : Type μ} where
  abbrev pub continue : Result A → (A → Run W B) → W → Result B × W
  continue (ok a) f w = f a w
  continue (err e) f w = (err e, w)

  infixl 5 ◌>>=◌ ◌>>◌
  abbrev pub ◌>>=◌ : Run W A → (A → Run W B) → Run W B
  ◌>>=◌ m f w = continue (m w).0 f (m w).1

  abbrev pub ◌>>◌ : Run W A → Run W B → Run W B
  m >> n = m >>= λ _. n

  invert :
      (r : Result A × W) (f : A → Run W B) {b : B} {w' : W}
      → continue r.0 f r.1 ≡ (ok b, w')
      → (a : A) × (u : W) × (r ≡ (ok a, u)) × (f a u ≡ (ok b, w'))
  invert (ok a, u) f h = (a, u, refl, h)
  invert (err e, u) f h = cc

  -- Inversion of a block that returns.
  pub bind-eq-ok :
      (m : Run W A) (f : A → Run W B) (w : W) {b : B} {w' : W}
      → (m >>= f) w ≡ (ok b, w')
      → (a : A) × (u : W) × (m w ≡ (ok a, u)) × (f a u ≡ (ok b, w'))
  bind-eq-ok m f w h = invert (m w) f h

-- What holds after an action: of the value and the world when it returns, of the world when it
-- raises.
module _ {ℓ κ} {W : Type ℓ} {A : Type κ} where
  abbrev pub After : (A → W → Type 0) → (W → Type 0) → Result A × W → Type 0
  After returned raised (ok a, w) = returned a w
  After returned raised (err e, w) = raised w

  pub After-raised :
      (returned : A → W → Type 0) (raised : W → Type 0) (r : Result A × W)
      → ((a : A) (w : W) → returned a w → raised w)
      → After returned raised r
      → raised r.1
  After-raised returned raised (ok a, w) f h = f a w h
  After-raised returned raised (err e, w) f h = h

  pub After-weaken :
      (returned weaker : A → W → Type 0) (raised : W → Type 0) (r : Result A × W)
      → After returned raised r
      → ((a : A) (w : W) → returned a w → weaker a w)
      → After weaker raised r
  After-weaken returned weaker raised (ok a, w) h f = f a w h
  After-weaken returned weaker raised (err e, w) h f = h

module _ {ℓ κ μ} {W : Type ℓ} {A : Type κ} {B : Type μ} where
  pub After-bind :
      (middle : A → W → Type 0) (returned : B → W → Type 0) (raised : W → Type 0) (r : Result A × W)
      (f : A → Run W B)
      → After middle raised r
      → ((a : A) (u : W) → middle a u → After returned raised (f a u))
      → After returned raised (continue r.0 f r.1)
  After-bind middle returned raised (ok a, w) f h k = k a w h
  After-bind middle returned raised (err e, w) f h k = h

module _ {ℓ κ} {W : Type ℓ} {A : Type κ} where
  -- A property of the world that holds in both cases.
  pub After-world : (kept : W → Type 0) (r : Result A × W) → kept r.1 → After (λ _. kept) kept r
  After-world kept (ok a, w) h = h
  After-world kept (err e, w) h = h
