-- ===== src/TextStream/Answers.antt =====
-- llm/text_stream.py: what `validated_text` returns, and how often it asks.
use codex_py.Base.Effect.{continue, Run, bind-eq-ok}
use codex_py.TextStream.{
  validation_feedback_instructions, is_value_error, checked, retry_after, validated_text,
}
use codex_py.Base.{
  Result, String, Bool-cases, Error, ap, arith, err, inl, inr, ok, refl, ℕ, ◌+◌, ◌∙◌, ◌≡◌, ◌≤◌,
}

module _ {W A : Type 0} (dumps : String → String) (request : String → Run W String)
    (instructions : String) (validate : String → Result A)
    (on_retry : Error → Run W (Unit {0})) where
  checked-ok :
      (output : String) (r : Result A) (a : A) (w w' : W)
      → validate output ≡ r
      → checked dumps request instructions validate on_retry output r w ≡ (ok a, w')
      → (text : String) × (validate text ≡ ok a)
  unfolding checked retry_after
  checked-ok output (ok x) a w w' e h = (output, e ∙ ap (λ p. p.0) h)
  checked-ok output (err x) a w w' e h = elim (Bool-cases (is_value_error x)) [
    | inl caught ↦
        let h' = rw caught at h in
        let (_, w₁, _, h₁) = bind-eq-ok (on_retry x) _ w h' in
        let repair = validation_feedback_instructions dumps instructions x output in
        let (again, w₂, _, h₂) = bind-eq-ok (request repair) _ w₁ h₁ in (again, ap (λ p. p.0) h₂)
    | inr uncaught ↦ let h' = rw uncaught at h in cc
  ]

  -- What `validated_text` returns is what the validation makes of an answer of the model.
  pub validated_text-ok :
      (a : A) (w w' : W)
      → validated_text dumps request instructions validate on_retry w ≡ (ok a, w')
      → (text : String) × (validate text ≡ ok a)
  unfolding validated_text
  validated_text-ok a w w' h =
      let (output, w₁, _, h₁) = bind-eq-ok (request instructions) _ w h in
      checked-ok output (validate output) a w₁ w' refl h₁

module _ {W A : Type 0} (dumps : String → String) (request : String → Run W String)
    (instructions : String) (validate : String → Result A) (on_retry : Error → Run W (Unit {0}))
    (count : W → ℕ) (asks : (t : String) (w : W) → count (request t w).1 ≡ count w + 1)
    (noted : (e : Error) (w : W) → count (on_retry e w).1 ≡ count w) where
  -- The number that the rest of a block adds.
  Adds : W → ℕ → W → Type 0
  Adds w n u = (count w ≤ count u) × (count u ≤ count w + n)

  continue-Adds :
      {X Y : Type 0} (r : Result X × W) (f : X → Run W Y) (n : ℕ)
      → ((a : X) → Adds r.1 n (f a r.1).1)
      → Adds r.1 n (continue r.0 f r.1).1
  unfolding Adds
  continue-Adds (ok a, w) f n h = h a
  continue-Adds (err e, w) f n h = (omega arith, omega arith)

  retry_after-Adds :
      (output : String) (e : Error) (w : W)
      → Adds w 1 (retry_after dumps request instructions validate on_retry output e w).1
  unfolding retry_after Adds
  retry_after-Adds output e w =
      let repair = validation_feedback_instructions dumps instructions e output in
      let w₁ = (on_retry e w).1 in
      let last : String → Run W A = λ again u. (validate again, u) in
      let same = noted e w in
      let one = asks repair w₁ in
      let inner = continue-Adds (request repair w₁) last 0 (λ again. (omega arith, omega arith)) in
      let outer =
        continue-Adds (on_retry e w)
          (λ _ u. continue (request repair u).0 last (request repair u).1) 1
          (λ _. (omega (arith, one, inner.0), omega (arith, one, inner.1))) in
      (omega (arith, same, outer.0), omega (arith, same, outer.1))

  checked-Adds :
      (output : String) (r : Result A) (w : W)
      → Adds w 1 (checked dumps request instructions validate on_retry output r w).1
  unfolding checked Adds
  checked-Adds output (ok a) w = (omega arith, omega arith)
  checked-Adds output (err e) w = elim (Bool-cases (is_value_error e)) [
    | inl caught ↦ rw caught (retry_after-Adds output e w)
    | inr uncaught ↦ rw uncaught (omega arith, omega arith)
  ]

  -- When a request counts one and the note of a retry counts nothing, a validated text costs one
  -- request or two: a second answer that is refused is not asked for again.
  pub validated_text_count :
      (w : W)
      → (count w + 1 ≤ count (validated_text dumps request instructions validate on_retry w).1)
        × (count (validated_text dumps request instructions validate on_retry w).1 ≤ count w + 2)
  unfolding validated_text Adds
  validated_text_count w =
      let one = asks instructions w in
      let rest =
        continue-Adds (request instructions w)
          (λ output. checked dumps request instructions validate on_retry output (validate output))
          1 (λ output. checked-Adds output (validate output) (request instructions w).1) in
      (omega (arith, one, rest.0), omega (arith, one, rest.1))
