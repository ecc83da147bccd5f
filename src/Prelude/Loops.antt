-- ===== src/Prelude/Loops.antt =====
-- A `while` loop whose body may leave it by `break`, on fuel.
use Prim.Native.Nat.{ℕ, zero, suc, ◌<◌}
use mathlib.Core.Path.{◌≡◌, refl}
use mathlib.Core.Logic.{◌⊎◌, inl, inr}
use mathlib.Core.Bool.{Bool, true, false}
use mathlib.Core.Option.{Option, none, some}
use native.Mathlib.Omega.{arith}
use neural_file_system.Prelude.Tests.{Bool-cases, Option-cases}

module _ {ℓ} {S : Type ℓ} where
  -- `body s` is `none` where the body breaks.
  unfoldable pub iterate : ℕ → (S → Bool) → (S → Option S) → S → S
  iterate zero test body s = s
  iterate (suc fuel) test body s = elim (test s) [
    | true ↦ elim (body s) [ none ↦ s | some s' ↦ iterate fuel test body s' ]
    | false ↦ s
  ]

  pub iterate_done :
      (fuel : ℕ) (test : S → Bool) (body : S → Option S) (s : S)
      → test s ≡ false
      → iterate fuel test body s ≡ s
  unfolding iterate
  iterate_done zero test body s h = refl
  iterate_done (suc fuel) test body s h = rw (h, iterate)

  pub iterate_break :
      (fuel : ℕ) (test : S → Bool) (body : S → Option S) (s : S)
      → body s ≡ none
      → iterate fuel test body s ≡ s
  unfolding iterate
  iterate_break zero test body s h = refl
  iterate_break (suc fuel) test body s h = elim (Bool-cases (test s)) [
    | inl go ↦ rw (go, h, iterate)
    | inr stop ↦ iterate_done (suc fuel) test body s stop
  ]

  pub iterate_next :
      (fuel : ℕ) (test : S → Bool) (body : S → Option S) (s s' : S)
      → test s ≡ true
      → body s ≡ some s'
      → iterate (suc fuel) test body s ≡ iterate fuel test body s'
  unfolding iterate
  iterate_next fuel test body s s' h b = rw (h, b, iterate)

  module _ {κ} (P : S → Type κ) (test : S → Bool) (body : S → Option S) where
    -- What every round keeps holds after the loop.
    pub iterate_inv :
        ((s s' : S) → test s ≡ true → body s ≡ some s' → P s → P s')
        → (fuel : ℕ) (s : S) → P s
        → P (iterate fuel test body s)
    unfolding iterate
    iterate_inv keep zero s h = h
    iterate_inv keep (suc fuel) s h = elim (Bool-cases (test s)) [
      | inl go ↦ elim (Option-cases (body s)) [
        | inl stop ↦ rw (iterate_break (suc fuel) test body s stop) h
        | inr (s', e) ↦
            rw (iterate_next fuel test body s s' go e) (iterate_inv keep fuel s' (keep s s' go e h))
      ]
      | inr stop ↦ rw (iterate_done (suc fuel) test body s stop) h
    ]

    -- With a measure that falls under such a property, the loop has ended by its test or by a
    -- break.
    pub iterate_end_inv :
        ((s s' : S) → test s ≡ true → body s ≡ some s' → P s → P s')
        → (measure : S → ℕ) → ((s s' : S) → P s → body s ≡ some s' → measure s' < measure s)
        → (fuel : ℕ) (s : S) → P s
        → measure s < fuel
        → (test (iterate fuel test body s) ≡ false) ⊎ (body (iterate fuel test body s) ≡ none)
    iterate_end_inv keep measure less zero s p h = absurd (omega arith)
    iterate_end_inv keep measure less (suc fuel) s p h = elim (Bool-cases (test s)) [
      | inl go ↦ elim (Option-cases (body s)) [
        | inl stop ↦ rw (iterate_break (suc fuel) test body s stop) (inr stop)
        | inr (s', e) ↦ rw (iterate_next fuel test body s s' go e) (
            iterate_end_inv keep measure less fuel s' (keep s s' go e p)
              (omega (arith, less s s' p e)))
      ]
      | inr stop ↦ rw (iterate_done (suc fuel) test body s stop) (inl stop)
    ]

  -- The same with a measure that always falls.
  pub iterate_end :
      (measure : S → ℕ) (test : S → Bool) (body : S → Option S)
      → ((s s' : S) → body s ≡ some s' → measure s' < measure s)
      → (fuel : ℕ) (s : S) → measure s < fuel
      → (test (iterate fuel test body s) ≡ false) ⊎ (body (iterate fuel test body s) ≡ none)
  iterate_end measure test body less fuel s h =
      iterate_end_inv (λ _. Unit {0}) test body (λ _ _ _ _ _. tt) measure (λ s s' _. less s s') fuel
        s tt h
