-- ===== src/Base/Family.antt =====
-- Sums over a family of threads, each of which stands somewhere.
use Prim.Native.Nat.{ℕ, zero, suc, ◌+◌, ◌≤◌, ◌<◌}
use mathlib.Core.Bool.{true, false}
use mathlib.Core.Logic.{inl, inr}
use mathlib.Core.Path.{◌≡◌, refl, ap, ◌∙◌}
use native.Mathlib.Omega.{arith}
use sirikata.Base.Tests.{◌==◌, if◌then◌else◌, Bool-cases}

module _ {Pc : Type 0} where
  abbrev pub update : (ℕ → Pc) → ℕ → Pc → ℕ → Pc
  update pc i p j = if j == i then p else pc j

  -- The sum of a weight over the first `n` actors.
  abbrev pub total : (Pc → ℕ) → ℕ → (ℕ → Pc) → ℕ
  total w zero pc = 0
  total w (suc n) pc = total w n pc + w (pc n)

  -- The same without actor `i`.
  abbrev pub others : (Pc → ℕ) → ℕ → ℕ → (ℕ → Pc) → ℕ
  others w zero i pc = 0
  others w (suc n) i pc = others w n i pc + (if n == i then 0 else w (pc n))

  others-above : (w : Pc → ℕ) (n i : ℕ) (pc : ℕ → Pc) → n ≤ i → others w n i pc ≡ total w n pc
  others-above w zero i pc h = refl
  others-above w (suc n) i pc h = ground (arith, others-above w n i pc)

  pub total-others :
      (w : Pc → ℕ) (n i : ℕ) (pc : ℕ → Pc) → i < n → total w n pc ≡ others w n i pc + w (pc i)
  total-others w zero i pc h = absurd (omega arith)
  total-others w (suc n) i pc h = elim (Bool-cases (n == i)) [
    | inl last ↦
        let eq : n ≡ i = ground arith in
        rw last (omega (arith, others-above w n i pc (omega arith), ap (λ k. w (pc k)) eq))
    | inr more ↦ rw more (omega (arith, total-others w n i pc (ground arith)))
  ]

  others-update :
      (w : Pc → ℕ) (n i : ℕ) (pc : ℕ → Pc) (p : Pc) → others w n i (update pc i p) ≡ others w n i pc
  others-update w zero i pc p = refl
  others-update w (suc n) i pc p = ground (arith, others-update w n i pc p)

  pub total-update :
      (w : Pc → ℕ) (n i : ℕ) (pc : ℕ → Pc) (p : Pc)
      → i < n
      → total w n (update pc i p) ≡ others w n i pc + w p
  total-update w n i pc p h =
      let here : (i == i) ≡ true = ground arith in
      total-others w n i (update pc i p) h ∙ rw here (ap (λ k. k + w p) (others-update w n i pc p))

  -- Where one weight is at most the sum of two others, so are the sums.
  pub others-le :
      (u v w : Pc → ℕ) (n i : ℕ) (pc : ℕ → Pc)
      → ((p : Pc) → u p ≤ v p + w p)
      → others u n i pc ≤ others v n i pc + others w n i pc
  others-le u v w zero i pc h = omega arith
  others-le u v w (suc n) i pc h = ground (arith, others-le u v w n i pc h, h (pc n))

  pub others-bound :
      (w : Pc → ℕ) (n i : ℕ) (pc : ℕ → Pc) → ((p : Pc) → w p ≤ 1) → others w n i pc ≤ n
  others-bound w zero i pc h = omega arith
  others-bound w (suc n) i pc h = ground (arith, others-bound w n i pc h, h (pc n))

  pub total-zero : (w : Pc → ℕ) (n : ℕ) (pc : ℕ → Pc) → ((i : ℕ) → w (pc i) ≡ 0) → total w n pc ≡ 0
  total-zero w zero pc h = refl
  total-zero w (suc n) pc h = omega (arith, total-zero w n pc h, h n)

  pub others-has :
      (w : Pc → ℕ) (n i j : ℕ) (pc : ℕ → Pc) → j < n → (j == i) ≡ false → w (pc j) ≤ others w n i pc
  others-has w zero i j pc lt other = absurd (omega arith)
  others-has w (suc n) i j pc lt other = elim (Bool-cases (j == n)) [
    | inl last ↦
        let eq : j ≡ n = ground arith in
        let kept : (n == i) ≡ false = ground (arith, eq) in
        rw kept (omega (arith, ap (λ k. w (pc k)) eq))
    | inr earlier ↦ omega (arith, others-has w n i j pc (ground arith) other)
  ]

  pub others_mono :
      (u v : Pc → ℕ) (n i : ℕ) (pc : ℕ → Pc)
      → ((p : Pc) → u p ≤ v p)
      → others u n i pc ≤ others v n i pc
  others_mono u v zero i pc h = omega arith
  others_mono u v (suc n) i pc h = ground (arith, others_mono u v n i pc h, h (pc n))

  -- The others are one fewer.
  pub others-lt :
      (w : Pc → ℕ) (n i : ℕ) (pc : ℕ → Pc) → i < n → ((p : Pc) → w p ≤ 1) → others w n i pc < n
  others-lt w zero i pc lt h = absurd (omega arith)
  others-lt w (suc n) i pc lt h =
      ground (arith, others-bound w n i pc h, others-lt w n i pc, h (pc n))
