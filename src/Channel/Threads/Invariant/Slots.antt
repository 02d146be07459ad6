-- ===== src/Channel/Threads/Invariant/Slots.antt =====
-- Positions that are next to each other are in different slots.
use native.Mathlib.Nat.{mod-lt, mod-eq_of_lt, mod-add-mod, mod_self, div-add-mod}
use shmchan.Common.{ℕ, ◌+◌, ◌%◌, ◌<◌, ◌≤◌, ◌≡◌, ◌≢◌, ap, ◌∙◌, sym, dec_lt, arith}

pub add-one-mod-ne : (n t : ℕ) → 1 < n → (t + 1) % n ≢ t % n
add-one-mod-ne n t several e =
    let small : t % n < n = mod-lt t (omega arith) in
    let split : (t % n + 1) % n ≡ (t + 1) % n = mod-add-mod t n 1 in
    elim (dec_lt (t % n + 1) n) [
      | yes p ↦ omega (arith, mod-eq_of_lt p)
      | no p ↦
          let wraps : t % n + 1 ≡ n = omega arith in
          let nothing : (t % n + 1) % n ≡ 0 = ap (λ k. k % n) wraps ∙ mod_self n in omega arith
    ]

-- The next position of the same slot is one round later.
pub next_in_slot : (n t p : ℕ) → t % n ≡ p % n → t < p → p ≤ t + n → p ≡ t + n
next_in_slot n t p same above within = grind (arith, div-add-mod)

-- Positions of one slot that are less than a round apart are the same.
pub same_slot : (n t u : ℕ) → t % n ≡ u % n → t < u + n → u < t + n → t ≡ u
same_slot n t u same near near' = elim (dec_lt t u) [
  | yes p ↦ absurd (omega (arith, next_in_slot n t u same p (omega arith)))
  | no p ↦ elim (dec_lt u t) [
    | yes q ↦ absurd (omega (arith, next_in_slot n u t (sym same) q (omega arith)))
    | no q ↦ omega arith
  ]
]
