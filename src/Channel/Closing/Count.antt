-- ===== src/Channel/Closing/Count.antt =====
-- How many of the first `n` values of a family count, by their weights.
use shmchan.Common.{ℕ, zero, suc, ◌+◌, ◌<◌, ◌≤◌, ◌≡◌, refl, dec_lt, arith}
use shmchan.Channel.Threads.{update}

module _ {A : Type 0} (weight : A → ℕ) where
  pub total : ℕ → (ℕ → A) → ℕ
  total zero f = 0
  total (suc n) f = weight (f n) + total n f

  total-update_of_le : (n i : ℕ) (f : ℕ → A) (a : A) → n ≤ i → total n (update f i a) ≡ total n f
  unfolding total
  total-update_of_le zero i f a above = refl
  total-update_of_le (suc n) i f a above = ground (arith, total-update_of_le n i f a)

  pub total-update :
      (n i : ℕ) (f : ℕ → A) (a : A)
      → i < n
      → total n (update f i a) + weight (f i) ≡ total n f + weight a
  unfolding total
  total-update zero i f a below = absurd (omega arith)
  total-update (suc n) i f a below = elim (dec_lt i n) [
    | yes h ↦ ground (arith, total-update n i f a h)
    | no h ↦ ground (arith, total-update_of_le n i f a)
  ]

  pub weight-le-total : (n i : ℕ) (f : ℕ → A) → i < n → weight (f i) ≤ total n f
  unfolding total
  weight-le-total zero i f below = absurd (omega arith)
  weight-le-total (suc n) i f below = elim (dec_lt i n) [
    | yes h ↦ omega (arith, weight-le-total n i f h)
    | no h ↦ ground arith
  ]

  pub total-eq-zero : (n : ℕ) (f : ℕ → A) → ((j : ℕ) → weight (f j) ≡ 0) → total n f ≡ 0
  unfolding total
  total-eq-zero zero f none_counts = refl
  total-eq-zero (suc n) f none_counts = omega (arith, none_counts n, total-eq-zero n f none_counts)
