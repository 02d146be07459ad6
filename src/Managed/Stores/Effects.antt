-- ===== src/Managed/Stores/Effects.antt =====
-- What a list of stores does, to the selected slot and to the header apart.
use shmchan.Common.{
  ℕ, zero, suc, ◌-◌, ◌≤◌, ◌<◌, ◌≡◌, refl, ap, ◌∙◌, List, [], ◌∷◌, ◌++◌, some, arith, length,
  get_elem?, set, take, All,
}
use shmchan.Managed.State.{ManagedMessageSlot, ManagedSharedHeader, ManagedMapping}
use shmchan.Managed.Stores.{Store, to_slot, to_header, modify, perform, perform_all}

unfoldable pub slot_effect : List Store → ManagedMessageSlot → ManagedMessageSlot
slot_effect [] s = s
slot_effect (to_slot f ∷ rest) s = slot_effect rest (f s)
slot_effect (to_header f ∷ rest) s = slot_effect rest s

unfoldable pub header_effect : List Store → ManagedSharedHeader → ManagedSharedHeader
header_effect [] h = h
header_effect (to_slot f ∷ rest) h = header_effect rest h
header_effect (to_header f ∷ rest) h = header_effect rest (f h)

get_elem?-modify :
    {A : Type 0} (xs : List A) (i : ℕ) {a : A} (f : A → A)
    → get_elem? xs i ≡ some a
    → get_elem? (modify xs i f) i ≡ some (f a)
get_elem?-modify [] i f e = cc
get_elem?-modify (x ∷ xs) zero f e = ground arith
get_elem?-modify (x ∷ xs) (suc i) f e = get_elem?-modify xs i f e

set-modify :
    {A : Type 0} (xs : List A) (i : ℕ) (b : A) (f : A → A) → set (modify xs i f) i b ≡ set xs i b
set-modify [] i b f = refl
set-modify (x ∷ xs) zero b f = refl
set-modify (x ∷ xs) (suc i) b f = ap (λ r. x ∷ r) (set-modify xs i b f)

set-get_elem? :
    {A : Type 0} (xs : List A) (i : ℕ) {a : A} → get_elem? xs i ≡ some a → set xs i a ≡ xs
set-get_elem? [] i e = refl
set-get_elem? (x ∷ xs) zero e = ground arith
set-get_elem? (x ∷ xs) (suc i) e = ap (λ r. x ∷ r) (set-get_elem? xs i e)

-- The stores as one update of the slot and one of the header.
abbrev pub updated : ℕ → ManagedMessageSlot → ManagedSharedHeader → ManagedMapping → ManagedMapping
updated i s h m = record { header = h; slots = set m.slots i s }

pub perform_all-eq :
    (sts : List Store) (i : ℕ) (m : ManagedMapping) {s : ManagedMessageSlot}
    → get_elem? m.slots i ≡ some s
    → perform_all i sts m ≡ updated i (slot_effect sts s) (header_effect sts m.header) m
unfolding perform_all perform slot_effect header_effect
perform_all-eq [] i m e = ground (arith, set-get_elem? m.slots i e)
perform_all-eq (to_slot f ∷ rest) i m {s} e = ground (
  arith,
  perform_all-eq rest i (record m { slots = modify m.slots i f }) (get_elem?-modify m.slots i f e),
  set-modify m.slots i (slot_effect rest (f s)) f,
)
perform_all-eq (to_header f ∷ rest) i m e =
    perform_all-eq rest i (record m { header = f m.header }) e

pub slot_effect-append :
    (a b : List Store) (s : ManagedMessageSlot)
    → slot_effect (a ++ b) s ≡ slot_effect b (slot_effect a s)
unfolding slot_effect
slot_effect-append [] b s = refl
slot_effect-append (to_slot f ∷ a) b s = slot_effect-append a b (f s)
slot_effect-append (to_header f ∷ a) b s = slot_effect-append a b s

pub header_effect-append :
    (a b : List Store) (h : ManagedSharedHeader)
    → header_effect (a ++ b) h ≡ header_effect b (header_effect a h)
unfolding header_effect
header_effect-append [] b h = refl
header_effect-append (to_slot f ∷ a) b h = header_effect-append a b h
header_effect-append (to_header f ∷ a) b h = header_effect-append a b (f h)

-- Two properties, of the slot and of the header, that each store keeps hold after any prefix.
module _ (P : ManagedMessageSlot → Type 0) (Q : ManagedSharedHeader → Type 0) where
  abbrev pub Keeps : Store → Type 0
  Keeps (to_slot f) = (s : ManagedMessageSlot) → P s → P (f s)
  Keeps (to_header f) = (h : ManagedSharedHeader) → Q h → Q (f h)

  pub slot_effect-take :
      (sts : List Store) (n : ℕ) (s : ManagedMessageSlot)
      → All Keeps sts
      → P s
      → P (slot_effect (take n sts) s)
  unfolding slot_effect
  slot_effect-take sts zero s k p = p
  slot_effect-take [] (suc n) s k p = p
  slot_effect-take (to_slot f ∷ rest) (suc n) s k p = slot_effect-take rest n (f s) k.1 (k.0 s p)
  slot_effect-take (to_header f ∷ rest) (suc n) s k p = slot_effect-take rest n s k.1 p

  pub header_effect-take :
      (sts : List Store) (n : ℕ) (h : ManagedSharedHeader)
      → All Keeps sts
      → Q h
      → Q (header_effect (take n sts) h)
  unfolding header_effect
  header_effect-take sts zero h k q = q
  header_effect-take [] (suc n) h k q = q
  header_effect-take (to_slot f ∷ rest) (suc n) h k q = header_effect-take rest n h k.1 q
  header_effect-take (to_header f ∷ rest) (suc n) h k q =
      header_effect-take rest n (f h) k.1 (k.0 h q)

-- A prefix of a concatenation.
pub take-append_le {ℓ} :
    {A : Type ℓ} (n : ℕ) (a b : List A) → n ≤ length a → take n (a ++ b) ≡ take n a
take-append_le zero a b h = refl
take-append_le (suc n) [] b h = absurd (omega arith)
take-append_le (suc n) (x ∷ a) b h = ap (λ r. x ∷ r) (take-append_le n a b (omega arith))

pub take-append_lt {ℓ} :
    {A : Type ℓ} (n : ℕ) (a : List A) (x : A) (b : List A)
    → length a < n
    → take n (a ++ x ∷ b) ≡ a ++ x ∷ take (n - length a - 1) b
take-append_lt zero a x b h = absurd (omega arith)
take-append_lt (suc n) [] x b h = ap (λ k. x ∷ take k b) (omega arith)
take-append_lt (suc n) (y ∷ a) x b h =
    ap (λ r. y ∷ r)
      (take-append_lt n a x b (omega arith) ∙ ap (λ k. a ++ x ∷ take k b) (omega arith))
