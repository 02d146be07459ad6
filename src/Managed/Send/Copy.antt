-- ===== src/Managed/Send/Copy.antt =====
-- include/shmchan/managed_channel.hpp: the copy of a message into its payload area.
use shmchan.Common.{
  ℕ, zero, suc, ◌+◌, ◌≤◌, ◌<◌, ◌≡◌, refl, ap, ◌∙◌, sym, [], ◌∷◌, ◌++◌, arith, length, set, take,
  append_assoc, append-nil, length-set,
}
use shmchan.Status.{Bytes}
use shmchan.Managed.State.{ManagedMessageSlot, ManagedSharedHeader}
use shmchan.Managed.Stores.Effects.{slot_effect, header_effect}
use shmchan.Managed.Send.{copy_stores}

pub overwrite : Bytes → ℕ → Bytes → Bytes
overwrite area k [] = area
overwrite area k (b ∷ rest) = overwrite (set area k b) (k + 1) rest

pub length-overwrite :
    (area : Bytes) (k : ℕ) (message : Bytes) → length (overwrite area k message) ≡ length area
unfolding overwrite
length-overwrite area k [] = refl
length-overwrite area k (b ∷ rest) =
    length-overwrite (set area k b) (k + 1) rest ∙ length-set area k b

take-set :
    (area : Bytes) (k b : ℕ) → k < length area → take (k + 1) (set area k b) ≡ take k area ++ b ∷ []
take-set [] k b h = absurd (omega arith)
take-set (x ∷ area) zero b h = refl
take-set (x ∷ area) (suc k) b h = rw (suc_add k) (ap (λ r. x ∷ r) (take-set area k b (omega arith)))
  where
    suc_add : (n : ℕ) → suc n + 1 ≡ suc (n + 1)
    suc_add n = omega arith

-- The area begins with what was there before offset `k`, and then the message.
pub take-overwrite :
    (area : Bytes) (k : ℕ) (message : Bytes)
    → k + length message ≤ length area
    → take (k + length message) (overwrite area k message) ≡ take k area ++ message
unfolding overwrite
take-overwrite area k [] h = ap (λ n. take n area) (omega arith) ∙ sym (append-nil (take k area))
take-overwrite area k (b ∷ rest) h =
    ap (λ n. take n (overwrite (set area k b) (k + 1) rest)) (omega arith)
    ∙ take-overwrite (set area k b) (k + 1) rest (omega (arith, length-set area k b))
    ∙ ap (λ r. r ++ rest) (take-set area k b (omega arith))
    ∙ append_assoc (take k area) (b ∷ []) rest

pub slot_effect-copy_stores :
    (k : ℕ) (message : Bytes) (s : ManagedMessageSlot)
    → slot_effect (copy_stores k message) s ≡ record s { payload = overwrite s.payload k message }
unfolding slot_effect copy_stores overwrite
slot_effect-copy_stores k [] s = refl
slot_effect-copy_stores k (b ∷ rest) s =
    slot_effect-copy_stores (k + 1) rest (record s { payload = set s.payload k b })

pub header_effect-copy_stores :
    (k : ℕ) (message : Bytes) (h : ManagedSharedHeader)
    → header_effect (copy_stores k message) h ≡ h
unfolding header_effect copy_stores
header_effect-copy_stores k [] h = refl
header_effect-copy_stores k (b ∷ rest) h = header_effect-copy_stores (k + 1) rest h

pub length-copy_stores : (k : ℕ) (message : Bytes) → length (copy_stores k message) ≡ length message
unfolding copy_stores
length-copy_stores k [] = refl
length-copy_stores k (b ∷ rest) = ap suc (length-copy_stores (k + 1) rest)
