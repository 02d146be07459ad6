-- ===== src/Managed/Send/Stages.antt =====
-- include/shmchan/managed_channel.hpp: the slot and the header at each point of a send's critical
-- section, up to the READY store and after it.
use shmchan.Common.{
  ℕ, suc, ◌+◌, ◌%◌, ◌≤◌, ◌<◌, ◌≡◌, refl, ◌∙◌, List, [], ◌∷◌, ◌++◌, arith, length, take, All,
  length-append, length-set, All-append,
}
use shmchan.Status.{Bytes, u32_mod, u64_mod}
use shmchan.Managed.State.{
  ManagedMessageSlot, ManagedSharedHeader, writing, ready, slot_code, increment, decrement,
}
use shmchan.Managed.Stores.{Store}
use shmchan.Managed.Stores.Effects.{
  slot_effect, header_effect, slot_effect-append, header_effect-append, Keeps, slot_effect-take,
  header_effect-take,
}
use shmchan.Managed.Send.{copy_stores, claim_stores, size_store, ready_store, account_stores}
use shmchan.Managed.Send.Copy.{
  overwrite, slot_effect-copy_stores, header_effect-copy_stores, length-copy_stores,
}

-- The stores before the publication.
abbrev pub hidden_stores : ℕ → Bytes → List Store
hidden_stores sequence message =
    claim_stores sequence ++ copy_stores 0 message ++ size_store message ∷ []

-- The slot that the READY store publishes.
abbrev pub published : ManagedMessageSlot → ℕ → Bytes → ManagedMessageSlot
published s sequence message = record {
  state = slot_code ready;
  payload_size = length message % u32_mod;
  sequence = sequence;
  payload = overwrite s.payload 0 message;
}

-- A header that differs from `h` in counts, hint and counters at most, and may have handed out
-- the next sequence.
pub record SameChannel (h h' : ManagedSharedHeader) : Type 0 where
  pub format : h'.format ≡ h.format
  pub state : h'.state ≡ h.state
  pub lower : h.next_sequence ≤ h'.next_sequence
  pub upper : h'.next_sequence ≤ h.next_sequence + 1

-- The slot before its publication.
abbrev pub IsHidden : ℕ → ManagedMessageSlot → Type 0
IsHidden max s = (length s.payload ≡ max) × (s.state ≤ slot_code writing)

pub length-hidden_stores :
    (sequence : ℕ) (message : Bytes) → length (hidden_stores sequence message) ≡ length message + 7
unfolding claim_stores
length-hidden_stores sequence message = omega (
  arith,
  length-append (copy_stores 0 message) (size_store message ∷ []),
  length-copy_stores 0 message,
)

module _ (max : ℕ) (h : ManagedSharedHeader) (sequence : ℕ) (e : sequence ≡ h.next_sequence)
    (small : suc sequence < u64_mod) where
  abbrev Stays : Store → Type 0
  Stays = Keeps (IsHidden max) (SameChannel h)

  copy_stores-Stays : (k : ℕ) (message : Bytes) → All Stays (copy_stores k message)
  unfolding copy_stores
  copy_stores-Stays k [] = tt
  copy_stores-Stays k (b ∷ rest) =
      ((λ s p. (length-set s.payload k b ∙ p.0, p.1)), copy_stores-Stays (k + 1) rest)

  hidden_stores-Stays : (message : Bytes) → All Stays (hidden_stores sequence message)
  unfolding claim_stores size_store
  hidden_stores-Stays message = (
    (λ s p. omega arith),
    (
      (λ h' q. ground arith),
      (
        (λ h' q. ground arith),
        (
          (λ s p. omega arith),
          (
            (λ h' q. ground arith),
            (
              (λ s p. omega arith),
              All-append Stays (copy_stores 0 message) (size_store message ∷ [])
                  (copy_stores-Stays 0 message) ((λ s p. omega arith), tt),
            ),
          ),
        ),
      ),
    ),
  )

  -- Up to the READY store the slot stays hidden.
  pub IsHidden-take :
      (message : Bytes) (n : ℕ) (s : ManagedMessageSlot)
      → IsHidden max s
      → let sts = take n (hidden_stores sequence message) in
        IsHidden max (slot_effect sts s) × SameChannel h (header_effect sts h)
  IsHidden-take message n s p = (
    slot_effect-take (IsHidden max) (SameChannel h) (hidden_stores sequence message) n s
        (hidden_stores-Stays message) p,
    header_effect-take (IsHidden max) (SameChannel h) (hidden_stores sequence message) n h
        (hidden_stores-Stays message)
        (record { format = refl; state = refl; lower = omega arith; upper = omega arith }),
  )

-- The header once a sequence is taken.
pub record Numbered (h h' : ManagedSharedHeader) : Type 0 where
  pub format : h'.format ≡ h.format
  pub state : h'.state ≡ h.state
  pub next : h'.next_sequence ≡ h.next_sequence + 1

module _ (P : ManagedMessageSlot → Type 0) (h : ManagedSharedHeader) (capacity selected : ℕ)
    (message : Bytes) where
  account_stores-Keeps : All (Keeps P (Numbered h)) (account_stores capacity selected message)
  unfolding account_stores
  account_stores-Keeps = (
    (λ h' q. ground arith),
    (
      (λ h' q. ground arith),
      ((λ h' q. ground arith), ((λ h' q. ground arith), ((λ h' q. ground arith), tt))),
    ),
  )

  pub account-take :
      (n : ℕ) (s : ManagedMessageSlot) (h' : ManagedSharedHeader)
      → P s
      → Numbered h h'
      → let sts = take n (account_stores capacity selected message) in
        P (slot_effect sts s) × Numbered h (header_effect sts h')
  account-take n s h' p q = (
    slot_effect-take P (Numbered h) (account_stores capacity selected message) n s
        account_stores-Keeps p,
    header_effect-take P (Numbered h) (account_stores capacity selected message) n h'
        account_stores-Keeps q,
  )

-- The READY store publishes the whole message.
pub slot_effect-hidden_ready :
    (s : ManagedMessageSlot) (sequence : ℕ) (message : Bytes) (rest : List Store)
    → slot_effect (hidden_stores sequence message ++ ready_store ∷ rest) s
      ≡ slot_effect rest (published s sequence message)
unfolding slot_effect claim_stores size_store ready_store
slot_effect-hidden_ready s sequence message rest =
    simp (slot_effect-append, slot_effect-copy_stores)

abbrev pub numbered : ManagedSharedHeader → ℕ → ManagedSharedHeader
numbered h sequence = record h {
  free_slots = decrement h.free_slots;
  writing_messages = increment h.writing_messages;
  next_sequence = increment sequence;
}

-- The header after the READY store.
pub header_effect-hidden :
    (h : ManagedSharedHeader) (sequence : ℕ) (message : Bytes)
    → header_effect (hidden_stores sequence message) h ≡ numbered h sequence
unfolding header_effect claim_stores size_store
header_effect-hidden h sequence message = simp (header_effect-append, header_effect-copy_stores)
