-- ===== src/Managed/Receive/Death.antt =====
-- include/shmchan/managed_channel.hpp: what the next caller makes of a receive that died.
use shmchan.Common.{
  ℕ, zero, suc, ◌≡◌, inl, inr, refl, ap, ◌∙◌, sym, subst, Bool, List, [], ◌∷◌, true, false, some,
  arith, take, get_elem?, set, map, All, All-get_elem?, Option-cases,
}
use shmchan.Status.{Bytes}
use shmchan.Managed.State.{
  ManagedMessageSlot, ManagedSharedHeader, ManagedMapping, broken, state_code, corrupt_data,
  reason_code, max_size_of,
}
use shmchan.Managed.Slots.{reset_managed_slot, recover_managed_slots}
use shmchan.Managed.Stores.{perform_all}
use shmchan.Managed.Stores.Effects.{
  Keeps, slot_effect, header_effect, slot_effect-take, header_effect-take, updated, perform_all-eq,
}
use shmchan.Managed.Queue.{contents, collect}
use shmchan.Managed.Queue.Oldest.{IsOldest}
use shmchan.Managed.Invariant.{SlotIsOk, IsValid, IsRecoverable}
use shmchan.Managed.Invariant.Update.{updated-IsRecoverable}
use shmchan.Managed.Invariant.Recovery.{recover-Recovers}
use shmchan.Managed.Receive.{select_oldest, receive_stores, release_stores}
use shmchan.Managed.Receive.Take.{select_oldest-Found, IsOldest-none}
use shmchan.Managed.Receive.Crash.{
  receive_died, receive_died-one, receive_died-two, emptied-IsRecoverable, queue-emptied,
  queue-front, recover-unnumbered, recover-unnumbered_state,
}

-- The next caller recovers a valid mapping that holds `queue`, in the state that the channel had.
abbrev pub RecoversTo : ManagedMapping → List Bytes → Bool × ManagedMapping → Type 0
RecoversTo m queue (recovered, m') =
    (recovered ≡ true) × IsValid m' × (contents m' ≡ queue) × (m'.header.state ≡ m.header.state)

abbrev pub BreaksDown : Bool × ManagedMapping → Type 0
BreaksDown (recovered, m') =
    (recovered ≡ false)
    × (m'.header.state ≡ state_code broken)
    × (m'.header.reason ≡ reason_code corrupt_data)

-- By the number of stores done: before the first the message is kept, after the third it is taken;
-- after the first it has become an empty message, after the second the channel is broken.
abbrev pub AfterDeath : ℕ → ManagedMapping → Bytes → List Bytes → Bool × ManagedMapping → Type 0
AfterDeath zero m x rest r = RecoversTo m (x ∷ rest) r
AfterDeath (suc zero) m x rest r = RecoversTo m ([] ∷ rest) r
AfterDeath (suc (suc zero)) m x rest r = BreaksDown r
AfterDeath (suc (suc (suc n))) m x rest r = RecoversTo m rest r

pub recover-RecoversTo :
    (m m' : ManagedMapping) (queue : List Bytes)
    → IsRecoverable m'
    → contents m' ≡ queue
    → m'.header.state ≡ m.header.state
    → RecoversTo m queue (recover_managed_slots m')
recover-RecoversTo m m' queue r e s =
    let (ok, valid, same, state, _, _, _, _) = recover-Recovers m' r in
    (ok, valid, same ∙ e, state ∙ s)

nil-ne-cons : {x : Bytes} {rest : List Bytes} → ¬ ([] ≡ x ∷ rest)
nil-ne-cons e = cc

tail-eq : {x y : Bytes} {xs ys : List Bytes} → x ∷ xs ≡ y ∷ ys → xs ≡ ys
tail-eq e = cc

module _ (m : ManagedMapping) (v : IsValid m) (b : ℕ) (o : IsOldest (select_oldest m) b m.slots)
    (s : ManagedMessageSlot) (at : get_elem? m.slots (select_oldest m) ≡ some s)
    (payload : Bytes) where
  abbrev i : ℕ
  i = select_oldest m

  slot_ok : SlotIsOk (max_size_of m) m.header.next_sequence s
  slot_ok =
      All-get_elem? (SlotIsOk (max_size_of m) m.header.next_sequence) m.slots i
        v.recoverable.slots_ok at

  record Untouched (h : ManagedSharedHeader) : Type 0 where
    format : h.format ≡ m.header.format
    next : h.next_sequence ≡ m.header.next_sequence
    state : h.state ≡ m.header.state

  release_stores-Keeps :
      All (Keeps (λ s'. s' ≡ reset_managed_slot s) Untouched) (release_stores payload)
  unfolding release_stores
  release_stores-Keeps = (
    (λ h q. ground arith),
    ((λ h q. ground arith), ((λ h q. ground arith), ((λ h q. ground arith), tt))),
  )

  released_header : (n : ℕ) → Untouched (header_effect (take n (release_stores payload)) m.header)
  released_header n =
      header_effect-take (λ s'. s' ≡ reset_managed_slot s) Untouched (release_stores payload) n
        m.header release_stores-Keeps (record { format = refl; next = refl; state = refl })

  released_slot :
      (n : ℕ)
      → slot_effect (take n (release_stores payload)) (reset_managed_slot s) ≡ reset_managed_slot s
  released_slot n =
      slot_effect-take (λ s'. s' ≡ reset_managed_slot s) Untouched (release_stores payload) n
        (reset_managed_slot s) release_stores-Keeps refl

  -- Dead after the third store or later.
  late-RecoversTo :
      (n : ℕ)
      → RecoversTo m
          (map (λ e. e.1) (collect (set m.slots i (reset_managed_slot s))))
          (recover_managed_slots (receive_died (suc (suc (suc n))) m payload))
  unfolding receive_died contents receive_stores release_stores reset_managed_slot slot_effect
      header_effect
  late-RecoversTo n =
      recover-RecoversTo m _ _ (subst IsRecoverable (sym eq) recoverable)
        (ap (λ c. map (λ e. e.1) (collect c.slots)) eq) (ap (λ c. c.header.state) eq ∙ kept.state)
    where
      released : ManagedSharedHeader
      released = header_effect (take n (release_stores payload)) m.header

      eq : receive_died (suc (suc (suc n))) m payload ≡ updated i (reset_managed_slot s) released m
      eq =
          perform_all-eq (take (suc (suc (suc n))) (receive_stores payload)) i m at
          ∙ ap (λ (s' : ManagedMessageSlot). updated i s' released m) (released_slot n)

      kept : Untouched released
      kept = released_header n

      recoverable : IsRecoverable (updated i (reset_managed_slot s) released m)
      recoverable =
          updated-IsRecoverable m i (reset_managed_slot s) released v.recoverable kept.format
            (omega (arith, kept.next)) (omega (arith, kept.next, v.recoverable.in_range))
            (record {
              area = slot_ok.area;
              known = omega arith;
              size = λ e. cc;
              numbered = λ e. cc;
              handed_out = λ e. cc;
            })

  -- Every number of stores done.
  any-AfterDeath :
      (x : Bytes) (rest : List Bytes) (n : ℕ)
      → contents m ≡ x ∷ rest
      → map (λ e. e.1) (collect (set m.slots i (reset_managed_slot s))) ≡ rest
      → AfterDeath n m x rest (recover_managed_slots (receive_died n m payload))
  unfolding receive_died contents perform_all
  any-AfterDeath x rest zero e f = recover-RecoversTo m m (x ∷ rest) v.recoverable e refl
  any-AfterDeath x rest (suc zero) e f =
      subst (λ c. RecoversTo m ([] ∷ rest) (recover_managed_slots c))
        (sym (receive_died-one m v b o s at payload))
        (recover-RecoversTo m _ ([] ∷ rest) (emptied-IsRecoverable m v b o s at payload)
          (ap (map (λ e. e.1)) (queue-emptied m v b o s at payload) ∙ ap (λ l. [] ∷ l) f) refl)
  any-AfterDeath x rest (suc (suc zero)) e f =
      subst (λ c. BreaksDown (recover_managed_slots c))
        (sym (receive_died-two m v b o s at payload))
        (
          recover-unnumbered m v b o s at payload,
          (recover-unnumbered_state m v b o s at payload).0,
          (recover-unnumbered_state m v b o s at payload).1,
        )
  any-AfterDeath x rest (suc (suc (suc n))) e f =
      subst
        (λ q. RecoversTo m q (recover_managed_slots (receive_died (suc (suc (suc n))) m payload))) f
        (late-RecoversTo n)

-- A process dies in a receive on a valid, non-empty channel, with `n` of the stores of the
-- critical section done, and the next caller runs `recover_managed_slots`. With n = 0 the recovery
-- succeeds and the queue is as before. With n = 1 it succeeds and the front message has become the
-- empty message. With n = 2 it fails and marks the channel broken with reason corrupt_data. With
-- n ≥ 3 it succeeds and the queue is what followed the front message. Wherever it succeeds the
-- mapping is valid and the channel's state is as before.
pub receive_died-AfterDeath :
    (m : ManagedMapping) (x : Bytes) (rest : List Bytes) (n : ℕ)
    → IsValid m
    → contents m ≡ x ∷ rest
    → AfterDeath n m x rest (recover_managed_slots (receive_died n m x))
unfolding contents
receive_died-AfterDeath m x rest n v e = elim (select_oldest-Found m v.recoverable) [
  | inl (nothing, empty) ↦ absurd (nil-ne-cons (sym (ap (map (λ e. e.1)) empty) ∙ e))
  | inr (b, o) ↦ elim (Option-cases (get_elem? m.slots (select_oldest m))) [
    | inl nothing ↦ absurd (IsOldest-none m.slots (select_oldest m) b o nothing)
    | inr (s, at) ↦
        any-AfterDeath m v b o s at x x rest n e
          (tail-eq (sym (ap (map (λ e. e.1)) (queue-front m v b o s at x)) ∙ e))
  ]
]
