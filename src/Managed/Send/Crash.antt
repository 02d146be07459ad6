-- ===== src/Managed/Send/Crash.antt =====
-- include/shmchan/managed_channel.hpp: a process that dies inside a send.
use shmchan.Common.{
  ℕ, suc, ◌+◌, ◌-◌, ◌≤◌, ◌<◌, ◌≡◌, refl, ap, ◌∙◌, sym, List, [], ◌∷◌, ◌++◌, arith, length, take,
  get_elem?, some, All-get_elem?, subst,
}
use shmchan.Status.{Bytes, u64_mod}
use shmchan.Managed.State.{
  ManagedMessageSlot, ManagedSharedHeader, ManagedMapping, free, slot_code, capacity_of,
  max_size_of,
}
use shmchan.Managed.Stores.{Store, perform_all}
use shmchan.Managed.Stores.Effects.{
  slot_effect, header_effect, header_effect-append, updated, perform_all-eq, take-append_le,
  take-append_lt,
}
use shmchan.Managed.Receive.{payload_of}
use shmchan.Managed.Queue.{collect}
use shmchan.Managed.Queue.Publish.{collect-set_unready, collect-set_ready}
use shmchan.Managed.Invariant.{SlotIsOk, IsRecoverable}
use shmchan.Managed.Invariant.Update.{All-BoundedBy, updated-IsRecoverable}
use shmchan.Managed.Send.{ready_store, account_stores, send_stores}
use shmchan.Managed.Send.Copy.{overwrite, length-overwrite, take-overwrite}
use shmchan.Managed.Send.Stages.{
  hidden_stores, length-hidden_stores, IsHidden-take, IsHidden, SameChannel, Numbered, account-take,
  published, slot_effect-hidden_ready, numbered, header_effect-hidden,
}

-- A send that found slot `i` FREE.
module _ (m : ManagedMapping) (i : ℕ) (s : ManagedMessageSlot) (message : Bytes)
    (r : IsRecoverable m) (at : get_elem? m.slots i ≡ some s) (is_free : s.state ≡ slot_code free)
    (fits : length message ≤ max_size_of m) (room : suc m.header.next_sequence < u64_mod) where
  abbrev max : ℕ
  max = max_size_of m

  abbrev next : ℕ
  next = m.header.next_sequence

  -- What a process leaves that dies after the first `n` stores.
  abbrev pub died : ℕ → ManagedMapping
  died n = perform_all i (take n (send_stores m i message)) m

  slot_ok : SlotIsOk max next s
  slot_ok = All-get_elem? (SlotIsOk max next) m.slots i r.slots_ok at

  hidden : List Store
  hidden = hidden_stores next message

  send_stores-eq :
      send_stores m i message ≡ hidden ++ ready_store ∷ account_stores (capacity_of m) i message
  unfolding send_stores hidden
  send_stores-eq = refl

  -- The state `c` has the old messages, and the state that the channel had.
  pub record Unsent (c : ManagedMapping) : Type 0 where
    pub recoverable : IsRecoverable c
    pub queue : collect c.slots ≡ collect m.slots
    pub state : c.header.state ≡ m.header.state
    pub format : c.header.format ≡ m.header.format
    pub upper : c.header.next_sequence ≤ m.header.next_sequence + 1

  hidden-Unsent :
      (s' : ManagedMessageSlot) (h' : ManagedSharedHeader)
      → IsHidden max s'
      → SameChannel m.header h'
      → Unsent (updated i s' h' m)
  hidden-Unsent s' h' p q = record {
    recoverable =
        updated-IsRecoverable m i s' h' r q.format q.lower (omega (arith, q.upper)) (record {
          area = p.0;
          known = omega arith;
          size = λ e. absurd (omega arith);
          numbered = λ e. absurd (omega arith);
          handed_out = λ e. absurd (omega arith);
        });
    queue = collect-set_unready m.slots i s' at (omega arith) (omega arith);
    state = q.state;
    format = q.format;
    upper = q.upper;
  }

  pub died-Unsent : (n : ℕ) → n ≤ length message + 7 → Unsent (died n)
  unfolding hidden
  died-Unsent n le =
      subst Unsent
        (sym (
          ap (λ l. perform_all i (take n l) m) send_stores-eq
          ∙ ap (λ l. perform_all i l m)
              (take-append_le n hidden (ready_store ∷ account_stores (capacity_of m) i message)
                (omega (arith, length-hidden_stores next message)))
          ∙ perform_all-eq (take n hidden) i m at))
        (hidden-Unsent _ _ both.0 both.1)
    where
      both :
          IsHidden max (slot_effect (take n hidden) s)
          × SameChannel m.header (header_effect (take n hidden) m.header)
      both = IsHidden-take max m.header next refl room message n s (slot_ok.area, omega arith)

  -- The state `c` has the message at the end of the queue.
  pub record Sent (c : ManagedMapping) : Type 0 where
    pub recoverable : IsRecoverable c
    pub queue : collect c.slots ≡ collect m.slots ++ (next, message) ∷ []
    pub state : c.header.state ≡ m.header.state
    pub format : c.header.format ≡ m.header.format
    pub upper : c.header.next_sequence ≤ m.header.next_sequence + 1

  published_ok : (k : ℕ) → next < k → SlotIsOk max k (published s next message)
  published_ok k lt = record {
    area = length-overwrite s.payload 0 message ∙ slot_ok.area;
    known = omega arith;
    size = λ _. omega (arith, r.small);
    numbered = λ _. r.started;
    handed_out = λ _. lt;
  }

  payload_of-published : payload_of (published s next message) ≡ message
  unfolding payload_of
  payload_of-published =
      ap (λ n. take n (overwrite s.payload 0 message)) (omega (arith, r.small))
      ∙ take-overwrite s.payload 0 message (omega (arith, slot_ok.area))

  published-Sent :
      (s' : ManagedMessageSlot) (h' : ManagedSharedHeader)
      → s' ≡ published s next message
      → Numbered m.header h'
      → Sent (updated i s' h' m)
  published-Sent s' h' p q = record {
    recoverable =
        updated-IsRecoverable m i s' h' r q.format (omega (arith, q.next)) (omega (arith, q.next))
          (rw p (published_ok h'.next_sequence (omega (arith, q.next))));
    queue = rw p (
        collect-set_ready m.slots i (published s next message) at (omega arith) refl
          (All-BoundedBy max next m.slots r.slots_ok)
        ∙ ap (λ b. collect m.slots ++ (next, b) ∷ []) payload_of-published);
    state = q.state;
    format = q.format;
    upper = omega (arith, q.next);
  }

  -- The stores of a process that dies after the READY store.
  late_stores : ℕ → List Store
  late_stores k = hidden ++ ready_store ∷ take k (account_stores (capacity_of m) i message)

  slot_effect-late_stores :
      (k : ℕ)
      → slot_effect (late_stores k) s
        ≡ slot_effect (take k (account_stores (capacity_of m) i message)) (published s next message)
  unfolding late_stores hidden
  slot_effect-late_stores k =
      slot_effect-hidden_ready s next message (take k (account_stores (capacity_of m) i message))

  header_effect-late_stores :
      (k : ℕ)
      → header_effect (late_stores k) m.header
        ≡ header_effect (take k (account_stores (capacity_of m) i message)) (numbered m.header next)
  unfolding late_stores hidden header_effect ready_store
  header_effect-late_stores k =
      header_effect-append (hidden_stores next message)
        (ready_store ∷ take k (account_stores (capacity_of m) i message)) m.header
      ∙ ap (header_effect (take k (account_stores (capacity_of m) i message)))
          (header_effect-hidden m.header next message)

  late-Sent :
      (k : ℕ)
      → Sent (updated i (slot_effect (late_stores k) s) (header_effect (late_stores k) m.header) m)
  late-Sent k =
      published-Sent _ _ (slot_effect-late_stores k ∙ both.0)
        (subst (Numbered m.header) (sym (header_effect-late_stores k)) both.1)
    where
      both :
          (slot_effect
              (take k (account_stores (capacity_of m) i message))
              (published s next message)
            ≡ published s next message)
          × Numbered m.header (
              header_effect
                (take k (account_stores (capacity_of m) i message))
                (numbered m.header next))
      both =
          account-take (λ x. x ≡ published s next message) m.header (capacity_of m) i message k
            (published s next message) (numbered m.header next) refl
            (record { format = refl; state = refl; next = omega arith })

  pub died-Sent : (n : ℕ) → length message + 7 < n → Sent (died n)
  unfolding hidden late_stores
  died-Sent n lt =
      subst Sent
        (sym (
          ap (λ l. perform_all i (take n l) m) send_stores-eq
          ∙ ap (λ l. perform_all i l m)
              (take-append_lt n hidden ready_store (account_stores (capacity_of m) i message)
                (omega (arith, length-hidden_stores next message)))
          ∙ perform_all-eq (late_stores (n - length hidden - 1)) i m at))
        (late-Sent (n - length hidden - 1))
