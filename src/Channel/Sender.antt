-- ===== src/Channel/Sender.antt =====
-- include/shmchan/channel.hpp: `sender_state`, the word that counts the senders inside the channel
-- and says that it is closed. Each definition is one atomic operation on the word, or the loop
-- round one; the schedule of a loop says what others do to the word before its compare-exchange,
-- and whether a weak compare-exchange fails for no reason.
use shmchan.Common.{
  ℕ, ◌+◌, ◌-◌, ◌/◌, ◌%◌, ◌^◌, ◌<◌, ◌≡◌, ◌≢◌, sym, ap, ◌∙◌, ◌++◌, refl, Bool, true, false, not, ◌&&◌,
  List, [], ◌∷◌, arith, ◌==◌, if◌then◌else◌, Bool-cases, inl, inr,
}
use shmchan.Status.{u32_mod}

-- `channel_closed_bit`; `active_sender_mask` is all bits below it.
abbrev pub channel_closed_bit : ℕ
channel_closed_bit = 2 ^ 31

-- `(word & channel_closed_bit) != 0`
abbrev pub is_closed : ℕ → Bool
is_closed word = word / channel_closed_bit % 2 == 1

-- `word & active_sender_mask`
abbrev pub active_senders : ℕ → ℕ
active_senders word = word % channel_closed_bit

-- The end of the constructor of `active_sender_guard`: `pending` where the schedule has ended first.
pub data Registration : Type 0 where
  registered refused too_many pending : ℕ → Registration

-- One compare-exchange: the word when it is reached, from the value that was loaded.
pub record Race : Type 0 where
  pub others : ℕ → ℕ
  pub fails_weakly : Bool

-- The loop of `active_sender_guard(header)`: `current` is the loaded value, `word` the shared word.
unfoldable pub register_loop : List Race → (current word : ℕ) → Registration
register_loop [] current word = pending word
register_loop (r ∷ rest) current word =
    let found = r.others word in
    let again = register_loop rest found found in
    if is_closed current
    then refused word
    else if active_senders current == channel_closed_bit - 1
    then too_many word
    else if (found == current) && not r.fails_weakly
    then registered ((current + 1) % u32_mod)
    else again

-- `active_sender_guard(header)`
unfoldable pub register : List Race → ℕ → Registration
unfolding register_loop
register schedule word = register_loop schedule word word

-- The words of `shared_header` that senders and `close` write.
pub record SenderWords : Type 0 where
  pub sender_state : ℕ
  pub readable_epoch : ℕ
  pub writable_epoch : ℕ

-- `~active_sender_guard()` of a registered guard; the wake comes with the change of the epoch.
unfoldable pub unregister : SenderWords → SenderWords
unregister h =
    let left = record h { sender_state = (h.sender_state + u32_mod - 1) % u32_mod } in
    if h.sender_state == channel_closed_bit + 1
    then record left { readable_epoch = (h.readable_epoch + 1) % u32_mod }
    else left

-- `channel::close`
unfoldable pub close : SenderWords → Bool × SenderWords
close h = if is_closed h.sender_state then (false, h) else (
  true,
  record {
    sender_state = h.sender_state + channel_closed_bit;
    readable_epoch = (h.readable_epoch + 1) % u32_mod;
    writable_epoch = (h.writable_epoch + 1) % u32_mod;
  },
)

-- `closed_and_senders_done`
unfoldable pub closed_and_senders_done : SenderWords → Bool
closed_and_senders_done h = h.sender_state == channel_closed_bit

-- The word of a channel that is closed or not, with `active` senders inside.
abbrev pub word_of : Bool → ℕ → ℕ
word_of is_shut active = if is_shut then channel_closed_bit + active else active

-- One of several senders leaves: the word counts one less. The readers' epoch moves exactly if the
-- channel is closed and this was the last sender, and exactly then the channel reads as closed and
-- drained.
pub unregister-word_of :
    (h : SenderWords) (is_shut : Bool) (active : ℕ)
    → active < 2 ^ 31 - 1
    → h.sender_state ≡ word_of is_shut (active + 1)
    → ((unregister h).sender_state ≡ word_of is_shut active)
      × ((unregister h).readable_epoch ≡ (
          if is_shut && (active == 0) then (h.readable_epoch + 1) % u32_mod else h.readable_epoch))
      × (closed_and_senders_done (unregister h) ≡ is_shut && (active == 0))
unfolding unregister closed_and_senders_done
unregister-word_of h true active few e = (ground arith, ground arith, ground arith)
unregister-word_of h false active few e = (ground arith, ground arith, ground arith)

-- `close` returns whether the channel was open before it, leaves it closed with the same senders
-- inside, and is drained at once exactly if there are none.
pub close-word_of :
    (h : SenderWords) (is_shut : Bool) (active : ℕ)
    → active < 2 ^ 31
    → h.sender_state ≡ word_of is_shut active
    → ((close h).0 ≡ not is_shut)
      × ((close h).1.sender_state ≡ word_of true active)
      × (closed_and_senders_done (close h).1 ≡ (active == 0))
unfolding close closed_and_senders_done
close-word_of h true active few e = (ground arith, ground arith, ground arith)
close-word_of h false active few e = (ground arith, ground arith, ground arith)

registered-injective : {a b : ℕ} → registered a ≡ registered b → a ≡ b
registered-injective e = cc

-- The shared word when the compare-exchange after these ones is reached, which have all failed.
pub word_after : List Race → ℕ → ℕ
word_after [] word = word
word_after (r ∷ rest) word = word_after rest (r.others word)

-- Who is registered was let in by one compare-exchange that did not fail: at that moment the shared
-- word, as the others had left it, was that of an open channel with room in the count, and it was
-- replaced by that word with one sender more.
pub register_loop-open :
    (schedule : List Race) (current word after : ℕ)
    → register_loop schedule current word ≡ registered after
    → (lost : List Race) × (won : Race) × (rest : List Race) × (schedule ≡ lost ++ won ∷ rest)
      × (won.fails_weakly ≡ false)
      × (is_closed (won.others (word_after lost word)) ≡ false)
      × (active_senders (won.others (word_after lost word)) ≢ channel_closed_bit - 1)
      × (after ≡ (won.others (word_after lost word) + 1) % u32_mod)
unfolding register_loop word_after
register_loop-open [] current word after e = cc
register_loop-open (r ∷ rest) current word after e =
    let later = register_loop-open rest (r.others word) (r.others word) after in
    elim (Bool-cases (is_closed current)) [
      | inl c ↦ let e' = rw c at e in cc
      | inr o ↦ elim (Bool-cases (active_senders current == channel_closed_bit - 1)) [
        | inl m ↦ let e' = rw (o, m) at e in cc
        | inr l ↦ elim (Bool-cases ((r.others word == current) && not r.fails_weakly)) [
          | inl won ↦
              let e' = rw (o, l, won) at e in
              let same : r.others word ≡ current = ground arith in
              (
                [],
                r,
                rest,
                refl,
                ground arith,
                ap is_closed same ∙ o,
                ground arith,
                sym (registered-injective e') ∙ ap (λ n. (n + 1) % u32_mod) (sym same),
              )
          | inr lost ↦
              let (before, winner, others, split, strong, unlocked, room, next) =
                later (rw (o, l, lost) at e) in
              (r ∷ before, winner, others, ap (λ xs. r ∷ xs) split, strong, unlocked, room, next)
        ]
      ]
    ]

-- Where nobody disturbs the first compare-exchange: a closed channel refuses, a full count is an
-- overflow, and otherwise the sender is counted.
pub register-word_of :
    (r : Race) (rest : List Race) (is_shut : Bool) (active : ℕ)
    → active < 2 ^ 31
    → r.others (word_of is_shut active) ≡ word_of is_shut active
    → r.fails_weakly ≡ false
    → register (r ∷ rest) (word_of is_shut active) ≡ (
        if is_shut
        then refused (word_of is_shut active)
        else if active == channel_closed_bit - 1
        then too_many active
        else registered (word_of false (active + 1)))
unfolding register
register-word_of r rest true active few calm strong =
    let bit : is_closed (channel_closed_bit + active) ≡ true = ground arith in rw bit
register-word_of r rest false active few calm strong =
    let bit : is_closed active ≡ false = ground arith in
    elim (Bool-cases (active == channel_closed_bit - 1)) [
      | inl m ↦
          let m' : (active_senders active == channel_closed_bit - 1) ≡ true = ground arith in
          rw (bit, m', m)
      | inr l ↦
          let l' : (active_senders active == channel_closed_bit - 1) ≡ false = ground arith in
          let won : ((r.others active == active) && not r.fails_weakly) ≡ true = ground arith in
          let next : (active + 1) % u32_mod ≡ active + 1 = omega (arith, few) in
          rw (bit, l', l, won, next)
    ]
