-- ===== src/Tests/Channel.antt =====
-- The word of a closed channel with a sender inside, a name, and a ring of two slots.
use shmchan.Common.{
  ◌++◌, List, ◌<◌, ◌&&◌, ◌==◌, if◌then◌else◌, inl, inr, List, none, get_elem?, ℕ, ◌+◌, ◌^◌, ◌%◌,
  ◌-◌, ◌≡◌, ◌≢◌, refl, true, false, [], ◌∷◌, arith, some,
}
use shmchan.Status.{u32_mod}
use shmchan.Channel.Ring.{Ring, finished, try_enqueue, try_dequeue, undisturbed}
use shmchan.Channel.Passing.{try_enqueue-try_dequeue}
use shmchan.Channel.Sender.{
  Race, word_after, SenderWords, registered, register, register_loop, unregister, close,
  closed_and_senders_done, is_closed, active_senders, channel_closed_bit, unregister-word_of,
  close-word_of, register_loop-open, register-word_of,
}
use shmchan.Channel.Queue.{Call, put, get, shut}
use shmchan.Channel.Queue
use shmchan.Channel.Calls
use shmchan.Channel.Single.{Rest, single, queue, run-single}
use shmchan.Channel.Send.{Fixed}
use shmchan.Channel.Layout.{Element, Format, create, validate_mapping, abi_mismatch}
use shmchan.Channel.Layout.Create.{create-validate_mapping}
use shmchan.Channel.Names.{IsNormal, normalize_name, normalize_name-IsNormal}

abbrev closing : SenderWords
closing = record { sender_state = 2 ^ 31 + 1; readable_epoch = 4; writable_epoch = 0 }

unregister-word_of_example :
    ((unregister closing).sender_state ≡ 2 ^ 31)
    × ((unregister closing).readable_epoch ≡ 5)
    × (closed_and_senders_done (unregister closing) ≡ true)
unregister-word_of_example = unregister-word_of closing true 0 (omega arith) refl

close-word_of_example :
    ((close (record closing { sender_state = 2 })).0 ≡ true)
    × ((close (record closing { sender_state = 2 })).1.sender_state ≡ 2 ^ 31 + 2)
    × (closed_and_senders_done (close (record closing { sender_state = 2 })).1 ≡ false)
close-word_of_example =
    close-word_of (record closing { sender_state = 2 }) false 2 (omega arith) refl

abbrev quiet : Race
quiet = record { others = λ w. w; fails_weakly = false }

register-word_of_example : register (quiet ∷ []) 3 ≡ registered 4
register-word_of_example = register-word_of quiet [] false 3 (omega arith) refl refl

three_enter : register_loop (quiet ∷ []) 3 3 ≡ registered 4
unfolding register_loop
three_enter = refl

register_loop-open_example :
    (lost : List Race) × (won : Race) × (rest : List Race) × (quiet ∷ [] ≡ lost ++ won ∷ rest)
    × (won.fails_weakly ≡ false)
    × (is_closed (won.others (word_after lost 3)) ≡ false)
    × (active_senders (won.others (word_after lost 3)) ≢ channel_closed_bit - 1)
    × (4 ≡ (won.others (word_after lost 3) + 1) % u32_mod)
register_loop-open_example = register_loop-open (quiet ∷ []) 3 3 4 three_enter

-- "a" becomes "/a".
a_normal : normalize_name (97 ∷ []) ≡ some (47 ∷ 97 ∷ [])
unfolding normalize_name
a_normal = refl

normalize_name-IsNormal_example : IsNormal (47 ∷ 97 ∷ [])
normalize_name-IsNormal_example = normalize_name-IsNormal (97 ∷ []) (47 ∷ 97 ∷ []) a_normal

abbrev new_ring : Ring ℕ
new_ring = record {
  capacity = 2;
  enqueue_position = 0;
  dequeue_position = 0;
  readable_epoch = 0;
  writable_epoch = 0;
  slots = record { sequence = 0; storage = 0 } ∷ record { sequence = 1; storage = 0 } ∷ [];
}

try_enqueue-try_dequeue_example :
    (r1 : Ring ℕ) × (r2 : Ring ℕ) × (try_enqueue (undisturbed ∷ []) 7 new_ring ≡ finished tt r1)
    × (try_dequeue (undisturbed ∷ []) r1 ≡ finished 7 r2)
    × (r2.enqueue_position ≡ 1)
    × (r2.dequeue_position ≡ 1)
    × (get_elem? r2.slots 0 ≡ some record { sequence = 2; storage = 7 })
try_enqueue-try_dequeue_example =
    try_enqueue-try_dequeue new_ring (record { sequence = 0; storage = 0 }) 7 refl refl refl refl
      (omega arith) (omega arith)

abbrev unused : Rest ℕ
unused = record {
  enqueue_position = 0;
  dequeue_position = 0;
  readable_epoch = 0;
  writable_epoch = 0;
  stale = 0;
}

abbrev numbers : List (Call ℕ)
numbers = put 7 ∷ put 8 ∷ get ∷ put 9 ∷ shut ∷ put 5 ∷ get ∷ get ∷ shut ∷ []

run-single_example :
    Calls.run (single unused none true) numbers ≡ Queue.run 1 (queue none true) numbers
run-single_example = run-single numbers unused none true

-- A four-byte integer, and another type with its layout.
abbrev int_element : Element
int_element = record { size = 4; alignment = 4; type_tag = 11 }

abbrev float_element : Element
float_element = record { size = 4; alignment = 4; type_tag = 12 }

create-validate_mapping_example :
    (f : Format) × (c : Fixed ℕ) × (create 0 int_element 3 ≡ inr (f, c))
    × (c.ring.capacity ≡ 3)
    × ((i : ℕ) → i < 3 → get_elem? c.ring.slots i ≡ some (record { sequence = i; storage = 0 }))
    × (validate_mapping float_element f 704
        ≡ (if (f.mapping_size == 704) && true && false then inr 3 else inl abi_mismatch))
create-validate_mapping_example =
    create-validate_mapping 0 int_element float_element 3 704 (omega arith) (omega arith) refl
