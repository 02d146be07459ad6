-- ===== src/Tests/Serialized.antt =====
-- A run of typed calls on a new ring.
use shmchan.Common.{◌≡◌, refl, true, List, [], ◌∷◌, arith}
use shmchan.Status.{Bytes}
use shmchan.Serialized.{string_codec}
use shmchan.Serialized.Typed.{Call, put, get, shut, run, specified}
use shmchan.Serialized.Typed.Refine.{run-specified}
use shmchan.Tests.ByteChannel.{new_ring}

abbrev texts : List (Call Bytes)
texts = put (7 ∷ 8 ∷ []) ∷ put (5 ∷ []) ∷ put (6 ∷ []) ∷ get ∷ shut ∷ get ∷ get ∷ put [] ∷ []

run-specified_example :
    run string_codec new_ring texts
    ≡ specified string_codec 128 (record { items = []; is_open = true }) texts
run-specified_example =
    run-specified string_codec 128 (λ value. refl) texts new_ring
      (record { items = []; is_open = true })
      (record {
        ring = record {
          some_room = omega arith;
          whole = refl;
          bounded = omega arith;
          filled = omega arith;
          aligned = refl;
          reclaimed = refl;
          chain = refl;
          within = omega arith;
          no_wrap = omega arith;
        };
        size = refl;
        word = refl;
      })
