-- ===== src/ByteChannel/Calls.antt =====
-- include/shmchan/byte_channel.hpp: clients that take turns, each alone on the channel.
use shmchan.Common.{ℕ, ◌+◌, false, List, [], ◌∷◌}
use shmchan.Channel.Sender.{Race}
use shmchan.ByteChannel.State.{ByteRing}
use shmchan.ByteChannel.Chain.{size_of}
use shmchan.ByteChannel.Store.{undisturbed}
use shmchan.ByteChannel.Take.{alone}
use shmchan.ByteChannel.Send.{Meeting, returned, threw, pending, try_send, close}
use shmchan.ByteChannel.Receive.{Visit, try_receive}
use shmchan.ByteChannel.Queue.{Call, put, get, shut, Reply, status, got, done, nothing}

-- Nobody else does anything.
abbrev pub quiet : Race
quiet = record { others = λ w. w; fails_weakly = false }

abbrev pub calm : Meeting
calm = record {
  races = quiet ∷ [];
  entered = λ b. b;
  before_try = λ b. b;
  rounds = undisturbed ∷ [];
  after_full = λ b. b;
}

abbrev pub visit : Visit
visit = record { first = alone; between = λ b. b; second = alone }

-- One client's call.
unfoldable pub turn : ByteRing → Call → Reply × ByteRing
turn b (put x) = elim (try_send calm x b) [
  | returned s b' ↦ (status s, b')
  | threw b' ↦ (nothing, b')
  | pending ↦ (nothing, b)
]
turn b get = elim (try_receive visit b) [
  | returned r b' ↦ (got r, b')
  | threw b' ↦ (nothing, b')
  | pending ↦ (nothing, b)
]
turn b shut = let (d, b') = close b in (done d, b')

unfoldable pub run : ByteRing → List Call → List Reply
unfolding turn
run b [] = []
run b (c ∷ rest) = let (r, b') = turn b c in r ∷ run b' rest

-- The bytes of the records that the calls send at most.
abbrev pub bytes_of : List Call → ℕ
bytes_of [] = 0
bytes_of (put x ∷ rest) = bytes_of rest + size_of x
bytes_of (get ∷ rest) = bytes_of rest
bytes_of (shut ∷ rest) = bytes_of rest
