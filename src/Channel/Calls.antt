-- ===== src/Channel/Calls.antt =====
-- include/shmchan/channel.hpp: clients that take turns, each alone on the channel.
use shmchan.Common.{false, List, [], ◌∷◌}
use shmchan.Channel.Ring.{undisturbed}
use shmchan.Channel.Send.{Fixed, returned, threw, pending, faulted, Meeting, try_send, close}
use shmchan.Channel.Receive.{Visit, try_receive}
use shmchan.Channel.Queue.{Call, put, get, shut, Reply, status, got, done, nothing}

module _ {A : Type 0} where
  -- Nobody else does anything.
  abbrev pub calm : Meeting A
  calm = record {
    races = record { others = λ w. w; fails_weakly = false } ∷ [];
    entered = λ f. f;
    before_try = λ f. f;
    rounds = undisturbed ∷ [];
    after_full = λ f. f;
  }

  abbrev pub visit : Visit A
  visit = record {
    first = undisturbed ∷ [];
    between = λ f. f;
    before_second = λ f. f;
    second = undisturbed ∷ [];
  }

  -- One client's call.
  unfoldable pub turn : Fixed A → Call A → Reply A × Fixed A
  unfolding try_send try_receive close
  turn f (put x) = elim (try_send calm x f) [
    | returned s f' ↦ (status s, f')
    | threw f' ↦ (nothing, f')
    | pending ↦ (nothing, f)
    | faulted ↦ (nothing, f)
  ]
  turn f get = elim (try_receive visit f) [
    | returned r f' ↦ (got r, f')
    | threw f' ↦ (nothing, f')
    | pending ↦ (nothing, f)
    | faulted ↦ (nothing, f)
  ]
  turn f shut = let (d, f') = close f in (done d, f')

  unfoldable pub run : Fixed A → List (Call A) → List (Reply A)
  unfolding turn
  run f [] = []
  run f (call ∷ rest) = let (r, f') = turn f call in r ∷ run f' rest
