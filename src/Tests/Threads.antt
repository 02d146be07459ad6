-- ===== src/Tests/Threads.antt =====
-- Runs of threads on a ring of two slots.
use shmchan.Common.{ℕ, zero, suc, ◌+◌, ◌<◌, ◌≤◌, ◌≡◌, ◌≢◌, ◌⊎◌, none, some, arith, refl}
use shmchan.Channel.Threads.{
  Memory, Pc, update, see_empty, index, seen, idle, sending, saw_free, claimed, filled, published,
  receiving, saw_full, taken, copied, released, claim, fill, store_sequence, signal_readers, take,
  System, pick, Reach, start, later, init, start_send, see_free, win_send, copy_in, publish,
  end_send, start_receive, see_full, win_receive, copy_out, release,
}
use shmchan.Channel.Threads.Invariant.{claim_of, receipt_of}
use shmchan.Channel.Threads.Safety.{no_data_race, exactly_once, none_lost, refuses_when_empty}
use shmchan.Channel.Threads.Progress.{Alone, here, next, receives_alone, sends_alone}

abbrev moved : ℕ → System ℕ → Memory ℕ → Pc ℕ → System ℕ
moved i s m p = record { mem = m; pc = update s.pc i p }

abbrev blank : ℕ → ℕ
blank _ = 0

abbrev new : System ℕ
new = init 2 blank

-- Thread 0 sends 7, and is in its slot.
abbrev a1 : System ℕ
a1 = moved 0 new new.mem (sending 7 0)

abbrev a2 : System ℕ
a2 = moved 0 a1 a1.mem (saw_free 7 0)

abbrev a3 : System ℕ
a3 = moved 0 a2 (claim a2.mem 7 0) (claimed 7 0)

a3-Reach : Reach 2 blank a3
a3-Reach =
    later {t = a3}
      (later {t = a2} (later {t = a1} start (pick 0 (start_send 7)) (omega arith))
        (pick 0 (see_free refl)) (omega arith))
      (pick 0 (win_send refl)) (omega arith)

-- Thread 1 sends 8, and is in the other slot; thread 2 has come to send 9.
abbrev b1 : System ℕ
b1 = moved 1 a3 a3.mem (sending 8 1)

abbrev b2 : System ℕ
b2 = moved 1 b1 b1.mem (saw_free 8 1)

abbrev b3 : System ℕ
b3 = moved 1 b2 (claim b2.mem 8 1) (claimed 8 1)

abbrev b4 : System ℕ
b4 = moved 2 b3 b3.mem (sending 9 2)

b4-Reach : Reach 2 blank b4
b4-Reach =
    later {t = b4}
      (later {t = b3}
        (later {t = b2} (later {t = b1} a3-Reach (pick 1 (start_send 8)) (omega arith))
          (pick 1 (see_free refl)) (omega arith))
        (pick 1 (win_send refl)) (omega arith))
      (pick 2 (start_send 9)) (omega arith)

no_data_race_example : ◌≡◌ {A = ℕ} 1 1
no_data_race_example =
    no_data_race 2 blank (omega arith) (omega arith) b4-Reach 1 1 1 1 refl refl refl

-- Thread 0 sends 7 to its end.
abbrev c4 : System ℕ
c4 = moved 0 a3 (fill a3.mem 7 0) (filled 7 0)

abbrev c5 : System ℕ
c5 = moved 0 c4 (store_sequence c4.mem 0 1) published

abbrev c6 : System ℕ
c6 = moved 0 c5 (signal_readers c5.mem) idle

c6-Reach : Reach 2 blank c6
c6-Reach =
    later {t = c6}
      (later {t = c5} (later {t = c4} a3-Reach (pick 0 copy_in) (omega arith)) (pick 0 publish)
        (omega arith))
      (pick 0 end_send) (omega arith)

c6_quiet : (j : ℕ) → c6.pc j ≡ idle
c6_quiet zero = refl
c6_quiet (suc j) = ground arith

none_lost_example :
    ((t : ℕ) → t < 0 → c6.mem.got t ≡ some (c6.mem.sent t))
    × ((t : ℕ)
        → 0 ≤ t
        → t < 1
        → (seen c6.mem t ≡ t + 1) × (c6.mem.storage (index c6.mem t) ≡ c6.mem.sent t))
    × (1 ≤ 0 + 2)
none_lost_example = none_lost 2 blank (omega arith) (omega arith) c6-Reach c6_quiet

receives_alone_example :
    (m : Memory ℕ) × Alone c6.mem (saw_full 0) m idle
    × (m.got 0 ≡ some 7)
    × (m.dequeue_position ≡ 1)
receives_alone_example =
    receives_alone 2 blank (omega arith) (omega arith) c6-Reach (omega arith) nobody
      (next refl (see_full refl) here)
  where
    nobody : (j : ℕ) → claim_of (c6.pc j) ≢ some 0
    nobody j e = let quiet = c6_quiet j in ground arith

-- Thread 1 receives it, up to its return.
abbrev d1 : System ℕ
d1 = moved 1 c6 c6.mem (receiving 0)

abbrev d2 : System ℕ
d2 = moved 1 d1 d1.mem (saw_full 0)

abbrev d3 : System ℕ
d3 = moved 1 d2 (take d2.mem 0) (taken 0)

abbrev d4 : System ℕ
d4 = moved 1 d3 d3.mem (copied 7 0)

abbrev d5 : System ℕ
d5 = moved 1 d4 (store_sequence d4.mem 0 2) (released 7 0)

d5-Reach : Reach 2 blank d5
d5-Reach =
    later {t = d5}
      (later {t = d4}
        (later {t = d3}
          (later {t = d2} (later {t = d1} c6-Reach (pick 1 start_receive) (omega arith))
            (pick 1 (see_full refl)) (omega arith))
          (pick 1 (win_receive refl)) (omega arith))
        (pick 1 copy_out) (omega arith))
      (pick 1 release) (omega arith)

exactly_once_example :
    ((j p v : ℕ) → d5.pc j ≡ released v p → (v ≡ d5.mem.sent p) × (d5.mem.got p ≡ none))
    × ((t : ℕ)
        → t < 1
        → (d5.mem.got t ≡ some (d5.mem.sent t)) ⊎ ((j : ℕ) × (receipt_of (d5.pc j) ≡ some t)))
    × ((t v : ℕ) → d5.mem.got t ≡ some v → (t < 1) × (v ≡ d5.mem.sent t))
exactly_once_example = exactly_once 2 blank (omega arith) (omega arith) d5-Reach

-- A receiver finds the new ring empty, and a sender does not find it full.
abbrev waiting : System ℕ
waiting = moved 1 new new.mem (receiving 0)

refuses_when_empty_example : (◌≡◌ {A = ℕ} 0 0) ⊎ ((j : ℕ) × (claim_of (waiting.pc j) ≡ some 0))
refuses_when_empty_example =
    refuses_when_empty 2 blank (omega arith) (omega arith)
      (later {t = waiting} start (pick 1 start_receive) (omega arith)) 1 (see_empty refl) refl

sends_alone_example :
    (m : Memory ℕ) × Alone (claim new.mem 7 0) (claimed 7 0) m idle
    × (seen m 0 ≡ 1)
    × (m.storage (index m 0) ≡ 7)
    × (m.enqueue_position ≡ 1)
sends_alone_example =
    sends_alone 2 blank (omega arith) (omega arith) start 7 (omega arith) (λ j t e. cc)
      (next refl (see_free refl) (next refl (win_send refl) here))
