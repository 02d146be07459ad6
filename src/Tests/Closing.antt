-- ===== src/Tests/Closing.antt =====
-- A channel of two slots that is closed with nothing in it, and a receiver.
use shmchan.Common.{ℕ, ◌<◌, ◌≡◌, ◌⊎◌, Bool, some, arith, refl}
use shmchan.Channel.Sender.{channel_closed_bit, word_of}
use shmchan.Channel.Threads.{
  Memory, update, idle, receiving, see_empty, sending, saw_free, claimed, filled, published, claim,
  fill, store_sequence, signal_readers, start_send, see_free, win_send, copy_in, publish, end_send,
}
use shmchan.Channel.Threads.Invariant.{claim_of, receipt_of}
use shmchan.Channel.Closing.{
  Task, registering, inside, last_try, last_look, told_closed, load_word, register, attempt, leave,
  first_empty, time_out, begin_last, last_empty, say_closed, outside, first, checking, second,
  closing_readers, World, begin_first, see_done, begin_second, second_empty, close_open, pick,
  Reach, start, later, new_world,
}
use shmchan.Channel.Closing.Count.{total}
use shmchan.Channel.Closing.Invariant.{pc_of, counts}
use shmchan.Channel.Closing.Drained.{word_counts, drained, closed_for_good}

abbrev blank : ℕ → ℕ
blank _ = 0

abbrev moved : ℕ → World ℕ → ℕ → Task ℕ → World ℕ
moved i w word t = record { mem = w.mem; sender_state = word; task = update w.task i t }

abbrev new : World ℕ
new = new_world 2 blank

abbrev w1 : World ℕ
w1 = moved 1 new channel_closed_bit closing_readers

abbrev w2 : World ℕ
w2 = moved 0 w1 channel_closed_bit (first (receiving 0))

abbrev w3 : World ℕ
w3 = moved 0 w2 channel_closed_bit checking

abbrev w4 : World ℕ
w4 = moved 0 w3 channel_closed_bit (second idle)

abbrev w5 : World ℕ
w5 = moved 0 w4 channel_closed_bit (second (receiving 0))

abbrev w6 : World ℕ
w6 = moved 0 w5 channel_closed_bit told_closed

w5-Reach : Reach 2 2 blank w5
w5-Reach =
    later {x = w5}
      (later {x = w4}
        (later {x = w3}
          (later {x = w2}
            (later {x = w1} start (pick 1 (omega arith) (close_open refl)) (omega arith))
            (pick 0 (omega arith) begin_first) (omega arith))
          (pick 0 (omega arith) (first_empty (see_empty refl) refl)) (omega arith))
        (pick 0 (omega arith) (see_done refl)) (omega arith))
      (pick 0 (omega arith) begin_second) (omega arith)

word_counts_example :
    (is_shut : Bool) × (channel_closed_bit ≡ word_of is_shut (total counts 2 w5.task))
    × (total counts 2 w5.task < 2147483648)
    × ((j p : ℕ) → claim_of (pc_of (w5.task j)) ≡ some p → (j < 2) × (counts (w5.task j) ≡ 1))
word_counts_example = word_counts 2 2 blank (omega arith) (omega arith) w5-Reach

drained_example :
    (w5.sender_state ≡ channel_closed_bit)
    × ((w5.task 0 ≡ last_look)
        ⊎ ((w5.mem.dequeue_position ≡ w5.mem.enqueue_position)
            × ((t : ℕ)
                → t < 0
                → (w5.mem.got t ≡ some (w5.mem.sent t))
                  ⊎ ((j : ℕ) × (receipt_of (pc_of (w5.task j)) ≡ some t)))))
drained_example =
    drained 2 2 blank (omega arith) (omega arith) w5-Reach 0 (second_empty (see_empty refl) refl)

closed_for_good_example :
    (w6.sender_state ≡ channel_closed_bit) × (w6.mem.enqueue_position ≡ w5.mem.enqueue_position)
closed_for_good_example =
    closed_for_good 2 2 blank (omega arith) (omega arith) {x = w6} w5-Reach refl
      (pick 0 (omega arith) (second_empty (see_empty refl) refl))

-- A receiver whose wait has timed out finds the ring empty; then a sender publishes 7 and leaves, and
-- the channel is closed; the receiver looks at the word and says `closed`, and 7 is still there.
abbrev onto : ℕ → World ℕ → Memory ℕ → ℕ → Task ℕ → World ℕ
onto i w m word t = record { mem = m; sender_state = word; task = update w.task i t }

abbrev l1 : World ℕ
l1 = onto 1 new new.mem 0 (first (receiving 0))

abbrev l2 : World ℕ
l2 = onto 1 l1 l1.mem 0 checking

abbrev l3 : World ℕ
l3 = onto 1 l2 l2.mem 0 (last_try idle)

abbrev l4 : World ℕ
l4 = onto 1 l3 l3.mem 0 (last_try (receiving 0))

abbrev l5 : World ℕ
l5 = onto 1 l4 l4.mem 0 last_look

abbrev l6 : World ℕ
l6 = onto 0 l5 l5.mem 0 (registering 0)

abbrev l7 : World ℕ
l7 = onto 0 l6 l6.mem 1 (inside idle)

abbrev l8 : World ℕ
l8 = onto 0 l7 l7.mem 1 (inside (sending 7 0))

abbrev l9 : World ℕ
l9 = onto 0 l8 l8.mem 1 (inside (saw_free 7 0))

abbrev l10 : World ℕ
l10 = onto 0 l9 (claim l9.mem 7 0) 1 (inside (claimed 7 0))

abbrev l11 : World ℕ
l11 = onto 0 l10 (fill l10.mem 7 0) 1 (inside (filled 7 0))

abbrev l12 : World ℕ
l12 = onto 0 l11 (store_sequence l11.mem 0 1) 1 (inside published)

abbrev l13 : World ℕ
l13 = onto 0 l12 (signal_readers l12.mem) 1 (inside idle)

abbrev l14 : World ℕ
l14 = onto 0 l13 l13.mem 0 outside

abbrev l15 : World ℕ
l15 = onto 0 l14 l14.mem channel_closed_bit closing_readers

abbrev l16 : World ℕ
l16 = onto 1 l15 l15.mem channel_closed_bit told_closed

timed_out-Reach : Reach 2 2 blank l5
timed_out-Reach =
    later {x = l5}
      (later {x = l4}
        (later {x = l3}
          (later {x = l2} (later {x = l1} start (pick 1 (omega arith) (begin_first)) (omega arith))
            (pick 1 (omega arith) (first_empty (see_empty refl) refl)) (omega arith))
          (pick 1 (omega arith) (time_out (λ e. omega arith))) (omega arith))
        (pick 1 (omega arith) (begin_last)) (omega arith))
      (pick 1 (omega arith) (last_empty (see_empty refl) refl)) (omega arith)

sending-Reach : Reach 2 2 blank l9
sending-Reach =
    later {x = l9}
      (later {x = l8}
        (later {x = l7}
          (later {x = l6} timed_out-Reach (pick 0 (omega arith) (load_word)) (omega arith))
          (pick 0 (omega arith) (register refl (λ e. omega arith) refl)) (omega arith))
        (pick 0 (omega arith) (attempt (start_send 7) refl)) (omega arith))
      (pick 0 (omega arith) (attempt (see_free refl) refl)) (omega arith)

sent-Reach : Reach 2 2 blank l13
sent-Reach =
    later {x = l13}
      (later {x = l12}
        (later {x = l11}
          (later {x = l10} sending-Reach (pick 0 (omega arith) (attempt (win_send refl) refl))
            (omega arith))
          (pick 0 (omega arith) (attempt copy_in refl)) (omega arith))
        (pick 0 (omega arith) (attempt publish refl)) (omega arith))
      (pick 0 (omega arith) (attempt end_send refl)) (omega arith)

late_close :
    Reach 2 2 blank l16
    × (l16.mem.enqueue_position ≡ 1)
    × (l16.mem.dequeue_position ≡ 0)
    × (l16.mem.storage 0 ≡ 7)
    × (l16.mem.sequence 0 ≡ 1)
late_close = (
  later {x = l16}
      (later {x = l15}
        (later {x = l14} sent-Reach (pick 0 (omega arith) (leave (λ e. omega arith))) (omega arith))
        (pick 0 (omega arith) (close_open refl)) (omega arith))
      (pick 1 (omega arith) (say_closed refl)) (omega arith),
  refl,
  refl,
  refl,
  refl,
)
