-- ===== src/Managed/Calls/Holds.antt =====
-- When a world of clients holds a bounded queue.
use shmchan.Common.{ℕ, ◌+◌, ◌-◌, ◌<◌, ◌≡◌, Bool, false, arith, if◌then◌else◌}
use shmchan.Status.{ChannelStatus, u64_mod}
use shmchan.Managed.State.{
  ManagedMapping, max_size_of, capacity_of, operation_state, state_code, healthy, closed,
}
use shmchan.Managed.Queue.{contents}
use shmchan.Managed.Invariant.{IsValid, IsRecoverable}
use shmchan.Managed.Fifo.{Reply, Fifo}
use shmchan.Managed.Calls.{World}

-- The world holds the queue `q`, and has sequences for `budget` more sends.
pub record Holds (capacity max budget : ℕ) (w : World) (q : Fifo) : Type 0 where
  pub recoverable : IsRecoverable w.mapping
  pub valid : w.orphaned ≡ false → IsValid w.mapping
  pub items : contents w.mapping ≡ q.items
  pub state : w.mapping.header.state ≡ (if q.is_open then state_code healthy else state_code closed)
  pub slots : capacity_of w.mapping ≡ capacity
  pub largest : max_size_of w.mapping ≡ max
  pub sequences : w.mapping.header.next_sequence + budget < u64_mod - 1

pub operation_state-is_open :
    (m : ManagedMapping) (b : Bool)
    → m.header.state ≡ (if b then state_code healthy else state_code closed)
    → operation_state m ≡ (if b then ChannelStatus.success else ChannelStatus.closed)
unfolding operation_state
operation_state-is_open m b e = ground arith

module _ (capacity max : ℕ) where
  -- The same reply, and again a world that holds the queue.
  abbrev pub Matches : ℕ → Reply × World → Reply × Fifo → Type 0
  Matches budget (r, w) (r', q) = (r ≡ r') × Holds capacity max budget w q

  pub matches :
      (budget : ℕ) {t t' : Reply × World} {a a' : Reply × Fifo}
      → t ≡ t'
      → a ≡ a'
      → Matches budget t' a'
      → Matches budget t a
  matches budget e f h = rw (e, f) h

  pub make_world :
      (budget : ℕ) (m : ManagedMapping) (orphaned : Bool) (q : Fifo)
      → IsValid m
      → contents m ≡ q.items
      → m.header.state ≡ (if q.is_open then state_code healthy else state_code closed)
      → capacity_of m ≡ capacity
      → max_size_of m ≡ max
      → m.header.next_sequence + budget < u64_mod - 1
      → Holds capacity max budget (record { mapping = m; orphaned = orphaned }) q
  make_world budget m orphaned q v items state slots largest sequences = record {
    recoverable = v.recoverable;
    valid = λ _. v;
    items = items;
    state = state;
    slots = slots;
    largest = largest;
    sequences = sequences;
  }
