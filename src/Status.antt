-- ===== src/Status.antt =====
-- include/shmchan/channel.hpp: the status codes and the result type that all channels return, and
-- the constants of the shared words.
use shmchan.Common.{ℕ, ◌^◌, List, Option, none}

-- `enum class channel_status`
pub data ChannelStatus : Type 0 where
  success closed would_block timed_out message_too_large broken protocol_mismatch : ChannelStatus

-- `receive_result<T>`: a code, and a value exactly where something was received.
pub record ReceiveResult {ℓ} (A : Type ℓ) : Type ℓ where
  pub code : ChannelStatus
  pub value : Option A

-- `{code, std::nullopt}`
abbrev pub no_value {ℓ} : {A : Type ℓ} → ChannelStatus → ReceiveResult A
no_value c = record { code = c; value = none }

-- `enum class futex_wait_result`, and the exception that `futex_wait` throws on any other errno.
pub data FutexWaitResult : Type 0 where
  changed timed_out failed : FutexWaitResult

-- Bytes are only moved by the channels, so a byte is any number.
abbrev pub Bytes : Type 0
Bytes = List ℕ

abbrev pub u32_mod : ℕ
u32_mod = 2 ^ 32

abbrev pub u64_mod : ℕ
u64_mod = 2 ^ 64
