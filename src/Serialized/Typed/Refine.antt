-- ===== src/Serialized/Typed/Refine.antt =====
-- include/shmchan/serialized_channel.hpp: the typed calls against the typed queue.
use mathlib.Core.List.{map-append}
use shmchan.Common.{
  ℕ, ◌+◌, ◌-◌, ◌≡◌, refl, sym, ap, ap₂, ◌∙◌, subst, Bool, inl, inr, true, false, not, List, [], ◌∷◌,
  map, some, none, Option, Option-cases, ltb, if◌then◌else◌, length,
}
use shmchan.Status.{ChannelStatus, ReceiveResult, no_value, Bytes}
use shmchan.ByteChannel.State.{ByteRing}
use shmchan.ByteChannel.Chain.{size_of, total_of}
use shmchan.ByteChannel.Send.{Outcome, returned, threw, pending}
use shmchan.ByteChannel.Receive
use shmchan.ByteChannel.Send
use shmchan.ByteChannel.Queue
use shmchan.ByteChannel.Queue.{Queue, offer, poll}
use shmchan.ByteChannel.Calls
use shmchan.ByteChannel.Calls.{calm, visit, bytes_of}
use shmchan.ByteChannel.Refine.{Represents}
use shmchan.ByteChannel.Refine.Runs.{turn-Matches, bytes_of-cons}
use shmchan.Serialized.{Codec, decode_result, decoded, try_send, try_receive}
use shmchan.Serialized.Typed.{
  Call, put, get, shut, Reply, status, got, done, nothing, TypedQueue, turn, run, answer, specified,
}

module _ {T : Type 0} (c : Codec T) where
  -- The calls, the queue and the replies of the byte channel underneath.
  abbrev pub raw : Call T → Queue.Call
  raw (put value) = Queue.Call.put (c.encode value)
  raw get = Queue.Call.get
  raw shut = Queue.Call.shut

  abbrev pub encoded : TypedQueue T → Queue
  encoded q = record { items = map c.encode q.items; is_open = q.is_open }

  abbrev lift_decoded : Option T → Reply T
  lift_decoded none = nothing
  lift_decoded (some value) = got (record { code = ChannelStatus.success; value = some value })

  abbrev lift_value : ChannelStatus → Option Bytes → Reply T
  lift_value code none = got (no_value code)
  lift_value code (some bytes) = lift_decoded (c.decode bytes)

  abbrev lift : Queue.Reply → Reply T
  lift (Queue.Reply.status s) = status s
  lift (Queue.Reply.got r) = lift_value r.code r.value
  lift (Queue.Reply.done d) = done d
  lift Queue.Reply.nothing = nothing

  -- A reply and the ring after it, lifted.
  abbrev lifted : Queue.Reply × ByteRing → Reply T × ByteRing
  lifted p = (lift p.0, p.1)

  put_lift :
      (b : ByteRing) (o : Outcome ChannelStatus)
      → (let p : Reply T × ByteRing = elim o [
        | returned s b' ↦ (status s, b')
        | threw b' ↦ (nothing, b')
        | pending ↦ (nothing, b)
      ] in
          let r : Queue.Reply × ByteRing = elim o [
            | returned s b' ↦ (Queue.Reply.status s, b')
            | threw b' ↦ (Queue.Reply.nothing, b')
            | pending ↦ (Queue.Reply.nothing, b)
          ] in
          p ≡ lifted r)
  put_lift b (returned s b') = refl
  put_lift b (threw b') = refl
  put_lift b pending = refl

  get_lift :
      (b : ByteRing) (o : Outcome (ReceiveResult Bytes))
      → (let p : Reply T × ByteRing = elim (decoded c o) [
        | returned r b' ↦ (got r, b')
        | threw b' ↦ (nothing, b')
        | pending ↦ (nothing, b)
      ] in
          let r : Queue.Reply × ByteRing = elim o [
            | returned r b' ↦ (Queue.Reply.got r, b')
            | threw b' ↦ (Queue.Reply.nothing, b')
            | pending ↦ (Queue.Reply.nothing, b)
          ] in
          p ≡ lifted r)
  unfolding decoded decode_result
  get_lift b (returned r b') = elim (Option-cases r.value) [
    | inl e ↦ rw (e)
    | inr (bytes, e) ↦ elim (Option-cases (c.decode bytes)) [
      | inl e' ↦ rw (e) (rw (e') refl)
      | inr (value, e') ↦ rw (e) (rw (e') refl)
    ]
  ]
  get_lift b (threw b') = refl
  get_lift b pending = refl

  typed-turn : (b : ByteRing) (call : Call T) → turn c b call ≡ lifted (Calls.turn b (raw call))
  unfolding turn Calls.turn try_send try_receive
  typed-turn b (put value) = put_lift b (Send.try_send calm (c.encode value) b)
  typed-turn b get = get_lift b (Receive.try_receive visit b)
  typed-turn b shut = refl

  module _ (capacity : ℕ) where
    Offers : Reply T × TypedQueue T → ChannelStatus × Queue → Type 0
    Offers p o = (p.0 ≡ status o.0) × (encoded p.1 ≡ o.1)

    Offers-if :
        (t : Bool) (p p' : Reply T × TypedQueue T) (o o' : ChannelStatus × Queue)
        → Offers p o
        → Offers p' o'
        → Offers (if t then p else p') (if t then o else o')
    unfolding Offers
    Offers-if true p p' o o' h h' = h
    Offers-if false p p' o o' h h' = h'

    put-Offers :
        (q : TypedQueue T) (value : T)
        → Offers (answer c capacity q (put value)) (offer capacity (encoded q) (c.encode value))
    unfolding Offers answer offer
    put-Offers q value =
        Offers-if (ltb (capacity - 32) (length (c.encode value))) _ _ _ _ (refl, refl)
          (Offers-if (not q.is_open) _ _ _ _ (refl, refl)
            (Offers-if (ltb capacity (total_of (map c.encode q.items) + size_of (c.encode value))) _
              _ _ _ (refl, refl)
              (
                refl,
                ap (λ xs. record { items = xs; is_open = q.is_open })
                    (map-append c.encode q.items (value ∷ [])),
              )))

    -- A codec that reads back what it writes.
    module _ (roundtrip : (value : T) → c.decode (c.encode value) ≡ some value) where
      Answers : Reply T × TypedQueue T → Queue.Reply × Queue → Type 0
      Answers p r = (p.0 ≡ lift r.0) × (encoded p.1 ≡ r.1)

      get-Answers :
          (items : List T) (is_open : Bool)
          → (let q : TypedQueue T = record { items = items; is_open = is_open } in
              Answers (answer c capacity q get) (Queue.answer capacity (encoded q) Queue.Call.get))
      unfolding Answers answer Queue.answer poll
      get-Answers [] is_open = (refl, refl)
      get-Answers (value ∷ rest) is_open = (rw (roundtrip) refl, refl)

      answer-Answers :
          (q : TypedQueue T) (call : Call T)
          → Answers (answer c capacity q call) (Queue.answer capacity (encoded q) (raw call))
      unfolding Answers Offers answer Queue.answer poll
      answer-Answers q (put value) = put-Offers q value
      answer-Answers q get = get-Answers q.items q.is_open
      answer-Answers q shut = (refl, refl)

      -- For a codec whose `decode` gives back what `encode` was given, and a ring that nobody is
      -- using and that represents the encodings of a queue of typed values, with positions left
      -- for the records that the calls may send: the replies of the typed `try_send`,
      -- `try_receive` and `close`, called one after the other in any order, are those of the queue
      -- of typed values.
      pub run-specified :
          (calls : List (Call T)) (b : ByteRing) (q : TypedQueue T)
          → Represents capacity (bytes_of (map raw calls)) b (encoded q)
          → run c b calls ≡ specified c capacity q calls
      unfolding run specified Answers
      run-specified [] b q h = refl
      run-specified (call ∷ rest) b q h =
          let (r, h') = turn-Matches capacity (bytes_of (map raw rest)) (raw call) b (encoded q) (
            subst (λ n. Represents capacity n b (encoded q))
              (bytes_of-cons (raw call) (map raw rest)) h) in
          let (a, e) = answer-Answers q call in
          let t = typed-turn b call in
          ap₂ ◌∷◌ (ap (λ p. p.0) t ∙ ap lift r ∙ sym a) (
            run-specified rest (turn c b call).1 (answer c capacity q call).1 (
              subst
                (λ n.
                  Represents capacity (bytes_of (map raw rest)) n
                    (encoded (answer c capacity q call).1))
                (sym (ap (λ p. p.1) t))
                (subst (Represents capacity (bytes_of (map raw rest)) (Calls.turn b (raw call)).1)
                  (sym e) h')))
