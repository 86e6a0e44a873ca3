-- ===== src/Shared/Outbox.antt =====
-- The publish outbox, shared/src/outbox.ts: `PublishOutbox` with the broker that it publishes to.
pub mod Queue
pub mod Order
pub mod Delivery
mod Tests
use nexus_infra.Prelude.{
  ℕ, ◌+◌, String, Bool, true, false, Option, List, [], ◌∷◌, ◌++◌, leb, max, if◌then◌else◌, or_else,
  length, is_empty,
}

pub record Message (E : Type 0) : Type 0 where
  pub routing_key : String
  pub envelope : E

pub record QueuedEvent (E : Type 0) : Type 0 where
  pub message : Message E
  pub enqueued_at : ℕ

-- What one call of the injected publisher does: it returns true, returns false, or throws.
pub data Answer : Type 0 where
  accepted refused threw : Answer

-- The fields of the class, with the calls made of the publisher so far and the messages that it
-- accepted, oldest first.
pub record Outbox (E : Type 0) : Type 0 where
  pub queue : List (QueuedEvent E)
  pub dropped : ℕ
  pub flushing : Bool
  pub capacity : ℕ
  pub calls : ℕ
  pub sent : List (Message E)

abbrev default_capacity : ℕ
default_capacity = 500

-- The constructor; `capacity` is an optional setting.
pub create : (E : Type 0) → Option ℕ → Outbox E
create E capacity = record {
  queue = [];
  dropped = 0;
  flushing = false;
  capacity = max 1 (or_else capacity default_capacity);
  calls = 0;
  sent = [];
}

abbrev pub pending : {E : Type 0} → Outbox E → ℕ
pending o = length o.queue

-- `queue.shift()`
abbrev pub shift {ℓ} : {A : Type ℓ} → List A → List A
shift [] = []
shift (x ∷ xs) = xs

-- At capacity the oldest event is evicted and counted.
pub enqueue : {E : Type 0} → QueuedEvent E → Outbox E → Outbox E
enqueue event o =
    if leb o.capacity (length o.queue)
    then record o { queue = shift o.queue ++ event ∷ []; dropped = o.dropped + 1 }
    else record o { queue = o.queue ++ event ∷ [] }

-- The publisher is not part of the file: its answer depends on how often it was called before and
-- on the message.
module _ {E : Type 0} (publisher : ℕ → Message E → Answer) where
  -- A thrown error counts as `false`.
  pub attempt : Message E → Outbox E → Bool × Outbox E
  attempt m o = elim (publisher o.calls m) [
    | accepted ↦ (true, record o { calls = o.calls + 1; sent = o.sent ++ m ∷ [] })
    | refused ↦ (false, record o { calls = o.calls + 1 })
    | threw ↦ (false, record o { calls = o.calls + 1 })
  ]

  -- The loop of `flush` over the queue: it stops at the first failure.
  pub drain : List (QueuedEvent E) → Outbox E → ℕ × Outbox E
  unfolding attempt
  drain [] o = (0, record o { queue = [] })
  drain (next ∷ rest) o =
      let (delivered, o') = attempt next.message o in
      let later = drain rest o' in
      if delivered then (later.0 + 1, later.1) else (0, record o' { queue = next ∷ rest })

  pub flush : Outbox E → ℕ × Outbox E
  unfolding drain
  flush o =
      let (delivered, o') = drain o.queue (record o { flushing = true }) in
      if o.flushing then (0, o) else (delivered, record o' { flushing = false })

  -- The backlog is empty: this event is sent, and queued if that fails.
  pub send : Message E → ℕ → Outbox E → Bool × Outbox E
  unfolding attempt enqueue
  send m now o =
      let (delivered, o') = attempt m o in
      if delivered
      then (true, o')
      else (false, enqueue (record { message = m; enqueued_at = now }) o')

  -- The rest of `publish`, once the backlog was drained as far as the broker let it.
  behind_backlog : Message E → ℕ → Outbox E → Bool × Outbox E
  unfolding send enqueue
  behind_backlog m now o =
      if is_empty o.queue
      then send m now o
      else (false, enqueue (record { message = m; enqueued_at = now }) o)

  pub publish : Message E → ℕ → Outbox E → Bool × Outbox E
  unfolding behind_backlog flush
  publish m now o = behind_backlog m now (if is_empty o.queue then o else (flush o).1)

-- One use of the outbox: a publish at a time, or a run of the periodic flusher.
pub data Use (E : Type 0) : Type 0 where
  publishes : Message E → ℕ → Use E
  flushes : Use E

module _ {E : Type 0} (publisher : ℕ → Message E → Answer) where
  unfoldable pub step : Outbox E → Use E → Outbox E
  unfolding publish flush
  step o (publishes m now) = (publish publisher m now o).1
  step o flushes = (flush publisher o).1

  unfoldable pub run : Outbox E → List (Use E) → Outbox E
  unfolding step
  run o [] = o
  run o (u ∷ us) = run (step o u) us
