-- ===== src/Shared/Outbox/Delivery.antt =====
-- What `flush` delivers, and what a publish that overlaps a flush loses (shared/src/outbox.ts).
use mathlib.Core.List.{append_assoc, append-nil}
use native.Mathlib.Nat.{add-zero}
use nexus_infra.Prelude.{
  ℕ, ◌+◌, ◌≤◌, ◌≡◌, ◌≢◌, refl, sym, ap, ◌∙◌, ◌⊎◌, inl, inr, true, false, List, [], ◌∷◌, ◌++◌, arith,
  length,
}
use nexus_infra.Shared.Outbox.{
  Message, QueuedEvent, Outbox, Answer, accepted, refused, threw, shift, enqueue, attempt, drain,
  flush, behind_backlog, publish,
}
use nexus_infra.Shared.Outbox.Queue.{messages}

module _ {E : Type 0} (publisher : ℕ → Message E → Answer) where
  -- `n` events were delivered, in order; what is left begins with one that the publisher did not
  -- take when it was tried last.
  pub record Delivers (q : List (QueuedEvent E)) (o : Outbox E) (n : ℕ) (o' : Outbox E)
      : Type 0 where
    pub taken : List (QueuedEvent E)
    pub split : q ≡ taken ++ o'.queue
    pub count : length taken ≡ n
    pub sent : o'.sent ≡ o.sent ++ messages taken
    pub stopped :
        (o'.queue ≡ [])
        ⊎ ((next : QueuedEvent E) × (rest : List (QueuedEvent E)) × (o'.queue ≡ next ∷ rest)
            × (publisher (o.calls + n) next.message ≢ accepted))

  attempt-answer :
      (m : Message E) (o : Outbox E)
      → ((attempt publisher m o)
          ≡ (true, record o { calls = o.calls + 1; sent = o.sent ++ m ∷ [] }))
        ⊎ ((attempt publisher m o ≡ (false, record o { calls = o.calls + 1 }))
            × (publisher o.calls m ≢ accepted))
  unfolding attempt
  attempt-answer m o = answer (publisher o.calls m) refl
    where
      answer :
          (a : Answer)
          → publisher o.calls m ≡ a
          → (attempt publisher m o
              ≡ (true, record o { calls = o.calls + 1; sent = o.sent ++ m ∷ [] }))
            ⊎ ((attempt publisher m o ≡ (false, record o { calls = o.calls + 1 }))
                × (publisher o.calls m ≢ accepted))
      answer accepted e = inl (rw (e, attempt))
      answer refused e = inr (rw (e, attempt), cc)
      answer threw e = inr (rw (e, attempt), cc)

  drain-Delivers :
      (q : List (QueuedEvent E)) (o : Outbox E)
      → Delivers q o (drain publisher q o).0 (drain publisher q o).1
  unfolding drain
  drain-Delivers [] o = record {
    taken = [];
    split = refl;
    count = refl;
    sent = sym (append-nil o.sent);
    stopped = inl refl;
  }
  drain-Delivers (next ∷ rest) o = elim (attempt-answer next.message o) [
    | inl got ↦ rw got (
        onward (
          drain-Delivers rest
            (record o { calls = o.calls + 1; sent = o.sent ++ next.message ∷ [] })))
    | inr (got, no_answer) ↦ rw got (record {
      taken = [];
      split = refl;
      count = refl;
      sent = sym (append-nil o.sent);
      stopped = inr (next, rest, refl, rw add-zero no_answer);
    })
  ]
    where
      onward :
          {n : ℕ} {o' : Outbox E}
          → Delivers rest
              (record o { calls = o.calls + 1; sent = o.sent ++ next.message ∷ [] })
              n
              o'
          → Delivers (next ∷ rest) o (n + 1) o'
      onward {n} d = record {
        taken = next ∷ d.taken;
        split = ap (◌∷◌ next) d.split;
        count = omega (arith, d.count);
        sent = d.sent ∙ append_assoc o.sent (next.message ∷ []) (messages d.taken);
        stopped = rw (later n) d.stopped;
      }
        where
          later : (n : ℕ) → o.calls + (n + 1) ≡ o.calls + 1 + n
          later n = omega arith

  -- A flush that does not overlap another delivers a prefix of the backlog, in order, and returns
  -- its length. It stops only at the end of the backlog or at an event that the publisher did not
  -- take.
  pub flush-Delivers :
      (o : Outbox E)
      → o.flushing ≡ false
      → Delivers o.queue o (flush publisher o).0 (flush publisher o).1
  unfolding flush
  flush-Delivers o idle =
      let d = drain-Delivers o.queue (record o { flushing = true }) in
      rw (idle, flush)
        (record {
          taken = d.taken;
          split = d.split;
          count = d.count;
          sent = d.sent;
          stopped = d.stopped;
        })

  publish_busy :
      (o : Outbox E) (next : QueuedEvent E) (rest : List (QueuedEvent E)) (m : Message E) (now : ℕ)
      → o.flushing ≡ true
      → o.queue ≡ next ∷ rest
      → publish publisher m now o ≡ (false, enqueue (record { message = m; enqueued_at = now }) o)
  unfolding publish behind_backlog flush
  publish_busy o next rest m now busy q = ground arith

  enqueue_full :
      (next : QueuedEvent E) (rest : List (QueuedEvent E)) (event : QueuedEvent E) (o : Outbox E)
      → o.queue ≡ next ∷ rest
      → o.capacity ≤ length o.queue
      → enqueue event o ≡ record o { queue = rest ++ event ∷ []; dropped = o.dropped + 1 }
  unfolding enqueue
  enqueue_full next rest event o q full = ground arith

  -- While a flush waits for the publisher's answer about `next`, `publish` may run. When the answer
  -- is `true` the flush takes the head off the queue, whatever stands there by then.
  pub resume : QueuedEvent E → Outbox E → Outbox E
  resume next o = record o {
    calls = o.calls + 1;
    sent = o.sent ++ next.message ∷ [];
    queue = shift o.queue;
  }

  -- If an event is published at full capacity while the head of the queue is being delivered, the
  -- head is evicted and counted as dropped though it is delivered, and the event behind it
  -- vanishes: it is neither sent nor held.
  pub overlap_loses :
      (o : Outbox E) (next lost : QueuedEvent E) (rest kept : List (QueuedEvent E)) (m : Message E)
      (now : ℕ)
      → o.flushing ≡ true
      → o.queue ≡ next ∷ rest
      → o.capacity ≤ length o.queue
      → rest ++ record { message = m; enqueued_at = now } ∷ [] ≡ lost ∷ kept
      → let o' = resume next (publish publisher m now o).1 in
        (o'.queue ≡ kept) × (o'.sent ≡ o.sent ++ next.message ∷ []) × (o'.dropped ≡ o.dropped + 1)
  unfolding resume
  overlap_loses o next lost rest kept m now busy q full e =
      rw (publish_busy o next rest m now busy q) (
        rw (enqueue_full next rest (record { message = m; enqueued_at = now }) o q full)
          (ap shift e, refl, refl))
