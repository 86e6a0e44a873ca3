-- ===== src/Shared/Outbox/Order.antt =====
-- Order, loss and bounds of the publish outbox, shared/src/outbox.ts.
use mathlib.Core.List.{append_assoc, append-nil}
use mathlib.Core.List.Sublist as Sub
use nexus_infra.Prelude.{
  ℕ, ◌+◌, ◌≡◌, refl, ap, sym, ◌∙◌, ◌⊎◌, inl, inr, true, false, List, [], ◌∷◌, ◌++◌, Option, arith,
  length,
}
use nexus_infra.Shared.Outbox.{
  Message, QueuedEvent, Outbox, Answer, create, attempt, drain, flush, send, behind_backlog,
  publish, Use, publishes, flushes, step, run,
}
use nexus_infra.Shared.Outbox.Queue.{
  Drains, past_empty, length-snoc, is_empty-cases, create-Tracks, messages, line, Tracks,
  enqueue-Tracks,
}

module _ {E : Type 0} (publisher : ℕ → Message E → Answer) where
  attempt-cases :
      (m : Message E) (o : Outbox E)
      → (attempt publisher m o ≡ (true, record o { calls = o.calls + 1; sent = o.sent ++ m ∷ [] }))
        ⊎ (attempt publisher m o ≡ (false, record o { calls = o.calls + 1 }))
  unfolding attempt
  attempt-cases m o = ground arith

  drain-Drains : (q : List (QueuedEvent E)) (o : Outbox E) → Drains q o (drain publisher q o).1
  unfolding drain
  drain-Drains [] o = ground arith
  drain-Drains (next ∷ rest) o = elim (attempt-cases next.message o) [
    | inl taken ↦ rw taken (
        pass (
          drain-Drains rest (record o { calls = o.calls + 1; sent = o.sent ++ next.message ∷ [] })))
    | inr left ↦ rw left (ground arith)
  ]
    where
      pass :
          {o' : Outbox E}
          → Drains rest (record o { calls = o.calls + 1; sent = o.sent ++ next.message ∷ [] }) o'
          → Drains (next ∷ rest) o o'
      pass d = record {
        same_line = d.same_line ∙ append_assoc o.sent (next.message ∷ []) (messages rest);
        same_dropped = d.same_dropped;
        same_capacity = d.same_capacity;
        shorter = omega (arith, d.shorter);
        same_flag = d.same_flag;
      }

  flush-Tracks : {p : List (Message E)} (o : Outbox E) → Tracks p o → Tracks p (flush publisher o).1
  unfolding flush
  flush-Tracks {p} o t =
      let d = drain-Drains o.queue (record o { flushing = true }) in
      rw (t.idle, flush)
        (record {
          ordered = rw d.same_line t.ordered;
          counted = rw (d.same_line, d.same_dropped) t.counted;
          exact = λ e. d.same_line ∙ t.exact (sym d.same_dropped ∙ e);
          bounded = omega (arith, d.same_capacity, d.shorter, t.bounded);
          positive = omega (arith, d.same_capacity, t.positive);
          idle = refl;
        })

  send-Tracks :
      {p : List (Message E)} (m : Message E) (now : ℕ) (o : Outbox E)
      → o.queue ≡ []
      → Tracks p o
      → Tracks (p ++ m ∷ []) (send publisher m now o).1
  unfolding send
  send-Tracks {p} m now o e t = elim (attempt-cases m o) [
    | inl taken ↦
        rw (taken, send)
          (record {
            ordered = rw (past_empty o.sent o.queue m e) (Sub.append t.ordered (Sub.refl _));
            counted = omega (
              arith,
              ap length (past_empty o.sent o.queue m e),
              length-snoc (line o) m,
              length-snoc p m,
              t.counted,
            );
            exact = λ z. past_empty o.sent o.queue m e ∙ ap (λ l. l ++ m ∷ []) (t.exact z);
            bounded = t.bounded;
            positive = t.positive;
            idle = t.idle;
          })
    | inr left ↦
        rw (left, send)
          (enqueue-Tracks (record { message = m; enqueued_at = now })
            (record o { calls = o.calls + 1 })
            (record {
              ordered = t.ordered;
              counted = t.counted;
              exact = t.exact;
              bounded = t.bounded;
              positive = t.positive;
              idle = t.idle;
            }))
  ]

  behind_backlog-Tracks :
      {p : List (Message E)} (m : Message E) (now : ℕ) (o : Outbox E)
      → Tracks p o
      → Tracks (p ++ m ∷ []) (behind_backlog publisher m now o).1
  unfolding behind_backlog
  behind_backlog-Tracks {p} m now o t = elim (is_empty-cases o.queue) [
    | inl (e, empty) ↦ rw (empty, behind_backlog) (send-Tracks m now o e t)
    | inr waiting ↦
        rw (waiting, behind_backlog)
          (enqueue-Tracks (record { message = m; enqueued_at = now }) o t)
  ]

  publish-Tracks :
      {p : List (Message E)} (m : Message E) (now : ℕ) (o : Outbox E)
      → Tracks p o
      → Tracks (p ++ m ∷ []) (publish publisher m now o).1
  unfolding publish
  publish-Tracks m now o t = elim (is_empty-cases o.queue) [
    | inl (e, empty) ↦ rw (empty, publish) (behind_backlog-Tracks m now o t)
    | inr waiting ↦
        rw (waiting, publish) (behind_backlog-Tracks m now (flush publisher o).1 (flush-Tracks o t))
  ]

-- The messages that a sequence of uses publishes.
abbrev pub published : {E : Type 0} → List (Use E) → List (Message E)
published [] = []
published (publishes m now ∷ us) = m ∷ published us
published (flushes ∷ us) = published us

module _ {E : Type 0} (publisher : ℕ → Message E → Answer) where
  run-Tracks :
      (us : List (Use E)) (p : List (Message E)) (o : Outbox E)
      → Tracks p o
      → Tracks (p ++ published us) (run publisher o us)
  unfolding run step
  run-Tracks [] p o t = rw (append-nil p) t
  run-Tracks (publishes m now ∷ us) p o t = rw (← append_assoc p (m ∷ []) (published us)) (
      run-Tracks us (p ++ m ∷ []) (publish publisher m now o).1
        (publish-Tracks publisher m now o t))
  run-Tracks (flushes ∷ us) p o t =
      run-Tracks us p (flush publisher o).1 (flush-Tracks publisher o t)

  -- For uses that do not overlap, whatever the publisher answers: the delivered messages followed
  -- by the held ones are a subsequence of the published ones, with exactly `dropped` missing; they
  -- are the published ones in order when nothing was dropped; no more are held than the capacity.
  pub run-create-Tracks :
      (capacity : Option ℕ) (us : List (Use E))
      → Tracks (published us) (run publisher (create E capacity) us)
  run-create-Tracks capacity us = run-Tracks us [] (create E capacity) (create-Tracks E capacity)
