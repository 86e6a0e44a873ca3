-- ===== src/Shared/Outbox/Tests.antt =====
-- Tests and instances of the theorems about the publish outbox.
use nexus_infra.Prelude.{ℕ, ◌≡◌, refl, false, true, some, List, [], ◌∷◌, ltb, if◌then◌else◌, arith}
use nexus_infra.Shared.Outbox.{
  Message, QueuedEvent, Outbox, Answer, accepted, refused, create, Use, publishes, flushes, flush,
  publish, run,
}
use nexus_infra.Shared.Outbox.Order.{published, run-create-Tracks}
use nexus_infra.Shared.Outbox.Queue.{Tracks}
use nexus_infra.Shared.Outbox.Delivery.{Delivers, flush-Delivers, resume, overlap_loses}

abbrev note : ℕ → Message ℕ
note n = record { routing_key = "infra.server.stopped"; envelope = n }

abbrev event : ℕ → QueuedEvent ℕ
event n = record { message = note n; enqueued_at = 10 }

-- The broker is down for the first four calls.
abbrev recovering : ℕ → Message ℕ → Answer
recovering n m = if ltb n 4 then refused else accepted

abbrev outage : List (Use ℕ)
outage =
    publishes (note 1) 10 ∷ publishes (note 2) 20 ∷ flushes ∷ publishes (note 3) 30 ∷ flushes ∷ []

outage_recovers : (run recovering (create ℕ (some 2)) outage).sent ≡ note 2 ∷ note 3 ∷ []
unfolding run create
outage_recovers = refl

run-create-Tracks_example : Tracks (published outage) (run recovering (create ℕ (some 2)) outage)
run-create-Tracks_example = run-create-Tracks recovering (some 2) outage

abbrev held : Outbox ℕ
held = record {
  queue = event 1 ∷ event 2 ∷ [];
  dropped = 0;
  flushing = true;
  capacity = 2;
  calls = 3;
  sent = [];
}

abbrev at_rest : Outbox ℕ
at_rest = record held { flushing = false }

flush-Delivers_example :
    Delivers recovering at_rest.queue at_rest
      (flush recovering at_rest).0
      (flush recovering at_rest).1
flush-Delivers_example = flush-Delivers recovering at_rest refl

overlap_loses_example :
    let o' = resume recovering (event 1) (publish recovering (note 3) 10 held).1 in
    (o'.queue ≡ event 3 ∷ []) × (o'.sent ≡ note 1 ∷ []) × (o'.dropped ≡ 1)
overlap_loses_example =
    overlap_loses recovering held (event 1) (event 2) (event 2 ∷ []) (event 3 ∷ []) (note 3) 10 refl
      refl (omega arith) refl
