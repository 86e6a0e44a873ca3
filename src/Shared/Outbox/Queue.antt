-- ===== src/Shared/Outbox/Queue.antt =====
-- What the queue of the publish outbox keeps track of, shared/src/outbox.ts.
use mathlib.Core.List.{append_assoc, append-nil, map-append, Sublist}
use mathlib.Core.List.Sublist as Sub
use nexus_infra.Prelude.{
  ℕ, suc, ◌+◌, ◌<◌, ◌≤◌, ◌≡◌, refl, ap, sym, ◌∙◌, ◌⊎◌, inl, inr, true, false, List, [], ◌∷◌, ◌++◌,
  map, Option, none, some, arith, length, length-append, Bool-cases, leb, is_empty,
}
use nexus_infra.Shared.Outbox.{Message, QueuedEvent, Outbox, create, shift, enqueue}

abbrev pub messages : {E : Type 0} → List (QueuedEvent E) → List (Message E)
messages q = map (λ e. e.message) q

-- What was delivered and then what is held: the order in which the broker sees or will see it.
abbrev pub line : {E : Type 0} → Outbox E → List (Message E)
line o = o.sent ++ messages o.queue

-- `published` is every message handed to `publish` so far, oldest first.
pub record Tracks {E : Type 0} (published : List (Message E)) (o : Outbox E) : Type 0 where
  pub ordered : Sublist (line o) published
  pub counted : length (line o) + o.dropped ≡ length published
  pub exact : o.dropped ≡ 0 → line o ≡ published
  pub bounded : length o.queue ≤ o.capacity
  pub positive : 1 ≤ o.capacity
  pub idle : o.flushing ≡ false

pub create-Tracks : (E : Type 0) (c : Option ℕ) → Tracks [] (create E c)
unfolding create
create-Tracks E none = record {
  ordered = Sub.refl [];
  counted = omega arith;
  exact = λ _. refl;
  bounded = omega arith;
  positive = omega arith;
  idle = refl;
}
create-Tracks E (some c) = record {
  ordered = Sub.refl [];
  counted = omega arith;
  exact = λ _. refl;
  bounded = omega arith;
  positive = omega arith;
  idle = refl;
}

pub length-snoc {ℓ} : {A : Type ℓ} (xs : List A) (a : A) → length (xs ++ a ∷ []) ≡ length xs + 1
length-snoc xs a = omega (arith, length-append xs (a ∷ []))

pub is_empty-cases {ℓ} :
    {A : Type ℓ} (xs : List A) → ((xs ≡ []) × (is_empty xs ≡ true)) ⊎ (is_empty xs ≡ false)
is_empty-cases [] = inl (refl, refl)
is_empty-cases (x ∷ xs) = inr refl

pub past_empty :
    {E : Type 0} (s : List (Message E)) (q : List (QueuedEvent E)) (m : Message E)
    → q ≡ []
    → (s ++ m ∷ []) ++ messages q ≡ (s ++ messages q) ++ m ∷ []
past_empty s q m e = rw e (simp append-nil)

-- What `drain` does with the backlog `q`: it moves events along the line.
pub record Drains {E : Type 0} (q : List (QueuedEvent E)) (o o' : Outbox E) : Type 0 where
  pub same_line : line o' ≡ o.sent ++ messages q
  pub same_dropped : o'.dropped ≡ o.dropped
  pub same_capacity : o'.capacity ≡ o.capacity
  pub shorter : length o'.queue ≤ length q
  pub same_flag : o'.flushing ≡ o.flushing

module _ {E : Type 0} where
  pub append-shift-Sublist :
      (s : List (Message E)) (q : List (QueuedEvent E))
      → Sublist (s ++ messages (shift q)) (s ++ messages q)
  append-shift-Sublist s [] = Sub.refl _
  append-shift-Sublist s (e ∷ q) = Sub.append (Sub.refl s) (Sub.cons e.message (Sub.refl _))

  pub snoc-line :
      (s : List (Message E)) (q : List (QueuedEvent E)) (e : QueuedEvent E)
      → s ++ messages (q ++ e ∷ []) ≡ (s ++ messages q) ++ e.message ∷ []
  snoc-line s q e =
      rw (map-append (λ (x : QueuedEvent E). x.message) q (e ∷ [])) (sym (append_assoc s _ _))

  pub length-messages : (q : List (QueuedEvent E)) → length (messages q) ≡ length q
  length-messages [] = refl
  length-messages (e ∷ q) = ap suc (length-messages q)

  pub length-line :
      (s : List (Message E)) (q : List (QueuedEvent E))
      → length (s ++ messages q) ≡ length s + length q
  length-line s q = omega (arith, length-append s (messages q), length-messages q)

  pub length-shift : (q : List (QueuedEvent E)) → 1 ≤ length q → length (shift q) + 1 ≡ length q
  length-shift [] h = elim h [ ]
  length-shift (e ∷ q) h = omega arith

  pub evict-Tracks :
      {p : List (Message E)} (e : QueuedEvent E) (o : Outbox E)
      → Tracks p o
      → o.capacity ≤ length o.queue
      → Tracks
          (p ++ e.message ∷ [])
          (record o { queue = shift o.queue ++ e ∷ []; dropped = o.dropped + 1 })
  evict-Tracks {p} e o t full = record {
    ordered =
        rw (snoc-line o.sent (shift o.queue) e)
          (Sub.append (Sub.trans (append-shift-Sublist o.sent o.queue) t.ordered) (Sub.refl _));
    counted = omega (
      arith,
      length-line o.sent (shift o.queue ++ e ∷ []),
      length-snoc (shift o.queue) e,
      length-snoc p e.message,
      length-shift o.queue,
      length-line o.sent o.queue,
      t.counted,
      t.positive,
    );
    exact = λ z. absurd (omega arith);
    bounded =
        omega (arith, length-snoc (shift o.queue) e, length-shift o.queue, t.bounded, t.positive);
    positive = t.positive;
    idle = t.idle;
  }

  pub append-Tracks :
      {p : List (Message E)} (e : QueuedEvent E) (o : Outbox E)
      → Tracks p o
      → length o.queue < o.capacity
      → Tracks (p ++ e.message ∷ []) (record o { queue = o.queue ++ e ∷ [] })
  append-Tracks {p} e o t room = record {
    ordered = rw (snoc-line o.sent o.queue e) (Sub.append t.ordered (Sub.refl _));
    counted = omega (
      arith,
      length-line o.sent (o.queue ++ e ∷ []),
      length-snoc o.queue e,
      length-snoc p e.message,
      length-line o.sent o.queue,
      t.counted,
    );
    exact = λ z. snoc-line o.sent o.queue e ∙ ap (λ l. l ++ e.message ∷ []) (t.exact z);
    bounded = omega (arith, length-snoc o.queue e);
    positive = t.positive;
    idle = t.idle;
  }

  pub enqueue-Tracks :
      {p : List (Message E)} (e : QueuedEvent E) (o : Outbox E)
      → Tracks p o
      → Tracks (p ++ e.message ∷ []) (enqueue e o)
  unfolding enqueue
  enqueue-Tracks {p} e o t = elim (Bool-cases (leb o.capacity (length o.queue))) [
    | inl full ↦ rw (full, enqueue) (evict-Tracks e o t (ground arith))
    | inr room ↦ rw (room, enqueue) (append-Tracks e o t (ground arith))
  ]
