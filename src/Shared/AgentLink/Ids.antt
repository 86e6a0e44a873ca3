-- ===== src/Shared/AgentLink/Ids.antt =====
-- The ids of the streams that one end of the agent link opens (shared/src/agentLink.ts).
use nexus_infra.Prelude.{
  ℕ, zero, suc, ◌+◌, ◌-◌, ◌≤◌, ◌<◌, ◌≡◌, refl, false, some, [], ◌∷◌, if◌then◌else◌, ltb, leb, ◌==◌,
  length, arith, Bool-cases, inl, inr,
}
use nexus_infra.Prelude.Table.{Table, has}
use nexus_infra.Shared.AgentLink.{LinkSession, next_after, allocate_loop, allocate_id}

-- How many ids after `n` the id `k` comes, in the order in which ids are given out.
abbrev ahead : ℕ → ℕ → ℕ
ahead n k = if leb n k then k - n else k + 4294967295 - n

abbrev one_if_near : ℕ → ℕ → ℕ → ℕ
one_if_near n fuel k = if ltb (ahead n k) fuel then 1 else 0

-- How many of the table's ids are among the next `fuel` ids from `n` on.
near : {V : Type 0} → ℕ → ℕ → Table V → ℕ
near n fuel [] = 0
near n fuel ((k, v) ∷ m) = one_if_near n fuel k + near n fuel m

one_step :
    (n fuel k : ℕ)
    → 1 ≤ n
    → n ≤ 4294967295
    → fuel < 4294967295
    → one_if_near (next_after n) fuel k + (if k == n then 1 else 0) ≤ one_if_near n (suc fuel) k
unfolding next_after
one_step n fuel k low high short = ground arith

module _ {V : Type 0} where
  near-le-length : (n fuel : ℕ) (m : Table V) → near n fuel m ≤ length m
  unfolding near
  near-le-length n fuel [] = omega arith
  near-le-length n fuel ((k, v) ∷ m) = ground (arith, near-le-length n fuel m)

  near-step :
      (n fuel : ℕ) (m : Table V)
      → 1 ≤ n
      → n ≤ 4294967295
      → fuel < 4294967295
      → near (next_after n) fuel m + (if has n m then 1 else 0) ≤ near n (suc fuel) m
  unfolding near has
  near-step n fuel [] low high short = omega arith
  near-step n fuel ((k, v) ∷ m) low high short =
      ground (arith, one_step n fuel k low high short, near-step n fuel m low high short)

-- What `allocateId` promises: an id in range that no stream has, and a next id in range.
abbrev pub IsFresh : {V : Type 0} → Table V → ℕ → ℕ → Type 0
IsFresh m id next =
    (has id m ≡ false) × (1 ≤ id) × (id ≤ 4294967295) × (1 ≤ next) × (next ≤ 4294967295)

next_after_bounds :
    (n : ℕ) → 1 ≤ n → n ≤ 4294967295 → (1 ≤ next_after n) × (next_after n ≤ 4294967295)
unfolding next_after
next_after_bounds n low high = ground arith

allocate_loop_total :
    (fuel n : ℕ) (m : Table ℕ)
    → near n fuel m < fuel
    → 1 ≤ n
    → n ≤ 4294967295
    → fuel ≤ 4294967295
    → (id : ℕ) × (next : ℕ) × (allocate_loop fuel n m ≡ some (id, next)) × IsFresh m id next
unfolding allocate_loop
allocate_loop_total zero n m some_free low high short = absurd (omega arith)
allocate_loop_total (suc fuel) n m some_free low high short = elim (Bool-cases (has n m)) [
  | inr free ↦
      let (from, to) = next_after_bounds n low high in
      (n, next_after n, rw (free, allocate_loop) refl, (free, low, high, from, to))
  | inl taken ↦
      let (from, to) = next_after_bounds n low high in
      let fewer : near (next_after n) fuel m < fuel =
        ground (arith, taken, near-step n fuel m low high (omega arith)) in
      let (id, next, found, fresh) =
        allocate_loop_total fuel (next_after n) m fewer from to (omega arith) in
      (id, next, ground (arith, taken, found), fresh)
]

-- While a session has fewer than 4294967295 streams, the search for a stream id ends: it yields an id
-- between 1 and 4294967295 that no open stream has, whatever ids the streams have and although the
-- ids wrap round, and the next id is between 1 and 4294967295 again.
pub allocate_id_total :
    (s : LinkSession)
    → 1 ≤ s.next_id
    → s.next_id ≤ 4294967295
    → length s.streams < 4294967295
    → (id : ℕ) × (next : ℕ) × (allocate_id s ≡ some (id, next)) × IsFresh s.streams id next
unfolding allocate_id
allocate_id_total s low high room =
    allocate_loop_total (suc (length s.streams)) s.next_id s.streams
      (omega (arith, near-le-length s.next_id (suc (length s.streams)) s.streams)) low high
      (omega arith)
