-- ===== src/Orchestrator/Memory.antt =====
-- The memory budget of a server (services/orchestrator/src/memory.ts), in whole megabytes.
pub mod Budget
use nexus_infra.Prelude.{
  ℕ, ◌+◌, ◌-◌, ◌*◌, ◌/◌, String, Bool, Option, none, some, [], ◌∷◌, str_eq, if◌then◌else◌, ltb, leb,
  ◌==◌, max, concat, not, true, false,
}
use nexus_infra.Prelude.Text.{trim, number_text}

-- `max(512, round(heap * 0.25))`: a half is rounded up.
unfoldable pub jvm_overhead_mb : ℕ → ℕ
jvm_overhead_mb heap_mb = max 512 ((heap_mb + 2) / 4)

abbrev pub min_usable_heap_mb : ℕ
min_usable_heap_mb = 512

unfoldable pub largest_heap_for_cap : ℕ → ℕ
largest_heap_for_cap cap_mb =
    let proportional = cap_mb * 4 / 5 in
    if ltb 512 (jvm_overhead_mb proportional) then proportional else cap_mb - 512

pub record HeapCheck : Type 0 where
  pub heap_mb : ℕ
  pub cap_mb : ℕ

unfoldable pub preamble : HeapCheck → String
preamble check =
    let overhead = jvm_overhead_mb check.heap_mb in
    concat (
      "a "
      ∷ number_text check.heap_mb
      ∷ " MB heap needs about "
      ∷ number_text (check.heap_mb + overhead)
      ∷ " MB in total (the JVM uses roughly "
      ∷ number_text overhead
      ∷ " MB beyond the heap for metaspace, threads and buffers), but this server is capped at "
      ∷ number_text check.cap_mb
      ∷ " MB. "
      ∷ [])

unfoldable pub heap_budget_problem : HeapCheck → Option String
heap_budget_problem check =
    let needed = check.heap_mb + jvm_overhead_mb check.heap_mb in
    let largest = largest_heap_for_cap check.cap_mb in
    if leb needed check.cap_mb
    then none
    else if ltb largest min_usable_heap_mb
    then some (
        concat (
          preamble check
          ∷ "A "
          ∷ number_text check.cap_mb
          ∷ " MB limit is too small for a Java server whatever the heap — raise the memory limit."
          ∷ []))
    else some (
        concat (
          preamble check
          ∷ "Raise the memory limit or lower the heap to about "
          ∷ number_text largest
          ∷ " MB."
          ∷ []))

-- Whether the caller set a heap.
unfoldable pub is_explicit : Option String → Bool
is_explicit none = false
is_explicit (some value) = not (str_eq (trim value) "")

unfoldable pub derived_heap_mb : Option ℕ → Option String → Option ℕ
derived_heap_mb none explicit = none
derived_heap_mb (some cap_mb) explicit =
    let heap = largest_heap_for_cap cap_mb in
    if is_explicit explicit
    then none
    else if cap_mb == 0
    then none
    else if leb min_usable_heap_mb heap
    then some heap
    else none

unfoldable pub format_heap_mb : ℕ → String
format_heap_mb heap_mb = concat (number_text heap_mb ∷ "M" ∷ [])
