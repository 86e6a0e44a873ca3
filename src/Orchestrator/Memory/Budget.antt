-- ===== src/Orchestrator/Memory/Budget.antt =====
-- The heap that is derived from a cap, against the check that refuses a heap
-- (services/orchestrator/src/memory.ts).
use nexus_infra.Prelude.{
  ℕ, ◌+◌, ◌*◌, ◌≤◌, ◌∙◌, String, ◌≡◌, Option, none, some, arith, ◌==◌, not, is_none, sym, ap, true,
  leb,
}
use nexus_infra.Orchestrator.Memory.{
  jvm_overhead_mb, largest_heap_for_cap, HeapCheck, heap_budget_problem, derived_heap_mb,
}

-- What `heapBudgetProblem` decides, without its message.
budget-decides :
    (heap_mb cap_mb : ℕ)
    → is_none (heap_budget_problem (record { heap_mb = heap_mb; cap_mb = cap_mb }))
      ≡ leb (heap_mb + jvm_overhead_mb heap_mb) cap_mb
unfolding heap_budget_problem
budget-decides heap_mb cap_mb = ground arith

largest-fits :
    (cap_mb : ℕ)
    → 512 ≤ cap_mb
    → leb (largest_heap_for_cap cap_mb + jvm_overhead_mb (largest_heap_for_cap cap_mb)) cap_mb
      ≡ not (cap_mb == 2562)
unfolding largest_heap_for_cap jvm_overhead_mb
largest-fits cap_mb h = ground (arith, h)

derived-is_largest :
    (cap_mb heap_mb : ℕ) (explicit : Option String)
    → derived_heap_mb (some cap_mb) explicit ≡ some heap_mb
    → (heap_mb ≡ largest_heap_for_cap cap_mb) × (512 ≤ heap_mb)
unfolding derived_heap_mb
derived-is_largest cap_mb heap_mb explicit h = (ground (arith, h), ground (arith, h))

largest-below : (cap_mb : ℕ) → largest_heap_for_cap cap_mb ≤ cap_mb
unfolding largest_heap_for_cap
largest-below cap_mb = ground arith

-- A heap that is derived from a cap passes the budget check against that cap, unless the cap is
-- 2562 MB: there, and only there, the derived heap is refused.
pub derived_heap-fits :
    (cap_mb heap_mb : ℕ) (explicit : Option String)
    → derived_heap_mb (some cap_mb) explicit ≡ some heap_mb
    → is_none (heap_budget_problem (record { heap_mb = heap_mb; cap_mb = cap_mb }))
      ≡ not (cap_mb == 2562)
derived_heap-fits cap_mb heap_mb explicit h =
    let (same, big) = derived-is_largest cap_mb heap_mb explicit h in
    budget-decides heap_mb cap_mb
    ∙ ground (arith, same, big, largest-fits cap_mb, largest-below cap_mb)

-- A heap that passes the check leaves at least 512 MB of its cap to the rest of the process, and
-- five heaps are at most four caps and 1 MB: it is four fifths of the cap at most, or a fifth of a
-- megabyte more.
pub accepted_heap-leaves_room :
    (check : HeapCheck)
    → heap_budget_problem check ≡ none
    → (check.heap_mb + 512 ≤ check.cap_mb) × (5 * check.heap_mb ≤ 4 * check.cap_mb + 1)
unfolding jvm_overhead_mb
accepted_heap-leaves_room check h =
    let fits : leb (check.heap_mb + jvm_overhead_mb check.heap_mb) check.cap_mb ≡ true =
      sym (budget-decides check.heap_mb check.cap_mb) ∙ ap is_none h in
    (ground (arith, fits), ground (arith, fits))
