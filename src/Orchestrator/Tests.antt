-- ===== src/Orchestrator/Tests.antt =====
-- Tests and instances of the theorems about access, memory and the login limit.
use nexus_infra.Prelude.{
  ◌+◌, ◌*◌, ◌≤◌, ◌≡◌, ◌⊎◌, refl, true, false, Option, none, some, List, [], ◌∷◌, ◌==◌, not, is_none,
  arith,
}
use nexus_infra.Prelude.Assoc.{Assoc, lookup}
use nexus_infra.Orchestrator.Users.{PlatformRole}
use nexus_infra.Orchestrator.Access.{
  Role, control_stop, rank, can, role_permissions, viewer_permissions, operator_permissions,
  admin_permissions, owner_permissions, same_permission, permission_name, strongest_role,
  AccessInput, administers, resolve_role,
}
use nexus_infra.Orchestrator.Access.Roles.{
  can_monotone, strongest_role-height, delete_is_not_shared, height, highest,
}
use nexus_infra.Orchestrator.Memory.{
  HeapCheck, heap_budget_problem, derived_heap_mb, largest_heap_for_cap, jvm_overhead_mb,
  is_explicit,
}
use nexus_infra.Orchestrator.Memory.Budget.{derived_heap-fits, accepted_heap-leaves_room}
use nexus_infra.Orchestrator.LoginLimiter.{LoginLimiterOptions, Entry, check, fail}
use nexus_infra.Orchestrator.LoginLimiter.Lockout.{
  LoginEvent, failed, succeeded, after_logins, failures_of, failures-lock_out,
}

can_monotone_example : can (some Role.admin) control_stop ≡ true
unfolding rank can role_permissions viewer_permissions operator_permissions same_permission
    permission_name
can_monotone_example = can_monotone Role.operator Role.admin control_stop (omega arith) refl

abbrev grants : List (Option Role)
grants = some Role.operator ∷ none ∷ some Role.admin ∷ some Role.viewer ∷ []

strongest_role-height_example : height (strongest_role grants) ≡ highest grants
strongest_role-height_example = strongest_role-height grants

abbrev owned : AccessInput
owned = record {
  principal_id = "ada";
  platform_role = PlatformRole.user;
  owner_id = "ada";
  grant = none;
  membership = none;
}

delete_is_not_shared_example :
    (administers owned.platform_role ≡ true) ⊎ (owned.principal_id ≡ owned.owner_id)
unfolding resolve_role administers can role_permissions viewer_permissions operator_permissions
    admin_permissions owner_permissions same_permission permission_name
delete_is_not_shared_example = delete_is_not_shared owned refl

derived_heap-fits_example :
    is_none (heap_budget_problem (record { heap_mb = 2050; cap_mb = 2562 })) ≡ not (2562 == 2562)
unfolding derived_heap_mb is_explicit largest_heap_for_cap jvm_overhead_mb
derived_heap-fits_example = derived_heap-fits 2562 2050 none refl

abbrev fitting : HeapCheck
fitting = record { heap_mb = 2048; cap_mb = 4096 }

accepted_heap-leaves_room_example :
    (fitting.heap_mb + 512 ≤ fitting.cap_mb) × (5 * fitting.heap_mb ≤ 4 * fitting.cap_mb + 1)
unfolding heap_budget_problem jvm_overhead_mb
accepted_heap-leaves_room_example = accepted_heap-leaves_room fitting refl

abbrev strict : LoginLimiterOptions
strict = record { max_attempts = 3; window_ms = 1000; lockout_ms = 5000 }

abbrev once : Entry
once = record { failures = 1; since = 100; locked_until = 0 }

abbrev tracked : Assoc Entry
tracked = ("ip:10.0.0.1", once) ∷ []

abbrev failing : List LoginEvent
failing = failed 200 ("ip:10.0.0.1" ∷ "id:ada" ∷ []) ∷ succeeded ("id:bob" ∷ []) ∷ []

-- The window of the key ends at 1100, and its lockout at 5300.
abbrev of_others : List LoginEvent
of_others = failed 1500 ("ip:10.0.0.2" ∷ "id:ada" ∷ []) ∷ succeeded ("id:ada" ∷ []) ∷ []

failures-lock_out_example :
    ((check strict 2000 ("id:cyd" ∷ "ip:10.0.0.1" ∷ []) (
        after_logins strict of_others (
          fail strict 300
            ("ip:10.0.0.1" ∷ "id:bob" ∷ [])
            (after_logins strict failing tracked)))).allowed
      ≡ false)
    × (5300
        ≤ 2000
          + (check strict 2000 ("id:cyd" ∷ "ip:10.0.0.1" ∷ []) (
              after_logins strict of_others (
                fail strict 300
                  ("ip:10.0.0.1" ∷ "id:bob" ∷ [])
                  (after_logins strict failing tracked)))).retry_after_ms)
unfolding lookup failures_of
failures-lock_out_example =
    failures-lock_out strict "ip:10.0.0.1" once tracked failing 300 ("ip:10.0.0.1" ∷ "id:bob" ∷ [])
      of_others 2000 ("id:cyd" ∷ "ip:10.0.0.1" ∷ []) refl (omega arith, (refl, tt)) (omega arith)
      refl (omega arith) ((omega arith, refl), (refl, tt)) (omega arith) refl
