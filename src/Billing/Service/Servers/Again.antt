-- ===== src/Billing/Service/Servers/Again.antt =====
-- A start that is reported twice (`handleServerStarted` of services/billing-bridge/src/service.ts).
use nexus_infra.Prelude.{
  ℕ, ◌+◌, String, ◌≡◌, ◌∙◌, none, some, inl, inr, Option-cases, arith, eq_iff, sym,
}
use nexus_infra.Prelude.Assoc.{lookup-insert}
use nexus_infra.Billing.Number.{Numbers}
use nexus_infra.Billing.Types.{BilledDeployment, ServerBillingRecord, OpenIntervalInput}
use nexus_infra.Billing.Repository.{
  Repo, get_deployment, get_last_interval, save_deployment, get_open_interval, get_user_plan,
  open_interval, new_interval,
}
use nexus_infra.Billing.Repository.Intervals.{get_open_interval-open_interval}
use nexus_infra.Billing.Service.{Deps, World, ok, ◌>>=◌}
use nexus_infra.Billing.Service.Servers.{
  recover, or_recover, deployment_for, start, start_known, handle_server_started,
}

module _ (numbers : Numbers) (deps : Deps (numbers.Num)) where
  open numbers use {Num}

  -- A known server that runs keeps its interval.
  runs_already :
      (now : ℕ) (d : String) (deployment : BilledDeployment Num) (i : ServerBillingRecord Num)
      (w : World Num)
      → get_deployment d w.repo ≡ some deployment
      → get_open_interval d w.repo ≡ some i
      → handle_server_started numbers deps now d w ≡ (ok (some i), w)
  unfolding handle_server_started deployment_for or_recover start_known start ◌>>=◌
  runs_already now d deployment i w known running = ground (arith, known, running)

  stays :
      (d id : String) (now : ℕ) (input : OpenIntervalInput Num) (r : Repo Num)
      (deployment : BilledDeployment Num)
      → get_deployment d r ≡ some deployment
      → get_deployment d (open_interval id now input r) ≡ some deployment
  unfolding get_deployment open_interval
  stays d id now input r deployment known = known

  known_twice :
      (now later : ℕ) (d : String) (deployment : BilledDeployment Num) (i : ServerBillingRecord Num)
      (w w1 : World Num)
      → get_deployment d w.repo ≡ some deployment
      → handle_server_started numbers deps now d w ≡ (ok (some i), w1)
      → handle_server_started numbers deps later d w1 ≡ (ok (some i), w1)
  unfolding handle_server_started deployment_for or_recover start_known start ◌>>=◌
  known_twice now later d deployment i w w1 known h =
      elim (Option-cases (get_open_interval d w.repo)) [
        | inr (running, found) ↦
            let same : w1 ≡ w = ground (arith, h, known, found) in
            let kept : running ≡ i = ground (arith, h, known, found) in
            rw same (runs_already later d deployment i w known (rw kept at found))
        | inl free ↦
            let input : OpenIntervalInput Num = record {
              user_id = deployment.user_id;
              deployment_id = d;
              plan_id = (get_user_plan numbers deployment.user_id w.repo).id;
              limits = deployment.limits;
              started_at = now;
            } in
            let id = deps.random_uuid w.drawn in
            let next : World Num = record w {
              repo = open_interval id now input w.repo;
              drawn = w.drawn + 1;
            } in
            let same : w1 ≡ next = ground (arith, h, known, free) in
            let kept : i ≡ new_interval id now input = ground (arith, h, known, free) in
            rw (same, kept)
              (runs_already later d deployment (new_interval id now input) next
                (stays d id now input w.repo deployment known)
                (get_open_interval-open_interval id now input w.repo))
      ]

  -- What is recovered from the last interval is known from then on.
  recovered : String → ServerBillingRecord Num → BilledDeployment Num
  recovered d last = record { deployment_id = d; user_id = last.user_id; limits = last.limits }

  saved-get_deployment :
      (d : String) (last : ServerBillingRecord Num) (r : Repo Num)
      → get_deployment d (save_deployment (recovered d last) r) ≡ some (recovered d last)
  unfolding get_deployment save_deployment recovered
  saved-get_deployment d last r =
      ground (arith, lookup-insert d d (recovered d last) r.deployments, eq_iff d d)

  -- The start of a server that is recovered is its start once it is known.
  recovered-start :
      (now : ℕ) (d : String) (last : ServerBillingRecord Num) (w : World Num)
      → get_deployment d w.repo ≡ none
      → get_last_interval d w.repo ≡ some last
      → handle_server_started numbers deps now d w
        ≡ handle_server_started numbers deps now d
            (record w { repo = save_deployment (recovered d last) w.repo })
  unfolding handle_server_started deployment_for or_recover recover recovered ◌>>=◌
  recovered-start now d last w unknown before =
      ground (arith, unknown, before, saved-get_deployment d last w.repo)

  -- A start that returns an interval and is reported again returns the same interval and changes
  -- nothing: no store, no id drawn, no event.
  pub handle_server_started-again :
      (now later : ℕ) (d : String) (i : ServerBillingRecord Num) (w w1 : World Num)
      → handle_server_started numbers deps now d w ≡ (ok (some i), w1)
      → handle_server_started numbers deps later d w1 ≡ (ok (some i), w1)
  unfolding handle_server_started deployment_for or_recover recover start_known ◌>>=◌
  handle_server_started-again now later d i w w1 h = elim (Option-cases (get_deployment d w.repo)) [
    | inr (deployment, known) ↦ known_twice now later d deployment i w w1 known h
    | inl unknown ↦ elim (Option-cases (get_last_interval d w.repo)) [
      | inl never ↦ absurd (ground (arith, h, unknown, never))
      | inr (last, before) ↦
          known_twice now later d (recovered d last) i
            (record w { repo = save_deployment (recovered d last) w.repo }) w1
            (saved-get_deployment d last w.repo)
            (sym (recovered-start now d last w unknown before) ∙ h)
    ]
  ]
