-- ===== src/Orchestrator/StoreTests.antt =====
-- Tests and instances of the theorems about the orchestrator's store and what writes to it.
use nexus_infra.Prelude.{
  String, ◌≡◌, ◌≢◌, refl, true, false, Option, some, none, List, [], ◌∷◌, arith, inl, inr,
}
use nexus_infra.Prelude.Assoc.{lookup, insert, drop_where}
use nexus_infra.Prelude.Rows.{IsRow}
use nexus_infra.Orchestrator.Access.{grantable_role, role_name}
use nexus_infra.Orchestrator.Transfer.{text, kept_role, keeps, already_owns, plan_transfer}
use nexus_infra.Orchestrator.Store.Rows.{
  UserRecord, DeploymentRecord, DeploymentView, ServerConfigRecord, PortAllocationRecord, Store,
}
use nexus_infra.Orchestrator.Store.Accounts.{get_user, consume_link, issue_link, is_outstanding}
use nexus_infra.Orchestrator.Store.Links.{
  LinkUse, issues, consumes, after_use, after_uses, works_once,
}
use nexus_infra.Orchestrator.Store.Servers.{find_server}
use nexus_infra.Orchestrator.Store.PortTable.{
  conflict, replace_port_allocations, replace_on, node_given, clash_port, is_clash,
}
use nexus_infra.Orchestrator.Store.PortTable.Exclusive.{IsExclusive}
use nexus_infra.Orchestrator.Store.PortTable.History.{
  PortEvent, replaces, sets_primary, deletes_node, deletes_server, after_port_events,
  after_port_events-IsExclusive, conflict-IsRow,
}
use nexus_infra.Orchestrator.Store.Shares.{transfer_deployment_owner, get_subuser_for}
use nexus_infra.Orchestrator.TransferRoute.{
  answered, transfer_server, write_transfer, transfer_input, account_found, account_of,
}
use nexus_infra.Orchestrator.TransferRoute.Owned.{IsOwnedBy}
use nexus_infra.Orchestrator.TransferRoute.Written.{StepsDown, transfer_server-hands_over}
use nexus_infra.Orchestrator.Lifecycle.{ReportPayload, server_started, handle_report}
use nexus_infra.Orchestrator.Lifecycle.Containers.{LateReport, handle_late, handle_late-start}

abbrev deployment : DeploymentRecord
deployment = record {
  id = "d1";
  server_config_id = "c1";
  node_id = some "n1";
  container_id = none;
  status = "stopped";
  started_at = none;
  stopped_at = none;
  created_at = 5;
  suspended_at = none;
  suspended_reason = none;
}

abbrev config : ServerConfigRecord
config = record {
  id = "c1";
  user_id = "u1";
  team_id = none;
  name = "survival";
  docker_image = "itzg/minecraft-server";
  ports = [];
  env = [];
  resource_limits = "{}";
  auto_restart = false;
  data_path = none;
  persist_paths = [];
  backup_retention = record { keep_last = none; keep_days = none };
  type = "generic";
  created_at = 5;
}

abbrev person : String → String → UserRecord
person id email = record {
  id = id;
  email = email;
  display_name = id;
  password_hash = "";
  platform_role = "user";
  created_at = 1;
  totp_secret = none;
  totp_enabled_at = none;
  email_verified_at = none;
}

abbrev ada : UserRecord
ada = person "u1" "ada@example.com"

abbrev ben : UserRecord
ben = person "u2" "ben@example.com"

abbrev held_port : PortAllocationRecord
held_port = record {
  id = "p1";
  node_id = "n1";
  port = 25565;
  deployment_id = "d2";
  primary = true;
  created_at = 3;
}

abbrev store : Store
store = record {
  users = ("u1", ada) ∷ ("u2", ben) ∷ [];
  teams = [];
  team_members = [];
  nodes = [];
  port_allocations = ("p1", held_port) ∷ [];
  channels = [];
  deliveries = [];
  configs = ("c1", config) ∷ [];
  deployments = ("d1", deployment) ∷ [];
  events = [];
  databases = [];
  backups = [];
  schedules = [];
  subusers = [];
  sessions = [];
  password_resets = [];
  email_verifications = [];
  api_tokens = [];
  recovery_codes = [];
  link_token_hashes = [];
}

abbrev server : DeploymentView
server = record {
  deployment = deployment;
  name = "survival";
  docker_image = "itzg/minecraft-server";
  user_id = "u1";
  team_id = none;
  type = "generic";
  resource_limits = "{}";
  auto_restart = false;
}

-- A reset link is asked for twice, and the newer one is used.
abbrev asked : List LinkUse
asked = issues "u1" "h1" 100 ∷ issues "u1" "h2" 110 ∷ consumes "h1" 20 ∷ []

newer_works : (consume_link "h2" 30 (after_uses asked [])).1 ≡ some "u1"
unfolding consume_link after_uses after_use issue_link is_outstanding drop_where insert lookup
newer_works = refl

works_once_example :
    (consume_link "h2" 50 (
      after_uses
        (issues "u2" "h3" 200 ∷ consumes "h1" 40 ∷ [])
        (consume_link "h2" 30 (after_uses asked [])).0)).1
    ≢ some "u1"
works_once_example =
    works_once asked (issues "u2" "h3" 200 ∷ consumes "h1" 40 ∷ []) "h2" "h2" "u1" 30 50 newer_works
      (refl, (tt, tt))

abbrev port_events : List PortEvent
port_events =
    replaces 10 "d1" (some "n1") (("p2", 25566) ∷ ("p3", 25567) ∷ [])
    ∷ sets_primary "d1" 25567
    ∷ replaces 11 "d1" (some "n1") (("p4", 25565) ∷ [])
    ∷ deletes_server "d2"
    ∷ deletes_node "n2"
    ∷ []

alone : IsExclusive store.port_allocations
alone a b (inl ea) (inl eb) n p = ground (arith, ea, eb)
alone a b (inl ea) (inr x) n p = elim x [ ]
alone a b (inr x) rb n p = elim x [ ]

after_port_events-IsExclusive_example :
    IsExclusive (after_port_events port_events store).port_allocations
after_port_events-IsExclusive_example = after_port_events-IsExclusive port_events store alone

taken_refused :
    replace_port_allocations 11 "d1" (some "n1") (("p4", 25565) ∷ []) store ≡ conflict 25565 "n1"
unfolding replace_port_allocations replace_on node_given clash_port is_clash
taken_refused = refl

abbrev on_n1 : Option String
on_n1 = some "n1"

conflict-IsRow_example :
    (on_n1 ≡ some "n1")
    × ((a : PortAllocationRecord) × IsRow a store.port_allocations
        × (a.node_id ≡ "n1")
        × (a.port ≡ 25565)
        × (a.deployment_id ≢ "d1"))
conflict-IsRow_example =
    conflict-IsRow 11 "d1" on_n1 (("p4", 25565) ∷ []) store 25565 "n1" taken_refused

handed_answer :
    (transfer_server "s1" "e1" 20 server (some ben) (text "viewer") store).1 ≡ answered "u2"
unfolding transfer_server write_transfer transfer_deployment_owner plan_transfer transfer_input
    get_subuser_for get_user find_server already_owns account_found lookup account_of keeps
    kept_role grantable_role role_name
handed_answer = refl

transfer_server-hands_over_example :
    ("u2" ≡ ben.id)
    × IsOwnedBy "d1" ben.id deployment
        (transfer_server "s1" "e1" 20 server (some ben) (text "viewer") store).0
    × StepsDown server
        (text "viewer")
        store
        (transfer_server "s1" "e1" 20 server (some ben) (text "viewer") store).0
unfolding find_server lookup keeps
transfer_server-hands_over_example =
    transfer_server-hands_over "s1" "e1" 20 server ben (text "viewer") store deployment config "u2"
      refl refl tt refl handed_answer

abbrev started : ReportPayload
started = record {
  deployment_id = "d1";
  container_id = "c-new";
  node_id = "n1";
  reason = none;
  image = "";
  digest = "";
  recreated = false;
}

abbrev late : List LateReport
late =
    record {
      crashed = false;
      event_id = "e3";
      now = 40;
      payload = record started { container_id = "c-old" };
    }
    ∷ record {
      crashed = true;
      event_id = "e4";
      now = 41;
      payload = record started { container_id = "c-older"; reason = some "exit 137" };
    }
    ∷ []

handle_late-start_example :
    handle_late late (handle_report server_started "e2" 30 started store).0
    ≡ (handle_report server_started "e2" 30 started store).0
unfolding lookup
handle_late-start_example =
    handle_late-start "e2" 30 started late store deployment config refl refl refl refl
      ((refl, refl, refl), ((refl, refl, refl), tt))
