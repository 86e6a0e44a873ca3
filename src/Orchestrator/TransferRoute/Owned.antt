-- ===== src/Orchestrator/TransferRoute/Owned.antt =====
-- The owner of a server after a transfer (services/orchestrator/src/repository.ts).
use nexus_infra.Prelude.{
  ℕ, String, ◌≡◌, refl, ◌∙◌, Option, none, some, eq_iff, arith, Option-cases, inl, inr,
}
use nexus_infra.Prelude.Assoc.{lookup, insert, lookup-insert}
use nexus_infra.Orchestrator.Transfer.{RetainedShare}
use nexus_infra.Orchestrator.Store.Rows.{ServerConfigRecord, DeploymentRecord, Store}
use nexus_infra.Orchestrator.Store.Servers.{find_server}
use nexus_infra.Orchestrator.Store.Shares.{create_subuser, delete_subuser, drop_share, retain_share}

find_server-moved :
    (id : String) (s : Store) (deployment : DeploymentRecord) (config next : ServerConfigRecord)
    → find_server id s ≡ some (deployment, config)
    → config.id ≡ deployment.server_config_id
    → find_server id (record s { configs = insert config.id next s.configs })
      ≡ some (deployment, next)
unfolding find_server
find_server-moved id s deployment config next found own =
    elim (Option-cases (lookup id s.deployments)) [
      | inl unknown ↦ absurd (ground (arith, found, unknown))
      | inr (d, e) ↦ elim (Option-cases (lookup d.server_config_id s.configs)) [
        | inl bare ↦ absurd (ground (arith, found, e, bare))
        | inr (c, k) ↦
            let same : d ≡ deployment = ground (arith, found, e, k) in
            ground (
              arith,
              e,
              same,
              own,
              lookup-insert config.id deployment.server_config_id next s.configs,
              eq_iff config.id deployment.server_config_id,
            )
      ]
    ]

-- The server is found as before, but with a configuration of this owner.
abbrev pub IsOwnedBy : String → String → DeploymentRecord → Store → Type 0
IsOwnedBy id user_id deployment s =
    (config : ServerConfigRecord) × (find_server id s ≡ some (deployment, config))
    × (config.user_id ≡ user_id)

find_server-same :
    (id : String) (s s' : Store)
    → s'.deployments ≡ s.deployments
    → s'.configs ≡ s.configs
    → find_server id s' ≡ find_server id s
unfolding find_server
find_server-same id s s' d c = rw (d, c) refl

drop_share-tables :
    (dropped : Option String) (s : Store)
    → ((drop_share dropped s).deployments ≡ s.deployments)
      × ((drop_share dropped s).configs ≡ s.configs)
unfolding drop_share delete_subuser
drop_share-tables none s = (refl, refl)
drop_share-tables (some id) s = (ground arith, ground arith)

retain_share-tables :
    (id : String) (now : ℕ) (deployment_id : String) (share : Option RetainedShare) (s : Store)
    → ((retain_share id now deployment_id share s).deployments ≡ s.deployments)
      × ((retain_share id now deployment_id share s).configs ≡ s.configs)
unfolding retain_share create_subuser
retain_share-tables id now deployment_id none s = (refl, refl)
retain_share-tables id now deployment_id (some share) s = (refl, refl)

-- After the move of the configuration, the drop of a share and the writing of another.
pub transferred-IsOwnedBy :
    (id : String) (now : ℕ) (server : String) (share : Option RetainedShare)
    (dropped : Option String) (s : Store) (deployment : DeploymentRecord)
    (config : ServerConfigRecord) (user_id : String)
    → find_server server s ≡ some (deployment, config)
    → config.id ≡ deployment.server_config_id
    → IsOwnedBy server user_id deployment (
        retain_share id now server share (
          drop_share dropped (record s {
            configs = insert config.id (record config { user_id = user_id }) s.configs;
          })))
transferred-IsOwnedBy id now server share dropped s deployment config user_id found own =
    let next = record config { user_id = user_id } in
    let moved = record s { configs = insert config.id next s.configs } in
    let (d, c) = drop_share-tables dropped moved in
    let (d', c') = retain_share-tables id now server share (drop_share dropped moved) in
    (
      next,
      find_server-same server moved (retain_share id now server share (drop_share dropped moved))
            (d' ∙ d) (c' ∙ c)
          ∙ find_server-moved server s deployment config next found own,
      refl,
    )
