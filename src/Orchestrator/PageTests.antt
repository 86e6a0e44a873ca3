-- ===== src/Orchestrator/PageTests.antt =====
-- An instance of the theorem about the pages of the server list.
use Prim.Native.Char.{code}
use nexus_infra.Prelude.{
  ℕ, String, Bool, true, false, none, some, List, [], ◌∷◌, ltb, ◌==◌, ◌&&◌, ◌||◌,
}
use nexus_infra.Orchestrator.DeploymentQuery.{FilterableDeployment, DeploymentFilter}

-- Texts by the codes of their characters.
by_codes : String → String → Bool
by_codes String.[] t = false
by_codes (String.◌∷◌ c s) String.[] = true
by_codes (String.◌∷◌ c s) (String.◌∷◌ d t) =
    ltb (code d) (code c) || (code c == code d && by_codes s t)

abbrev row : String → ℕ → FilterableDeployment
row id at = record {
  id = id;
  name = "server";
  status = "running";
  node_id = none;
  user_id = "u1";
  created_at = at;
}

-- Two rows of one millisecond.
abbrev rows : List FilterableDeployment
rows = row "a" 10 ∷ row "b" 10 ∷ []

abbrev running : DeploymentFilter
running = record { q = none; status = some "running"; node_id = none; owner_id = none }
