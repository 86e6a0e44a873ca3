-- ===== src/Orchestrator/DeploymentQuery.antt =====
-- Filtering and paging the server list (services/orchestrator/src/deploymentQuery.ts). `fold` is
-- `String.prototype.toLowerCase`, and `after a b` is `a.localeCompare(b) > 0`. A creation time, an
-- ISO string there, is its epoch milliseconds.
pub mod Order
pub mod Pages
use Prim.Native.Char.{code}
use Prim.Native.String
use nexus_infra.Prelude.{
  ℕ, zero, suc, String, Bool, true, false, Option, none, some, List, [], ◌∷◌, ◌&&◌, ◌||◌, not, ltb,
  ◌==◌, str_eq, if◌then◌else◌, filter, length,
}

pub record FilterableDeployment : Type 0 where
  pub id : String
  pub name : String
  pub status : String
  pub node_id : Option String
  pub user_id : String
  pub created_at : ℕ

pub record DeploymentFilter : Type 0 where
  pub q : Option String
  pub status : Option String
  pub node_id : Option String
  pub owner_id : Option String

pub record PageRequest : Type 0 where
  pub limit : ℕ
  pub offset : ℕ

pub record Page : Type 0 where
  pub items : List FilterableDeployment
  pub total : ℕ
  pub limit : ℕ
  pub offset : ℕ

abbrev pub unassigned : String
unassigned = "unassigned"

unfoldable pub starts_with : String → String → Bool
starts_with String.[] s = true
starts_with (String.◌∷◌ c p) String.[] = false
starts_with (String.◌∷◌ c p) (String.◌∷◌ d s) = (code c == code d) && starts_with p s

-- `s.includes(part)`
unfoldable pub includes : String → String → Bool
includes part String.[] = starts_with part String.[]
includes part (String.◌∷◌ c s) = starts_with part (String.◌∷◌ c s) || includes part s

-- A condition that a filter sets by a text that is there and not empty.
unfoldable pub when_set : (String → Bool) → Option String → Bool
when_set test none = true
when_set test (some text) = str_eq text "" || test text

unfoldable pub on_wanted_node : Option String → String → Bool
on_wanted_node none wanted = str_eq wanted unassigned
on_wanted_node (some id) wanted = not (str_eq wanted unassigned) && str_eq id wanted

unfoldable pub drop : {A : Type 0} → ℕ → List A → List A
drop zero xs = xs
drop (suc n) [] = []
drop (suc n) (x ∷ xs) = drop n xs

unfoldable pub take : {A : Type 0} → ℕ → List A → List A
take zero xs = []
take (suc n) [] = []
take (suc n) (x ∷ xs) = x ∷ take n xs

module _ (fold : String → String) (after : String → String → Bool) where
  unfoldable pub matches_filter : DeploymentFilter → FilterableDeployment → Bool
  matches_filter wanted row =
      when_set (λ q. includes (fold q) (fold row.name)) wanted.q
      && when_set (λ status. str_eq row.status status) wanted.status
      && when_set (λ node_id. on_wanted_node row.node_id node_id) wanted.node_id
      && when_set (λ owner_id. str_eq row.user_id owner_id) wanted.owner_id

  unfoldable pub comes_after : FilterableDeployment → FilterableDeployment → Bool
  comes_after a b =
      ltb a.created_at b.created_at || (a.created_at == b.created_at && after a.id b.id)

  unfoldable pub insert_row :
      FilterableDeployment → List FilterableDeployment → List FilterableDeployment
  insert_row row [] = row ∷ []
  insert_row row (r ∷ rows) =
      let rest = insert_row row rows in if comes_after row r then r ∷ rest else row ∷ r ∷ rows

  unfoldable pub sort_rows : List FilterableDeployment → List FilterableDeployment
  sort_rows [] = []
  sort_rows (row ∷ rows) = insert_row row (sort_rows rows)

  unfoldable pub page_of : List FilterableDeployment → DeploymentFilter → PageRequest → Page
  page_of rows wanted page =
      let matched = sort_rows (filter (matches_filter wanted) rows) in
      record {
        items = take page.limit (drop page.offset matched);
        total = length matched;
        limit = page.limit;
        offset = page.offset;
      }
