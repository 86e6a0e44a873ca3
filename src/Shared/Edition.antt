-- ===== src/Shared/Edition.antt =====
-- The edition a process runs as (shared/src/edition.ts). `fold` is `String.prototype.toLowerCase`.
pub mod Choice
mod Tests
use nexus_infra.Prelude.{
  String, Bool, true, false, Option, none, some, ◌&&◌, ◌||◌, not, str_eq, if◌then◌else◌,
}
use nexus_infra.Prelude.Text.{trim}

pub data Edition : Type 0 where
  community : Edition
  hosted : Edition

abbrev pub default_edition : Edition
default_edition = community

pub data EditionSource : Type 0 where
  image : EditionSource
  environment : EditionSource
  default : EditionSource

pub record EditionConflict : Type 0 where
  pub requested : Edition
  pub built : Edition

pub record EditionResolution : Type 0 where
  pub edition : Edition
  pub source : EditionSource
  pub conflict : Option EditionConflict

unfoldable pub same_edition : Edition → Edition → Bool
same_edition community community = true
same_edition hosted hosted = true
same_edition a b = false

module _ (fold : String → String) where
  unfoldable pub resolve_edition : Option String → Edition
  resolve_edition none = default_edition
  resolve_edition (some value) =
      if str_eq (fold (trim value)) "hosted" then hosted else default_edition

  unfoldable pub names_an_edition : Option String → Bool
  names_an_edition none = false
  names_an_edition (some value) =
      let normalised = fold (trim value) in
      str_eq normalised "hosted" || str_eq normalised "community"

  -- `stamped` is the text of the file in the image, when it could be read.
  unfoldable pub get_build_edition : Option String → Option Edition
  get_build_edition stamped =
      if names_an_edition stamped then some (resolve_edition stamped) else none

  unfoldable pub resolve_runtime_edition : Option String → Option Edition → EditionResolution
  resolve_runtime_edition requested (some built) =
      if names_an_edition requested && not (same_edition (resolve_edition requested) built)
      then record {
        edition = built;
        source = image;
        conflict = some (record { requested = resolve_edition requested; built = built });
      }
      else record { edition = built; source = image; conflict = none }
  resolve_runtime_edition requested none =
      if names_an_edition requested
      then record { edition = resolve_edition requested; source = environment; conflict = none }
      else record { edition = default_edition; source = default; conflict = none }

-- Whether `assertEditionIsRunnable` returns; it throws otherwise.
unfoldable pub is_runnable : EditionResolution → Bool
is_runnable resolution = elim resolution.conflict [ none ↦ true | some conflict ↦ false ]

unfoldable pub is_hosted : Edition → Bool
is_hosted community = false
is_hosted hosted = true
