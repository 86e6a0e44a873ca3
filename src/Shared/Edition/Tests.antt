-- ===== src/Shared/Edition/Tests.antt =====
-- Tests and instances of the theorem about the edition.
use nexus_infra.Prelude.{◌≡◌, refl, some, false, ◌↔◌}
use nexus_infra.Prelude.Text.{trim}
use nexus_infra.Shared.Edition.{
  community, hosted, get_build_edition, is_runnable, resolve_runtime_edition,
}
use nexus_infra.Shared.Edition.Choice.{AsksFor, image_wins}

image_wins_example :
    ((resolve_runtime_edition
        (λ s. s)
        (some "community")
        (get_build_edition (λ s. s) (some " hosted "))).edition
      ≡ hosted)
    × ((is_runnable (
            resolve_runtime_edition
              (λ s. s)
              (some "community")
              (get_build_edition (λ s. s) (some " hosted ")))
          ≡ false)
        ↔ AsksFor (λ s. s) (some "community") community)
unfolding trim
image_wins_example = image_wins (λ s. s) (some " hosted ") (some "community") hosted refl
