-- ===== src/Shared/Edition/Choice.antt =====
-- Which edition wins, and when a process refuses to start (shared/src/edition.ts).
use nexus_infra.Prelude.{
  String, ◌≡◌, refl, false, Option, none, some, ◌&&◌, not, arith, ◌↔◌, inl, inr, Bool-cases, eq_iff,
}
use nexus_infra.Prelude.Text.{trim}
use nexus_infra.Shared.Edition.{
  Edition, community, hosted, same_edition, names_an_edition, resolve_edition, get_build_edition,
  resolve_runtime_edition, is_runnable,
}

abbrev pub edition_name : Edition → String
edition_name community = "community"
edition_name hosted = "hosted"

abbrev pub other_edition : Edition → Edition
other_edition community = hosted
other_edition hosted = community

module _ (fold : String → String) where
  -- A text that is the name of the edition, but for spaces around it and the case of its letters.
  abbrev pub AsksFor : Option String → Edition → Type 0
  AsksFor none edition = ⊥
  AsksFor (some value) edition = fold (trim value) ≡ edition_name edition

  get_build_edition-AsksFor :
      (stamped : Option String) (built : Edition)
      → AsksFor stamped built
      → get_build_edition fold stamped ≡ some built
  unfolding get_build_edition names_an_edition resolve_edition
  get_build_edition-AsksFor none built h = absurd h
  get_build_edition-AsksFor (some value) community h = rw h refl
  get_build_edition-AsksFor (some value) hosted h = rw h refl

  refused-AsksFor :
      (requested : Option String) (built : Edition)
      → is_runnable (resolve_runtime_edition fold requested (some built)) ≡ false
      → AsksFor requested (other_edition built)
  unfolding resolve_runtime_edition is_runnable names_an_edition resolve_edition same_edition
  refused-AsksFor none built h = absurd (ground (arith, h))
  refused-AsksFor (some value) community h = ground (arith, h, eq_iff (fold (trim value)) "hosted")
  refused-AsksFor (some value) hosted h = ground (arith, h, eq_iff (fold (trim value)) "community")

  AsksFor-refused :
      (requested : Option String) (built : Edition)
      → AsksFor requested (other_edition built)
      → is_runnable (resolve_runtime_edition fold requested (some built)) ≡ false
  unfolding resolve_runtime_edition is_runnable names_an_edition resolve_edition same_edition
  AsksFor-refused none built h = absurd h
  AsksFor-refused (some value) community h = rw h refl
  AsksFor-refused (some value) hosted h = rw h refl

  runs-built :
      (requested : Option String) (built : Edition)
      → (resolve_runtime_edition fold requested (some built)).edition ≡ built
  unfolding resolve_runtime_edition
  runs-built requested built =
      elim (Bool-cases (
        names_an_edition fold requested
        && not (same_edition (resolve_edition fold requested) built))) [
          | inl clash ↦ rw clash refl
          | inr fits ↦ rw fits refl
        ]

  -- A process from an image whose stamp names an edition resolves to that edition, whatever the
  -- environment asks for, and it refuses to start exactly when the environment names the other
  -- edition: neither an absent text nor one that names no edition stops it.
  pub image_wins :
      (stamped requested : Option String) (built : Edition)
      → AsksFor stamped built
      → ((resolve_runtime_edition fold requested (get_build_edition fold stamped)).edition ≡ built)
        × ((is_runnable (resolve_runtime_edition fold requested (get_build_edition fold stamped))
              ≡ false)
            ↔ AsksFor requested (other_edition built))
  image_wins stamped requested built h = rw (get_build_edition-AsksFor stamped built h) (
    runs-built requested built,
    (refused-AsksFor requested built, AsksFor-refused requested built),
  )
