-- ===== src/Orchestrator/Cron/Fields.antt =====
-- What a field of a cron expression matches (services/orchestrator/src/cron.ts).
use nexus_infra.Prelude.{
  ℕ, ◌≡◌, true, none, some, List, [], ◌∷◌, ◌==◌, ◌&&◌, ◌⊎◌, ltb, ◌+◌, Bool, All,
}
use nexus_infra.Orchestrator.Cron.{
  split, first_piece, second_piece, step_of, range_of, first_inexact,
}
use nexus_infra.Orchestrator.Cron.Rounds.{IsNamed}

-- A part that is well formed, `lo-hi/step`, `lo-hi`, `lo`, `*` or `*/step`, and names the number.
pub record Names (min max : ℕ) (part : List ℕ) (w : ℕ) : Type 0 where
  pub step : ℕ
  pub lo : ℕ
  pub hi : ℕ
  pub step_read : step_of (second_piece (split (λ c. c == 47) part)) ≡ some step
  pub range_read : range_of min max (first_piece (split (λ c. c == 47) part)) ≡ some (lo, hi)
  pub named : IsNamed lo hi step min max w

-- One of the parts names the number.
abbrev pub SomeNames : ℕ → ℕ → List (List ℕ) → ℕ → Type 0
SomeNames min max [] w = ⊥
SomeNames min max (part ∷ parts) w = Names min max part w ⊎ SomeNames min max parts w

-- The loop over the part's range, if it comes to one, counts with numbers that are not rounded.
unfoldable pub counts_exactly : ℕ → ℕ → List ℕ → Bool
counts_exactly min max part =
    let pieces = split (λ c. c == 47) part in
    elim (step_of (second_piece pieces)) [
      | none ↦ true
      | some step ↦ elim (range_of min max (first_piece pieces)) [
        | none ↦ true
        | some (lo, hi) ↦ ltb (hi + step) first_inexact
      ]
    ]

unfoldable pub all_count : ℕ → ℕ → List (List ℕ) → Bool
all_count min max [] = true
all_count min max (part ∷ parts) = counts_exactly min max part && all_count min max parts

-- It does in every part of the five fields, each with its bounds.
unfoldable pub fields_counted : List (List ℕ) → Bool
fields_counted (m ∷ h ∷ dom ∷ mon ∷ dow ∷ []) =
    all_count 0 59 (split (λ c. c == 44) m)
    && all_count 0 23 (split (λ c. c == 44) h)
    && all_count 1 31 (split (λ c. c == 44) dom)
    && all_count 1 12 (split (λ c. c == 44) mon)
    && all_count 0 7 (split (λ c. c == 44) dow)
fields_counted fields = true

-- It does in every part of the field.
abbrev pub IsCounted : ℕ → ℕ → List ℕ → Type 0
IsCounted min max field =
    All (λ part. counts_exactly min max part ≡ true) (split (λ c. c == 44) field)
