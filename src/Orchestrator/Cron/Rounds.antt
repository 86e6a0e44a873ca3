-- ===== src/Orchestrator/Cron/Rounds.antt =====
-- The loop over a range of a cron field (services/orchestrator/src/cron.ts), where no number of it is
-- rounded: its fuel suffices.
use nexus_infra.Prelude.{
  ℕ, zero, suc, ◌+◌, ◌-◌, ◌*◌, ◌≤◌, ◌<◌, ◌≡◌, true, ◌==◌, leb, ◌&&◌, arith, ◌↔◌, Bool-cases, inl,
  inr,
}
use nexus_infra.Orchestrator.Cron.{holds, first_inexact, unit_of, rounded, double, values_from}

-- A value that the range names: some number of steps from its start, up to its end, and possible for
-- the field.
pub record IsNamed (lo hi step min max w : ℕ) : Type 0 where
  pub steps : ℕ
  pub reached : w ≡ lo + steps * step
  pub low : min ≤ w
  pub high : w ≤ max
  pub last : w ≤ hi

unit_of_small : (fuel n : ℕ) → n < first_inexact → unit_of (suc fuel) 1 n ≡ 1
unfolding unit_of
unit_of_small fuel n h = ground (arith, h)

rounded_one : (n : ℕ) → rounded 1 n ≡ n
unfolding rounded
rounded_one n = ground arith

double_exact : (n : ℕ) → n < first_inexact → double n ≡ n
unfolding double
double_exact n h = rw (unit_of_small 970 n h) (rounded_one n)

step_on : (v k step : ℕ) → v + suc k * step ≡ v + step + k * step
step_on v k step = grind arith

values_from-IsNamed :
    (fuel v hi step min max w : ℕ)
    → hi + step < first_inexact
    → holds w (values_from fuel v hi step min max) ≡ true
    → IsNamed v hi step min max w
unfolding values_from
values_from-IsNamed zero v hi step min max w exact h = absurd (ground (arith, h))
values_from-IsNamed (suc fuel) v hi step min max w exact h = elim (Bool-cases (leb v hi)) [
  | inr past ↦ absurd (ground (arith, h, past))
  | inl more ↦ elim (Bool-cases (leb min v && leb v max && v == w)) [
    | inl here ↦ record {
      steps = 0;
      reached = ground (arith, here);
      low = ground (arith, here);
      high = ground (arith, here);
      last = ground (arith, here, more);
    }
    | inr later ↦
        let on : double (v + step) ≡ v + step =
          double_exact (v + step) (ground (arith, more, exact)) in
        let n =
          values_from-IsNamed fuel (v + step) hi step min max w exact
            (ground (arith, h, more, later, on)) in
        record {
          steps = suc n.steps;
          reached = omega (arith, n.reached, step_on v n.steps step);
          low = n.low;
          high = n.high;
          last = n.last;
        }
  ]
]

named-values_from :
    (fuel v hi step min max w k : ℕ)
    → hi + step < first_inexact
    → 1 ≤ step
    → hi < v + fuel
    → w ≡ v + k * step
    → min ≤ w
    → w ≤ max
    → w ≤ hi
    → holds w (values_from fuel v hi step min max) ≡ true
unfolding values_from
named-values_from zero v hi step min max w k exact moves enough at low high last =
    absurd (omega (arith, at, last, enough))
named-values_from (suc fuel) v hi step min max w zero exact moves enough at low high last =
    ground (arith, at, low, high, last)
named-values_from (suc fuel) v hi step min max w (suc k) exact moves enough at low high last =
    let next : w ≡ v + step + k * step = omega (arith, at, step_on v k step) in
    let later =
      named-values_from fuel (v + step) hi step min max w k exact moves
        (omega (arith, enough, moves)) next low high last in
    let on : double (v + step) ≡ v + step =
      double_exact (v + step) (omega (arith, next, last, exact)) in
    ground (arith, later, next, last, on)

-- With a step of at least 1 and no number that is rounded, the loop over a range yields exactly the values that the range names:
-- it neither runs out of fuel nor misses one.
pub values_from_iff :
    (lo hi step min max w : ℕ)
    → hi + step < first_inexact
    → 1 ≤ step
    → (holds w (values_from (suc hi - lo) lo hi step min max) ≡ true) ↔ IsNamed lo hi step min max w
values_from_iff lo hi step min max w exact moves = (
  values_from-IsNamed (suc hi - lo) lo hi step min max w exact,
  λ n.
      named-values_from (suc hi - lo) lo hi step min max w n.steps exact moves (omega arith)
        n.reached n.low n.high n.last,
)
