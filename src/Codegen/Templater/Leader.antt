-- ===== src/Codegen/Templater/Leader.antt =====
-- The leader of a package.
use pggen.Prelude.{
  ℕ, suc, ◌+◌, ◌≡◌, refl, ◌∙◌, ap, ◌≢◌, Bool, true, false, List, [], ◌∷◌, Option, none, some, arith,
  take, get_elem?, Bool-cases, All, ◌⊎◌, inl, inr,
}
use pggen.Prelude.Text.{Text}
use pggen.GoType.Imports.{before}
use pggen.GoType.Imports.Sorted.{before_total}
use pggen.Codegen.ImportList.Kept.{before_trans}
use pggen.Codegen.Templater.{leader_loop, leader_index}

before_refl : (s : Text) → before s s ≡ true
unfolding before
before_refl [] = refl
before_refl (c ∷ s) = ground (arith, before_refl s)

-- The first of the least paths, at an index.
pub record IsLeast (sources : List Text) (j : ℕ) (path : Text) : Type 0 where
  pub at : get_elem? sources j ≡ some path
  pub least : All (λ q. before path q ≡ true) sources
  pub first : All (λ q. before q path ≡ false) (take j sources)

-- What the loop finds, if the least path so far is `least`.
abbrev Finds : ℕ → Option ℕ → Text → List Text → Type 0
Finds i found least sources =
    ((leader_loop i found least sources ≡ found) × All (λ q. before least q ≡ true) sources)
    ⊎ ((j : ℕ) × (path : Text) × (leader_loop i found least sources ≡ some (i + j))
        × (before least path ≡ false)
        × IsLeast sources j path)

not_less : (b : Bool) → (b ≡ true → ⊥) → b ≡ false
not_less b h = ground (arith, h)

leader_loop-Finds :
    (i : ℕ) (found : Option ℕ) (least : Text) (sources : List Text) → Finds i found least sources
unfolding leader_loop
leader_loop-Finds i found least [] = inl (refl, tt)
leader_loop-Finds i found least (p ∷ ps) = elim (Bool-cases (before least p)) [
  | inl e ↦ elim (leader_loop-Finds (suc i) found least ps) [
    | inl h ↦ inl (rw e h.0, (e, h.1))
    | inr (j, path, run, less, inv) ↦ inr (
      suc j,
      path,
      rw e (run ∙ ap some (omega arith)),
      less,
      record {
        at = inv.at;
        least = (before_trans path least p (before_total least path less) e, inv.least);
        first =
            (not_less (before p path) (λ q. cc (before_trans least p path e q, less)), inv.first);
      },
    )
  ]
  | inr e ↦ elim (leader_loop-Finds (suc i) (some i) p ps) [
    | inl h ↦ inr (
      0,
      p,
      rw e (h.0 ∙ ap some (omega arith)),
      e,
      record { at = refl; least = (before_refl p, h.1); first = tt },
    )
    | inr (j, path, run, less, inv) ↦ inr (
      suc j,
      path,
      rw e (run ∙ ap some (omega arith)),
      not_less (before least path)
          (λ q. cc (before_trans least path p q (before_total p path less), e)),
      record {
        at = inv.at;
        least = (before_total p path less, inv.least);
        first = (less, inv.first);
      },
    )
  ]
]

-- If there is a file, and every path stands before the greatest character, one file is the
-- leader: the first of those with the least path.
pub leader_index-IsLeast :
    (sources : List Text)
    → sources ≢ []
    → All (λ q. before (0x10FFFF ∷ []) q ≡ false) sources
    → (j : ℕ) × (path : Text) × (leader_index sources ≡ some j) × IsLeast sources j path
unfolding leader_index
leader_index-IsLeast [] ne below = absurd (ne refl)
leader_index-IsLeast (p ∷ ps) ne below = elim (leader_loop-Finds 0 none (0x10FFFF ∷ []) (p ∷ ps)) [
  | inl h ↦ absurd (cc (h.1.0, below.0))
  | inr (j, path, run, less, inv) ↦ (j, path, run ∙ ap some (omega arith), inv)
]
