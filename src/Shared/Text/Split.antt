-- ===== src/Shared/Text/Split.antt =====
-- Laws of `strings.Split`: what a split of a joined text gives.
use mathlib.Core.List.{cons-ne-nil}
use goscheduler.Shared.{ℕ, List, [], ◌∷◌, ◌++◌, ◌≡◌, ◌≢◌, refl, arith, All}
use goscheduler.Shared.Text.{Text, Lacks, split, join, cons_head}

module _ (sep : ℕ) where
  pub split-ne-nil : (s : Text) → split sep s ≢ []
  unfolding split
  split-ne-nil [] = cons-ne-nil [] []
  split-ne-nil (c ∷ s) = ground (arith, split-ne-nil s)

  -- A text without the separator is one part.
  pub split_single : (s : Text) → Lacks sep s → split sep s ≡ s ∷ []
  unfolding split
  split_single [] h = refl
  split_single (c ∷ s) h = ground (arith, split_single s h.1)

  pub split-append :
      (p rest : Text) → Lacks sep p → split sep (p ++ sep ∷ rest) ≡ p ∷ split sep rest
  unfolding split
  split-append [] rest h = ground arith
  split-append (c ∷ p) rest h = ground (arith, split-append p rest h.1)

  cons_head-Lacks :
      (c : ℕ) (ps : List Text) → c ≢ sep → All (Lacks sep) ps → All (Lacks sep) (cons_head c ps)
  cons_head-Lacks c [] h k = ((h, tt), tt)
  cons_head-Lacks c (p ∷ ps) h k = ((h, k.0), k.1)

  -- No part holds the separator.
  pub split-Lacks : (s : Text) → All (Lacks sep) (split sep s)
  unfolding split
  split-Lacks [] = (tt, tt)
  split-Lacks (c ∷ s) = ground (arith, split-Lacks s, cons_head-Lacks c (split sep s))

  pub split-join :
      (p : Text) (ps : List Text)
      → All (Lacks sep) (p ∷ ps)
      → split sep (join sep (p ∷ ps)) ≡ p ∷ ps
  split-join p [] h = split_single p h.0
  split-join p (q ∷ ps) h = rw (split-append p (join sep (q ∷ ps)) h.0, split-join q ps h.1)
