-- ===== src/Alerts/Worst.antt =====
-- The loop of `_wired_level`: what it counts, and which devices it names.
use nautobot_maps.Prelude.{
  ℕ, ◌+◌, ◌≤◌, max, ◌≡◌, ap, ◌∙◌, not, ◌&&◌, List, [], ◌∷◌, ◌++◌, String, ◌==◌, arith,
  if◌then◌else◌, sym,
}
use mathlib.Core.List.{append_assoc, append-nil}
use nautobot_maps.Level.{Level, unset, rank, level_eq}
use nautobot_maps.Alerts.Device.{Device, Source, is_down}
use nautobot_maps.Alerts.Severity.{Worst, worst_of, shown_name, next_worst, none_down}

-- How many of the devices are down.
unfoldable pub down_total : List Device → ℕ
down_total [] = 0
down_total (d ∷ l) = (if is_down d then 1 else 0) + down_total l

module _ (level_of : Device → Level × Source) where
  -- The highest rank of the down devices' own levels.
  unfoldable pub max_rank : List Device → ℕ
  max_rank [] = 0
  max_rank (d ∷ l) = max (if is_down d then rank (level_of d).0 else 0) (max_rank l)

  -- The device's name, if it is down with a level of that rank.
  abbrev pub named : ℕ → Device → List String
  named r d =
      if is_down d && not (level_eq (level_of d).0 unset) && rank (level_of d).0 == r
      then shown_name d ∷ []
      else []

  -- The names of the down devices whose level has that rank.
  unfoldable pub names_at : ℕ → List Device → List String
  names_at r [] = []
  names_at r (d ∷ l) = named r d ++ names_at r l

  next_worst-rank :
      (w : Worst) (d : Device)
      → rank (next_worst w d (level_of d)).level
        ≡ max (rank w.level) (if is_down d then rank (level_of d).0 else 0)
  unfolding next_worst
  next_worst-rank w d = ground arith

  pub worst_of-rank :
      (w : Worst) (l : List Device)
      → rank (worst_of level_of w l).level ≡ max (rank w.level) (max_rank l)
  unfolding worst_of max_rank
  worst_of-rank w [] = ground arith
  worst_of-rank w (d ∷ l) =
      omega (arith, worst_of-rank (next_worst w d (level_of d)) l, next_worst-rank w d)

  next_worst-count :
      (w : Worst) (d : Device)
      → (next_worst w d (level_of d)).down_count ≡ w.down_count + (if is_down d then 1 else 0)
  unfolding next_worst
  next_worst-count w d = ground arith

  pub worst_of-count :
      (w : Worst) (l : List Device)
      → (worst_of level_of w l).down_count ≡ w.down_count + down_total l
  unfolding worst_of down_total
  worst_of-count w [] = omega arith
  worst_of-count w (d ∷ l) =
      omega (arith, worst_of-count (next_worst w d (level_of d)) l, next_worst-count w d)

  -- The names kept so far, if no later device is worse.
  abbrev pub kept : ℕ → Worst → List String
  kept r w = if rank w.level == r then w.names else []

  next_worst-names :
      (r : ℕ) (w : Worst) (d : Device)
      → rank w.level ≤ r
      → (if is_down d then rank (level_of d).0 else 0) ≤ r
      → kept r (next_worst w d (level_of d)) ≡ kept r w ++ named r d
  unfolding next_worst
  next_worst-names r w d h k = ground (arith, append-nil w.names, append-nil (kept r w))

  worst_of-names :
      (r : ℕ) (w : Worst) (l : List Device)
      → rank w.level ≤ r
      → max_rank l ≤ r
      → kept r (worst_of level_of w l) ≡ kept r w ++ names_at r l
  unfolding worst_of max_rank names_at
  worst_of-names r w [] h k = sym (append-nil (kept r w))
  worst_of-names r w (d ∷ l) h k =
      worst_of-names r (next_worst w d (level_of d)) l (omega (arith, next_worst-rank w d))
        (omega arith)
      ∙ ap (λ x. x ++ names_at r l) (next_worst-names r w d h (omega arith))
      ∙ append_assoc (kept r w) (named r d) (names_at r l)

  -- The loop ends with the names of the down devices of the worst level, in order, and no others.
  pub worst_of-names_at :
      (l : List Device) → (worst_of level_of none_down l).names ≡ names_at (max_rank l) l
  worst_of-names_at l = ground (
    arith,
    worst_of-names (max_rank l) none_down l (omega arith) (omega arith),
    worst_of-rank none_down l,
  )
