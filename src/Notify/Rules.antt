-- ===== src/Notify/Rules.antt =====
-- Which level changes are announced: `event_kind` and `dropped_below_minimum`.
use nautobot_maps.Prelude.{
  ℕ, Bool, true, false, ◌&&◌, List, [], ◌∷◌, Option, none, some, ltb, leb, if◌then◌else◌, any,
}
use nautobot_maps.Level.{Level, maintenance, rank, level_eq}
use nautobot_maps.Text.{Text, lower, strip, is_in, lookup_text}

-- The settings that the rules read; the levels are low, medium or critical.
pub record Settings : Type 0 where
  pub min_level : Level
  pub min_level_by_tier : List (Text × Level)
  pub tenants : List Text
  pub channels : List Text
  pub summary_threshold : ℕ

pub data Kind : Type 0 where
  alarm recovery : Kind

-- The rank of NOTIFY_MIN_LEVEL, or of the tier's own minimum.
unfoldable pub minimum : Settings → Text → ℕ
unfolding lower
minimum cfg tier =
    rank
      (elim (lookup_text (lower tier) cfg.min_level_by_tier) [ some l ↦ l | none ↦ cfg.min_level ])

unfoldable pub event_kind : Settings → Level → Level → Text → Option Kind
event_kind cfg from_level to_level tier =
    let least = minimum cfg tier in
    let before = rank from_level in
    let after = rank to_level in
    if level_eq to_level maintenance
    then none
    else if leb least after && ltb before after
    then some alarm
    else if leb least before && ltb after least
    then some recovery
    else none

unfoldable pub dropped_below_minimum : Settings → Level → Level → Text → Bool
dropped_below_minimum cfg from_level to_level tier =
    let least = minimum cfg tier in
    let before = rank from_level in
    let after = rank to_level in
    if level_eq to_level maintenance then false else ltb after before && ltb before least

-- NOTIFY_TENANTS empty means every tenant.
unfoldable pub tenant_matches : Settings → List Text → Bool
unfolding lower strip
tenant_matches cfg tenants = matching cfg.tenants
  where
    matching : List Text → Bool
    matching [] = true
    matching (t ∷ wanted) = any (λ tenant. is_in (lower (strip tenant)) (t ∷ wanted)) tenants
