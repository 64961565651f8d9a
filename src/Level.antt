-- ===== src/Level.antt =====
-- The alert levels: `LEVEL_RANK` of api/app/services/notify_service.py, and the texts that a level
-- can be. `unset` is the empty text.
use nautobot_maps.Prelude.{ℕ, Bool, true, false}

pub data Level : Type 0 where
  unset ok no_data low medium critical maintenance : Level

-- `LEVEL_RANK.get(level, 0)`
abbrev pub rank : Level → ℕ
rank low = 1
rank medium = 2
rank critical = 3
rank _ = 0

-- `level == other`, for two levels.
abbrev pub level_eq : Level → Level → Bool
level_eq unset unset = true
level_eq ok ok = true
level_eq no_data no_data = true
level_eq low low = true
level_eq medium medium = true
level_eq critical critical = true
level_eq maintenance maintenance = true
level_eq _ _ = false
