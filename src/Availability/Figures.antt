-- ===== src/Availability/Figures.antt =====
-- The figures that `_set_downtime` writes: what they measure, and their bounds.
use nautobot_maps.Prelude.{
  ℕ, zero, suc, ◌+◌, ◌-◌, ◌*◌, ◌/◌, ◌≤◌, ◌<◌, ◌≡◌, refl, ap, ◌∙◌, Bool, not, ◌&&◌, List, [], ◌∷◌,
  none, some, String, str_eq, ltb, leb, arith, any, filter, map, length, if◌then◌else◌, ◌%◌, ◌==◌,
}
use native.Mathlib.Nat.{div-add-mod, mod-lt}
use nautobot_maps.Availability.Interval.{Time, Interval, union, total_length}
use nautobot_maps.Availability.Union.{covers-union, union-IsNormal}
use nautobot_maps.Availability.Measure.{count_below, count_below_mono, total_length_of_covers}
use nautobot_maps.Availability.Reading.{WindowRow, IncidentRow}
use nautobot_maps.Availability.Maintenance.{site_window_at}
use nautobot_maps.Availability.Report.{
  DowntimeRow, set_outages, set_downtime, report_down, outage_seconds, sum, maximum, round_div,
}
use nautobot_maps.Availability.Downtime.{row_counts, report_down_exact}

downtime-set_outages :
    (row : DowntimeRow) (l : List Interval) (end : Time)
    → (set_outages row l end).downtime ≡ union l
unfolding set_outages
downtime-set_outages row [] end = refl
downtime-set_outages row (i ∷ l) end = refl

-- An instant that the report counts as down time of the site, by the rows of the tables.
abbrev pub counts_at : List WindowRow → List IncidentRow → Time → Time → Time → String → Time → Bool
counts_at windows incidents start end at j t =
    (leb start t && ltb t end)
    && (any (λ r. str_eq j r.site_id && row_counts at t windows r) incidents
        && not (site_window_at t j windows))

-- The intervals that a site's `downtime_seconds` adds up have in total as many microseconds as the
-- period has instants that some incident outside all maintenance makes down time: devices down
-- together count once.
pub set_downtime-report_down :
    (row : DowntimeRow) (windows : List WindowRow) (incidents : List IncidentRow)
    (start end at : Time) (j : String)
    → total_length (set_downtime row (report_down windows incidents start end at j) end).downtime
      ≡ count_below end (counts_at windows incidents start end at j)
unfolding set_downtime
set_downtime-report_down row windows incidents start end at j =
    let down = union (report_down windows incidents start end at j) in
    ap total_length (downtime-set_outages row down end)
    ∙ total_length_of_covers end (union down) (counts_at windows incidents start end at j)
        (union-IsNormal down)
        (λ t.
          covers-union t down
          ∙ covers-union t (report_down windows incidents start end at j)
          ∙ report_down_exact windows incidents start end at t j)
        (λ t h. ground arith)

count_below-from : (n start : ℕ) → count_below n (λ t. leb start t) ≡ n - start
unfolding count_below
count_below-from zero start = omega arith
count_below-from (suc n) start = ground (arith, count_below-from n start)

-- No site is down for longer than the period.
pub downtime-le-period :
    (row : DowntimeRow) (windows : List WindowRow) (incidents : List IncidentRow)
    (start end at : Time) (j : String)
    → total_length (set_downtime row (report_down windows incidents start end at j) end).downtime
      ≤ end - start
downtime-le-period row windows incidents start end at j =
    rw (set_downtime-report_down row windows incidents start end at j) (
      rw (← count_below-from end start) (
        count_below_mono end (counts_at windows incidents start end at j) (λ t. leb start t)
          (λ t h. ground arith)))

sum-le : (m : ℕ) (l : List ℕ) → maximum l ≤ m → sum l ≤ length l * m
sum-le m [] h = omega arith
sum-le m (x ∷ l) h = grind (arith, sum-le m l)

maximum-filter :
    (p : Interval → Bool) (l : List Interval)
    → maximum (map outage_seconds (filter p l)) ≤ maximum (map outage_seconds l)
maximum-filter p [] = omega arith
maximum-filter p (i ∷ l) = ground (arith, maximum-filter p l)

quotient_le : (q r d m : ℕ) → d * q + r ≤ d * m → r < d → q ≤ m
quotient_le q r d m h k = grind arith

quotient_lt : (q r d m : ℕ) → d * q + r ≤ d * m → 0 < r → q < m
quotient_lt q r d m h k = grind arith

round_div-le : (n d m : ℕ) → 0 < d → n ≤ d * m → round_div n d ≤ m
unfolding round_div
round_div-le n d m h k =
    let split : d * (n / d) + n % d ≤ d * m = omega (arith, div-add-mod n d) in
    let small : n % d < d = mod-lt n h in
    ground
      (arith, quotient_le (n / d) (n % d) d m split small, quotient_lt (n / d) (n % d) d m split)

mean-le-maximum :
    (restored lengths : List ℕ) (m : ℕ)
    → maximum restored ≤ maximum lengths
    → (if length restored == 0 then none else some (round_div (sum restored) (length restored)))
      ≡ some m
    → m ≤ maximum lengths
mean-le-maximum [] lengths m h e = cc
mean-le-maximum (x ∷ r) lengths m h e = ground (
  arith,
  round_div-le (sum (x ∷ r)) (length (x ∷ r)) (maximum lengths) (omega arith)
      (sum-le (maximum lengths) (x ∷ r) h),
)

mean_of_outages :
    (row : DowntimeRow) (l : List Interval) (end : Time) (m : ℕ)
    → 0 < (set_outages row l end).outages
    → (set_outages row l end).mean_outage_seconds ≡ some m
    → m ≤ (set_outages row l end).longest_outage_seconds
unfolding set_outages
mean_of_outages row [] end m h e = absurd (omega arith)
mean_of_outages row (i ∷ l) end m h e =
    mean-le-maximum (map outage_seconds (filter (λ o. ltb o.1 end) (i ∷ l)))
      (map outage_seconds (i ∷ l)) m (maximum-filter (λ o. ltb o.1 end) (i ∷ l)) e

-- When a site had an outage and the mean time to restore is known, it is not above the longest
-- outage.
pub mean-le-longest :
    (row : DowntimeRow) (down : List Interval) (end : Time) (m : ℕ)
    → 0 < (set_downtime row down end).outages
    → (set_downtime row down end).mean_outage_seconds ≡ some m
    → m ≤ (set_downtime row down end).longest_outage_seconds
unfolding set_downtime
mean-le-longest row down end m = mean_of_outages row (union down) end m
