-- ===== src/Fetch/Instants.antt =====
-- api/src/tabayyun/services/timeconv.py. Nanoseconds and datetimes (in microseconds) both count from
-- 0001-01-01T00:00:00Z instead of the epoch; the two origins are whole seconds apart, so every
-- rounding is the code's.
use Prim.Native.Nat.{◌+◌, ◌*◌, ◌/◌}
use tabayyun.Prelude.{ℕ, ◌≡◌, ◌≤◌, ◌<◌, arith, min, max, ◌-◌, ◌^◌}

abbrev pub epoch_ns : ℕ
epoch_ns = 62135596800000000000

abbrev pub core_ns_min : ℕ
core_ns_min = epoch_ns - 2 ^ 63

abbrev pub core_ns_max : ℕ
core_ns_max = epoch_ns + (2 ^ 63 - 1)

-- `ns // 1000`
unfoldable pub ns_to_datetime : ℕ → ℕ
ns_to_datetime ns = ns / 1000

-- `-(-ns // 1000)`
unfoldable pub ns_to_datetime_ceil : ℕ → ℕ
ns_to_datetime_ceil ns = (ns + 999) / 1000

unfoldable pub to_core_ns : ℕ → ℕ
to_core_ns ns = min (max ns core_ns_min) core_ns_max

unfoldable pub datetime_to_ns : ℕ → ℕ
datetime_to_ns value = value * 1000

-- A window stored in whole microseconds contains the window of nanoseconds, is less than a
-- microsecond wider on each side, and a whole microsecond is stored as it is.
pub window-contains :
    (start_ns end_ns : ℕ)
    → (datetime_to_ns (ns_to_datetime start_ns) ≤ start_ns)
      × (start_ns < datetime_to_ns (ns_to_datetime start_ns) + 1000)
      × (end_ns ≤ datetime_to_ns (ns_to_datetime_ceil end_ns))
      × (datetime_to_ns (ns_to_datetime_ceil end_ns) < end_ns + 1000)
      × ((us : ℕ)
          → (ns_to_datetime (datetime_to_ns us) ≡ us)
            × (ns_to_datetime_ceil (datetime_to_ns us) ≡ us))
unfolding datetime_to_ns ns_to_datetime ns_to_datetime_ceil
window-contains start_ns end_ns =
    (omega arith, omega arith, omega arith, omega arith, λ us. (omega arith, omega arith))
