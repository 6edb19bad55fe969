-- ===== src/Campaigns/Scheduling/Earliest.antt =====
-- What `project_into_window` promises: an instant of a window, the earliest one from the bound on.
use native.Mathlib.Decide.{dec_lt}
use email_outreach_platform.Base.{ℕ, ◌+◌, ◌≤◌, ◌<◌, ◌≡◌, some, arith}
use email_outreach_platform.Campaigns.Scheduling.{
  WindowSettings, Zone, window_start, window_end, at, project_in, project_day, project_into_window,
}
use email_outreach_platform.Campaigns.Scheduling.Projection.{InWindow, project_from-FirstDay}

-- A day's window ends before a later day's begins.
unfoldable pub AreOrdered : Zone → WindowSettings → Type 0
AreOrdered zone s =
    (c d end start : ℕ)
    → c < d
    → window_end zone s c ≡ some end
    → window_start zone s d ≡ some start
    → end ≤ start

module _ (zone : Zone) (s : WindowSettings) (lower max_days t : ℕ) where
  -- The instant found is not before the bound, and lies in the window of an allowed local day that is
  -- less than `max_days` after the bound's local day.
  pub project-InWindow :
      project_into_window zone s lower max_days ≡ some t
      → (lower ≤ t)
        × ((d : ℕ) × (zone.local_day lower ≤ d)
            × (d < zone.local_day lower + max_days)
            × InWindow zone s d t)
  unfolding project_into_window
  project-InWindow h =
      let f = project_from-FirstDay zone s lower max_days (zone.local_day lower) t h in
      (f.later, (f.day, f.from_day, f.within, f.inside))

  same : (d e : ℕ) → ¬ (d < e) → ¬ (e < d) → d ≡ e
  same d e a b = omega arith

  found_first :
      (d u : ℕ) → project_day zone s lower d ≡ at t → InWindow zone s d u → lower ≤ u → t ≤ u
  unfolding project_day project_in
  found_first d u h w later =
      ground (arith, w.allowed, w.starts, w.ends, w.from_start, w.before_end)

  -- With windows that follow each other day by day, no instant between the bound and the one found is
  -- passed over that lies in the window of the bound's local day or of a later one.
  pub project-earliest :
      project_into_window zone s lower max_days ≡ some t
      → AreOrdered zone s
      → (d u : ℕ) → zone.local_day lower ≤ d
      → InWindow zone s d u
      → lower ≤ u
      → t ≤ u
  unfolding project_into_window AreOrdered
  project-earliest h ordered d u from w later =
      let f = project_from-FirstDay zone s lower max_days (zone.local_day lower) t h in
      elim (dec_lt d f.day) [
        | yes before ↦ absurd (omega (arith, f.skipped d u from before w))
        | no early ↦ elim (dec_lt f.day d) [
          | yes after ↦ omega (
            arith,
            ordered f.day d f.inside.end w.start after f.inside.ends w.starts,
            f.inside.before_end,
            w.from_start,
          )
          | no late ↦ found_first d u (rw (same d f.day early late) f.found) w later
        ]
      ]
