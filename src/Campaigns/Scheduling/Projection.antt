-- ===== src/Campaigns/Scheduling/Projection.antt =====
-- The instant that `project_into_window` finds lies in a sending window.
use native.Mathlib.Decide.{ℕ_discrete}
use email_outreach_platform.Base.{
  ℕ, zero, suc, ◌+◌, ◌≤◌, ◌<◌, ◌≡◌, refl, ap, ◌∙◌, ◌⊎◌, inl, inr, true, Option, none, some, arith,
}
use email_outreach_platform.Campaigns.Scheduling.{
  WindowSettings, is_allowed_day, Zone, window_start, window_end, DayResult, failed, next_day, at,
  project_in, project_day, project_from,
}

-- `t` is inside the sending window of the allowed day `d`.
pub record InWindow (zone : Zone) (s : WindowSettings) (d t : ℕ) : Type 0 where
  pub allowed : is_allowed_day s.weekday_set d ≡ true
  pub start : ℕ
  pub end : ℕ
  pub starts : window_start zone s d ≡ some start
  pub ends : window_end zone s d ≡ some end
  pub from_start : start ≤ t
  pub before_end : t < end

module _ (zone : Zone) (s : WindowSettings) (lower : ℕ) where
  -- A day is passed over when it has no instant of a window at or after the bound.
  pub day_skipped :
      (d t : ℕ) → project_day zone s lower d ≡ next_day → InWindow zone s d t → t < lower
  unfolding project_day project_in
  day_skipped d t h w = ground (arith, w.allowed, w.starts, w.ends, w.from_start, w.before_end)

  -- What a day gives when its window's ends are known.
  project_in_found :
      (start end : Option ℕ) (t : ℕ)
      → project_in lower start end ≡ at t
      → (a : ℕ) × (b : ℕ) × (start ≡ some a) × (end ≡ some b) × (lower ≤ t) × (a ≤ t) × (t < b)
  unfolding project_in
  project_in_found none end t h = absurd (cc)
  project_in_found (some a) none t h = absurd (cc)
  project_in_found (some a) (some b) t h =
      (a, b, refl, refl, ground arith, ground arith, ground arith)

  pub day_found : (d t : ℕ) → project_day zone s lower d ≡ at t → (lower ≤ t) × InWindow zone s d t
  unfolding project_day
  day_found d t h =
      let (a, b, starts, ends, later, from, before) =
        project_in_found (window_start zone s d) (window_end zone s d) t (ground arith) in
      (
        later,
        record {
          allowed = ground arith;
          start = a;
          end = b;
          starts = starts;
          ends = ends;
          from_start = from;
          before_end = before;
        },
      )

  DayResult-cases : (r : DayResult) → (r ≡ failed) ⊎ ((r ≡ next_day) ⊎ ((t : ℕ) × (r ≡ at t)))
  DayResult-cases failed = inl refl
  DayResult-cases next_day = inr (inl refl)
  DayResult-cases (at t) = inr (inr (t, refl))

  -- The first of `k` days from `d` on that has an instant at or after the bound, which is `t`.
  pub record FirstDay (k d t : ℕ) : Type 0 where
    pub day : ℕ
    pub from_day : d ≤ day
    pub within : day < d + k
    pub later : lower ≤ t
    pub inside : InWindow zone s day t
    pub skipped : (c u : ℕ) → d ≤ c → c < day → InWindow zone s c u → u < lower
    pub found : project_day zone s lower day ≡ at t

  widen :
      (k d t : ℕ)
      → project_day zone s lower d ≡ next_day
      → FirstDay k (d + 1) t
      → FirstDay (suc k) d t
  widen k d t e f = record {
    day = f.day;
    from_day = omega (arith, f.from_day);
    within = omega (arith, f.within);
    later = f.later;
    inside = f.inside;
    skipped = λ c u from before w. elim (ℕ_discrete c d) [
      | yes q ↦ day_skipped d u e (rw q at w)
      | no n ↦ f.skipped c u (omega arith) before w
    ];
    found = f.found;
  }

  found_here : (k d t u : ℕ) → project_day zone s lower d ≡ at u → u ≡ t → FirstDay (suc k) d t
  found_here k d t u e q =
      let (later, inside) = day_found d t (e ∙ ap at q) in
      record {
        day = d;
        from_day = omega arith;
        within = omega arith;
        later = later;
        inside = inside;
        skipped = λ c v from before w. absurd (omega arith);
        found = e ∙ ap at q;
      }

  pub project_from-FirstDay : (k d t : ℕ) → project_from zone s lower k d ≡ some t → FirstDay k d t
  unfolding project_from
  project_from-FirstDay zero d t h = absurd (cc)
  project_from-FirstDay (suc k) d t h = elim (DayResult-cases (project_day zone s lower d)) [
    | inl e ↦ absurd (ground arith)
    | inr (inl e) ↦ widen k d t e (project_from-FirstDay k (d + 1) t (ground arith))
    | inr (inr (u, e)) ↦ found_here k d t u e (ground arith)
  ]
