-- ===== src/Campaigns/Scheduling/Windows.antt =====
-- The windows that a calendar finds, and that an instant of one is kept by `project_into_window`.
use mathlib.Core.Path.{subst}
use email_outreach_platform.Base.{
  ℕ, zero, suc, ◌+◌, ◌-◌, ◌≤◌, ◌<◌, min, max, ◌≡◌, refl, inl, inr, Bool, true, false, Option, none,
  some, List, [], ◌∷◌, ◌++◌, arith, leb, Bool-cases, length, All,
}
use email_outreach_platform.Campaigns.Scheduling.{
  WindowSettings, is_allowed_day, Zone, window_start, window_end, project_in, project_day,
  project_from, project_into_window,
}
use email_outreach_platform.Campaigns.Scheduling.Calendar.{
  Calendar, new_calendar, day_window, window_of_day, after_window, find_from, find_next, after_find,
  fill, nth, pick_from, pick, window,
}
use email_outreach_platform.Campaigns.Scheduling.Projection.{InWindow}

-- The part of an allowed day's window that is not before the campaign's start.
pub record IsWindow (zone : Zone) (s : WindowSettings) (lower : ℕ) (w : ℕ × ℕ) : Type 0 where
  pub day : ℕ
  pub allowed : is_allowed_day s.weekday_set day ≡ true
  pub start : ℕ
  pub starts : window_start zone s day ≡ some start
  pub ends : window_end zone s day ≡ some w.1
  pub clipped : w.0 ≡ max start lower
  pub is_open : start < w.1
  pub is_ahead : lower < w.1

module _ {ℓ κ} {A : Type ℓ} (P : A → Type κ) where
  All-snoc : (xs : List A) (x : A) → All P xs → P x → All P (xs ++ (x ∷ []))
  All-snoc [] x h p = (p, tt)
  All-snoc (y ∷ xs) x h p = (h.0, All-snoc xs x h.1 p)

length-snoc : (w : ℕ × ℕ) (xs : List (ℕ × ℕ)) → length (xs ++ (w ∷ [])) ≡ length xs + 1
length-snoc w [] = refl
length-snoc w (x ∷ xs) = omega (arith, length-snoc w xs)

module _ (P : ℕ × ℕ → Type 0) where
  All-nth : (xs : List (ℕ × ℕ)) (i : ℕ) (w : ℕ × ℕ) → All P xs → nth xs i ≡ some w → P w
  unfolding nth
  All-nth [] i w h e = absurd (cc)
  All-nth (x ∷ xs) zero w h e = subst P (cc) h.0
  All-nth (x ∷ xs) (suc i) w h e = All-nth xs i w h.1 e

module _ (zone : Zone) (s : WindowSettings) (lower : ℕ) where
  abbrev pub Windows : Calendar → Type 0
  Windows cal = All (IsWindow zone s lower) cal.windows

  day_window_lem :
      (start end : Option ℕ) (w : ℕ × ℕ)
      → day_window lower start end ≡ some (some w)
      → (a : ℕ) × (start ≡ some a)
        × (end ≡ some w.1)
        × (w.0 ≡ max a lower)
        × (a < w.1)
        × (lower < w.1)
  unfolding day_window
  day_window_lem none end w h = absurd (cc)
  day_window_lem (some a) none w h = absurd (cc)
  day_window_lem (some a) (some b) w h =
      (a, refl, ground arith, ground arith, ground arith, ground arith)

  window_of_day-IsWindow :
      (d : ℕ) (w : ℕ × ℕ) → window_of_day zone s lower d ≡ some (some w) → IsWindow zone s lower w
  unfolding window_of_day
  window_of_day-IsWindow d w h =
      let (a, starts, ends, clipped, opened, ahead) =
        day_window_lem (window_start zone s d) (window_end zone s d) w (ground arith) in
      record {
        day = d;
        allowed = ground arith;
        start = a;
        starts = starts;
        ends = ends;
        clipped = clipped;
        is_open = opened;
        is_ahead = ahead;
      }

  -- What a search of `k` days leaves behind when it raises no error.
  pub data Searched (cal : Calendar) (k : ℕ) : Option (Bool × Calendar) → Type 0 where
    raised : Searched cal k none
    added :
        (after : Calendar)
        → Windows after
        → after.last_date ≡ cal.last_date
        → length after.windows ≡ length cal.windows + 1
        → Searched cal k (some (true, after))
    exhausted :
        (after : Calendar)
        → Windows after
        → after.last_date ≡ cal.last_date
        → after.next_date ≡ cal.next_date + k
        → Searched cal k (some (false, after))

  later :
      (cal : Calendar) (k : ℕ) (r : Option (Bool × Calendar))
      → Searched (record cal { next_date = cal.next_date + 1 }) k r
      → Searched cal (suc k) r
  later cal k _ raised = raised
  later cal k _ (added after ws l n) = added after ws l n
  later cal k _ (exhausted after ws l n) = exhausted after ws l (omega arith)

  after_window-Searched :
      (cal : Calendar) (k : ℕ) (found : Option (Option (ℕ × ℕ))) (rest : Option (Bool × Calendar))
      → Windows cal
      → ((w : ℕ × ℕ) → found ≡ some (some w) → IsWindow zone s lower w)
      → Searched cal (suc k) rest
      → Searched cal (suc k) (after_window cal found rest)
  unfolding after_window
  after_window-Searched cal k none rest ws f r = raised
  after_window-Searched cal k (some none) rest ws f r = r
  after_window-Searched cal k (some (some w)) rest ws f r =
      added (record cal { next_date = cal.next_date + 1; windows = cal.windows ++ (w ∷ []) })
        (All-snoc (IsWindow zone s lower) cal.windows w ws (f w refl)) refl
        (length-snoc w cal.windows)

  -- A search keeps the windows of the calendar, and either adds one or comes to the horizon.
  pub find_from-Searched :
      (k : ℕ) (cal : Calendar) → Windows cal → Searched cal k (find_from zone s lower k cal)
  unfolding find_from
  find_from-Searched zero cal ws = exhausted cal ws refl (omega arith)
  find_from-Searched (suc k) cal ws =
      after_window-Searched cal k (window_of_day zone s lower cal.next_date)
        (find_from zone s lower k (record cal { next_date = cal.next_date + 1 })) ws
        (window_of_day-IsWindow cal.next_date)
        (later cal k (find_from zone s lower k (record cal { next_date = cal.next_date + 1 }))
          (find_from-Searched k (record cal { next_date = cal.next_date + 1 }) ws))

  -- What `window` has when its loop for the window `index` has ended.
  pub data Filled (index : ℕ) : Option Calendar → Type 0 where
    refused : Filled index none
    enough :
        (after : Calendar)
        → Windows after
        → index < length after.windows
        → Filled index (some after)
    at_horizon :
        (after : Calendar)
        → Windows after
        → after.last_date < after.next_date
        → Filled index (some after)

  after_find-Filled :
      (index : ℕ) (cal : Calendar) (r : Option (Bool × Calendar))
      (again : Calendar → Option Calendar)
      → Searched cal (cal.last_date + 1 - cal.next_date) r
      → ((after : Calendar)
          → Windows after
          → length after.windows ≡ length cal.windows + 1
          → Filled index (again after))
      → Filled index (after_find r again)
  unfolding after_find
  after_find-Filled index cal _ again raised f = refused
  after_find-Filled index cal _ again (added after ws l n) f = f after ws n
  after_find-Filled index cal _ again (exhausted after ws l n) f = at_horizon after ws (omega arith)

  -- `index + 1` rounds are enough: the calendar has the window of this index when the loop ends,
  -- unless the search has passed the horizon or raised.
  fill-Filled :
      (index k : ℕ) (cal : Calendar)
      → Windows cal
      → index < length cal.windows + k
      → Filled index (fill zone s lower index k cal)
  unfolding fill find_next
  fill-Filled index zero cal ws h = enough cal ws (omega arith)
  fill-Filled index (suc k) cal ws h = elim (Bool-cases (leb (length cal.windows) index)) [
    | inl more ↦ rw more (
        after_find-Filled index cal (find_next zone s lower cal) (fill zone s lower index k)
          (find_from-Searched (cal.last_date + 1 - cal.next_date) cal ws)
          (λ after ws' n. fill-Filled index k after ws' (omega arith)))
    | inr done ↦ rw done (enough cal ws (ground arith))
  ]

  nth_lem :
      (cal after : Calendar) (i : ℕ) (w : ℕ × ℕ) (found : Option (ℕ × ℕ))
      → nth cal.windows i ≡ found
      → Windows cal
      → pick_from cal found ≡ some (w, after)
      → IsWindow zone s lower w × Windows after
  unfolding pick_from
  nth_lem cal after i w none e ws h = absurd (cc)
  nth_lem cal after i w (some v) e ws h =
      let same : ◌≡◌ {A = (ℕ × ℕ) × Calendar} (v, cal) (w, after) = cc in
      subst (λ p. IsWindow zone s lower p.0 × Windows p.1) same
        (All-nth (IsWindow zone s lower) cal.windows i v ws e, ws)

  pick_lem :
      (index : ℕ) (r : Option Calendar) (w : ℕ × ℕ) (after : Calendar)
      → Filled index r
      → pick index r ≡ some (w, after)
      → IsWindow zone s lower w × Windows after
  unfolding pick
  pick_lem index _ w after refused h = absurd (cc)
  pick_lem index _ w after (enough cal ws e) h =
      nth_lem cal after (min index (length cal.windows - 1)) w
        (nth cal.windows (min index (length cal.windows - 1))) refl ws h
  pick_lem index _ w after (at_horizon cal ws e) h =
      nth_lem cal after (min index (length cal.windows - 1)) w
        (nth cal.windows (min index (length cal.windows - 1))) refl ws h

  -- Every window that `window` hands out is the rest of an allowed day's window.
  pub window-IsWindow :
      (index : ℕ) (cal : Calendar) (w : ℕ × ℕ) (after : Calendar)
      → Windows cal
      → window zone s lower index cal ≡ some (w, after)
      → IsWindow zone s lower w × Windows after
  unfolding window
  window-IsWindow index cal w after ws h =
      pick_lem index (fill zone s lower index (index + 1) cal) w after
        (fill-Filled index (index + 1) cal ws (omega arith)) h

-- An instant of a window that a new campaign's calendar hands out, of any index, is one that
-- `project_into_window` gives back unchanged, when the zone puts the instants of a day's window on
-- that day. The window itself is not empty and does not begin before the campaign's start.
pub window-kept :
    (zone : Zone) (s : WindowSettings) (lower index : ℕ) (w : ℕ × ℕ) (after : Calendar) (t days : ℕ)
    → ((d u : ℕ) → InWindow zone s d u → zone.local_day u ≡ d)
    → window zone s lower index (new_calendar zone lower) ≡ some (w, after)
    → w.0 ≤ t
    → t < w.1
    → (lower ≤ w.0) × (w.0 < w.1) × (project_into_window zone s t (suc days) ≡ some t)
unfolding new_calendar project_into_window project_from project_day project_in
window-kept zone s lower index w after t days on_day h from before =
    let held = (window-IsWindow zone s lower index (new_calendar zone lower) w after tt h).0 in
    let inside : InWindow zone s held.day t = record {
      allowed = held.allowed;
      start = held.start;
      end = w.1;
      starts = held.starts;
      ends = held.ends;
      from_start = omega (arith, held.clipped);
      before_end = before;
    } in
    (
      omega (arith, held.clipped),
      omega (arith, held.clipped, held.is_open, held.is_ahead),
      rw (on_day held.day t inside, held.allowed, held.starts, held.ends)
          (ground (arith, inside.from_start)),
    )
