-- ===== src/Campaigns/Pacing/Shares.antt =====
-- How the limits of mailboxes and campaigns are shared out.
use native.Mathlib.Decide.{dec_lt}
use native.Mathlib.Nat.{div-add-mod, mod-lt}
use email_outreach_platform.Base.{
  ℕ, zero, suc, ◌+◌, ◌-◌, ◌*◌, ◌/◌, ◌≤◌, ◌<◌, min, max, ◌≡◌, refl, ◌⊎◌, inl, inr, Option, none,
  some, List, [], ◌∷◌, arith, leb, if◌then◌else◌, All,
}
use email_outreach_platform.Campaigns.Pacing.{
  seconds_per_day, min_cap_window_seconds, MailboxPacing, PolicyRow, daily_equivalent, tightest_of,
  tightest_cap, largest_spacing, with_cap, pacing_from_policies, ceil_div, per_mailbox_daily,
  assigned, queue_position,
}

positive_factor : (n q : ℕ) → 0 < n * q → 0 < q
positive_factor n zero h = absurd (omega arith)
positive_factor n (suc q) h = omega arith

times_mono : (n a b : ℕ) → a ≤ b → n * a ≤ n * b
times_mono n a b h = grind arith

ceil_enough : (a n : ℕ) → 0 < n → a ≤ n * ceil_div a n
ceil_enough a n h = omega (arith, div-add-mod (a + (n - 1)) n, mod-lt (a + (n - 1)) h)

pred_times : (n q : ℕ) → 0 < q → n * q ≡ n * (q - 1) + n
pred_times n zero h = absurd (omega arith)
pred_times n (suc q) h = grind arith

ceil_positive : (a n : ℕ) → 0 < a → 0 < n → 0 < ceil_div a n
ceil_positive a n h k = positive_factor n (ceil_div a n) (omega (arith, ceil_enough a n k))

ceil_tight : (a n : ℕ) → 0 < a → 0 < n → n * (ceil_div a n - 1) < a
ceil_tight a n h k =
    omega (arith, pred_times n (ceil_div a n) (ceil_positive a n h k), div-add-mod (a + (n - 1)) n)

share_bounds :
    (cap share n limit : ℕ)
    → 1 ≤ cap
    → 1 ≤ share
    → limit ≤ n * share
    → n * (share - 1) < limit
    → (1 ≤ max 1 (min cap share))
      × (max 1 (min cap share) ≤ cap)
      × ((max 1 (min cap share) ≡ cap) ⊎ (limit ≤ n * max 1 (min cap share)))
      × (n * (max 1 (min cap share) - 1) < limit)
share_bounds cap share n limit hc hs enough tight =
    let less = times_mono n (max 1 (min cap share) - 1) (share - 1) (omega arith) in
    elim (dec_lt share cap) [
      | yes smaller ↦
          let m : max 1 (min cap share) ≡ share = omega arith in
          (omega arith, omega arith, inr (rw m enough), omega arith)
      | no bigger ↦ (omega arith, omega arith, inl (omega arith), omega arith)
    ]

-- A mailbox sends at least one message a day and never more than its own cap. Under a campaign limit
-- the mailboxes together reach the limit unless the cap stops them, and one message less for each
-- would not reach it.
pub per_mailbox_daily_bounds :
    (cap limit mailbox_count : ℕ)
    → 0 < limit
    → 0 < mailbox_count
    → (1 ≤ per_mailbox_daily cap (some limit) mailbox_count)
      × (per_mailbox_daily cap (some limit) mailbox_count ≤ max 1 cap)
      × ((per_mailbox_daily cap (some limit) mailbox_count ≡ max 1 cap)
          ⊎ (limit ≤ mailbox_count * per_mailbox_daily cap (some limit) mailbox_count))
      × (mailbox_count * (per_mailbox_daily cap (some limit) mailbox_count - 1) < limit)
unfolding per_mailbox_daily
per_mailbox_daily_bounds cap zero n h k = absurd (omega arith)
per_mailbox_daily_bounds cap (suc l) n h k =
    let one : max 1 n ≡ n = omega arith in
    rw one (
      share_bounds (max 1 cap) (ceil_div (suc l) n) n (suc l) (omega arith)
        (ceil_positive (suc l) n h k) (ceil_enough (suc l) n k) (ceil_tight (suc l) n h k))

-- Of two recipients that the round-robin gives to the same mailbox, the earlier one has the earlier
-- place in that mailbox's queue.
pub queue_position-ordered :
    (o p n : ℕ)
    → 0 < o
    → o < p
    → 0 < n
    → assigned o n ≡ assigned p n
    → queue_position o n < queue_position p n
unfolding queue_position assigned
queue_position-ordered o p n ho before hn same =
    let one : max 1 n ≡ n = omega arith in
    rw one (elim (dec_lt ((o - 1) / n) ((p - 1) / n)) [
      | yes less ↦ less
      | no more ↦ absurd (
          omega (
            arith,
            div-add-mod (o - 1) n,
            div-add-mod (p - 1) n,
            same,
            times_mono n ((p - 1) / n) ((o - 1) / n) (omega arith),
          ))
    ])

-- A cap for a day stays within the row's cap over its own window, save for the floor of one a day.
abbrev pub WithinRow : ℕ → PolicyRow → Type 0
WithinRow cap row = (cap ≤ 1) ⊎ (cap * row.window_seconds ≤ row.limit_value * seconds_per_day)

daily_WithinRow :
    (cap : ℕ) (row : PolicyRow)
    → 0 < row.window_seconds
    → cap ≤ daily_equivalent row.limit_value row.window_seconds
    → WithinRow cap row
unfolding daily_equivalent
daily_WithinRow cap row w h = elim (dec_lt 1 cap) [
  | yes more ↦
      let small : cap ≤ row.limit_value * seconds_per_day / row.window_seconds = omega arith in
      inr (
        omega (
          arith,
          div-add-mod (row.limit_value * seconds_per_day) row.window_seconds,
          times_mono row.window_seconds cap (row.limit_value * seconds_per_day / row.window_seconds)
              small,
        ))
  | no less ↦ inl (omega arith)
]

-- What a pacing owes to a row: its spacing, and its cap when the window is an hour or more.
abbrev pub Keeps : MailboxPacing → PolicyRow → Type 0
Keeps p row =
    (row.min_spacing_seconds ≤ p.min_spacing_seconds)
    × (min_cap_window_seconds ≤ row.window_seconds → WithinRow p.daily_cap row)

row_lem :
    (cap : ℕ) (row : PolicyRow) (rest : Option ℕ)
    → ((c : ℕ) → tightest_of row rest ≡ some c → cap ≤ c)
    → (min_cap_window_seconds ≤ row.window_seconds → WithinRow cap row)
      × ((c : ℕ) → rest ≡ some c → cap ≤ c)
unfolding tightest_of
row_lem cap row none f = (
  λ long.
      daily_WithinRow cap row (omega arith)
        (f (daily_equivalent row.limit_value row.window_seconds) (ground arith)),
  λ c h. absurd (cc),
)
row_lem cap row (some r) f =
    let least =
      f
        (if leb min_cap_window_seconds row.window_seconds
          then min (daily_equivalent row.limit_value row.window_seconds) r
          else r)
        refl in
    (
      λ long. daily_WithinRow cap row (omega arith) (ground (arith, least)),
      λ c h. ground (arith, least),
    )

rows_lem :
    (rows : List PolicyRow) (p : MailboxPacing)
    → ((c : ℕ) → tightest_cap rows ≡ some c → p.daily_cap ≤ c)
    → largest_spacing rows ≤ p.min_spacing_seconds
    → All (Keeps p) rows
unfolding tightest_cap largest_spacing
rows_lem [] p f h = tt
rows_lem (row ∷ rows) p f h =
    let (here, later) = row_lem p.daily_cap row (tightest_cap rows) f in
    ((omega arith, here), rows_lem rows p later (omega arith))

cap_cases :
    (o : Option ℕ) (spacing : ℕ) (default : MailboxPacing) (c : ℕ)
    → o ≡ some c
    → (with_cap o spacing default).daily_cap ≤ c
unfolding with_cap
cap_cases o spacing default c h = rw h (omega arith)

spacing_cases :
    (o : Option ℕ) (spacing : ℕ) (default : MailboxPacing)
    → spacing ≤ (with_cap o spacing default).min_spacing_seconds
unfolding with_cap
spacing_cases none spacing default = omega arith
spacing_cases (some c) spacing default = omega arith

-- The pacing of a mailbox keeps every one of its policy rows: its spacing is no less than the row's,
-- and where the row's window is an hour or more, its messages per day stay within the row's cap over
-- that window, save for the floor of one message a day.
pub pacing_from_policies-Keeps :
    (rows : List PolicyRow) (default : MailboxPacing)
    → All (Keeps (pacing_from_policies rows default)) rows
unfolding pacing_from_policies
pacing_from_policies-Keeps rows default =
    rows_lem rows (with_cap (tightest_cap rows) (largest_spacing rows) default)
      (cap_cases (tightest_cap rows) (largest_spacing rows) default)
      (spacing_cases (tightest_cap rows) (largest_spacing rows) default)
