-- ===== src/Scheduler/Key.antt =====
-- The text of an `email.send` key, `{message_id}:{dispatch_generation}`, and how
-- `publish_pending_deliveries` of backend/app/modules/scheduler/service.py reads the generation from
-- it. `shown` is the text of a uuid. Of the digits of `str.isdigit` the model has the ASCII ones.
use email_outreach_platform.Base.{
  ℕ, zero, suc, ◌+◌, ◌-◌, ◌*◌, ◌/◌, ◌%◌, ◌<◌, ◌≡◌, refl, ap, ◌∙◌, inl, inr, Bool, true, false, ◌&&◌,
  [], ◌∷◌, ◌++◌, arith, ltb, leb, ◌==◌, if◌then◌else◌, Bool-cases, Text, contains, digits_onto,
  decimal,
}
use email_outreach_platform.Scheduler.Store.{WorkKey, email_send, other_work}

unfoldable pub semantic_key : (ℕ → Text) → WorkKey → Text
semantic_key shown (email_send mid generation) = shown mid ++ (58 ∷ decimal generation)
semantic_key shown (other_work kind key) = key

-- `t.split(":")[-1]`, with the part read so far in reverse order.
last_part_from : Text → Text → Text
last_part_from part [] = part
last_part_from part (c ∷ t) = if c == 58 then last_part_from t t else last_part_from part t

-- The text after the last colon, and the whole text where there is none.
unfoldable pub last_part : Text → Text
unfolding last_part_from
last_part t = last_part_from t t

all_digits : Text → Bool
all_digits [] = true
all_digits (c ∷ t) = leb 48 c && leb c 57 && all_digits t

unfoldable pub is_digits : Text → Bool
unfolding all_digits
is_digits [] = false
is_digits (c ∷ t) = all_digits (c ∷ t)

-- `int(t)` of digits, after the value so far.
int_from : ℕ → Text → ℕ
int_from n [] = n
int_from n (c ∷ t) = int_from (n * 10 + (c - 48)) t

-- `gen_str` and `dispatch_gen`
unfoldable pub generation_of_key : Text → ℕ
unfolding last_part is_digits int_from contains
generation_of_key key =
    if contains 58 key
    then (if is_digits (last_part key) then int_from 0 (last_part key) else 1)
    else 1

contains_colon : (t rest : Text) → contains 58 (t ++ (58 ∷ rest)) ≡ true
unfolding contains
contains_colon [] rest = refl
contains_colon (c ∷ t) rest = ground (arith, contains_colon t rest)

no_colon : (part t : Text) → all_digits t ≡ true → last_part_from part t ≡ part
unfolding last_part_from all_digits
no_colon part [] h = refl
no_colon part (c ∷ t) h =
    let rest : last_part_from part t ≡ part = no_colon part t (ground arith) in
    let other : (c == 58) ≡ false = ground arith in rw other rest

after_colon :
    (part t rest : Text) → all_digits rest ≡ true → last_part_from part (t ++ (58 ∷ rest)) ≡ rest
unfolding last_part_from
after_colon part [] rest h = no_colon rest rest h
after_colon part (c ∷ t) rest h = elim (Bool-cases (c == 58)) [
  | inl e ↦ rw e (after_colon _ t rest h)
  | inr e ↦ rw e (after_colon part t rest h)
]

digits_onto-digits :
    (fuel n : ℕ) (rest : Text)
    → all_digits rest ≡ true
    → all_digits (digits_onto fuel n rest) ≡ true
unfolding digits_onto all_digits
digits_onto-digits zero n rest h = h
digits_onto-digits (suc fuel) n rest h =
    let more = digits_onto-digits fuel (n / 10) ((48 + n % 10) ∷ rest) (ground arith) in
    ground arith

digits_onto-value :
    (fuel n : ℕ) (rest : Text) → n < fuel → int_from 0 (digits_onto fuel n rest) ≡ int_from n rest
unfolding digits_onto int_from
digits_onto-value zero n rest lt = absurd (omega (arith, lt))
digits_onto-value (suc fuel) n rest lt = elim (Bool-cases (ltb n 10)) [
  | inl e ↦ rw e (ap (λ v. int_from v rest) (omega arith))
  | inr e ↦
      let more = digits_onto-value fuel (n / 10) ((48 + n % 10) ∷ rest) (ground arith) in
      rw e (more ∙ ap (λ v. int_from v rest) (omega arith))
]

onto_some-digits :
    (fuel n c : ℕ) (rest : Text)
    → all_digits (c ∷ rest) ≡ true
    → is_digits (digits_onto fuel n (c ∷ rest)) ≡ true
unfolding digits_onto is_digits all_digits
onto_some-digits zero n c rest h = h
onto_some-digits (suc fuel) n c rest h =
    let more = onto_some-digits fuel (n / 10) (48 + n % 10) (c ∷ rest) (ground arith) in
    ground arith

decimal-digits : (n : ℕ) → (all_digits (decimal n) ≡ true) × (is_digits (decimal n) ≡ true)
unfolding decimal digits_onto is_digits all_digits
decimal-digits n =
    let more = onto_some-digits n (n / 10) (48 + n % 10) [] (ground arith) in
    (digits_onto-digits (suc n) n [] refl, ground arith)

-- The generation that a claim prints into the key of its work is the one that the publisher reads.
pub generation_round_trip :
    (shown : ℕ → Text) (mid generation : ℕ)
    → generation_of_key (semantic_key shown (email_send mid generation)) ≡ generation
unfolding generation_of_key semantic_key last_part decimal
generation_round_trip shown mid generation =
    let (all, digits) = decimal-digits generation in
    rw
      (
        contains_colon (shown mid) (decimal generation),
        after_colon (shown mid ++ (58 ∷ decimal generation)) (shown mid) (decimal generation) all,
        digits,
      )
      (digits_onto-value (suc generation) generation [] (omega arith))
