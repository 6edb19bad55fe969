-- ===== src/Base/Rows.antt =====
-- Rows of a table as a list: what an UPDATE and a SELECT do with a WHERE clause.
use mathlib.Core.List.{Memᴰ}
use mathlib.Core.List.Memᴰ.{head, tail}
use email_outreach_platform.Base.Core.{
  refl, Bool, true, ◌≡◌, inl, inr, Bool-cases, is_some, All, Option, none, some, List, [], ◌∷◌,
  if◌then◌else◌,
}

-- An UPDATE of the rows that `p` holds of.
unfoldable pub update_where {ℓ} : {R : Type ℓ} → (R → Bool) → (R → R) → List R → List R
update_where p f [] = []
update_where p f (r ∷ rows) = (if p r then f r else r) ∷ update_where p f rows

-- The rows that a WHERE clause selects.
unfoldable pub select_where {ℓ} : {R : Type ℓ} → (R → Bool) → List R → List R
select_where p [] = []
select_where p (r ∷ rows) = if p r then r ∷ select_where p rows else select_where p rows

unfoldable pub first_where {ℓ} : {R : Type ℓ} → (R → Bool) → List R → Option R
first_where p [] = none
first_where p (r ∷ rows) = if p r then some r else first_where p rows

pub first_where-Mem {ℓ} :
    {R : Type ℓ} (p : R → Bool) (rows : List R)
    → is_some (first_where p rows) ≡ true
    → (r : R) × Memᴰ r rows × (p r ≡ true)
unfolding first_where
first_where-Mem p [] h = absurd (cc)
first_where-Mem p (r ∷ rows) h = elim (Bool-cases (p r)) [
  | inl e ↦ (r, head refl, e)
  | inr e ↦ let (s, there, q) = first_where-Mem p rows (rw e at h) in (s, tail there, q)
]

-- What the WHERE clause and the table give holds of every selected row.
pub select_where-All {ℓ κ} :
    {R : Type ℓ} (P : R → Type κ) (p : R → Bool) (rows : List R)
    → ((r : R) → Memᴰ r rows → p r ≡ true → P r)
    → All P (select_where p rows)
unfolding select_where
select_where-All P p [] h = tt
select_where-All P p (r ∷ rows) h =
    let rest = select_where-All P p rows (λ s there e. h s (tail there) e) in
    elim (Bool-cases (p r)) [ inl e ↦ rw e (h r (head refl) e, rest) | inr e ↦ rw e rest ]
