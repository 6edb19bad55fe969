-- ===== src/Sending/Gates/Address.antt =====
-- What the regular expression and the line-break test accept together.
use email_outreach_platform.Base.{
  ℕ, ◌≡◌, refl, ap, ◌∙◌, ◌≢◌, ◌↔◌, inl, inr, true, false, ◌&&◌, ◌||◌, [], ◌∷◌, ◌++◌, arith, ◌==◌,
  Bool-cases, All, Text, contains, is_space,
}
use email_outreach_platform.Sending.Gates.{recipient_rejected}
use email_outreach_platform.Sending.Gates.Email.{
  is_plain, ends_plain, domain_rest, domain, local_rest, is_email,
}

abbrev Plain : Text → Type 0
Plain = All (λ c. is_plain c ≡ true)

abbrev pub NonEmpty : Text → Type 0
NonEmpty [] = ⊥
NonEmpty (c ∷ s) = Unit

-- local@domain.last, with three parts that are not empty and have neither `@` nor white space.
pub record IsAddress (t : Text) : Type 0 where
  pub local : Text
  pub host : Text
  pub last : Text
  pub shape : t ≡ local ++ (b'@' ∷ (host ++ (b'.' ∷ last)))
  pub local_plain : NonEmpty local × All (λ c. is_plain c ≡ true) local
  pub host_plain : NonEmpty host × All (λ c. is_plain c ≡ true) host
  pub last_plain : NonEmpty last × All (λ c. is_plain c ≡ true) last

-- Completeness: a text of that shape is accepted.
ends_of_Plain : (s : Text) → NonEmpty s → Plain s → ends_plain s ≡ true
unfolding ends_plain
ends_of_Plain [] n h = absurd n
ends_of_Plain (c ∷ []) n h = h.0
ends_of_Plain (c ∷ d ∷ []) n h = ground arith
ends_of_Plain (c ∷ d ∷ e ∷ s) n h = ground (arith, ends_of_Plain (d ∷ e ∷ s) tt h.1)

domain_rest_of :
    (s last : Text) → Plain s → ends_plain last ≡ true → domain_rest (s ++ (b'.' ∷ last)) ≡ true
unfolding domain_rest
domain_rest_of [] last h e = ground arith
domain_rest_of (c ∷ s) last h e = ground (arith, domain_rest_of s last h.1 e)

local_rest_of :
    (s rest : Text) → Plain s → domain rest ≡ true → local_rest (s ++ (b'@' ∷ rest)) ≡ true
unfolding local_rest
local_rest_of [] rest h e = ground arith
local_rest_of (c ∷ s) rest h e = ground (arith, local_rest_of s rest h.1 e)

-- Soundness: what is accepted and has no line feed has that shape.
ends_plain-Plain : (s : Text) → ends_plain s ≡ true → contains 10 s ≡ false → NonEmpty s × Plain s
unfolding ends_plain contains
ends_plain-Plain [] h n = cc
ends_plain-Plain (c ∷ []) h n = (tt, (h, tt))
ends_plain-Plain (c ∷ d ∷ []) h n = ground arith
ends_plain-Plain (c ∷ d ∷ e ∷ s) h n = ground (arith, ends_plain-Plain (d ∷ e ∷ s))

-- The two parts of the domain, the first of which may be empty here.
record Domain (s : Text) : Type 0 where
  front : Text
  last : Text
  shape : s ≡ front ++ (b'.' ∷ last)
  front_plain : Plain front
  last_plain : NonEmpty last × Plain last

Domain-cons : (c : ℕ) (s : Text) → is_plain c ≡ true → Domain s → Domain (c ∷ s)
Domain-cons c s p r = record {
  front = c ∷ r.front;
  last = r.last;
  shape = ap (λ t. c ∷ t) r.shape;
  front_plain = (p, r.front_plain);
  last_plain = r.last_plain;
}

domain_rest-Domain : (s : Text) → domain_rest s ≡ true → contains 10 s ≡ false → Domain s
unfolding domain_rest contains
domain_rest-Domain [] h n = absurd (cc)
domain_rest-Domain (c ∷ s) h n = elim (Bool-cases (c == b'.' && ends_plain s)) [
  | inl here ↦ record {
    front = [];
    last = s;
    shape = ground arith;
    front_plain = tt;
    last_plain = ends_plain-Plain s (ground arith) (ground arith);
  }
  | inr later ↦ Domain-cons c s (ground arith) (domain_rest-Domain s (ground arith) (ground arith))
]

-- What stands before the `@`, which may be empty here, and the domain.
record Split (s : Text) : Type 0 where
  before : Text
  after : Text
  shape : s ≡ before ++ (b'@' ∷ after)
  before_plain : Plain before
  after_ok : domain after ≡ true
  no_feed : contains 10 after ≡ false

Split-cons : (c : ℕ) (s : Text) → is_plain c ≡ true → Split s → Split (c ∷ s)
Split-cons c s p r = record {
  before = c ∷ r.before;
  after = r.after;
  shape = ap (λ t. c ∷ t) r.shape;
  before_plain = (p, r.before_plain);
  after_ok = r.after_ok;
  no_feed = r.no_feed;
}

local_rest-Split : (s : Text) → local_rest s ≡ true → contains 10 s ≡ false → Split s
unfolding local_rest contains
local_rest-Split [] h n = absurd (cc)
local_rest-Split (c ∷ s) h n = elim (Bool-cases (c == b'@' && domain s)) [
  | inl here ↦ record {
    before = [];
    after = s;
    shape = ground arith;
    before_plain = tt;
    after_ok = ground arith;
    no_feed = ground arith;
  }
  | inr later ↦ Split-cons c s (ground arith) (local_rest-Split s (ground arith) (ground arith))
]

is_email-IsAddress : (t : Text) → is_email t ≡ true → contains 10 t ≡ false → IsAddress t
unfolding is_email contains domain Domain-cons
is_email-IsAddress [] h n = absurd (cc)
is_email-IsAddress (c ∷ s) h n =
    join c s (ground arith) (local_rest-Split s (ground arith) (ground arith))
  where
    host_of :
        (a : Text) → domain a ≡ true → contains 10 a ≡ false → (r : Domain a) × NonEmpty r.front
    host_of [] h n = absurd (cc)
    host_of (d ∷ a) h n =
        let r = domain_rest-Domain a (ground arith) (ground arith) in
        (Domain-cons d a (ground arith) r, tt)

    join : (c : ℕ) (s : Text) → is_plain c ≡ true → Split s → IsAddress (c ∷ s)
    join c s p r =
        let (w, w_ne) = host_of r.after r.after_ok r.no_feed in
        record {
          local = c ∷ r.before;
          host = w.front;
          last = w.last;
          shape = ap (λ t. c ∷ t) (r.shape ∙ ap (λ a. r.before ++ (b'@' ∷ a)) w.shape);
          local_plain = (tt, (p, r.before_plain));
          host_plain = (w_ne, w.front_plain);
          last_plain = w.last_plain;
        }

module _ (x : ℕ) (x_space : is_plain x ≡ false) where
  contains-Plain : (s : Text) → Plain s → contains x s ≡ false
  unfolding contains
  contains-Plain [] h = refl
  contains-Plain (c ∷ s) h = ground (arith, contains-Plain s h.1)

contains-append : (x : ℕ) (s t : Text) → contains x (s ++ t) ≡ (contains x s || contains x t)
unfolding contains
contains-append x [] t = refl
contains-append x (c ∷ s) t = ground (arith, contains-append x s t)

IsAddress-email : (t : Text) → IsAddress t → is_email t ≡ true
unfolding is_email domain
IsAddress-email t r = rw r.shape (go r.local r.host r.last r.local_plain r.host_plain r.last_plain)
  where
    go :
        (l h e : Text)
        → NonEmpty l × Plain l
        → NonEmpty h × Plain h
        → NonEmpty e × Plain e
        → is_email (l ++ (b'@' ∷ (h ++ (b'.' ∷ e)))) ≡ true
    go [] h e pl ph pe = absurd pl.0
    go (c ∷ l) [] e pl ph pe = absurd ph.0
    go (c ∷ l) (d ∷ h) e pl ph pe = ground (
      arith,
      local_rest_of l (d ∷ (h ++ (b'.' ∷ e))) pl.1.1,
      domain_rest_of h e ph.1.1 (ends_of_Plain e pe.0 pe.1),
    )

IsAddress-no_break :
    (x : ℕ) (t : Text)
    → is_plain x ≡ false
    → x ≢ b'@'
    → x ≢ b'.'
    → IsAddress t
    → contains x t ≡ false
unfolding contains
IsAddress-no_break x t p a d r = rw r.shape (
    ground (
      arith,
      contains-append x r.local (b'@' ∷ (r.host ++ (b'.' ∷ r.last))),
      contains-append x r.host (b'.' ∷ r.last),
      contains-Plain x p r.local r.local_plain.1,
      contains-Plain x p r.host r.host_plain.1,
      contains-Plain x p r.last r.last_plain.1,
    ))

plain_breaks : (is_plain 10 ≡ false) × (is_plain 13 ≡ false)
unfolding is_plain is_space
plain_breaks = (refl, refl)

-- A destination is accepted exactly when it is local@domain.last with three parts that are not empty
-- and have neither `@` nor white space, line breaks included.
pub recipient_accepted_iff : (t : Text) → (recipient_rejected t ≡ false) ↔ IsAddress t
unfolding recipient_rejected
recipient_accepted_iff t = (
  (λ h. is_email-IsAddress t (ground arith) (ground arith)),
  (λ r. ground (
    arith,
    IsAddress-email t r,
    IsAddress-no_break 10 t plain_breaks.0 (omega arith) (omega arith) r,
    IsAddress-no_break 13 t plain_breaks.1 (omega arith) (omega arith) r,
  )),
)
