-- ===== src/Wallet/Email/Valid.antt =====
-- The address that Paystack is given is always an address (`resolvePaystackCustomerEmail` of
-- src/wallet/wallet.service.ts).
use Prim.Native.Char.{code, Char}
use Prim.Native.String
use text.Mathlib.TextLemmas.{nil-append, cons-append}
use oyana_backend.Base.{
  zero, suc, ltb, ◌==◌, eq_iff, subst, ⊤, Bool-cases, inl, inr, Option, none, some, String, ℕ, true,
  false, not, ◌&&◌, ◌≡◌, refl, List, [], ◌∷◌, ◌++◌, nat_eq, arith,
}
use oyana_backend.Base.Text.{chars_count, trim, to_lower, keep_chars, take_chars}
use oyana_backend.Profile.Schema.{Profile}
use oyana_backend.Wallet.Email.{
  codes, all, normalized_email, fallback_email, fallback_local_part, local_seed, phone_digits,
  is_valid_email, resolve_paystack_customer_email, is_configured_domain,
  resolve_paystack_fallback_email_domain, default_fallback_domain, is_mark, replace_leading_marks,
  is_plain, is_local_char, is_domain_char, is_domain, dot_inside, ends_in_top_level, is_top_level,
  is_letter, is_letter_or_digit, is_digit, is_lower_letter, after_local, from_local,
}

codes-append : (s t : String) → codes (String.◌++◌ s t) ≡ codes s ++ codes t
codes-append String.[] t = rw (nil-append t) refl
codes-append (String.◌∷◌ c s) t = rw (cons-append c s t, codes-append s t) refl

after_local-at :
    (xs ds : List ℕ)
    → all is_plain xs ≡ true
    → is_domain ds ≡ true
    → after_local (xs ++ b'@' ∷ ds) ≡ true
unfolding after_local
after_local-at [] ds h d = d
after_local-at (x ∷ xs) ds h d = ground (arith, after_local-at xs ds)

plain-domain_char : (c : ℕ) → is_domain_char c ≡ true → is_plain c ≡ true
unfolding is_domain_char is_letter is_digit is_lower_letter is_letter_or_digit
plain-domain_char c h = ground arith

plain-local_char : (c : ℕ) → is_local_char c ≡ true → is_plain c ≡ true
unfolding is_local_char is_letter is_digit is_lower_letter is_letter_or_digit
plain-local_char c h = ground arith

dot-top_level : (cs : List ℕ) → ends_in_top_level cs ≡ true → dot_inside cs ≡ true
unfolding ends_in_top_level is_top_level
dot-top_level [] h = absurd (ground arith)
dot-top_level (c ∷ []) h = absurd (ground arith)
dot-top_level (c ∷ d ∷ []) h = absurd (ground arith)
dot-top_level (c ∷ d ∷ e ∷ cs) h = ground (arith, dot-top_level (d ∷ e ∷ cs))

-- characters that may stand in an address
abbrev IsPlain : String → Type 0
IsPlain s = all is_plain (codes s) ≡ true

keep_chars-IsPlain : (s : String) → IsPlain (keep_chars is_local_char s)
unfolding keep_chars
keep_chars-IsPlain String.[] = refl
keep_chars-IsPlain (String.◌∷◌ c s) = elim (Bool-cases (is_local_char (code c))) [
  | inl kept ↦ rw (kept, plain-local_char (code c) kept) (keep_chars-IsPlain s)
  | inr dropped ↦ rw dropped (keep_chars-IsPlain s)
]

take_chars-IsPlain : (n : ℕ) (s : String) → IsPlain s → IsPlain (take_chars n s)
unfolding take_chars
take_chars-IsPlain zero s h = refl
take_chars-IsPlain (suc n) String.[] h = refl
take_chars-IsPlain (suc n) (String.◌∷◌ c s) h = ground (arith, take_chars-IsPlain n s)

abbrev Starts : String → Type 0
Starts String.[] = ⊥
Starts (String.◌∷◌ c s) = ⊤

cons-ne-nil : (c : Char) (s : String) → (String.◌∷◌ c s == "") ≡ false
cons-ne-nil c s = elim (Bool-cases (String.◌∷◌ c s == "")) [
  | inl e ↦ absurd (subst Starts ((eq_iff _ _).0 e) tt)
  | inr e ↦ e
]

all-domain_char : (cs : List ℕ) → all is_domain_char cs ≡ true → all is_plain cs ≡ true
all-domain_char [] h = refl
all-domain_char (c ∷ cs) h = ground (arith, plain-domain_char c, all-domain_char cs)

is_configured_domain-is_domain :
    (cs : List ℕ) → is_configured_domain cs ≡ true → is_domain cs ≡ true
unfolding is_configured_domain
is_configured_domain-is_domain cs h = ground (arith, all-domain_char cs, dot-top_level cs)

fallback_domain-is_domain :
    (configured : Option String)
    → is_domain (codes (resolve_paystack_fallback_email_domain configured)) ≡ true
unfolding resolve_paystack_fallback_email_domain default_fallback_domain
fallback_domain-is_domain none = refl
fallback_domain-is_domain (some s) =
    elim (Bool-cases (
      not (to_lower (trim s) == "")
      && is_configured_domain (codes (to_lower (trim s)))
      && all (λ c. not (nat_eq c b'@')) (codes (to_lower (trim s))))) [
        | inl usable ↦
            rw usable (is_configured_domain-is_domain (codes (to_lower (trim s))) (ground arith))
        | inr unusable ↦ rw unusable refl
      ]

-- a local part that starts with a letter or a digit
local_part :
    (c : Char) (s : String)
    → is_local_char (code c) ≡ true
    → is_mark (code c) ≡ false
    → take_chars 64 (replace_leading_marks (keep_chars is_local_char (String.◌∷◌ c s)))
      ≡ String.◌∷◌ c (take_chars 63 (keep_chars is_local_char s))
unfolding keep_chars replace_leading_marks take_chars
local_part c s kept unmarked = rw (kept, unmarked) refl

wallet_part :
    (x : String)
    → take_chars 64 (replace_leading_marks (keep_chars is_local_char (String.◌++◌ "wallet-" x)))
      ≡ String.◌∷◌ "w" (take_chars 63 (keep_chars is_local_char (String.◌++◌ "allet-" x)))
unfolding is_local_char is_letter_or_digit is_letter is_lower_letter is_digit
wallet_part x = rw (cons-append "w" "allet-" x) (local_part "w" (String.◌++◌ "allet-" x) refl refl)

-- The local part starts with a letter, and the rest of it is plain.
fallback_local_part-IsPlain :
    (p : Profile) → (s : String) × (fallback_local_part p ≡ String.◌∷◌ "w" s) × IsPlain s
unfolding fallback_local_part local_seed
fallback_local_part-IsPlain p =
    elim (Bool-cases (ltb 0 (chars_count (phone_digits p.phone_e164)))) [
      | inl phone ↦ rw phone (part (phone_digits p.phone_e164))
      | inr none' ↦ rw none' (part (to_lower (keep_chars is_letter_or_digit p.id)))
    ]
  where
    part :
        (x : String)
        → (s : String) × (take_chars 64
              (replace_leading_marks (keep_chars is_local_char (String.◌++◌ "wallet-" x)))
            ≡ String.◌∷◌ "w" s)
          × IsPlain s
    part x = (
      take_chars 63 (keep_chars is_local_char (String.◌++◌ "allet-" x)),
      wallet_part x,
      take_chars-IsPlain 63 (keep_chars is_local_char (String.◌++◌ "allet-" x))
          (keep_chars-IsPlain (String.◌++◌ "allet-" x)),
    )

address-is_valid :
    (s domain : String)
    → IsPlain s
    → is_domain (codes domain) ≡ true
    → is_valid_email (String.◌++◌ (String.◌∷◌ "w" s) (String.◌++◌ "@" domain)) ≡ true
unfolding is_valid_email from_local
address-is_valid s domain plain d =
    rw (codes-append (String.◌∷◌ "w" s) (String.◌++◌ "@" domain), codes-append "@" domain)
      (after_local-at (codes s) (codes domain) plain d)

fallback_email-is_valid :
    (configured : Option String) (p : Profile) → is_valid_email (fallback_email configured p) ≡ true
unfolding fallback_email
fallback_email-is_valid configured p =
    let (s, shape, plain) = fallback_local_part-IsPlain p in
    rw (shape, cons-ne-nil "w" s)
      (address-is_valid s (resolve_paystack_fallback_email_domain configured) plain
        (fallback_domain-is_domain configured))

-- The address that Paystack is given passes the service's own test for an address, for any profile
-- and any configured domain.
pub resolve_paystack_customer_email-is_valid :
    (configured : Option String) (p : Profile)
    → is_valid_email (resolve_paystack_customer_email configured p) ≡ true
unfolding resolve_paystack_customer_email
resolve_paystack_customer_email-is_valid configured p =
    elim (Bool-cases
      (not (normalized_email p.email == "") && is_valid_email (normalized_email p.email))) [
        | inl own ↦ rw own (ground arith)
        | inr other ↦ rw other (fallback_email-is_valid configured p)
      ]
