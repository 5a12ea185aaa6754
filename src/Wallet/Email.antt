-- ===== src/Wallet/Email.antt =====
-- The customer's address for Paystack: `isValidEmail`, `resolvePaystackFallbackEmailDomain` and
-- `resolvePaystackCustomerEmail` of src/wallet/wallet.service.ts, on lists of code points.
pub mod Valid
use Prim.Native.Char.{code}
use Prim.Native.String
use oyana_backend.Base.{
  ℕ, String, Bool, true, false, not, ◌&&◌, ◌||◌, Option, none, some, List, [], ◌∷◌, if◌then◌else◌,
  leb, ltb, nat_eq, ◌==◌, refl, ◌≡◌,
}
use oyana_backend.Base.Text.{is_space, trim, to_lower, take_chars, keep_chars, chars_count}
use oyana_backend.Profile.Schema.{Profile}

abbrev pub codes : String → List ℕ
codes String.[] = []
codes (String.◌∷◌ c s) = code c ∷ codes s

-- `[^\s@]`
abbrev pub is_plain : ℕ → Bool
is_plain c = not (is_space c) && not (nat_eq c b'@')

abbrev pub all : (ℕ → Bool) → List ℕ → Bool
all p [] = true
all p (c ∷ cs) = p c && all p cs

-- `[^\s@]+\.[^\s@]+$`: plain characters with a dot that is neither the first nor the last
abbrev pub dot_inside : List ℕ → Bool
dot_inside [] = false
dot_inside (c ∷ []) = false
dot_inside (c ∷ d ∷ []) = false
dot_inside (c ∷ d ∷ e ∷ cs) = nat_eq d b'.' || dot_inside (d ∷ e ∷ cs)

abbrev pub is_domain : List ℕ → Bool
is_domain cs = all is_plain cs && dot_inside cs

-- the rest of `^[^\s@]+@…` once a character has been read
after_local : List ℕ → Bool
after_local [] = false
after_local (c ∷ cs) =
    let rest = after_local cs in if nat_eq c b'@' then is_domain cs else is_plain c && rest

from_local : List ℕ → Bool
unfolding after_local
from_local [] = false
from_local (c ∷ cs) = is_plain c && after_local cs

unfoldable pub is_valid_email : String → Bool
unfolding from_local
is_valid_email value = from_local (codes value)

is_lower_letter : ℕ → Bool
is_lower_letter c = leb b'a' c && leb c b'z'

is_letter : ℕ → Bool
unfolding is_lower_letter
is_letter c = is_lower_letter c || leb b'A' c && leb c b'Z'

is_digit : ℕ → Bool
is_digit c = leb b'0' c && leb c b'9'

is_letter_or_digit : ℕ → Bool
unfolding is_letter is_digit
is_letter_or_digit c = is_letter c || is_digit c

-- `[a-z0-9._+-]` with the flag i
is_local_char : ℕ → Bool
unfolding is_letter_or_digit
is_local_char c =
    is_letter_or_digit c || nat_eq c b'.' || nat_eq c b'_' || nat_eq c b'+' || nat_eq c b'-'

is_domain_char : ℕ → Bool
unfolding is_letter_or_digit
is_domain_char c = is_letter_or_digit c || nat_eq c b'.' || nat_eq c b'-'

-- two letters or more: the end of `\.[a-z]{2,}$`
is_top_level : List ℕ → Bool
unfolding is_letter
is_top_level [] = false
is_top_level (c ∷ []) = false
is_top_level (c ∷ d ∷ cs) = is_letter c && is_letter d && all is_letter cs

-- a dot somewhere before such an end, with a character before it
ends_in_top_level : List ℕ → Bool
unfolding is_top_level
ends_in_top_level [] = false
ends_in_top_level (c ∷ []) = false
ends_in_top_level (c ∷ d ∷ cs) =
    let rest = ends_in_top_level (d ∷ cs) in nat_eq d b'.' && is_top_level cs || rest

-- `/^[a-z0-9.-]+\.[a-z]{2,}$/i`
is_configured_domain : List ℕ → Bool
unfolding is_domain_char ends_in_top_level
is_configured_domain cs = all is_domain_char cs && ends_in_top_level cs

default_fallback_domain : String
default_fallback_domain = "pay.oyana.app"

abbrev usable_domain : String → String
usable_domain domain =
    if not (domain == "")
      && is_configured_domain (codes domain)
      && all (λ c. not (nat_eq c b'@')) (codes domain)
    then domain
    else default_fallback_domain

unfoldable pub resolve_paystack_fallback_email_domain : Option String → String
unfolding is_configured_domain default_fallback_domain trim to_lower
resolve_paystack_fallback_email_domain none = default_fallback_domain
resolve_paystack_fallback_email_domain (some configured) =
    usable_domain (to_lower (trim configured))

-- `replace(/^[._+-]+/, 'wallet-')`
abbrev pub is_mark : ℕ → Bool
is_mark c = nat_eq c b'.' || nat_eq c b'_' || nat_eq c b'+' || nat_eq c b'-'

drop_marks : String → String
drop_marks String.[] = String.[]
drop_marks (String.◌∷◌ c s) =
    let rest = drop_marks s in if is_mark (code c) then rest else String.◌∷◌ c s

replace_leading_marks : String → String
unfolding drop_marks
replace_leading_marks String.[] = String.[]
replace_leading_marks (String.◌∷◌ c s) =
    if is_mark (code c) then String.◌++◌ "wallet-" (drop_marks s) else String.◌∷◌ c s

phone_digits : Option String → String
unfolding is_digit keep_chars
phone_digits none = ""
phone_digits (some phone) = keep_chars is_digit phone

local_seed : Profile → String
unfolding phone_digits is_letter_or_digit to_lower keep_chars
local_seed profile =
    if ltb 0 (chars_count (phone_digits profile.phone_e164))
    then String.◌++◌ "wallet-" (phone_digits profile.phone_e164)
    else String.◌++◌ "wallet-" (to_lower (keep_chars is_letter_or_digit profile.id))

fallback_local_part : Profile → String
unfolding local_seed is_local_char replace_leading_marks take_chars keep_chars
fallback_local_part profile =
    take_chars 64 (replace_leading_marks (keep_chars is_local_char (local_seed profile)))

fallback_email : Option String → Profile → String
unfolding fallback_local_part resolve_paystack_fallback_email_domain take_chars to_lower
fallback_email domain profile =
    let part = fallback_local_part profile in
    String.◌++◌
      (if part == "" then String.◌++◌ "wallet-" (to_lower (take_chars 12 profile.id)) else part)
      (String.◌++◌ "@" (resolve_paystack_fallback_email_domain domain))

abbrev pub normalized_email : Option String → String
normalized_email none = ""
normalized_email (some email) = to_lower (trim email)

-- `resolvePaystackCustomerEmail`
unfoldable pub resolve_paystack_customer_email : Option String → Profile → String
unfolding is_valid_email fallback_email trim to_lower
resolve_paystack_customer_email domain profile =
    let email = normalized_email profile.email in
    if not (email == "") && is_valid_email email then email else fallback_email domain profile

is_valid_email_test :
    (is_valid_email "ada@oyana.app" ≡ true)
    × (is_valid_email "ada@@oyana.app" ≡ false)
    × (is_valid_email "ada@oyana." ≡ false)
unfolding is_valid_email
is_valid_email_test = (refl, refl, refl)

domain_test :
    (resolve_paystack_fallback_email_domain (some " Pay.Example.COM ") ≡ "pay.example.com")
    × (resolve_paystack_fallback_email_domain (some "localhost") ≡ "pay.oyana.app")
unfolding resolve_paystack_fallback_email_domain
domain_test = (refl, refl)
