-- ===== src/Base/Text.antt =====
-- JavaScript's string functions, as far as the services call them. A text is a list of code points.
-- `to_lower` and `to_upper` change the ASCII letters only. The services compare the results with
-- ASCII words (`success`, `failed`, `NGN`, ...) that no other code point folds into.
use Prim.Native.Char.{Char, code}
use Prim.Native.String.{String, [], ◌∷◌, ◌++◌, slice}
use Prim.Native.Nat.{ℕ, ◌+◌, zero, suc, ◌/◌, ◌%◌}
use mathlib.Core.Bool.{Bool, true, false, ◌&&◌, ◌||◌}
use mathlib.Core.Path.{◌≡◌, refl}
use oyana_backend.Base.{leb, nat_eq, if◌then◌else◌}

-- JavaScript's white space and line terminators, which `trim` removes
abbrev pub is_space : ℕ → Bool
is_space c =
    leb 9 c && leb c 13
    || nat_eq c 32
    || nat_eq c 160
    || nat_eq c 5760
    || leb 8192 c && leb c 8202
    || nat_eq c 8232
    || nat_eq c 8233
    || nat_eq c 8239
    || nat_eq c 8287
    || nat_eq c 12288
    || nat_eq c 65279

unfoldable pub trim_start : String → String
trim_start [] = []
trim_start (c ∷ s) = let rest = trim_start s in if is_space (code c) then rest else c ∷ s

abbrev is_empty : String → Bool
is_empty [] = true
is_empty (c ∷ s) = false

unfoldable pub trim_end : String → String
trim_end [] = []
trim_end (c ∷ s) =
    let rest = trim_end s in if is_space (code c) && is_empty rest then [] else c ∷ rest

unfoldable pub trim : String → String
unfolding trim_start trim_end
trim s = trim_end (trim_start s)

abbrev lower_letters : String
lower_letters = "abcdefghijklmnopqrstuvwxyz"

abbrev upper_letters : String
upper_letters = "ABCDEFGHIJKLMNOPQRSTUVWXYZ"

-- The letter of the second alphabet that stands where `c` stands in the first.
swap_case : String → String → Char → Char
swap_case [] ys c = c
swap_case (x ∷ xs) [] c = c
swap_case (x ∷ xs) (y ∷ ys) c =
    let rest = swap_case xs ys c in if nat_eq (code c) (code x) then y else rest

unfoldable pub to_lower : String → String
unfolding swap_case
to_lower [] = []
to_lower (c ∷ s) = swap_case upper_letters lower_letters c ∷ to_lower s

unfoldable pub to_upper : String → String
unfolding swap_case
to_upper [] = []
to_upper (c ∷ s) = swap_case lower_letters upper_letters c ∷ to_upper s

-- `s.slice(0, n)`
unfoldable pub take_chars : ℕ → String → String
take_chars zero s = []
take_chars (suc n) [] = []
take_chars (suc n) (c ∷ s) = c ∷ take_chars n s

-- `s.slice(n)`
unfoldable pub drop_chars : ℕ → String → String
drop_chars zero s = s
drop_chars (suc n) [] = []
drop_chars (suc n) (c ∷ s) = drop_chars n s

-- `s.replace(/[^…]/g, '')`: the characters whose code point passes the test
unfoldable pub keep_chars : (ℕ → Bool) → String → String
keep_chars test [] = []
keep_chars test (c ∷ s) = let rest = keep_chars test s in if test (code c) then c ∷ rest else rest

unfoldable pub chars_count : String → ℕ
chars_count [] = 0
chars_count (c ∷ s) = suc (chars_count s)

-- The decimal digits of a number, with fuel for one digit a round; `n + 1` rounds are enough.
show_digits : ℕ → ℕ → String → String
show_digits zero n acc = acc
show_digits (suc f) n acc =
    let shown = slice "0123456789" (n % 10) (n % 10 + 1) ++ acc in
    let rest = show_digits f (n / 10) shown in if nat_eq (n / 10) 0 then shown else rest

-- `String(n)`
unfoldable pub show_ℕ : ℕ → String
unfolding show_digits
show_ℕ n = show_digits (n + 1) n ""

trim_test : trim " \ta b " ≡ "a b"
unfolding trim
trim_test = refl

to_lower_test : to_lower "Transfer.FAILED" ≡ "transfer.failed"
unfolding to_lower
to_lower_test = refl

to_upper_test : to_upper "ngN" ≡ "NGN"
unfolding to_upper
to_upper_test = refl

show_ℕ_test : show_ℕ 90210 ≡ "90210"
unfolding show_ℕ
show_ℕ_test = refl
