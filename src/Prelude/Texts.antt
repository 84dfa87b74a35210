-- ===== src/Prelude/Texts.antt =====
-- `str` methods of the Rust standard library that the program calls, over the native texts.
use Prim.Native.Nat.{ℕ, zero, suc, ◌+◌, ◌-◌, ◌*◌, ◌/◌, ◌%◌}
use Prim.Native.Char.{Char, code}
use Prim.Native.String.{String, ◌++◌, len, slice}
use mathlib.Core.Path.{◌≡◌, refl}
use mathlib.Core.Logic.{◌≢◌, ◌↔◌}
use mathlib.Core.Bool.{Bool, true, false, ◌&&◌, ◌||◌}
use mathlib.Core.Option.{Option, none, some}
use mathlib.Core.List.{List, [], ◌∷◌, map, reverse}
use text.Mathlib.Text.{starts_with, find?}
pub use text.Mathlib.Text.{◌==◌ as str_eq}
pub use text.Mathlib.TextEquality.{eq_iff}
use commerce_orchestrator_ap.Prelude.Tests.{leb, ltb, if◌then◌else◌, ◌==◌}
use commerce_orchestrator_ap.Prelude.Lists.{all}
use commerce_orchestrator_ap.Prelude.Int.{ℤ, pos, negsuc}

pub str_eq_refl : (s : String) → str_eq s s ≡ true
str_eq_refl s = (eq_iff s s).1 refl

pub str_eq_sound : (s t : String) → str_eq s t ≡ true → s ≡ t
str_eq_sound s t = (eq_iff s t).0

-- `s.is_empty()`
abbrev pub str_is_empty : String → Bool
str_is_empty String.[] = true
str_is_empty (String.◌∷◌ _ _) = false

pub str_is_empty_iff : (s : String) → (str_is_empty s ≡ false) ↔ (s ≢ "")
str_is_empty_iff String.[] = (λ h. cc, λ h. absurd (h refl))
str_is_empty_iff (String.◌∷◌ c s) = (λ h e. cc, λ h. refl)

-- The code points of a text.
abbrev pub codes : String → List ℕ
codes String.[] = []
codes (String.◌∷◌ c s) = code c ∷ codes s

abbrev pub eq_codes : List ℕ → List ℕ → Bool
eq_codes [] [] = true
eq_codes (a ∷ xs) (b ∷ ys) = a == b && eq_codes xs ys
eq_codes _ _ = false

-- `u8::to_ascii_lowercase`; a code point above ASCII is left alone.
abbrev pub ascii_lower : ℕ → ℕ
ascii_lower c = if leb b'A' c && leb c b'Z' then c + 32 else c

-- `s.eq_ignore_ascii_case(t)`
unfoldable pub eq_ignore_ascii_case : String → String → Bool
eq_ignore_ascii_case s t = eq_codes (map ascii_lower (codes s)) (map ascii_lower (codes t))

-- `char::is_whitespace`: the code points with the property White_Space.
abbrev pub is_whitespace : ℕ → Bool
is_whitespace c =
    leb 9 c && leb c 13
    || c == 32
    || c == 0x85
    || c == 0xa0
    || c == 0x1680
    || leb 0x2000 c && leb c 0x200a
    || c == 0x2028
    || c == 0x2029
    || c == 0x202f
    || c == 0x205f
    || c == 0x3000

-- `s.trim().is_empty()`
unfoldable pub is_blank : String → Bool
is_blank s = all is_whitespace (codes s)

-- `s.strip_prefix(p)`
unfoldable pub strip_prefix : String → String → Option String
strip_prefix p s = if starts_with s p then some (slice s (len p) (len s)) else none

-- `s.split(sep).next()`, for a separator that is not empty
unfoldable pub split_first : String → String → String
split_first sep s = elim (find? s sep) [ none ↦ s | some i ↦ slice s 0 i ]

abbrev digit : ℕ → String
digit zero = "0"
digit (suc zero) = "1"
digit (suc (suc zero)) = "2"
digit (suc (suc (suc zero))) = "3"
digit (suc (suc (suc (suc zero)))) = "4"
digit (suc (suc (suc (suc (suc zero))))) = "5"
digit (suc (suc (suc (suc (suc (suc zero)))))) = "6"
digit (suc (suc (suc (suc (suc (suc (suc zero))))))) = "7"
digit (suc (suc (suc (suc (suc (suc (suc (suc zero)))))))) = "8"
digit _ = "9"

-- The decimal digits of a number, on fuel for the number of digits.
digits : ℕ → ℕ → String
digits zero n = ""
digits (suc f) n =
    let rest = digits f (n / 10) in if ltb n 10 then digit n else rest ++ digit (n % 10)

-- `{}` of an `i64`, which has 19 digits at most.
unfoldable pub show_i64 : ℤ → String
unfolding digits
show_i64 (pos n) = digits 19 n
show_i64 (negsuc n) = "-" ++ digits 19 (n + 1)

-- `errors.join(sep)`
unfoldable pub join : String → List String → String
join sep [] = ""
join sep (x ∷ []) = x
join sep (x ∷ y ∷ rest) = x ++ (sep ++ join sep (y ∷ rest))

-- `format!` with the texts between and around its arguments.
unfoldable pub concat : List String → String
concat [] = ""
concat (x ∷ rest) = x ++ concat rest

-- `s.trim()`, on the code points
abbrev trim_start : List ℕ → List ℕ
trim_start [] = []
trim_start (c ∷ cs) = let rest = trim_start cs in if is_whitespace c then rest else c ∷ cs

abbrev trimmed : String → List ℕ
trimmed s = reverse (trim_start (reverse (trim_start (codes s))))

-- `s.trim()`, as a text
abbrev trim_left : String → String
trim_left String.[] = ""
trim_left (String.◌∷◌ c s) =
    let rest = trim_left s in if is_whitespace (code c) then rest else String.◌∷◌ c s

abbrev trim_right : String → String
trim_right String.[] = ""
trim_right (String.◌∷◌ c s) =
    let rest = trim_right s in
    if is_whitespace (code c) && str_is_empty rest then "" else String.◌∷◌ c rest

unfoldable pub trim : String → String
trim s = trim_right (trim_left s)

abbrev pub extend_first : Char → List String → List String
extend_first c [] = String.◌∷◌ c "" ∷ []
extend_first c (s ∷ rest) = String.◌∷◌ c s ∷ rest

-- `s.split(c)`, for a separator given by its code point
unfoldable pub split_char : ℕ → String → List String
split_char sep String.[] = "" ∷ []
split_char sep (String.◌∷◌ c s) =
    let rest = split_char sep s in if code c == sep then "" ∷ rest else extend_first c rest

-- The number that decimal digits write, which must fit in a `u64`.
abbrev pub digits_value : ℕ → List ℕ → Option ℕ
digits_value acc [] = if ltb acc 18446744073709551616 then some acc else none
digits_value acc (c ∷ cs) =
    let rest = digits_value (acc * 10 + (c - 48)) cs in if leb 48 c && leb c 57 then rest else none

abbrev pub unsigned : List ℕ → Option ℕ
unsigned [] = none
unsigned (c ∷ cs) = digits_value 0 (c ∷ cs)

-- `s.trim().parse::<u64>().ok()`: digits, with a plus sign before them or not
unfoldable pub parse_u64 : String → Option ℕ
parse_u64 s = elim (trimmed s) [
  | [] ↦ none
  | c ∷ cs ↦ if c == 43 then unsigned cs else digits_value 0 (c ∷ cs)
]

parse_u64_test : parse_u64 " 120 " ≡ some 120
unfolding parse_u64
parse_u64_test = refl

show_i64_test : show_i64 (negsuc 1233) ≡ "-1234"
unfolding show_i64
show_i64_test = refl

split_first_test : split_first ":" "sku_1:summer" ≡ "sku_1"
unfolding split_first
split_first_test = refl

split_char_test : split_char 44 "a,b,," ≡ "a" ∷ "b" ∷ "" ∷ "" ∷ []
unfolding split_char
split_char_test = refl

trim_test : trim "  a b " ≡ "a b"
unfolding trim
trim_test = refl
