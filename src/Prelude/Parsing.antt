-- ===== src/Prelude/Parsing.antt =====
-- `str` methods of the Rust standard library that the parsers of headers call.
use Prim.Native.Nat.{ℕ, zero, suc}
use Prim.Native.Char.{Char, code}
use Prim.Native.String.{String, ◌++◌}
use mathlib.Core.Path.{◌≡◌, refl}
use mathlib.Core.Logic.{inl, inr}
use native.Mathlib.Omega.{arith}
use mathlib.Core.Bool.{Bool, true, false, not}
use mathlib.Core.Option.{Option, none, some}
use mathlib.Core.List.{List, [], ◌∷◌}
use commerce_orchestrator_ap.Prelude.Tests.{leb, if◌then◌else◌, ◌==◌, Bool-cases}
use commerce_orchestrator_ap.Prelude.Lists.{retain}
use commerce_orchestrator_ap.Prelude.Int.{ℤ, pos, negsuc, i64_max, i64_half, IsI64}
use commerce_orchestrator_ap.Prelude.Texts.{
  codes, is_whitespace, str_is_empty, extend_first, digits_value, unsigned,
}

-- `s.push(c)`
unfoldable pub push_char : String → Char → String
push_char s c = s ++ String.◌∷◌ c ""

abbrev before_char : Char → Option (String × String) → Option (String × String)
before_char c none = none
before_char c (some (key, value)) = some (String.◌∷◌ c key, value)

-- `s.split_once(c)`, for a separator given by its code point
unfoldable pub split_once : ℕ → String → Option (String × String)
split_once sep String.[] = none
split_once sep (String.◌∷◌ c s) =
    let rest = split_once sep s in if code c == sep then some ("", s) else before_char c rest

-- `s.strip_suffix(c)`, for a character given by its code point
unfoldable pub strip_suffix_char : ℕ → String → Option String
strip_suffix_char sep String.[] = none
strip_suffix_char sep (String.◌∷◌ c s) =
    let rest = strip_suffix_char sep s in
    if str_is_empty s
    then (if code c == sep then some "" else none)
    else elim rest [ none ↦ none | some t ↦ some (String.◌∷◌ c t) ]

abbrev split_spaces : String → List String
split_spaces String.[] = "" ∷ []
split_spaces (String.◌∷◌ c s) =
    let rest = split_spaces s in if is_whitespace (code c) then "" ∷ rest else extend_first c rest

-- `s.split_whitespace()`
unfoldable pub split_whitespace : String → List String
split_whitespace s = retain (λ t. not (str_is_empty t)) (split_spaces s)

abbrev in_i64 : (ℕ → ℤ) → ℕ → Option ℕ → Option ℤ
in_i64 f bound none = none
in_i64 f bound (some n) = if leb n bound then some (f n) else none

abbrev negated : ℕ → ℤ
negated zero = pos zero
negated (suc n) = negsuc n

abbrev parse_codes : List ℕ → Option ℤ
parse_codes [] = none
parse_codes (c ∷ cs) =
    if c == b'-'
    then in_i64 negated i64_half (unsigned cs)
    else in_i64 pos i64_max (if c == b'+' then unsigned cs else digits_value 0 (c ∷ cs))

-- `s.parse::<i64>().ok()`: a sign or none, then digits
unfoldable pub parse_i64 : String → Option ℤ
parse_i64 s = parse_codes (codes s)

-- No integer, or one that an `i64` can hold.
abbrev pub FitsI64 : Option ℤ → Type 0
FitsI64 none = Unit
FitsI64 (some z) = IsI64 z

in_i64-pos : (o : Option ℕ) → FitsI64 (in_i64 pos i64_max o)
in_i64-pos none = tt
in_i64-pos (some n) = elim (Bool-cases (leb n i64_max)) [
  | inl e ↦ rw e (ground arith, ground arith)
  | inr e ↦ rw e tt
]

in_i64-negated : (o : Option ℕ) → FitsI64 (in_i64 negated i64_half o)
in_i64-negated none = tt
in_i64-negated (some zero) = (ground arith, ground arith)
in_i64-negated (some (suc n)) = elim (Bool-cases (leb (suc n) i64_half)) [
  | inl e ↦ rw e (ground arith, ground arith)
  | inr e ↦ rw e tt
]

signed_i64 :
    (cs : List ℕ) (minus : Bool) (digits_read : Option ℕ)
    → FitsI64
        (if minus then in_i64 negated i64_half (unsigned cs) else in_i64 pos i64_max digits_read)
signed_i64 cs true digits_read = in_i64-negated (unsigned cs)
signed_i64 cs false digits_read = in_i64-pos digits_read

codes_i64 : (cs : List ℕ) → FitsI64 (parse_codes cs)
codes_i64 [] = tt
codes_i64 (c ∷ cs) =
    signed_i64 cs (c == b'-') (if c == b'+' then unsigned cs else digits_value 0 (c ∷ cs))

pub parse_i64-FitsI64 : (s : String) → FitsI64 (parse_i64 s)
unfolding parse_i64
parse_i64-FitsI64 s = codes_i64 (codes s)

split_once_test : split_once b'=' "a=b=c" ≡ some ("a", "b=c")
unfolding split_once
split_once_test = refl

split_whitespace_test : split_whitespace " a  bc " ≡ "a" ∷ "bc" ∷ []
unfolding split_whitespace
split_whitespace_test = refl

strip_suffix_char_test : strip_suffix_char b'"' "a\"" ≡ some "a"
unfolding strip_suffix_char
strip_suffix_char_test = refl

parse_i64_test : parse_i64 "-120" ≡ some (negsuc 119)
unfolding parse_i64
parse_i64_test = refl
