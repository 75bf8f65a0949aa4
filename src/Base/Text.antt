-- ===== src/Base/Text.antt =====
-- The C library's routines on text that the source calls, over lists of bytes: `isspace`, `tolower`
-- and `strcasecmp` of the "C" locale, `strcmp`, `strncmp`, `strtok`, `strtol` in base ten.
use Prim.Native.Char.{code}
use Prim.Native.String.{String}
use Prim.Native.Nat.{ℕ, ◌+◌, ◌-◌, ◌*◌, ◌^◌}
use mathlib.Core.Bool.{Bool, true, false, ◌&&◌, ◌||◌}
use mathlib.Core.List.{List, [], ◌∷◌, map, reverse}
use mathlib.Core.Option.{Option, none, some}
use scratch_compositor.Base.Tests.{leb, ◌==◌, if◌then◌else◌}
use scratch_compositor.Base.Lists.{any}
use scratch_compositor.Base.Int.{ℤ, pos, negate_ℕ}

abbrev pub Bytes : Type 0
Bytes = List ℕ

-- The code points of an ASCII literal: its bytes.
abbrev pub codes : String → Bytes
codes String.[] = []
codes (String.◌∷◌ c s) = code c ∷ codes s

unfoldable pub is_space : ℕ → Bool
is_space c = c == b' ' || leb 9 c && leb c 13

unfoldable pub to_lower : ℕ → ℕ
to_lower c = if leb b'A' c && leb c b'Z' then c + 32 else c

-- `strcmp(a, b) == 0`
unfoldable pub str_eq : Bytes → Bytes → Bool
str_eq [] [] = true
str_eq (x ∷ xs) (y ∷ ys) = x == y && str_eq xs ys
str_eq _ _ = false

-- `strcasecmp(a, b) == 0`
unfoldable pub str_case_eq : Bytes → Bytes → Bool
unfolding str_eq to_lower
str_case_eq a b = str_eq (map to_lower a) (map to_lower b)

-- One of the `||` chains of `!strcasecmp(v, "...")`.
unfoldable pub is_named : Bytes → List String → Bool
unfolding str_case_eq
is_named v names = any (λ name. str_case_eq v (codes name)) names

-- `!strncmp(s, prefix, strlen(prefix))`, with what follows the prefix.
unfoldable pub strip_prefix : Bytes → Bytes → Option Bytes
strip_prefix [] s = some s
strip_prefix (p ∷ ps) [] = none
strip_prefix (p ∷ ps) (c ∷ s) = if p == c then strip_prefix ps s else none

unfoldable pub skip_while : (ℕ → Bool) → Bytes → Bytes
skip_while p [] = []
skip_while p (c ∷ s) = if p c then skip_while p s else c ∷ s

-- Cut the bytes that pass the test off the end.
unfoldable pub cut_end : (ℕ → Bool) → Bytes → Bytes
unfolding skip_while
cut_end p s = reverse (skip_while p (reverse s))

unfoldable pub trim : (ℕ → Bool) → Bytes → Bytes
unfolding cut_end
trim p s = cut_end p (skip_while p s)

-- The longest prefix of bytes that pass the test, and the rest.
unfoldable pub span : (ℕ → Bool) → Bytes → Bytes × Bytes
span p [] = ([], [])
span p (c ∷ s) = let rest = span p s in if p c then (c ∷ rest.0, rest.1) else ([], c ∷ s)

-- All tokens of repeated `strtok` calls: the maximal runs of bytes outside the delimiters.
tokens_onto : (ℕ → Bool) → Bytes → Bytes → List Bytes
tokens_onto delim [] [] = []
tokens_onto delim (c ∷ cur) [] = reverse (c ∷ cur) ∷ []
tokens_onto delim [] (c ∷ s) = tokens_onto delim (if delim c then [] else c ∷ []) s
tokens_onto delim (d ∷ cur) (c ∷ s) =
    let next = tokens_onto delim (c ∷ d ∷ cur) s in
    let done = tokens_onto delim [] s in if delim c then reverse (d ∷ cur) ∷ done else next

unfoldable pub strtok_all : (ℕ → Bool) → Bytes → List Bytes
unfolding tokens_onto
strtok_all delim s = tokens_onto delim [] s

unfoldable pub is_digit : ℕ → Bool
is_digit c = leb b'0' c && leb c b'9'

unfoldable pub digits_value : ℕ → Bytes → ℕ
digits_value acc [] = acc
digits_value acc (c ∷ s) = digits_value (acc * 10 + (c - b'0')) s

-- The value that `strtol` returns is cut to the range of a 64-bit `long`.
abbrev long_max : ℕ
long_max = 2 ^ 63 - 1

unfoldable pub clamp_long : Bool → ℕ → ℤ
clamp_long false n = pos (if leb n long_max then n else long_max)
clamp_long true n = negate_ℕ (if leb n (long_max + 1) then n else long_max + 1)

-- The optional sign of a number, and what follows it.
unfoldable pub read_sign : Bytes → Bool × Bytes
read_sign [] = (false, [])
read_sign (c ∷ s) =
    if c == b'-' then (true, s) else if c == b'+' then (false, s) else (false, c ∷ s)

number_after : Bool → Bytes × Bytes → Option (ℤ × Bytes)
number_after negative ([], rest) = none
number_after negative (d ∷ ds, rest) = some (clamp_long negative (digits_value 0 (d ∷ ds)), rest)

-- `strtol(s, &end, 10)`: the value and what stands at `end`, or `none` where no digit is read, in
-- which case C returns 0 and sets `end` to `s`.
unfoldable pub strtol : Bytes → Option (ℤ × Bytes)
unfolding number_after read_sign span is_digit is_space skip_while digits_value clamp_long
strtol s =
    let signed = read_sign (skip_while is_space s) in number_after signed.0 (span is_digit signed.1)

-- A number that is the whole text, as the `!*end` tests ask.
abbrev whole : Option (ℤ × Bytes) → Option ℤ
whole (some (v, [])) = some v
whole _ = none

unfoldable pub strtol_whole : Bytes → Option ℤ
unfolding strtol
strtol_whole s = whole (strtol s)
