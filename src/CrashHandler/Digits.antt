-- ===== src/CrashHandler/Digits.antt =====
-- src/crash_handler.c, the digits of `append_u64`.
use mathlib.Core.List.{append_assoc, append-nil}
use scratch_compositor.Base.{
  ℕ, zero, suc, ◌+◌, ◌-◌, ◌*◌, ◌/◌, ◌%◌, ◌^◌, ◌≤◌, ◌<◌, Bool, true, false, [], ◌∷◌, ◌++◌, ◌≡◌, refl,
  sym, ap, ◌∙◌, ◌==◌, ltb, length, length-append, if◌then◌else◌, if_cases, arith,
}
use scratch_compositor.Base.Text.{Bytes, codes, digits_value}
use scratch_compositor.CrashHandler.{
  append_str, append_bytes, low_digits, append_digits, decimal_char, hex_char, append_u64,
  append_hex_u64,
}

-- One byte that fits is appended.
append_str-byte :
    (cap : ℕ) (out : Bytes) (c : ℕ)
    → length out + 1 < cap
    → append_str cap out (c ∷ []) ≡ out ++ (c ∷ [])
unfolding append_str append_bytes
append_str-byte cap out c h = ground arith

-- What the digits are, the highest first.
highest_first : Bytes → Bytes
highest_first [] = []
highest_first (c ∷ low) = highest_first low ++ (c ∷ [])

length-highest_first : (low : Bytes) → length (highest_first low) ≡ length low
unfolding highest_first
length-highest_first [] = refl
length-highest_first (c ∷ low) =
    omega (arith, length-append (highest_first low) (c ∷ []), length-highest_first low)

append_digits-highest_first :
    (cap : ℕ) (out low : Bytes)
    → length out + length low < cap
    → append_digits cap out low ≡ out ++ highest_first low
unfolding append_digits highest_first
append_digits-highest_first cap out [] h = sym (append-nil out)
append_digits-highest_first cap out (c ∷ low) h =
    let more = highest_first low in
    let before = append_digits-highest_first cap out low (omega (arith, h)) in
    let shorter : length (out ++ more) + 1 < cap =
      omega (arith, h, length-append out more, length-highest_first low) in
    ap (λ text. append_str cap text (c ∷ [])) before
    ∙ append_str-byte cap (out ++ more) c shorter
    ∙ append_assoc out more (c ∷ [])

length-low_digits : (char : ℕ → ℕ) (base n v : ℕ) → length (low_digits char base n v) ≤ n
unfolding low_digits
length-low_digits char base zero v = omega arith
length-low_digits char base (suc n) v =
    if_cases (λ ds. length ds ≤ suc n) (v == 0) []
      (char (v % base) ∷ low_digits char base n (v / base)) (λ e. omega arith)
      (λ e. omega (arith, length-low_digits char base n (v / base)))

digits_value-append :
    (acc : ℕ) (ds : Bytes) (c : ℕ)
    → digits_value acc (ds ++ (c ∷ [])) ≡ digits_value acc ds * 10 + (c - b'0')
unfolding digits_value
digits_value-append acc [] c = refl
digits_value-append acc (d ∷ ds) c = digits_value-append (acc * 10 + (d - b'0')) ds c

div-lt : (v n : ℕ) → v < 10 ^ suc n → v / 10 < 10 ^ n
div-lt v n h = omega (arith, h)

digits_value-low_digits :
    (n v : ℕ) → v < 10 ^ n → digits_value 0 (highest_first (low_digits decimal_char 10 n v)) ≡ v
unfolding low_digits highest_first digits_value
digits_value-low_digits zero v h = omega (arith, h)
digits_value-low_digits (suc n) v h =
    if_cases (λ ds. digits_value 0 (highest_first ds) ≡ v) (v == 0) []
      (decimal_char (v % 10) ∷ low_digits decimal_char 10 n (v / 10)) (λ e. ground arith)
      (λ e.
        let rest = low_digits decimal_char 10 n (v / 10) in
        let high = digits_value-low_digits n (v / 10) (div-lt v n h) in
        digits_value-append 0 (highest_first rest) (decimal_char (v % 10))
        ∙ ap (λ k. k * 10 + (decimal_char (v % 10) - b'0')) high
        ∙ omega arith)

-- The text that a number in a base with at most 32 digits adds, where there is room for them.
appended_digits :
    (cap : ℕ) (out low : Bytes) (value : Bytes → ℕ) (v : ℕ) (b : Bool)
    → length out + 32 < cap
    → length low ≤ 32
    → (b ≡ true → value (codes "0") ≡ v)
    → (b ≡ false → value (highest_first low) ≡ v)
    → (ds : Bytes) × ((if b then append_str cap out (codes "0") else append_digits cap out low)
        ≡ out ++ ds)
      × (length ds ≤ 32)
      × (value ds ≡ v)
appended_digits cap out low value v b room few zero_case other =
    if_cases (λ text. (ds : Bytes) × (text ≡ out ++ ds) × (length ds ≤ 32) × (value ds ≡ v)) b
      (append_str cap out (codes "0")) (append_digits cap out low)
      (λ e. (codes "0", append_str-byte cap out 48 (omega (arith, room)), omega arith, zero_case e))
      (λ e. (
        highest_first low,
        append_digits-highest_first cap out low (omega (arith, room, few)),
        omega (arith, few, length-highest_first low),
        other e,
      ))

-- A number below 2 ^ 64 is appended whole to a text that leaves room for 32 digits, as digits that
-- read back as the number.
pub append_u64-digits_value :
    (cap : ℕ) (out : Bytes) (v : ℕ)
    → length out + 32 < cap
    → v < 2 ^ 64
    → (ds : Bytes) × (append_u64 cap out v ≡ out ++ ds) × (length ds ≤ 32) × (digits_value 0 ds ≡ v)
unfolding append_u64 digits_value
append_u64-digits_value cap out v room h =
    appended_digits cap out (low_digits decimal_char 10 32 v) (digits_value 0) v (v == 0) room
      (length-low_digits decimal_char 10 32 v) (λ e. ground arith)
      (λ e. digits_value-low_digits 32 v (omega (arith, h)))

-- The value of a text of lowercase hexadecimal digits.
unfoldable pub hex_value : ℕ → Bytes → ℕ
hex_value acc [] = acc
hex_value acc (c ∷ ds) = hex_value (acc * 16 + (if ltb c b'a' then c - b'0' else c - b'a' + 10)) ds

hex_value-append :
    (acc : ℕ) (ds : Bytes) (c : ℕ)
    → hex_value acc (ds ++ (c ∷ []))
      ≡ hex_value acc ds * 16 + (if ltb c b'a' then c - b'0' else c - b'a' + 10)
unfolding hex_value
hex_value-append acc [] c = refl
hex_value-append acc (d ∷ ds) c =
    hex_value-append (acc * 16 + (if ltb d b'a' then d - b'0' else d - b'a' + 10)) ds c

hex_char-read :
    (d : ℕ)
    → d < 16
    → (if ltb (hex_char d) b'a' then hex_char d - b'0' else hex_char d - b'a' + 10) ≡ d
hex_char-read d h = ground arith

hex_div-lt : (v n : ℕ) → v < 16 ^ suc n → v / 16 < 16 ^ n
hex_div-lt v n h = omega (arith, h)

hex_value-low_digits :
    (n v : ℕ) → v < 16 ^ n → hex_value 0 (highest_first (low_digits hex_char 16 n v)) ≡ v
unfolding low_digits highest_first hex_value
hex_value-low_digits zero v h = omega (arith, h)
hex_value-low_digits (suc n) v h =
    if_cases (λ ds. hex_value 0 (highest_first ds) ≡ v) (v == 0) []
      (hex_char (v % 16) ∷ low_digits hex_char 16 n (v / 16)) (λ e. ground arith)
      (λ e.
        let rest = low_digits hex_char 16 n (v / 16) in
        let high = hex_value-low_digits n (v / 16) (hex_div-lt v n h) in
        hex_value-append 0 (highest_first rest) (hex_char (v % 16))
        ∙ ap (λ d. hex_value 0 (highest_first rest) * 16 + d) (hex_char-read (v % 16) (omega arith))
        ∙ ap (λ k. k * 16 + v % 16) high
        ∙ omega arith)

-- The same for hexadecimal digits.
pub append_hex_u64-hex_value :
    (cap : ℕ) (out : Bytes) (v : ℕ)
    → length out + 32 < cap
    → v < 2 ^ 64
    → (ds : Bytes) × (append_hex_u64 cap out v ≡ out ++ ds)
      × (length ds ≤ 32)
      × (hex_value 0 ds ≡ v)
unfolding append_hex_u64 hex_value
append_hex_u64-hex_value cap out v room h =
    appended_digits cap out (low_digits hex_char 16 32 v) (hex_value 0) v (v == 0) room
      (length-low_digits hex_char 16 32 v) (λ e. ground arith)
      (λ e. hex_value-low_digits 32 v (omega (arith, h)))
