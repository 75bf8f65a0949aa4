-- ===== src/CrashHandler/Marker.antt =====
-- src/crash_handler.c, the whole marker line.
use mathlib.Core.List.{append_assoc, append-nil}
use scratch_compositor.Base.{
  ℕ, ◌+◌, ◌^◌, ◌≤◌, ◌<◌, [], ◌∷◌, ◌++◌, Option, none, some, ◌≡◌, refl, sym, ap, subst, ◌∙◌, ltb,
  leb, length, length-append, if_cases, arith,
}
use scratch_compositor.Base.Text.{Bytes, codes, digits_value}
use scratch_compositor.CrashHandler.{
  append_str, append_bytes, append_u64, append_hex_u64, append_address, crash_marker,
}
use scratch_compositor.CrashHandler.Digits.{
  append_u64-digits_value, append_hex_u64-hex_value, hex_value,
}

-- A text that fits is appended whole.
append_bytes-fits :
    (cap : ℕ) (out s : Bytes) → length out + length s < cap → append_bytes cap out s ≡ out ++ s
unfolding append_bytes
append_bytes-fits cap out [] h = sym (append-nil out)
append_bytes-fits cap out (c ∷ s) h =
    if_cases (λ text. text ≡ out ++ c ∷ s) (ltb (length out + 1) cap)
      (append_bytes cap (out ++ (c ∷ [])) s) out
      (λ e.
        append_bytes-fits cap (out ++ (c ∷ [])) s (omega (arith, h, length-append out (c ∷ [])))
        ∙ append_assoc out (c ∷ []) s)
      (λ e. ground arith)

append_str-fits :
    (cap : ℕ) (out s : Bytes) → length out + length s < cap → append_str cap out s ≡ out ++ s
unfolding append_str
append_str-fits cap out s h =
    if_cases (λ text. text ≡ out ++ s) (leb cap (length out)) out (append_bytes cap out s)
      (λ e. ground arith) (λ e. append_bytes-fits cap out s h)

-- An address is a number of 64 bits.
unfoldable pub IsAddress : Option ℕ → Type 0
IsAddress none = Unit
IsAddress (some addr) = addr < 2 ^ 64

-- What the line says of the address.
pub ShowsAddress : Option ℕ → Bytes → Type 0
ShowsAddress none text = text ≡ []
ShowsAddress (some addr) text =
    (ds : Bytes) × (text ≡ codes " addr=0x" ++ ds) × (hex_value 0 ds ≡ addr)

append_address-fits :
    (info : Option ℕ) (out : Bytes)
    → length out ≤ 96
    → IsAddress info
    → (text : Bytes) × (append_address info out ≡ out ++ text)
      × (length text ≤ 40)
      × ShowsAddress info text
unfolding append_address IsAddress ShowsAddress
append_address-fits none out h small = ([], sym (append-nil out), omega arith, refl)
append_address-fits (some addr) out h small =
    let label = codes " addr=0x" in
    let room : length (out ++ label) ≤ 104 = omega (arith, h, length-append out label) in
    let (ds, shown, few, value) =
      append_hex_u64-hex_value 256 (out ++ label) addr (omega (arith, room)) small in
    (
      label ++ ds,
      ap (λ text. append_hex_u64 256 text addr) (append_str-fits 256 out label (omega (arith, h)))
          ∙ shown
          ∙ append_assoc out label ds,
      omega (arith, few, length-append label ds),
      (ds, refl, value),
    )

-- The line up to the process: the label, the signal, the label, the process.
pub ShowsProcess : ℕ → ℕ → Bytes → Type 0
ShowsProcess signo pid text =
    (ds : Bytes) × (ps : Bytes) × (text
      ≡ ((codes "stackcomp fatal signal " ++ ds) ++ codes " pid=") ++ ps)
    × (digits_value 0 ds ≡ signo)
    × (digits_value 0 ps ≡ pid)

append_process-fits :
    (signo pid : ℕ)
    → signo < 2 ^ 64
    → pid < 2 ^ 64
    → let signal = append_u64 256 (append_str 256 [] (codes "stackcomp fatal signal ")) signo in
      let process = append_u64 256 (append_str 256 signal (codes " pid=")) pid in
      (length process ≤ 96) × ShowsProcess signo pid process
unfolding ShowsProcess
append_process-fits signo pid s p =
    let a = codes "stackcomp fatal signal " in
    let b = codes " pid=" in
    let (ds, signal, few, value) = append_u64-digits_value 256 a signo (omega arith) s in
    let first : length (a ++ ds) ≤ 55 = omega (arith, few, length-append a ds) in
    let second : length ((a ++ ds) ++ b) ≤ 60 = omega (arith, first, length-append (a ++ ds) b) in
    let (ps, process, few', value') =
      append_u64-digits_value 256 ((a ++ ds) ++ b) pid (omega (arith, second)) p in
    let shown =
      ap (λ text. append_u64 256 (append_str 256 text b) pid)
        (ap (λ text. append_u64 256 text signo) (append_str-fits 256 [] a (omega arith)) ∙ signal)
      ∙ ap (λ text. append_u64 256 text pid)
          (append_str-fits 256 (a ++ ds) b (omega (arith, first)))
      ∙ process in
    (
      subst (λ text. length text ≤ 96) (sym shown)
          (omega (arith, second, few', length-append ((a ++ ds) ++ b) ps)),
      (ds, ps, shown, value, value'),
    )

-- For a signal, a process and an address of 64 bits the marker is never cut: it names the signal
-- and the process by decimal digits that read back as their numbers, then the address, if there is
-- one, by hexadecimal digits that read back as it, and ends with a newline inside the buffer.
pub crash_marker_lem :
    (signo pid : ℕ) (info : Option ℕ)
    → signo < 2 ^ 64
    → pid < 2 ^ 64
    → IsAddress info
    → (process : Bytes) × (address : Bytes) × (crash_marker signo pid info
        ≡ (process ++ address) ++ (10 ∷ []))
      × ShowsProcess signo pid process
      × ShowsAddress info address
      × (length (crash_marker signo pid info) < 256)
unfolding crash_marker
crash_marker_lem signo pid info s p small =
    let signal = append_u64 256 (append_str 256 [] (codes "stackcomp fatal signal ")) signo in
    let process = append_u64 256 (append_str 256 signal (codes " pid=")) pid in
    let (short, shows) = append_process-fits signo pid s p in
    let (address, added, few, shows') = append_address-fits info process short small in
    let whole : length (process ++ address) ≤ 136 =
      omega (arith, short, few, length-append process address) in
    let line =
      ap (λ text. append_str 256 text (10 ∷ [])) added
      ∙ append_str-fits 256 (process ++ address) (10 ∷ []) (omega (arith, whole)) in
    (
      process,
      address,
      line,
      shows,
      shows',
      subst (λ text. length text < 256) (sym line)
          (omega (arith, whole, length-append (process ++ address) (10 ∷ []))),
    )
