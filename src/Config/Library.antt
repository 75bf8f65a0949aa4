-- ===== src/Config/Library.antt =====
-- The libraries that loading a configuration calls: what `regcomp` makes of a pattern (`none` is
-- an error), xkbcommon's keysym of a name (0 is none) and lower case of a keysym, `strtod`, and
-- the comparison of doubles, which are 64-bit patterns.
use scratch_compositor.Base.{ℕ, Bool, Option}
use scratch_compositor.Base.Text.{Bytes}
use scratch_compositor.Config.{Regex}

-- What `strtod` gives: its value, what stands at `end` (`none` where nothing is read), and whether
-- it sets ERANGE.
pub record Strtod : Type 0 where
  pub value : ℕ
  pub end : Option Bytes
  pub out_of_range : Bool

pub record Library : Type 0 where
  pub regcomp : Bytes → Option Regex
  pub keysym_from_name : Bytes → ℕ
  pub keysym_to_lower : ℕ → ℕ
  pub strtod : Bytes → Strtod
  pub double_lt : ℕ → ℕ → Bool
