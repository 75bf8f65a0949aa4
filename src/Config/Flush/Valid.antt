-- ===== src/Config/Flush/Valid.antt =====
-- About `flush_bind` and the other ends of blocks: valid configurations.
use scratch_compositor.Base.{
  ℕ, ◌≡◌, ◌≢◌, refl, Bool, true, false, [], ◌∷◌, Option, none, some, arith, ◌==◌, All, All-append,
  if◌then◌else◌, Bool-cases, inl, inr, subst, not, ◌||◌, ◌&&◌,
}
use scratch_compositor.Base.Text.{Bytes, strtok_all}
use scratch_compositor.Config.{Config, Keybind, InputMapRule, Regex}
use scratch_compositor.Config.Library.{Library}
use scratch_compositor.Config.Tokens.{
  parse_input_map_type_field, non_zero, is_comma_or_blank, parse_types,
}
use scratch_compositor.Config.Flush.{
  command_ok, append_bind, flush_bind, TileRuleParse, DecorationRuleParse, InputMapParse, given,
  text, is_some, flush_tile_rule, flush_decoration_rule, flush_input_map_rule, compile,
  append_tile_rule, append_decoration_rule, append_input_map_rule,
}
use scratch_compositor.Config.Load.{flush_as}
use scratch_compositor.Config.Load.Keys.{
  Section, no_section, bind, tile_rule, hooks, layout_anim, decoration, decoration_rule, pointer,
  input_map, Loader, and_then, assign,
}

-- A bind that can run: it has a key and an action, and the command that its action needs.
abbrev pub BindOk : Keybind → Type 0
BindOk b = (b.keysym ≢ 0) × (command_ok b.action b.command ≡ true)

-- An input map rule names an output and some kind of device.
abbrev pub MapOk : InputMapRule → Type 0
MapOk r = (r.types ≢ 0) × (r.output_name ≢ [])

abbrev pub Valid : Config → Type 0
Valid cfg = All BindOk cfg.binds × All MapOk cfg.input_map_rules

pub some_injective {ℓ} : {A : Type ℓ} → {a b : A} → some a ≡ some b → a ≡ b
some_injective e = cc e

non_zero-some : (o : Option ℕ) (n : ℕ) → non_zero o ≡ some n → n ≢ 0
non_zero-some none n e = cc
non_zero-some (some m) n e = ground arith

-- What an `if` with a failing branch gives, and its test.
pub if_some {ℓ} :
    {A : Type ℓ} (b : Bool) (o : Option A) (a : A)
    → (if b then o else none) ≡ some a
    → (b ≡ true) × (o ≡ some a)
if_some true o a e = (refl, e)
if_some false o a e = cc

pub and_then-some {ℓ κ} :
    {A : Type ℓ}
    → {B : Type κ} → (o : Option A) (f : A → Option B) (b : B) → and_then o f ≡ some b
    → (a : A) × (o ≡ some a) × (f a ≡ some b)
and_then-some none f b e = cc
and_then-some (some a) f b e = (a, refl, e)

-- An assignment of a part, from what holds of the part.
pub assign_kept {ℓ} :
    (P : Config → Type ℓ) (f : Config → Loader) (o : Option Config) (l : Loader)
    → ((c : Config) → o ≡ some c → P (f c).cfg)
    → assign o f ≡ some l
    → P l.cfg
assign_kept P f none l h e = cc
assign_kept P f (some c) l h e = subst (λ k. P k.cfg) (some_injective e) (h c refl)

pub assign_some {ℓ κ ι} :
    {A : Type ℓ}
    → {B : Type κ} → (P : B → Type ι) (o : Option A) (f : A → B) (b : B) → ((a : A) → P (f a))
    → assign o f ≡ some b
    → P b
assign_some P none f b h e = cc
assign_some P (some a) f b h e = subst P (some_injective e) (h a)

pub if_none {ℓ} :
    {A : Type ℓ} (b : Bool) (o : Option A) (a : A)
    → (if b then none else o) ≡ some a
    → (b ≡ false) × (o ≡ some a)
if_none true o a e = cc
if_none false o a e = (refl, e)

pub append_bind-Valid :
    (cfg : Config) (b : Keybind) → Valid cfg → BindOk b → Valid (append_bind b cfg)
unfolding append_bind
append_bind-Valid cfg b h k = (All-append BindOk cfg.binds (b ∷ []) h.0 (k, tt), h.1)

flush_bind-Valid :
    (cfg cfg' : Config) (b : Keybind) → Valid cfg → flush_bind cfg b ≡ some cfg' → Valid cfg'
unfolding flush_bind
flush_bind-Valid cfg cfg' b h e = elim (Bool-cases (b.keysym == 0)) [
  | inl no_key ↦
      let done =
        if_none (not (b.mods == 0) || (is_some b.command || is_some b.when_shell)) (some cfg) cfg'
          (rw no_key at e) in
      subst Valid (some_injective done.1) h
  | inr key ↦
      let done = if_some (command_ok b.action b.command) _ cfg' (rw key at e) in
      subst Valid (some_injective done.1) (append_bind-Valid cfg b h (ground (arith, key), done.0))
]

append_tile_rule-Valid :
    (cfg cfg' : Config) (p : TileRuleParse) (a t : Option (Option Regex))
    → Valid cfg
    → append_tile_rule cfg p a t ≡ some cfg'
    → Valid cfg'
unfolding append_tile_rule
append_tile_rule-Valid cfg cfg' p none t h e = cc
append_tile_rule-Valid cfg cfg' p (some a) none h e = cc
append_tile_rule-Valid cfg cfg' p (some a) (some t) h e = subst Valid (some_injective e) h

append_decoration_rule-Valid :
    (cfg cfg' : Config) (p : DecorationRuleParse) (a t : Option (Option Regex))
    → Valid cfg
    → append_decoration_rule cfg p a t ≡ some cfg'
    → Valid cfg'
unfolding append_decoration_rule
append_decoration_rule-Valid cfg cfg' p none t h e = cc
append_decoration_rule-Valid cfg cfg' p (some a) none h e = cc
append_decoration_rule-Valid cfg cfg' p (some a) (some t) h e = subst Valid (some_injective e) h

-- A block that is empty leaves the configuration as it is.
unless_empty :
    (b : Bool) (cfg cfg' : Config) (o : Option Config)
    → Valid cfg
    → (o ≡ some cfg' → Valid cfg')
    → (if b then some cfg else o) ≡ some cfg'
    → Valid cfg'
unless_empty true cfg cfg' o h k e = subst Valid (some_injective e) h
unless_empty false cfg cfg' o h k e = k e

parse_input_map_type_field-nonzero :
    (v : Option Bytes) (n : ℕ) → parse_input_map_type_field v ≡ some n → n ≢ 0
unfolding parse_input_map_type_field
parse_input_map_type_field-nonzero none n e = ground arith
parse_input_map_type_field-nonzero (some []) n e = ground arith
parse_input_map_type_field-nonzero (some (c ∷ s)) n e =
    non_zero-some (parse_types (strtok_all is_comma_or_blank (c ∷ s)) 0) n e

append_input_map_rule-Valid :
    (cfg cfg' : Config) (out : Bytes) (types : Option ℕ) (re : Option Regex)
    → Valid cfg
    → out ≢ []
    → ((n : ℕ) → types ≡ some n → n ≢ 0)
    → append_input_map_rule cfg out types re ≡ some cfg'
    → Valid cfg'
unfolding append_input_map_rule
append_input_map_rule-Valid cfg cfg' out none re h named typed e = cc
append_input_map_rule-Valid cfg cfg' out (some n) none h named typed e = cc
append_input_map_rule-Valid cfg cfg' out (some n) (some re) h named typed e =
    subst Valid (some_injective e)
      (h.0, All-append MapOk cfg.input_map_rules _ h.1 ((typed n refl, named), tt))

both_given : (a b : Bool) → not a || not b ≡ false → b ≡ true
both_given true true e = refl
both_given true false e = cc e
both_given false b e = cc e

text-given : (o : Option Bytes) → given o ≡ true → text o ≢ []
text-given none e = cc
text-given (some []) e = cc
text-given (some (c ∷ s)) e = λ q. cc q

flush_input_map_rule-Valid :
    (lib : Library) (cfg cfg' : Config) (p : InputMapParse)
    → Valid cfg
    → flush_input_map_rule lib cfg p ≡ some cfg'
    → Valid cfg'
unfolding flush_input_map_rule
flush_input_map_rule-Valid lib cfg cfg' p h =
    unless_empty (not (given p.match_pat) && not (given p.output_name)) cfg cfg' _ h (λ e.
      let (complete, done) =
        if_none (not (given p.match_pat) || not (given p.output_name)) _ cfg' e in
      append_input_map_rule-Valid cfg cfg' (text p.output_name)
        (parse_input_map_type_field p.type_str) (lib.regcomp (text p.match_pat)) h
        (text-given p.output_name (both_given (given p.match_pat) (given p.output_name) complete))
        (parse_input_map_type_field-nonzero p.type_str) done)

flush_tile_rule-Valid :
    (lib : Library) (cfg cfg' : Config) (p : TileRuleParse)
    → Valid cfg
    → flush_tile_rule lib cfg p ≡ some cfg'
    → Valid cfg'
unfolding flush_tile_rule
flush_tile_rule-Valid lib cfg cfg' p h =
    unless_empty (not (given p.app_id_pat) && not (given p.title_pat)) cfg cfg' _ h
      (append_tile_rule-Valid cfg cfg' p (compile lib p.app_id_pat) (compile lib p.title_pat) h)

flush_decoration_rule-Valid :
    (lib : Library) (cfg cfg' : Config) (p : DecorationRuleParse)
    → Valid cfg
    → flush_decoration_rule lib cfg p ≡ some cfg'
    → Valid cfg'
unfolding flush_decoration_rule
flush_decoration_rule-Valid lib cfg cfg' p h =
    unless_empty (not (given p.app_id_pat) && not (given p.title_pat)) cfg cfg' _ h (
      append_decoration_rule-Valid cfg cfg' p (compile lib p.app_id_pat) (compile lib p.title_pat)
        h)

pub flush_as-Valid :
    (lib : Library) (sec : Section) (l : Loader) (cfg' : Config)
    → Valid l.cfg
    → flush_as lib sec l ≡ some cfg'
    → Valid cfg'
unfolding flush_as
flush_as-Valid lib bind l cfg' h e = flush_bind-Valid l.cfg cfg' l.cur h e
flush_as-Valid lib tile_rule l cfg' h e = flush_tile_rule-Valid lib l.cfg cfg' l.cur_tile h e
flush_as-Valid lib decoration_rule l cfg' h e =
    flush_decoration_rule-Valid lib l.cfg cfg' l.cur_dec h e
flush_as-Valid lib input_map l cfg' h e = flush_input_map_rule-Valid lib l.cfg cfg' l.cur_imap h e
flush_as-Valid lib no_section l cfg' h e = subst Valid (some_injective e) h
flush_as-Valid lib hooks l cfg' h e = subst Valid (some_injective e) h
flush_as-Valid lib layout_anim l cfg' h e = subst Valid (some_injective e) h
flush_as-Valid lib decoration l cfg' h e = subst Valid (some_injective e) h
flush_as-Valid lib pointer l cfg' h e = subst Valid (some_injective e) h
