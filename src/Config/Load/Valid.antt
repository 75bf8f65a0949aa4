-- ===== src/Config/Load/Valid.antt =====
-- About the lines that `comp_config_load` reads: valid configurations.
use scratch_compositor.Base.{
  ◌≡◌, refl, sym, List, [], ◌∷◌, Option, none, some, arith, ◌==◌, All, Bool-cases, inl, inr, subst,
  not,
}
use scratch_compositor.Base.Text.{Bytes, trim, is_space, span}
use scratch_compositor.Config.{Config}
use scratch_compositor.Config.Library.{Library}
use scratch_compositor.Config.Load.{
  flush_section, flush_as, section_line, key_line, open_section, break_unless_ok, load_line,
  load_lines, is_no_section,
}
use scratch_compositor.Config.Load.Keys.{
  Section, no_section, bind, tile_rule, hooks, layout_anim, decoration, decoration_rule, pointer,
  input_map, Loader, set_key, set_key_in, key_of_pointer, assign, key_of_hooks, key_of_layout_anim,
  key_of_decoration,
}
use scratch_compositor.Config.Flush.Valid.{
  BindOk, MapOk, Valid, some_injective, if_some, if_none, and_then-some, assign_kept, assign_some,
  flush_as-Valid,
}

-- No key changes the binds or the input map rules.
abbrev SameRules : Config → Config → Type 0
SameRules c d = (d.binds ≡ c.binds) × (d.input_map_rules ≡ c.input_map_rules)

assign-SameRules {ℓ} :
    {A : Type ℓ} (c d : Config) (o : Option A) (f : A → Config)
    → ((a : A) → SameRules c (f a))
    → assign o f ≡ some d
    → SameRules c d
assign-SameRules c d o f h e = assign_some (SameRules c) o f d h e

key_of_hooks-SameRules :
    (key v : Bytes) (c d : Config) → key_of_hooks key v c ≡ some d → SameRules c d
unfolding key_of_hooks
key_of_hooks-SameRules key v c d e = ground arith

key_of_decoration-SameRules :
    (key v : Bytes) (c d : Config) → key_of_decoration key v c ≡ some d → SameRules c d
unfolding key_of_decoration
key_of_decoration-SameRules key v c d e = ground arith

key_of_layout_anim-SameRules :
    (lib : Library) (key v : Bytes) (c d : Config)
    → key_of_layout_anim lib key v c ≡ some d
    → SameRules c d
unfolding key_of_layout_anim
key_of_layout_anim-SameRules lib key v c d e = ground arith

Valid-SameRules : (c d : Config) → SameRules c d → Valid c → Valid d
Valid-SameRules c d e h = (subst (All BindOk) (sym e.0) h.0, subst (All MapOk) (sym e.1) h.1)

abbrev ValidLoader : Loader → Type 0
ValidLoader l = Valid l.cfg

-- The keys of a block change no configuration, those of the others no rules.
set_key_in-Valid :
    (lib : Library) (sec : Section) (key v : Bytes) (l l' : Loader)
    → Valid l.cfg
    → set_key_in lib sec key v l ≡ some l'
    → Valid l'.cfg
unfolding set_key_in
set_key_in-Valid lib no_section key v l l' h e = cc
set_key_in-Valid lib bind key v l l' h e = assign_some ValidLoader _ _ l' (λ a. h) e
set_key_in-Valid lib tile_rule key v l l' h e = assign_some ValidLoader _ _ l' (λ a. h) e
set_key_in-Valid lib hooks key v l l' h e =
    assign_kept Valid (λ c. record l { cfg = c }) (key_of_hooks key v l.cfg) l'
      (λ c k. Valid-SameRules l.cfg c (key_of_hooks-SameRules key v l.cfg c k) h) e
set_key_in-Valid lib layout_anim key v l l' h e =
    assign_kept Valid (λ c. record l { cfg = c }) (key_of_layout_anim lib key v l.cfg) l'
      (λ c k. Valid-SameRules l.cfg c (key_of_layout_anim-SameRules lib key v l.cfg c k) h) e
set_key_in-Valid lib decoration key v l l' h e =
    assign_kept Valid (λ c. record l { cfg = c }) (key_of_decoration key v l.cfg) l'
      (λ c k. Valid-SameRules l.cfg c (key_of_decoration-SameRules key v l.cfg c k) h) e
set_key_in-Valid lib decoration_rule key v l l' h e = assign_some ValidLoader _ _ l' (λ a. h) e
set_key_in-Valid lib pointer key v l l' h e =
    subst ValidLoader (some_injective (if_some (key_of_pointer key) (some l) l' e).1) h
set_key_in-Valid lib input_map key v l l' h e = assign_some ValidLoader _ _ l' (λ a. h) e

break_unless_ok-Valid :
    (o : Option Loader) (l' : Loader)
    → ((l : Loader) → o ≡ some l → Valid l.cfg)
    → break_unless_ok o ≡ some l'
    → Valid l'.cfg
unfolding break_unless_ok
break_unless_ok-Valid none l' h e = cc
break_unless_ok-Valid (some l) l' h e =
    subst ValidLoader (some_injective (if_some l.ok (some l) l' e).1) (h l refl)

key_line-Valid :
    (lib : Library) (parts : Bytes × Bytes) (l l' : Loader)
    → Valid l.cfg
    → key_line lib parts l ≡ some l'
    → Valid l'.cfg
unfolding key_line set_key
key_line-Valid lib (key, []) l l' h e = cc
key_line-Valid lib (key, c ∷ v) l l' h e =
    break_unless_ok-Valid _ l'
      (λ k f. set_key_in-Valid lib l.section (trim is_space key) (trim is_space v) l k h f)
      (if_none (is_no_section l.section) _ l' e).1

section_line-Valid :
    (lib : Library) (line : Bytes) (l l' : Loader)
    → Valid l.cfg
    → section_line lib line l ≡ some l'
    → Valid l'.cfg
unfolding section_line flush_section open_section
section_line-Valid lib line l l' h e =
    let (cfg, flushed, opened) = and_then-some (flush_as lib l.section l) _ l' e in
    subst ValidLoader (some_injective opened) (flush_as-Valid lib l.section l cfg h flushed)

-- Every line of the file keeps the configuration valid.
load_line-Valid :
    (lib : Library) (line : Bytes) (l l' : Loader)
    → Valid l.cfg
    → load_line lib line l ≡ some l'
    → Valid l'.cfg
unfolding load_line
load_line-Valid lib [] l l' h e = subst ValidLoader (some_injective e) h
load_line-Valid lib (c ∷ line) l l' h e = elim (Bool-cases (c == b'#')) [
  | inl comment ↦ subst ValidLoader (some_injective (rw comment at e)) h
  | inr other ↦ elim (Bool-cases (c == b'[')) [
    | inl header ↦ section_line-Valid lib (c ∷ line) l l' h (rw (other, header) at e)
    | inr key ↦
        key_line-Valid lib (span (λ d. not (d == b'=')) (c ∷ line)) l l' h (rw (other, key) at e)
  ]
]

pub load_lines-Valid :
    (lib : Library) (lines : List Bytes) (l l' : Loader)
    → Valid l.cfg
    → load_lines lib lines l ≡ some l'
    → Valid l'.cfg
unfolding load_lines
load_lines-Valid lib [] l l' h e = subst ValidLoader (some_injective e) h
load_lines-Valid lib (line ∷ lines) l l' h e =
    let (k, read, rest) = and_then-some (load_line lib line l) (load_lines lib lines) l' e in
    load_lines-Valid lib lines k l' (load_line-Valid lib line l k h read) rest
