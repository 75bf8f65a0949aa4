-- ===== src/Tiling/Order.antt =====
-- About the order of `cmp_toplevel_tile_order`.
use scratch_compositor.Base.{◌≡◌, ◌≢◌, true, false, sym, arith}
use scratch_compositor.Base.Sort.{Separates}
use scratch_compositor.Server.{Toplevel}
use scratch_compositor.Tiling.{comes_before}

-- Windows with different user keys, and different windows.
abbrev pub KeysDiffer : Toplevel → Toplevel → Type 0
KeysDiffer a b = a.tile_user_key ≢ b.tile_user_key

abbrev pub IdsDiffer : Toplevel → Toplevel → Type 0
IdsDiffer a b = a.id ≢ b.id

comes_before_trans :
    (a b c : Toplevel) → comes_before a b ≡ true → comes_before b c ≡ true → comes_before a c ≡ true
unfolding comes_before
comes_before_trans a b c p q = ground arith

comes_before_asym : (a b : Toplevel) → comes_before a b ≡ true → comes_before b a ≡ false
unfolding comes_before
comes_before_asym a b p = ground arith

comes_before_total :
    (a b : Toplevel) → KeysDiffer a b → comes_before b a ≡ false → comes_before a b ≡ true
unfolding comes_before
comes_before_total a b d p = ground arith

pub comes_before-Separates : Separates comes_before KeysDiffer
comes_before-Separates = record {
  trans = comes_before_trans;
  asym = comes_before_asym;
  total = comes_before_total;
  swap = λ a b d e. d (sym e);
}
