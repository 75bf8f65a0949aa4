-- ===== src/Devices.antt =====
-- src/main.c, the mapping of pointing devices to outputs by the rules of the configuration. The
-- names of outputs, which wlroots holds, are a parameter; the cursor is taken to exist.
pub mod Match
use scratch_compositor.Base.{
  ℕ, ◌/◌, ◌%◌, Bool, true, false, not, ◌&&◌, List, [], ◌∷◌, map, Option, none, some, ◌==◌, find,
  if◌then◌else◌,
}
use scratch_compositor.Base.Text.{Bytes, str_eq}
use scratch_compositor.Config.{InputMapRule, Config}
use scratch_compositor.Server.{Output, Server}

-- The types of `enum wlr_input_device_type` that the source tells apart.
data DeviceType : Type 0 where
  touch tablet pointer other : DeviceType

-- `struct comp_tracked_input`, with what wlroots holds of the device.
record TrackedInput : Type 0 where
  kind : DeviceType
  name : Bytes

-- `output_by_name`
unfoldable output_by_name : (ℕ → Bytes) → List Output → Bytes → Option Output
output_by_name name_of outputs [] = none
output_by_name name_of outputs (c ∷ name) = find (λ o. str_eq (name_of o.id) (c ∷ name)) outputs

-- The bit of `want`, as a power of two; 0 where the device is not mapped.
unfoldable wanted : DeviceType → ℕ
wanted touch = 1
wanted tablet = 2
wanted pointer = 4
wanted other = 0

-- The loop over the rules; a rule in the list has a name.
unfoldable mapped_output : (ℕ → Bytes) → List Output → ℕ → Bytes → List InputMapRule → Option Output
unfolding output_by_name
mapped_output name_of outputs want name [] = none
mapped_output name_of outputs want name (r ∷ rules) =
    let rest = mapped_output name_of outputs want name rules in
    let here = output_by_name name_of outputs r.output_name in
    if (r.types / want) % 2 == 1 && r.name_re name
    then elim here [ none ↦ rest | some o ↦ some o ]
    else rest

-- One round of the loop over the devices: the output that the cursor maps the device to, NULL as
-- `none`, or no call.
unfoldable map_device :
    (ℕ → Bytes) → List Output → List InputMapRule → TrackedInput → Option (Option Output)
unfolding mapped_output wanted
map_device name_of outputs rules ti =
    if wanted ti.kind == 0
    then none
    else some (mapped_output name_of outputs (wanted ti.kind) ti.name rules)

-- `server_apply_input_device_maps`: what each device is mapped to.
unfoldable server_apply_input_device_maps :
    (ℕ → Bytes) → Server → List TrackedInput → List (Option (Option Output))
unfolding map_device
server_apply_input_device_maps name_of s inputs = elim s.config [
  | none ↦ map (λ ti. none) inputs
  | some cfg ↦ map (map_device name_of s.outputs cfg.input_map_rules) inputs
]
