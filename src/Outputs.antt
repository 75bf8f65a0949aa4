-- ===== src/Outputs.antt =====
-- src/main.c: outputs and layer surfaces come and go. The messages of the foreign-toplevel protocol
-- are left out; those of ext-workspace are `ext_workspace_on_output_new` and
-- `ext_workspace_on_output_remove`.
use scratch_compositor.Base.{
  ℕ, Bool, true, false, not, ◌&&◌, ◌||◌, List, [], ◌∷◌, Option, none, some, ◌==◌, ltb, keep,
  if◌then◌else◌,
}
use scratch_compositor.Base.Int.{pos}
use scratch_compositor.Server.{Output, Layer, Server, apply_input_maps, emit}
use scratch_compositor.Tiling.{primary_wlr_output}
use scratch_compositor.Arrange.{layer_shell_arrange}
use scratch_compositor.Bindings.{server_request_terminate}

-- The record that `server_new_output` allocates and fills in.
abbrev pub new_output : ℕ → Output
new_output i = record {
  id = i;
  layer_workarea = record { x = pos 0; y = pos 0; width = pos 0; height = pos 0 };
  workspace_scroll_slot =
      pos 0 ∷ pos 0 ∷ pos 0 ∷ pos 0 ∷ pos 0 ∷ pos 0 ∷ pos 0 ∷ pos 0 ∷ pos 0 ∷ [];
}

-- `server_new_output`
unfoldable pub server_new_output : ℕ → Server → Server
server_new_output i s =
    emit apply_input_maps (layer_shell_arrange (record s { outputs = new_output i ∷ s.outputs }))

-- `output_commit`
unfoldable pub output_commit : Server → Server
output_commit s = layer_shell_arrange s

abbrev pub no_outputs : List Output → Bool
no_outputs [] = true
no_outputs _ = false

-- `output_destroy`, given whether the backend is nested (`session == NULL`).
unfoldable pub output_destroy : Bool → ℕ → Server → Server
output_destroy nested i s =
    let mapped = emit apply_input_maps s in
    let gone = record mapped { outputs = keep (λ (o : Output). not (o.id == i)) s.outputs } in
    if no_outputs gone.outputs && nested then server_request_terminate gone else gone

-- What becomes of a new layer surface: wlroots destroys it again, or it is listed.
abbrev pub layer_output : Option ℕ → Server → Option ℕ
layer_output (some o) s = some o
layer_output none s = primary_wlr_output s

unfoldable pub list_layer : ℕ → ℕ → Option ℕ → Server → Server × Bool
list_layer i layer none s = (s, false)
list_layer i layer (some o) s = (
  record s {
    layers =
        record {
          id = i;
          output = o;
          configured = false;
          current_layer = layer;
          pending_layer = layer;
          initialized = false;
        }
        ∷ s.layers;
  },
  true,
)

-- `layer_shell_new_surface`, given the output and the layer it asks for, and whether the
-- allocations succeed; the Boolean says whether the surface is kept.
unfoldable pub layer_shell_new_surface : ℕ → Option ℕ → ℕ → Bool → Server → Server × Bool
unfolding list_layer
layer_shell_new_surface i named layer allocated s =
    if no_outputs s.outputs
    then (s, false)
    else if not (ltb layer 4) || not allocated
    then (s, false)
    else list_layer i layer (layer_output named s) s

-- `comp_layer_map` and `comp_layer_unmap`
unfoldable pub comp_layer_map : Server → Server
comp_layer_map s = layer_shell_arrange s

unfoldable pub comp_layer_unmap : Server → Server
comp_layer_unmap s = layer_shell_arrange s

-- `comp_layer_destroy`
unfoldable pub comp_layer_destroy : ℕ → Server → Server
comp_layer_destroy i s = record s { layers = keep (λ (l : Layer). not (l.id == i)) s.layers }

-- `comp_layer_commit`, given whether this is the initial commit and whether state is pending.
unfoldable pub comp_layer_commit : Bool → Bool → Server → Server
comp_layer_commit initial pending s =
    if initial then layer_shell_arrange s else if pending then layer_shell_arrange s else s
