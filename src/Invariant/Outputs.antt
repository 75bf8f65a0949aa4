-- ===== src/Invariant/Outputs.antt =====
-- About outputs, layer surfaces and the invariant.
use scratch_compositor.Base.{
  ℕ, Bool, false, not, ◌&&◌, ◌||◌, Option, none, some, ◌==◌, ltb, keep, if_cases, ◌∷◌,
}
use scratch_compositor.Server.{Output, Server, apply_input_maps, emit}
use scratch_compositor.Arrange.{layer_shell_arrange}
use scratch_compositor.Bindings.{server_request_terminate}
use scratch_compositor.Outputs.{
  new_output, server_new_output, no_outputs, output_destroy, list_layer, layer_output,
  layer_shell_new_surface, comp_layer_commit, comp_layer_destroy,
}
use scratch_compositor.Frame.{Frame-trans, Frame-emit, Frame-outputs, layer_shell_arrange-Frame}
use scratch_compositor.Invariant.Defs.{Inv, Inv-Frame}
use scratch_compositor.Invariant.Bindings.{server_request_terminate-Inv}

pub server_new_output-Inv : (i : ℕ) (s : Server) → Inv s → Inv (server_new_output i s)
unfolding server_new_output
server_new_output-Inv i s v =
    Inv-Frame
      (Frame-trans (Frame-outputs (new_output i ∷ s.outputs) s)
        (Frame-trans (layer_shell_arrange-Frame _) (Frame-emit apply_input_maps _)))
      v

pub layer_shell_arrange-Inv : (s : Server) → Inv s → Inv (layer_shell_arrange s)
layer_shell_arrange-Inv s v = Inv-Frame (layer_shell_arrange-Frame s) v

-- The end of any output, the last one of a nested session too, keeps the invariant.
pub output_destroy-Inv :
    (nested : Bool) (i : ℕ) (s : Server) → Inv s → Inv (output_destroy nested i s)
unfolding output_destroy
output_destroy-Inv nested i s v =
    let gone = record (emit apply_input_maps s) {
      outputs = keep (λ (o : Output). not (o.id == i)) s.outputs;
    } in
    let kept : Inv gone = record { wf = v.wf; focus = v.focus } in
    if_cases Inv (no_outputs gone.outputs && nested) (server_request_terminate gone) gone
      (λ h. server_request_terminate-Inv gone kept) (λ h. kept)

list_layer-Inv : (i layer : ℕ) (o : Option ℕ) (s : Server) → Inv s → Inv (list_layer i layer o s).0
unfolding list_layer
list_layer-Inv i layer none s v = v
list_layer-Inv i layer (some o) s v = record { wf = v.wf; focus = v.focus }

pub layer_shell_new_surface-Inv :
    (i : ℕ) (named : Option ℕ) (layer : ℕ) (allocated : Bool) (s : Server)
    → Inv s
    → Inv (layer_shell_new_surface i named layer allocated s).0
unfolding layer_shell_new_surface
layer_shell_new_surface-Inv i named layer allocated s v =
    if_cases (λ (r : Server × Bool). Inv r.0) (no_outputs s.outputs) (s, false) _ (λ h. v)
      (λ h.
        if_cases (λ (r : Server × Bool). Inv r.0) (not (ltb layer 4) || not allocated) (s, false)
          (list_layer i layer (layer_output named s) s) (λ h. v)
          (λ h. list_layer-Inv i layer (layer_output named s) s v))

pub comp_layer_commit-Inv :
    (initial pending : Bool) (s : Server) → Inv s → Inv (comp_layer_commit initial pending s)
unfolding comp_layer_commit
comp_layer_commit-Inv initial pending s v =
    if_cases Inv initial (layer_shell_arrange s) _ (λ h. layer_shell_arrange-Inv s v)
      (λ h.
        if_cases Inv pending (layer_shell_arrange s) s (λ h. layer_shell_arrange-Inv s v) (λ h. v))

pub comp_layer_destroy-Inv : (i : ℕ) (s : Server) → Inv s → Inv (comp_layer_destroy i s)
unfolding comp_layer_destroy
comp_layer_destroy-Inv i s v = record { wf = v.wf; focus = v.focus }
