-- ===== src/Workspace/Index.antt =====
-- About the index that `server_workspace_relative` computes.
use scratch_compositor.Base.{ℕ, ◌+◌, ◌-◌, ◌<◌, ◌%◌, ◌≡◌, ap, arith}
use scratch_compositor.Base.Int.{pos, negsuc, pos_part, ◌+ℤ◌, mod_trunc}
use scratch_compositor.Workspace.{clamp_workspace, relative_index}

-- Stepping to the right by n.
pub relative_index_right :
    (current n : ℕ) → relative_index current (pos n) ≡ pos ((current + n) % 9)
unfolding relative_index mod_trunc ◌+ℤ◌
relative_index_right current n = ground arith

-- From a workspace that exists, a step to the left by n + 1 is subtraction modulo 9.
pub relative_index_left :
    (current n : ℕ)
    → current < 9
    → relative_index current (negsuc n) ≡ pos ((current + 9 - (n + 1) % 9) % 9)
unfolding relative_index mod_trunc ◌+ℤ◌
relative_index_left current n h = ground arith

clamp_workspace_id : (n : ℕ) → n < 9 → clamp_workspace (pos n) ≡ n
unfolding clamp_workspace
clamp_workspace_id n h = ground arith

-- From a workspace that exists, a step to the right by n + 1 and a step to the left by n + 1 lead
-- back.
pub relative_index_back :
    (current n : ℕ)
    → current < 9
    → relative_index (pos_part (relative_index current (pos (n + 1)))) (negsuc n) ≡ pos current
relative_index_back current n h =
    rw
      (
        relative_index_right current (n + 1),
        relative_index_left ((current + (n + 1)) % 9) n (ground arith),
      )
      (ap pos (ground (arith, h)))
