-- ===== src/Workspace/Runtime/Frame.antt =====
-- What `loadRuntimeInfo` leaves alone.
use shortq.Prelude.{Option, none, some, refl, ◌&&◌}
use shortq.State.{Body, runtime}
use shortq.State.Monad.{attempt}
use shortq.Views.{has_role, in_mode}
use shortq.Api.{api}
use shortq.Workspace.Frame.{Frames, bind-Frames, when-Frames, attempt-Frames, api-Frames}
use shortq.Workspace.Runtime.{
  store_runtime, show_runtime, runtime_request, ask_runtime, load_runtime_info,
}

show_runtime-Frames : (o : Option Body) → Frames (show_runtime o)
unfolding show_runtime store_runtime
show_runtime-Frames none env s = refl
show_runtime-Frames (some (runtime info)) env s = refl
show_runtime-Frames (some _) env s = refl

ask_runtime-Frames : Frames ask_runtime
unfolding ask_runtime
ask_runtime-Frames =
    bind-Frames (attempt (api runtime_request)) show_runtime
      (attempt-Frames (api runtime_request) (api-Frames runtime_request)) show_runtime-Frames

pub load_runtime_info-Frames : Frames load_runtime_info
unfolding load_runtime_info
load_runtime_info-Frames env s =
    when-Frames (has_role "superadmin" s.current_user && in_mode "admin" s.current_user) ask_runtime
      ask_runtime-Frames env s
