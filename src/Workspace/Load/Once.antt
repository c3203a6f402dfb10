-- ===== src/Workspace/Load/Once.antt =====
-- What `loadWorkspaceView` sends and remembers.
use shortq.Prelude.{
  ◌≡◌, refl, ◌∙◌, ap, Text, true, false, includes, text_eq_refl, Bool-cases, inl, inr, List, ◌∷◌,
}
use shortq.State.{App}
use shortq.State.Monad.{Env, Result, ok, throw, modify, then_run, Thrown}
use shortq.Workspace.Frame.{Frame, frame}
use shortq.Workspace.Load.{view_key, load_view, add_view, load_anew, load_workspace_view}
use shortq.Workspace.Load.Frame.{load_view-Frames}

includes_self : (key : Text) (keys : List Text) → includes (key ∷ keys) key ≡ true
unfolding includes
includes_self key keys = rw (text_eq_refl key)

-- After the loaders, the view is marked as loaded, if none of them threw.
module _ (key : Text) (env : Env) where
  mark : Result (Unit {0}) × App → Result (Unit {0}) × App
  mark r = then_run env r (λ _. modify (add_view key))

  mark-ok :
      (r : Result (Unit {0}) × App)
      → (mark r).0 ≡ ok tt
      → includes (mark r).1.loaded_views key ≡ true
  unfolding mark
  mark-ok (ok a, s) h = elim (Bool-cases (includes s.loaded_views key)) [
    | inl old ↦ rw old old
    | inr new ↦ rw new (includes_self key s.loaded_views)
  ]
  mark-ok (throw e, s) h = cc

  mark-throw :
      (r : Result (Unit {0}) × App) (e : Thrown)
      → (mark r).0 ≡ throw e
      → frame (mark r).1 ≡ frame r.1
  unfolding mark
  mark-throw (ok a, s) e h = cc
  mark-throw (throw e', s) e h = refl

seen_again :
    (view pane : Text) (env : Env) (s : App)
    → includes s.loaded_views (view_key view pane) ≡ true
    → load_workspace_view view pane env s ≡ (ok tt, s)
unfolding load_workspace_view
seen_again view pane env s h = rw h

-- A call that loads is the loaders and then the mark.
loads_anew :
    (view pane : Text) (env : Env) (s : App)
    → includes s.loaded_views (view_key view pane) ≡ false
    → load_workspace_view view pane env s
      ≡ mark (view_key view pane) env (load_view view pane env s)
unfolding load_workspace_view load_anew mark
loads_anew view pane env s h = rw h

loads-marks :
    (view pane : Text) (env : Env) (s : App)
    → (load_workspace_view view pane env s).0 ≡ ok tt
    → includes (load_workspace_view view pane env s).1.loaded_views (view_key view pane) ≡ true
loads-marks view pane env s h = elim (Bool-cases (includes s.loaded_views (view_key view pane))) [
  | inl old ↦ rw (seen_again view pane env s old) old
  | inr new ↦ rw (loads_anew view pane env s new) (
      mark-ok (view_key view pane) env (load_view view pane env s)
        (rw (loads_anew view pane env s new) at h))
]

-- Once a view has been loaded, asking for it again sends nothing and changes nothing, whatever
-- the server would answer by then.
pub loads_once :
    (view pane : Text) (env later : Env) (s : App)
    → (load_workspace_view view pane env s).0 ≡ ok tt
    → load_workspace_view view pane later (load_workspace_view view pane env s).1
      ≡ (ok tt, (load_workspace_view view pane env s).1)
loads_once view pane env later s h =
    seen_again view pane later (load_workspace_view view pane env s).1
      (loads-marks view pane env s h)

kept_by_failure :
    (view pane : Text) (env : Env) (s : App) (e : Thrown)
    → includes s.loaded_views (view_key view pane) ≡ false
    → (load_workspace_view view pane env s).0 ≡ throw e
    → frame (load_workspace_view view pane env s).1 ≡ frame s
kept_by_failure view pane env s e new h =
    ap (λ (r : Result (Unit {0}) × App). frame r.1) (loads_anew view pane env s new)
    ∙ mark-throw (view_key view pane) env (load_view view pane env s) e
        (rw (loads_anew view pane env s new) at h)
    ∙ load_view-Frames view pane env s

-- Where a loader throws, the view is not marked as loaded: what has been loaded, and all else that
-- routing and signing in set, is as before.
pub load_fails :
    (view pane : Text) (env : Env) (s : App) (e : Thrown)
    → (load_workspace_view view pane env s).0 ≡ throw e
    → (frame (load_workspace_view view pane env s).1 ≡ frame s)
      × (includes (load_workspace_view view pane env s).1.loaded_views (view_key view pane) ≡ false)
load_fails view pane env s e h = elim (Bool-cases (includes s.loaded_views (view_key view pane))) [
  | inl old ↦ cc (ap (λ (r : Result (Unit {0}) × App). r.0) (seen_again view pane env s old))
  | inr new ↦
      let kept = kept_by_failure view pane env s e new h in
      (kept, ap (λ (f : Frame). includes f.loaded_views (view_key view pane)) kept ∙ new)
]

-- What the mark does not touch is kept by the whole call, however it ends.
pub load_workspace_view-keeps :
    {B : Type 0} (part : Frame → B)
    → ((key : Text) (s : App) → part (frame (add_view key s)) ≡ part (frame s))
    → (view pane : Text) (env : Env) (s : App)
    → part (frame (load_workspace_view view pane env s).1) ≡ part (frame s)
unfolding mark
load_workspace_view-keeps part h view pane env s =
    elim (Bool-cases (includes s.loaded_views (view_key view pane))) [
      | inl old ↦
          ap (λ (r : Result (Unit {0}) × App). part (frame r.1)) (seen_again view pane env s old)
      | inr new ↦
          ap (λ (r : Result (Unit {0}) × App). part (frame r.1)) (loads_anew view pane env s new)
          ∙ marked (load_view view pane env s)
          ∙ ap part (load_view-Frames view pane env s)
    ]
  where
    marked :
        (r : Result (Unit {0}) × App)
        → part (frame (mark (view_key view pane) env r).1) ≡ part (frame r.1)
    marked (ok a, s') = h (view_key view pane) s'
    marked (throw e, s') = refl
