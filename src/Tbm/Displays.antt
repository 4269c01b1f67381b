-- ===== src/Tbm/Displays.antt =====
-- TBM displays in the registry of src/tpl.c.
use libtpl_egl.Base.{◌≡◌, ◌≢◌, refl, sym, ap, ◌∙◌, Bool, true, some, arith}
use libtpl_egl.Types.{Ptr, null, backend_index, done, succeeded}
use libtpl_egl.Object.{is_valid}
use libtpl_egl.Runtime.Registry
use libtpl_egl.Runtime.Registry.{registered, IsBackend}
use libtpl_egl.Display.{Display, Backends, World, CreateEnv, start_display}
use libtpl_egl.Display.Release.{IsFaithful}
use libtpl_egl.Display.Create.{failed_create_unregisters}
use libtpl_egl.Tbm.{TbmLib, DisplayEnv, Formats, display_backend, display_init, display_fini}

module _ {T : Type 0} (lib : TbmLib T) (tbm_env : DisplayEnv) (formats : Formats)
    (support_vblank : Bool) (state : T) where
  abbrev backends : Backends
  backends t = display_backend lib tbm_env formats support_vblank state

  pub backend-IsFaithful : IsFaithful backends
  unfolding display_backend display_init display_fini
  backend-IsFaithful = record {
    init_type = λ d. ground arith;
    init_base = λ d. ground arith;
    fini_type = λ t f d e. ground arith;
    fini_handle = λ t f d e. ground arith;
  }

  module _ (env : CreateEnv) (w : World) (p : Ptr) (d : Display) (b : IsBackend d.backend_type)
      (v : Registry.IsValid w.runtime) (live : is_valid w.tracked (some d.base) ≡ true)
      (one : d.base.reference ≡ 1) where
    -- Where `tpl_display_create` with the TBM backend has a valid object with one reference for a
    -- NULL native display, in a well-formed registry, and memory: if a display stands in the
    -- registry under the buffer manager that `tbm_bufmgr_init` returns, the creation fails, and
    -- that display is no longer registered afterwards.
    pub second_default_display :
        (a : Ptr)
        → tbm_env.address ≡ some a
        → d.native_handle ≡ null
        → registered w.runtime (backend_index d.backend_type) tbm_env.bufmgr ≢ null
        → (w' : World) × (start_display env backends w p d ≡ done (null, w'))
          × (registered w'.runtime (backend_index d.backend_type) tbm_env.bufmgr ≡ null)
    unfolding display_backend display_init
    second_default_display a room default taken =
        let named : (display_init tbm_env d).1.native_handle ≡ tbm_env.bufmgr =
          rw (display_init, room, default) refl in
        let worked : succeeded (display_init tbm_env d).0 ≡ true = rw (display_init, room) refl in
        let (w', e, gone) =
          failed_create_unregisters env backends w p d backend-IsFaithful b v live one worked
            (rw named taken) in
        (w', e, ap (λ h. registered w'.runtime (backend_index d.backend_type) h) (sym named) ∙ gone)
