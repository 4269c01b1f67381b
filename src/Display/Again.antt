-- ===== src/Display/Again.antt =====
-- `tpl_display_create` for a native display that was asked for before.
use mathlib.Core.Path.{subst}
use libtpl_egl.Base.{
  ◌≡◌, ◌≢◌, refl, sym, ap, ◌∙◌, true, false, ◌&&◌, inl, inr, some, arith, ◌==◌, Bool-cases,
  Option-cases, ==_eq,
}
use libtpl_egl.Types.{object_display, Ptr, null, BackendType, backend_index, done}
use libtpl_egl.Object.{is_valid, object_init}
use libtpl_egl.Object.Validity.{object_init_valid, object_init_reference}
use libtpl_egl.Runtime.Choice.{init_backend_same}
use libtpl_egl.Runtime.Registry
use libtpl_egl.Runtime.Registry.{registered, IsBackend}
use libtpl_egl.Runtime.Find.{find_display-registered}
use libtpl_egl.Display.{
  Display, Backends, World, CreateEnv, start_display, make_display, display_create, zeroed_object,
  display_free_func,
}
use libtpl_egl.Display.Release.{IsFaithful}
use libtpl_egl.Display.Create.{start_display-Ends}

-- A display that is registered is returned, and nothing is made.
pub display_create_found :
    (env : CreateEnv) (backends : Backends) (w : World) (type : BackendType) (native_dpy : Ptr)
    → IsBackend type
    → registered w.runtime (backend_index type) native_dpy ≢ null
    → display_create env backends w type native_dpy
      ≡ done (registered w.runtime (backend_index type) native_dpy, w)
unfolding display_create
display_create_found env backends w type native_dpy b present =
    rw (find_display-registered w.runtime type native_dpy b) (ground arith)

display_create_absent :
    (env : CreateEnv) (backends : Backends) (w : World) (type : BackendType) (native_dpy : Ptr)
    → IsBackend type
    → registered w.runtime (backend_index type) native_dpy ≡ null
    → display_create env backends w type native_dpy ≡ make_display env backends w type native_dpy
unfolding display_create
display_create_absent env backends w type native_dpy b absent =
    rw (find_display-registered w.runtime type native_dpy b) (ground arith)

-- The display and the world with which `make_display` goes on to its backend.
abbrev made_display : CreateEnv → World → BackendType → Ptr → Ptr → Display
made_display env w type native_dpy p = record {
  base =
      (object_init env.width env.mutex_init_ok env.tracking_ok w.tracked (zeroed_object p)
        object_display display_free_func).2;
  native_handle = native_dpy;
  bufmgr_fd = 0;
  backend_type = type;
  backend_data = null;
}

abbrev made_world : CreateEnv → World → Ptr → World
made_world env w p = record w {
  tracked =
      (object_init env.width env.mutex_init_ok env.tracking_ok w.tracked (zeroed_object p)
        object_display display_free_func).1;
}

-- A display that `make_display` returns has come through `start_display`.
make_display_started :
    (env : CreateEnv) (backends : Backends) (w w' : World) (type : BackendType) (native_dpy p : Ptr)
    → make_display env backends w type native_dpy ≡ done (p, w')
    → p ≢ null
    → (a : Ptr) × (env.address ≡ some a)
      × (start_display env backends (made_world env w a) a (made_display env w type native_dpy a)
          ≡ done (p, w'))
unfolding make_display
make_display_started env backends w w' type native_dpy p e ne = elim (Option-cases env.address) [
  | inl full ↦ absurd (ground arith)
  | inr (a, room) ↦ elim (init_backend_same env.winsys type) [
    | inl chosen ↦ (a, room, ground arith)
    | inr bad ↦ absurd (ground arith)
  ]
]

module _ (env : CreateEnv) (backends : Backends) (w w' : World) (type : BackendType)
    (native_dpy p : Ptr) (f : IsFaithful backends) (b : IsBackend type)
    (v : Registry.IsValid w.runtime) (untracked : (w.tracked.built && w.tracked.enabled) ≡ false)
    (init_handle : (d : Display)
      → ((backends d.backend_type).init d).1.native_handle ≡ d.native_handle) where
  started_registered :
      (a : Ptr)
      → a ≢ null
      → start_display env backends (made_world env w a) a (made_display env w type native_dpy a)
        ≡ done (p, w')
      → p ≢ null
      → registered w'.runtime (backend_index type) native_dpy ≡ p
  started_registered a mapped e ne =
      let d = made_display env w type native_dpy a in
      let g = made_world env w a in
      let live : is_valid g.tracked (some d.base) ≡ true =
        (object_init_valid env.width env.mutex_init_ok env.tracking_ok w.tracked (zeroed_object a)
          object_display display_free_func mapped (inl untracked)).0 in
      let one : d.base.reference ≡ 1 =
        object_init_reference env.width env.mutex_init_ok env.tracking_ok w.tracked
          (zeroed_object a) object_display display_free_func in
      elim (start_display-Ends env backends g a d f b v live one) [
        | inl (ok, w₁, e₁, r) ↦
            let same : w₁ ≡ w' = cc in
            let at : a ≡ p = cc in
            let here : registered w₁.runtime (backend_index type) native_dpy ≡ a =
              r.table (backend_index type) native_dpy
              ∙ rw (f.init_type d, init_handle d) (ground arith) in
            subst (λ (x : World). registered x.runtime (backend_index type) native_dpy ≡ p) same
              (here ∙ at)
        | inr (why, w₁, e₁, r) ↦ absurd (ground arith)
      ]

  -- In a well-formed registry without tracking of objects, with backends whose functions leave the
  -- base object, the type and the handle alone, and memory at an address other than NULL: a
  -- display that `tpl_display_create` returned for a backend and a native display is returned by
  -- the next call for the same, and nothing changes then, whatever memory there is.
  pub display_create_again :
      (env' : CreateEnv)
      → env.address ≢ some null
      → display_create env backends w type native_dpy ≡ done (p, w')
      → p ≢ null
      → display_create env' backends w' type native_dpy ≡ done (p, w')
  display_create_again env' mapped e ne =
      let there : registered w'.runtime (backend_index type) native_dpy ≡ p =
        elim (Bool-cases (registered w.runtime (backend_index type) native_dpy == null)) [
          | inl absent ↦
              let e₁ =
                sym (display_create_absent env backends w type native_dpy b (==_eq _ _ absent))
                ∙ e in
              let (a, room, e₂) = make_display_started env backends w w' type native_dpy p e₁ ne in
              started_registered a (λ h. mapped (room ∙ ap some h)) e₂ ne
          | inr present ↦
              let e₁ =
                sym (display_create_found env backends w type native_dpy b (ground arith)) ∙ e in
              let same : w ≡ w' = cc in
              subst (λ (x : World). registered x.runtime (backend_index type) native_dpy ≡ p) same
                (cc)
        ] in
      display_create_found env' backends w' type native_dpy b (ground arith) ∙ rw there refl
