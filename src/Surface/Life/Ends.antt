-- ===== src/Surface/Life/Ends.antt =====
-- How tpl_surface_create of src/tpl_surface.c ends.
use libtpl_egl.Base.{
  ℕ, ◌≡◌, ◌≢◌, refl, true, false, not, ◌||◌, ◌&&◌, Option, none, some, ◌⊎◌, inl, inr, Bool-cases,
  Option-cases, ◌==◌,
}
use libtpl_egl.Types.{
  TplResult, succeeded, object_surface, SurfaceType, Ptr, null, BackendType, done,
}
use libtpl_egl.Object.{HashCheck, Object, object_init, is_valid, object_fini}
use libtpl_egl.Object.Validity.{object_init_valid, object_fini_invalid, object_init_reference}
use libtpl_egl.Object.Counting.{unreference_last}
use libtpl_egl.Runtime.{init_backend}
use libtpl_egl.Hlist
use libtpl_egl.Display.{zeroed_object}
use libtpl_egl.Surface.{Surface, SurfaceBackend}
use libtpl_egl.Surface.Life.{
  CreateEnv, surface_free_func, filled, surface_fini, surface_free, unreference_surface, give_up,
  start_surface, surface_create,
}

module _ {S : Type 0} (backends : BackendType → SurfaceBackend S)
    (fini : BackendType → Surface → S → S)
    (has_fini : (t : BackendType) → (backends t).fini ≡ some (fini t))
    (init_keeps : (t : BackendType) (init : Surface → S → TplResult × Surface × S) (s : Surface)
        (state : S)
      → (backends t).init ≡ some init
      → (init s state).1.base ≡ s.base) where
  -- How the initialisation of the backend of a surface fails, with the surface and the state that
  -- it leaves: there is no function for it, or the function says so.
  abbrev pub IsUninitialised : Surface → S → Surface × S → Type 0
  IsUninitialised s state left =
      (((backends s.backend_type).init ≡ none) × (left ≡ (s, state)))
      ⊎ ((init : Surface → S → TplResult × Surface × S) × ((backends s.backend_type).init
            ≡ some init)
          × (succeeded (init s state).0 ≡ false)
          × (left ≡ ((init s state).1, (init s state).2)))

  -- A surface whose backend initialised it is returned, alive, with one reference, and in the state
  -- that the backend left.
  abbrev pub IsMade : Surface → S → Option Surface × HashCheck × S → Type 0
  IsMade s state r =
      (init : Surface → S → TplResult × Surface × S) × ((backends s.backend_type).init ≡ some init)
      × (succeeded (init s state).0 ≡ true)
      × (r.0 ≡ some (init s state).1)
      × (r.2 ≡ (init s state).2)
      × ((init s state).1.base ≡ s.base)
      × (is_valid r.1 (some (init s state).1.base) ≡ true)
      × ((init s state).1.base.reference ≡ 1)

  -- NULL is returned, the backend has ended a surface, and its object is not valid any more.
  abbrev pub IsEnded : Surface → S → Option Surface × HashCheck × S → Type 0
  IsEnded s state r =
      (r.0 ≡ none)
      × (dead : Object) × (r.2 ≡ fini s.backend_type (record s { base = dead }) state)
      × (is_valid r.1 (some dead) ≡ false)

  -- A surface that its backend did not initialise is given up, as the backend left it.
  abbrev pub IsGivenUp : Surface → S → Option Surface × HashCheck × S → Type 0
  IsGivenUp s state r =
      (left : Surface × S) × IsUninitialised s state left × IsEnded left.0 left.1 r

  give_up_lem :
      (env : CreateEnv) (g : HashCheck) (s : Surface) (state : S)
      → is_valid g (some s.base) ≡ true
      → s.base.reference ≡ 1
      → (r : Option Surface × HashCheck × S) × (give_up backends env g s state ≡ done r)
        × IsEnded s state r
  unfolding give_up unreference_surface surface_free surface_fini
  give_up_lem env g s state live one =
      let o = record s.base { reference = 0 } in
      let (ret, g', dead, calls) = object_fini env.mutex_destroy_ok g o in
      (
        (none, g', fini s.backend_type (record s { base = dead }) state),
        rw
            (
              surface_fini,
              has_fini s.backend_type,
              unreference_last env.mutex_destroy_ok g s.base live one,
            )
            refl,
        (refl, dead, refl, object_fini_invalid env.mutex_destroy_ok g o),
      )

  start_surface_lem :
      (env : CreateEnv) (g : HashCheck) (s : Surface) (state : S)
      → is_valid g (some s.base) ≡ true
      → s.base.reference ≡ 1
      → (r : Option Surface × HashCheck × S) × (start_surface backends env g s state ≡ done r)
        × (IsMade s state r ⊎ IsGivenUp s state r)
  unfolding start_surface
  start_surface_lem env g s state live one = elim (Option-cases (backends s.backend_type).init) [
    | inl missing ↦
        let (r, e, p) = give_up_lem env g s state live one in
        (r, rw (start_surface, missing) e, inr ((s, state), inl (missing, refl), p))
    | inr (init, has_init) ↦ started init has_init
  ]
    where
      started :
          (init : Surface → S → TplResult × Surface × S)
          → (backends s.backend_type).init ≡ some init
          → (r : Option Surface × HashCheck × S) × (start_surface backends env g s state ≡ done r)
            × (IsMade s state r ⊎ IsGivenUp s state r)
      started init has_init =
          let (ret, s', state') = init s state in
          let keeps : s'.base ≡ s.base = init_keeps s.backend_type init s state has_init in
          elim (Bool-cases (succeeded (init s state).0)) [
            | inl ok ↦ (
              (some s', g, state'),
              rw (start_surface, has_init, ok) refl,
              inl (init, has_init, ok, refl, refl, keeps, rw keeps live, rw keeps one),
            )
            | inr bad ↦
                let (r, e, p) = give_up_lem env g s' state' (rw keeps live) (rw keeps one) in
                (
                  r,
                  rw (start_surface, has_init, bad) e,
                  inr ((s', state'), inr (init, has_init, bad, refl), p),
                )
          ]

  after_object :
      (env : CreateEnv) (g : HashCheck) (p : Ptr) (s : Surface) (state : S)
      → p ≢ null
      → ((g.built && g.enabled) ≡ false)
        ⊎ (succeeded (Hlist.insert env.tracking_ok g.table p p).0 ≡ true)
      → let (ret, g', base) =
          object_init env.width env.mutex_init_ok env.tracking_ok g
            (zeroed_object p)
            object_surface
            surface_free_func in
        (r : Option Surface × HashCheck × S) × (start_surface backends env g'
            (record s { base = base })
            state
          ≡ done r)
        × (IsMade (record s { base = base }) state r ⊎ IsGivenUp (record s { base = base }) state r)
  after_object env g p s state ne tracked =
      let (ret, g', base) =
        object_init env.width env.mutex_init_ok env.tracking_ok g (zeroed_object p) object_surface
          surface_free_func in
      let (live, counted, typed) =
        object_init_valid env.width env.mutex_init_ok env.tracking_ok g (zeroed_object p)
          object_surface surface_free_func ne tracked in
      start_surface_lem env g' (record s { base = base }) state live
        (object_init_reference env.width env.mutex_init_ok env.tracking_ok g (zeroed_object p)
          object_surface surface_free_func)

  -- `tpl_surface_create` ends, whatever fails on the way, for a display whose backend the build
  -- has, with backends that have a function to end a surface and whose functions leave the base
  -- object alone, where the new object is at an address other than NULL and, if objects are
  -- tracked, could be inserted into their list. Where the display or the handle is NULL, or the
  -- object cannot be made, NULL is returned and the backend has done nothing. Otherwise, where the
  -- backend initialises the surface that was filled in, the surface that it leaves is returned,
  -- valid and with one reference; and where it has no function for that or the function fails, NULL
  -- is returned after the backend has ended the surface that was left, whose object is not valid
  -- any more.
  pub surface_create_ends :
      (env : CreateEnv) (g : HashCheck) (display : Ptr) (display_backend : BackendType)
      (handle : Ptr) (type : SurfaceType) (format : ℕ) (state : S) (p : Ptr)
      → init_backend env.winsys display_backend ≡ done display_backend
      → env.address ≡ some p
      → p ≢ null
      → ((g.built && g.enabled) ≡ false)
        ⊎ (succeeded (Hlist.insert env.tracking_ok g.table p p).0 ≡ true)
      → let (ret, g', base) =
          object_init env.width env.mutex_init_ok env.tracking_ok g
            (zeroed_object p)
            object_surface
            surface_free_func in
        let s = filled base display handle type format display_backend in
        (r : Option Surface × HashCheck × S) × (surface_create backends env g display
            display_backend handle type format state
          ≡ done r)
        × (((display == null || handle == null || not (succeeded ret)) ≡ true)
              × (r.0 ≡ none)
              × (r.2 ≡ state)
            ⊎ (((display == null || handle == null || not (succeeded ret)) ≡ false)
                × (IsMade s state r ⊎ IsGivenUp s state r)))
  unfolding surface_create filled after_object start_surface_lem give_up give_up_lem
  surface_create_ends env g display display_backend handle type format state p has at ne tracked =
      let (ret, g', base) =
        object_init env.width env.mutex_init_ok env.tracking_ok g (zeroed_object p) object_surface
          surface_free_func in
      elim (Bool-cases (display == null)) [
        | inl d ↦ ((none, g, state), rw d refl, inl (rw d refl, refl, refl))
        | inr d ↦ elim (Bool-cases (handle == null)) [
          | inl h ↦ ((none, g, state), rw (d, h) refl, inl (rw (d, h) refl, refl, refl))
          | inr h ↦ elim (Bool-cases (succeeded ret)) [
            | inl ok ↦
                let (r, e, q) =
                  after_object env g p (filled base display handle type format display_backend)
                    state ne tracked in
                (r, rw (d, h, at, ok, has) e, inr (rw (d, h, ok) refl, q))
            | inr bad ↦
                ((none, g', state), rw (d, h, at, bad) refl, inl (rw (d, h, bad) refl, refl, refl))
          ]
        ]
      ]
