-- ===== src/WaylandVkWsi/Events.antt =====
-- The events of src/tpl_wayland_vk_wsi.c, and the end of a round trip.
use libtpl_egl.Base.{
  ℕ, zero, suc, ◌<◌, ◌≡◌, ◌⊎◌, refl, ◌∙◌, Bool, true, false, inl, inr, List, [], ◌∷◌, arith, ◌==◌,
  All, Bool-cases, Option-cases,
}
use libtpl_egl.Types.{Ptr, null, done}
use libtpl_egl.WaylandVkWsi.{Event, synced, framed, released, WaylandLib, World, DisplayAt}
use libtpl_egl.WaylandVkWsi.Buffers.{
  on_lib, buffer_release_callback, handle_event, handle_events, dispatch, has_synced, dispatch_loop,
  roundtrip,
}

-- A listener gets the buffer with which it was added, not NULL.
abbrev pub IsNamed : Event → Type 0
IsNamed synced = Unit
IsNamed framed = Unit
IsNamed (released b) = (b == null) ≡ false

module _ {T : Type 0} (lib : WaylandLib T) where
  -- The release of a buffer drops a reference, or does nothing.
  pub release_eq :
      (b : Ptr) (w : World T)
      → (b == null) ≡ false
      → (buffer_release_callback lib b w ≡ w)
        ⊎ (buffer_release_callback lib b w ≡ on_lib w (lib.tbm.unref b))
  unfolding buffer_release_callback
  release_eq b w full = elim (Bool-cases (lib.tbm.is_valid b w.lib)) [
    | inr gone ↦ inl (rw (buffer_release_callback, full, gone) refl)
    | inl valid ↦ elim (Option-cases (w.buffers b)) [
      | inl unknown ↦ inl (rw (buffer_release_callback, full, valid, unknown) refl)
      | inr (buf, known) ↦ inr (rw (buffer_release_callback, full, valid, known) refl)
    ]
  ]

  -- What events leave alone.
  pub record Leaves (w x : World T) : Type 0 where
    pub surfaces : x.surfaces ≡ w.surfaces
    pub displays : x.displays ≡ w.displays
    pub stopped : x.stopped ≡ w.stopped

  Leaves-trans : (w x y : World T) → Leaves w x → Leaves x y → Leaves w y
  Leaves-trans w x y f g = record {
    surfaces = g.surfaces ∙ f.surfaces;
    displays = g.displays ∙ f.displays;
    stopped = g.stopped ∙ f.stopped;
  }

  Leaves-lib : (w : World T) (f : T → T) → Leaves w (on_lib w f)
  Leaves-lib w f = record { surfaces = refl; displays = refl; stopped = refl }

  Leaves-release :
      (b : Ptr) (w : World T) → (b == null) ≡ false → Leaves w (buffer_release_callback lib b w)
  Leaves-release b w full = elim (release_eq b w full) [
    | inl e ↦ rw e (record { surfaces = refl; displays = refl; stopped = refl })
    | inr e ↦ rw e (Leaves-lib w (lib.tbm.unref b))
  ]

  handle_events-Leaves :
      (es : List Event) (w : World T) → All IsNamed es → Leaves w (handle_events lib es w)
  unfolding handle_events handle_event
  handle_events-Leaves [] w h = record { surfaces = refl; displays = refl; stopped = refl }
  handle_events-Leaves (synced ∷ es) w h =
      Leaves-trans w _ _ (Leaves-lib w lib.callback_destroy)
        (handle_events-Leaves es (on_lib w lib.callback_destroy) h.1)
  handle_events-Leaves (framed ∷ es) w h =
      Leaves-trans w _ _ (Leaves-lib w lib.callback_destroy)
        (handle_events-Leaves es (on_lib w lib.callback_destroy) h.1)
  handle_events-Leaves (released b ∷ es) w h =
      Leaves-trans w _ _ (Leaves-release b w h.0)
        (handle_events-Leaves es (buffer_release_callback lib b w) h.1)

  -- What a round trip relies on: listeners get their buffers, and each dispatch that neither fails
  -- nor brings the answer brings it nearer.
  pub record IsAnswered (dpy : Ptr) (measure : World T → ℕ) : Type 0 where
    pub named : (t : T) → All IsNamed (lib.dispatch dpy t).1
    pub nearer :
        (w : World T)
        → (dispatch lib dpy w).0 ≡ true
        → has_synced (dispatch lib dpy w).1 ≡ false
        → measure (dispatch lib dpy w).2 < measure w

  module _ (dpy : Ptr) (measure : World T → ℕ) (answered : IsAnswered dpy measure) where
    dispatch-Leaves : (w : World T) → Leaves w (dispatch lib dpy w).2
    unfolding dispatch
    dispatch-Leaves w =
        let (ok, events, state) = lib.dispatch dpy w.lib in
        Leaves-trans w _ _ (Leaves-lib w (λ t. state))
          (handle_events-Leaves events (record w { lib = state }) (answered.named w.lib))

    dispatch_loop_ends :
        (fuel : ℕ) (w : World T)
        → measure w < fuel
        → (ok : Bool) × (x : World T) × (dispatch_loop lib fuel dpy w ≡ done (ok, x)) × Leaves w x
    unfolding dispatch_loop
    dispatch_loop_ends zero w enough = absurd (omega arith)
    dispatch_loop_ends (suc fuel) w enough =
        let x = (dispatch lib dpy w).2 in
        let left = dispatch-Leaves w in
        elim (Bool-cases (dispatch lib dpy w).0) [
          | inr lost ↦ (false, x, rw (dispatch_loop, lost) refl, left)
          | inl on ↦ elim (Bool-cases (has_synced (dispatch lib dpy w).1)) [
            | inl answer ↦ (true, x, rw (dispatch_loop, on, answer) refl, left)
            | inr again ↦
                let (ok, y, e, left') =
                  dispatch_loop_ends fuel x (omega (arith, answered.nearer w on again, enough)) in
                (ok, y, rw (dispatch_loop, on, again) e, Leaves-trans w x y left left')
          ]
        ]

    -- A round trip of an open display ends.
    pub roundtrip-Leaves :
        (display_at : DisplayAt) (display : Ptr) (fuel : ℕ) (w : World T)
        → (display_at display).native_handle ≡ dpy
        → (dpy == null) ≡ false
        → ((display_at display).backend_data == null) ≡ false
        → measure (on_lib w (lib.sync dpy)) < fuel
        → Leaves w (roundtrip lib fuel display_at display w)
    unfolding roundtrip
    roundtrip-Leaves display_at display fuel w here open' held enough =
        let (ok, x, e, left) = dispatch_loop_ends fuel (on_lib w (lib.sync dpy)) enough in
        rw (roundtrip, here, open', held, e)
          (Leaves-trans w (on_lib w (lib.sync dpy)) x (Leaves-lib w (lib.sync dpy)) left)
