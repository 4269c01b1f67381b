-- ===== src/WaylandVkWsi/Refs.antt =====
-- The references of buffers in src/tpl_wayland_vk_wsi.c, from the dequeue out of the queue on.
pub mod Dequeue
use libtpl_egl.Base.{
  ℕ, zero, suc, ◌+◌, ◌-◌, ◌≤◌, ◌<◌, ◌≡◌, refl, sym, ap, ◌∙◌, Bool, true, false, not, ◌&&◌, Option,
  none, some, inl, inr, arith, ◌==◌, if◌then◌else◌, is_some, update, Bool-cases, Option-cases,
}
use libtpl_egl.Types.{Ptr, null, done}
use libtpl_egl.Worker.{Fd}
use libtpl_egl.Surface.{Surface}
use libtpl_egl.WaylandVkWsi.{
  WsiDisplay, WsiSurface, WsiBuffer, WaylandLib, World, System, DisplayAt,
}
use libtpl_egl.WaylandVkWsi.Buffers.{get_buffer, on_lib, put_surface, put_buffer, unlocked}
use libtpl_egl.WaylandVkWsi.Swapchain.{lib_of, set_lib}
use libtpl_egl.WaylandVkWsi.Surface.{
  CondWait, forever, deadline, unlock_free_queue, wait_free, fence_of, make_buffer, take_buffer,
  dequeue_with_fence,
}

minus_zero : (n : ℕ) → n ≡ n - 0
minus_zero n = omega arith

kept_one :
    (x y z n : ℕ) (ok : Bool) → x ≡ y - (if ok then 0 else n) → y ≡ z + n → ok ≡ true → x ≡ z + n
kept_one x y z n ok e f h = ground arith

dropped_one :
    (x y z n : ℕ) (ok : Bool) → x ≡ y - (if ok then 0 else n) → y ≡ z + n → ok ≡ false → x ≡ z + 0
dropped_one x y z n ok e f h = ground arith

-- What a reference to the buffer `b` adds to the references of `c`.
abbrev pub one_for : (b c : Ptr) → ℕ
one_for b c = if c == b then 1 else 0

module _ {T : Type 0} (lib : WaylandLib T) (refs : Ptr → T → ℕ) where
  abbrev Kept : T → T → Type 0
  Kept t u = (c : Ptr) → refs c u ≡ refs c t

  -- The references that libtbm counts: those that are taken and dropped; other calls leave them.
  pub record IsCounting : Type 0 where
    pub ref : (b c : Ptr) (t : T) → refs c (lib.tbm.ref b t) ≡ refs c t + one_for b c
    pub unref : (b c : Ptr) (t : T) → refs c (lib.tbm.unref b t) ≡ refs c t - one_for b c
    pub dequeue : (q : Ptr) (t : T) → Kept t (lib.tbm.dequeue q t).2
    pub can_dequeue : (q : Ptr) (t : T) → Kept t (lib.tbm.can_dequeue q t).1
    pub clock : (t : T) → Kept t (lib.clock t).1
    pub allocated : (t : T) → Kept t (lib.tbm.allocated t).1
    pub create_buffer : (client b : Ptr) (t : T) → Kept t (lib.create_buffer client b t).1
    pub timeline_create : (t : T) → Kept t (lib.timeline_create t).1
    pub proxy_destroy : (proxy : Ptr) (t : T) → Kept t (lib.proxy_destroy proxy t)
    pub set_sync_timeline :
        (client proxy : Ptr) (fd : Fd) (t : T) → Kept t (lib.set_sync_timeline client proxy fd t)
    pub add_release_listener : (proxy b : Ptr) (t : T) → Kept t (lib.add_release_listener proxy b t)
    pub flush : (d : Ptr) (t : T) → Kept t (lib.flush d t)
    pub fence_create :
        (fd : Fd) (b : Ptr) (stamp : ℕ) (t : T) → Kept t (lib.fence_create fd b stamp t).1

  -- A system from which only the references may differ by what `b` gained.
  pub record Gains (b : Ptr) (w x : World T) : Type 0 where
    pub counted : (c : Ptr) → refs c x.lib ≡ refs c w.lib + (if b == null then 0 else one_for b c)
    pub stopped : x.stopped ≡ w.stopped
    pub known : (b == null) ≡ false → is_some (x.buffers b) ≡ true

module _ {T : Type 0} (lib : WaylandLib T) (display_at : DisplayAt) (refs : Ptr → T → ℕ)
    (k : IsCounting lib refs) where
  -- Every failure of the part for a new buffer drops the reference that was taken; with success the
  -- backend knows the buffer.
  make_buffer_refs :
      (display client b c : Ptr) (w : World T)
      → let r = make_buffer lib display_at display client b w in
        (refs c r.1.lib ≡ refs c w.lib - (if r.0 then 0 else one_for b c))
        × (r.1.stopped ≡ w.stopped)
        × (r.0 ≡ true → is_some (r.1.buffers b) ≡ true)
  unfolding make_buffer
  make_buffer_refs display client b c w =
      let dpy = (display_at display).native_handle in
      let t₁ = (lib.tbm.allocated w.lib).1 in
      let proxy = (lib.create_buffer client b t₁).0 in
      let t₂ = (lib.create_buffer client b t₁).1 in
      let t₃ = (lib.timeline_create t₂).1 in
      let e₁ = k.allocated w.lib c in
      let e₂ = k.create_buffer client b t₁ c in
      let e₃ = k.timeline_create t₂ c in
      elim (Bool-cases (lib.tbm.allocated w.lib).0) [
        | inr no_memory ↦
            rw (make_buffer, no_memory)
              (k.unref b c t₁ ∙ (rw e₁ refl), refl, λ h. absurd (ground arith))
        | inl memory ↦ elim (Bool-cases (proxy == null)) [
          | inl no_proxy ↦
              rw (make_buffer, memory, no_proxy)
                (k.unref b c t₂ ∙ (rw (e₂ ∙ e₁) refl), refl, λ h. absurd (ground arith))
          | inr made ↦ elim (Option-cases (lib.timeline_create t₂).0) [
            | inl no_timeline ↦
                rw (make_buffer, memory, made, no_timeline)
                  (
                    k.unref b c _ ∙ (rw (k.proxy_destroy proxy t₃ c ∙ e₃ ∙ e₂ ∙ e₁) refl),
                    refl,
                    λ h. absurd (ground arith),
                  )
            | inr (fd, timeline) ↦
                rw (make_buffer, memory, made, timeline)
                  (
                    k.flush dpy _ c
                        ∙ k.add_release_listener proxy b _ c
                        ∙ k.set_sync_timeline client proxy (some fd) t₃ c
                        ∙ e₃
                        ∙ e₂
                        ∙ e₁
                        ∙ minus_zero (refs c w.lib),
                    refl,
                    λ h. ground arith,
                  )
          ]
        ]
      ]

  pub unlocked_lem :
      (p : Ptr) (w : World T)
      → let x = unlock_free_queue p w in
        (x.lib ≡ w.lib)
        × (x.displays ≡ w.displays)
        × (x.buffers ≡ w.buffers)
        × (x.stopped ≡ w.stopped)
  unfolding unlock_free_queue
  unlocked_lem p w = elim (Option-cases (w.surfaces p)) [
    | inl e ↦ rw (unlock_free_queue, e) (refl, refl, refl, refl)
    | inr (t, e) ↦ rw (unlock_free_queue, e) (refl, refl, refl, refl)
  ]

  fence_of-Kept :
      (wants_fence : Bool) (b : Ptr) (buf : WsiBuffer) (t : T) (c : Ptr)
      → refs c (fence_of lib display_at wants_fence b buf t).1 ≡ refs c t
  unfolding fence_of
  fence_of-Kept wants_fence b buf t c =
      elim (Bool-cases (wants_fence && not (buf.sync_timestamp == 0))) [
        | inl e ↦ rw e (k.fence_create buf.sync_timeline b buf.sync_timestamp t c)
        | inr e ↦ rw e refl
      ]

  module _ (wants_fence : Bool) (queue : Ptr) (s : Surface) (sys : System T) (d : WsiDisplay)
      (served : sys.world.displays (display_at s.display).backend_data ≡ some d) where
    abbrev b : Ptr
    b = (lib.tbm.dequeue queue sys.world.lib).1

    abbrev unlocked_world : World T
    unlocked_world =
        unlock_free_queue s.backend_data
          (record sys.world { lib = (lib.tbm.dequeue queue sys.world.lib).2 })

    abbrev referenced : World T
    referenced = on_lib unlocked_world (lib.tbm.ref b)

    referenced-refs : (c : Ptr) → refs c referenced.lib ≡ refs c sys.world.lib + one_for b c
    referenced-refs c =
        let (same, displays, buffers, stopped) =
          unlocked_lem s.backend_data
            (record sys.world { lib = (lib.tbm.dequeue queue sys.world.lib).2 }) in
        k.ref b c unlocked_world.lib
        ∙ ap (λ n. n + one_for b c) (ap (refs c) same ∙ k.dequeue queue sys.world.lib c)

    counted_none : (b == null) ≡ true → (c : Ptr) → refs c unlocked_world.lib ≡ refs c sys.world.lib
    counted_none e c =
        let (same, displays, buffers, stopped) =
          unlocked_lem s.backend_data
            (record sys.world { lib = (lib.tbm.dequeue queue sys.world.lib).2 }) in
        ap (refs c) same ∙ k.dequeue queue sys.world.lib c

    abbrev Taken : (Ptr × Fd) × System T → Type 0
    Taken r = Gains lib refs r.0.0 sys.world r.1.world

    take_none : (b == null) ≡ true → Taken (take_buffer lib display_at wants_fence queue s sys)
    unfolding take_buffer
    take_none e =
        let (same, displays, buffers, stopped) =
          unlocked_lem s.backend_data
            (record sys.world { lib = (lib.tbm.dequeue queue sys.world.lib).2 }) in
        rw (take_buffer, e)
          (record {
            counted = λ c. omega (arith, counted_none e c);
            stopped = stopped;
            known = λ h. absurd (ground arith);
          })

    get_buffer_known :
        (w : World T) (buf : WsiBuffer)
        → get_buffer lib w b ≡ some buf
        → is_some (w.buffers b) ≡ true
    unfolding get_buffer
    get_buffer_known w buf e = ground arith

    take_known :
        (buf : WsiBuffer)
        → (b == null) ≡ false
        → get_buffer lib referenced b ≡ some buf
        → Taken (take_buffer lib display_at wants_fence queue s sys)
    unfolding take_buffer
    take_known buf full known =
        let (same, displays, buffers, stopped) =
          unlocked_lem s.backend_data
            (record sys.world { lib = (lib.tbm.dequeue queue sys.world.lib).2 }) in
        rw (take_buffer, full, known)
          (record {
            counted =
                λ c. rw full (fence_of-Kept wants_fence b buf referenced.lib c ∙ referenced-refs c);
            stopped = stopped;
            known = λ h. get_buffer_known referenced buf known;
          })

    take_new :
        (b == null) ≡ false
        → get_buffer lib referenced b ≡ none
        → Taken (take_buffer lib display_at wants_fence queue s sys)
    unfolding take_buffer
    take_new full unknown =
        let (same, displays, buffers, stopped) =
          unlocked_lem s.backend_data
            (record sys.world { lib = (lib.tbm.dequeue queue sys.world.lib).2 }) in
        let there : referenced.displays (display_at s.display).backend_data ≡ some d =
          ap (λ f. f (display_at s.display).backend_data) displays ∙ served in
        let made = λ (c : Ptr). make_buffer_refs s.display d.wl_tbm_client b c referenced in
        elim (Bool-cases (make_buffer lib display_at s.display d.wl_tbm_client b referenced).0) [
          | inl ok ↦
              rw (take_buffer, full, unknown, there, ok)
                (record {
                  counted = λ c. rw full (kept_one _ _ _ _ _ (made c).0 (referenced-refs c) ok);
                  stopped = (made b).1 ∙ stopped;
                  known = λ h. (made b).2 ok;
                })
          | inr bad ↦
              rw (take_buffer, full, unknown, there, bad)
                (record {
                  counted = λ c. dropped_one _ _ _ _ _ (made c).0 (referenced-refs c) bad;
                  stopped = (made b).1 ∙ stopped;
                  known = λ h. absurd (ground arith);
                })
        ]

    -- The part from the dequeue on: with a buffer there is one reference more to it, and without
    -- none.
    pub take_buffer-Gains : Taken (take_buffer lib display_at wants_fence queue s sys)
    take_buffer-Gains = elim (Bool-cases (b == null)) [
      | inl e ↦ take_none e
      | inr full ↦ elim (Option-cases (get_buffer lib referenced b)) [
        | inl unknown ↦ take_new full unknown
        | inr (buf, known) ↦ take_known buf full known
      ]
    ]
