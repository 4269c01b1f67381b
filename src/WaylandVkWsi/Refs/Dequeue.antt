-- ===== src/WaylandVkWsi/Refs/Dequeue.antt =====
-- `__tpl_wayland_vk_wsi_surface_dequeue_buffer`: its wait ends, and its references are balanced.
use libtpl_egl.Base.{
  ℕ, zero, suc, ◌<◌, ◌≡◌, refl, ap, ◌∙◌, Bool, true, false, not, ◌&&◌, Option, none, some, inl, inr,
  arith, ◌==◌, if◌then◌else◌, is_some, Bool-cases,
}
use libtpl_egl.Types.{Ptr, null, done}
use libtpl_egl.Surface.{Surface}
use libtpl_egl.WaylandVkWsi.{WsiDisplay, WsiSurface, WaylandLib, System, DisplayAt}
use libtpl_egl.WaylandVkWsi.Swapchain.{set_lib}
use libtpl_egl.WaylandVkWsi.Surface.{CondWait, forever, deadline, wait_free, dequeue_with_fence}
use libtpl_egl.WaylandVkWsi.Refs.{IsCounting, Gains, take_buffer-Gains, unlocked_lem}

module _ {T : Type 0} (lib : WaylandLib T) (display_at : DisplayAt) (cond_wait : CondWait T)
    (measure : System T → ℕ) where
  -- What the wait relies on: as long as no buffer is free and the deadline has not passed, each wait
  -- brings a free buffer, or the deadline, nearer; and a wait leaves the displays alone, and the
  -- process running.
  pub record IsWoken (queue : Ptr) : Type 0 where
    pub wakes :
        (until : Option (ℕ × ℕ)) (sys : System T)
        → (lib.tbm.can_dequeue queue sys.world.lib).0 ≡ false
        → (let asked = set_lib sys (lib.tbm.can_dequeue queue sys.world.lib).1 in
            ((cond_wait until asked).0 && is_some until) ≡ false
            → measure (cond_wait until asked).1 < measure sys)
    pub displays :
        (until : Option (ℕ × ℕ)) (sys : System T)
        → (cond_wait until sys).1.world.displays ≡ sys.world.displays
    pub running :
        (until : Option (ℕ × ℕ)) (sys : System T)
        → (cond_wait until sys).1.world.stopped ≡ sys.world.stopped

  -- The wait ends, with the displays as they were.
  abbrev pub WaitEnds : (fuel : ℕ) → Option (ℕ × ℕ) → Ptr → System T → Type 0
  WaitEnds fuel until queue sys =
      (there : Bool) × (x : System T) × (wait_free lib display_at cond_wait fuel until queue sys
        ≡ done (there, x))
      × (x.world.displays ≡ sys.world.displays)
      × (x.world.stopped ≡ sys.world.stopped)

  pub wait_free_ends :
      (queue : Ptr) (until : Option (ℕ × ℕ)) (woken : IsWoken queue) (fuel : ℕ) (sys : System T)
      → measure sys < fuel
      → WaitEnds fuel until queue sys
  unfolding wait_free
  wait_free_ends queue until woken zero sys enough = absurd (omega arith)
  wait_free_ends queue until woken (suc fuel) sys enough =
      let asked = set_lib sys (lib.tbm.can_dequeue queue sys.world.lib).1 in
      let waited = (cond_wait until asked).1 in
      elim (Bool-cases (lib.tbm.can_dequeue queue sys.world.lib).0) [
        | inl can ↦ (true, asked, rw (wait_free, can) refl, refl, refl)
        | inr full ↦ elim (Bool-cases ((cond_wait until asked).0 && is_some until)) [
          | inl late ↦ (
            false,
            waited,
            rw (wait_free, full, late) refl,
            woken.displays until asked,
            woken.running until asked,
          )
          | inr again ↦
              let (there, x, e, displays, running) =
                wait_free_ends queue until woken fuel waited
                  (omega (arith, woken.wakes until sys full again, enough)) in
              (
                there,
                x,
                rw (wait_free, full, again) e,
                displays ∙ woken.displays until asked,
                running ∙ woken.running until asked,
              )
        ]
      ]

  -- The deadline of a dequeue, and the system once the clock is read.
  abbrev pub bounded : (timeout_ns : ℕ) → Bool
  bounded timeout_ns = not (timeout_ns == forever)

  abbrev pub until_of : (timeout_ns : ℕ) → System T → Option (ℕ × ℕ)
  until_of timeout_ns sys =
      if bounded timeout_ns then some (deadline (lib.clock sys.world.lib).0 timeout_ns) else none

  abbrev pub timed : (timeout_ns : ℕ) → System T → System T
  timed timeout_ns sys = if bounded timeout_ns then set_lib sys (lib.clock sys.world.lib).1 else sys

  timed-displays :
      (timeout_ns : ℕ) (sys : System T)
      → ((timed timeout_ns sys).world.displays ≡ sys.world.displays)
        × ((timed timeout_ns sys).world.stopped ≡ sys.world.stopped)
  timed-displays timeout_ns sys = elim (Bool-cases (bounded timeout_ns)) [
    | inl e ↦ rw e (refl, refl)
    | inr e ↦ rw e (refl, refl)
  ]

  -- On a surface with a queue and with a display that has its memory, where waits are bounded, with
  -- more fuel than waits are left: the wait for a free buffer ends, and
  -- `__tpl_wayland_vk_wsi_surface_dequeue_buffer` returns, with no assertion failed that had not
  -- failed before the wait; from the end of the wait on every buffer has as many references as
  -- before if it returns NULL, whatever failed; if it returns a buffer, that one has one reference
  -- more, the others have as many, and the backend knows the buffer.
  pub dequeue-Gains :
      (refs : Ptr → T → ℕ) (counting : IsCounting lib refs) (fuel : ℕ) (wants_fence : Bool)
      (timeout_ns : ℕ) (s : Surface) (sys : System T) (t : WsiSurface) (d : WsiDisplay)
      → sys.world.surfaces s.backend_data ≡ some t
      → sys.world.displays (display_at s.display).backend_data ≡ some d
      → (s.display == null) ≡ false
      → IsWoken t.tbm_queue
      → measure (timed timeout_ns sys) < fuel
      → (there : Bool) × (x : System T) × (wait_free lib display_at cond_wait fuel
            (until_of timeout_ns sys)
            t.tbm_queue
            (timed timeout_ns sys)
          ≡ done (there, x))
        × (let r = dequeue_with_fence lib display_at cond_wait fuel wants_fence timeout_ns s sys in
            Gains lib refs r.0.0 x.world r.2.world × (r.2.world.stopped ≡ sys.world.stopped))
  unfolding dequeue_with_fence
  dequeue-Gains refs counting fuel wants_fence timeout_ns s sys t d at served shown woken enough =
      let (there, x, e, displays, running) =
        wait_free_ends t.tbm_queue (until_of timeout_ns sys) woken fuel (timed timeout_ns sys)
          enough in
      let (same, on) = timed-displays timeout_ns sys in
      let served' : x.world.displays (display_at s.display).backend_data ≡ some d =
        ap (λ f. f (display_at s.display).backend_data) (displays ∙ same) ∙ served in
      let taken =
        take_buffer-Gains lib display_at refs counting wants_fence t.tbm_queue s x d served' in
      let (lib_kept, displays', buffers, stopped) =
        unlocked_lem lib display_at refs counting s.backend_data x.world in
      (
        there,
        x,
        e,
        elim (Bool-cases there) [
          | inl got ↦
              rw (dequeue_with_fence, shown, at, e, got) (taken, taken.stopped ∙ running ∙ on)
          | inr late ↦
              rw (dequeue_with_fence, shown, at, e, late)
                (
                  record {
                    counted = λ c. omega (arith, ap (refs c) lib_kept);
                    stopped = stopped;
                    known = λ h. absurd (ground arith);
                  },
                  stopped ∙ running ∙ on,
                )
        ],
      )
