-- ===== src/WaylandVkWsi/Times.antt =====
-- The deadline of `__tpl_wayland_vk_wsi_surface_dequeue_buffer`.
use libtpl_egl.Base.{ℕ, ◌+◌, ◌*◌, ◌<◌, ◌≡◌, arith}
use libtpl_egl.WaylandVkWsi.Surface.{second, deadline}

-- From a time whose nanoseconds are less than a second, the deadline is the timeout later, to the
-- nanosecond, and its nanoseconds are less than a second, as `pthread_cond_timedwait` demands.
pub deadline-later :
    (sec nsec timeout_ns : ℕ)
    → nsec < second
    → (let r = deadline (sec, nsec) timeout_ns in
        (r.1 < second) × (r.0 * second + r.1 ≡ sec * second + nsec + timeout_ns))
unfolding deadline
deadline-later sec nsec timeout_ns h = ground arith
