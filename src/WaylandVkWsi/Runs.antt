-- ===== src/WaylandVkWsi/Runs.antt =====
-- Runs of the Wayland Vulkan WSI backend that follow the code step by step.
use libtpl_egl.Base.{ℕ, ◌≡◌, refl, true, false, none, some, List, [], ◌∷◌}
use libtpl_egl.Types.{error_none, pixmap}
use libtpl_egl.TplList.{TplList}
use libtpl_egl.TplList
use libtpl_egl.Tbm.{fifo}
use libtpl_egl.WaylandVkWsi.{World}
use libtpl_egl.WaylandVkWsi.Displays.{
  Magic, capabilities, choose_backend_wayland_vk_wsi, display_fini, query_buffer_count,
  query_present_modes,
}
use libtpl_egl.WaylandVkWsi.Buffers.{send, commit_buffer, process_draw_done, vblank, buffer_free}
use libtpl_egl.WaylandVkWsi.Swapchain.{get_swapchain_buffers}
use libtpl_egl.WaylandVkWsi.Surface.{zeroed, surface_init, fence_of, make_buffer}
use libtpl_egl.WaylandVkWsi.Samples.{
  Libraries, libraries, display, display_at, surface, buffer, start, system,
}

-- A handle whose first word points to a structure of the name "wl_display", and one of another name.
abbrev named : List ℕ → Magic
named name = record {
  interface = 0x9000;
  interface_name = b'w' ∷ b'l' ∷ [];
  first_word = λ p. 0x9100;
  name_at = λ p. name;
}

chosen_by_name : choose_backend_wayland_vk_wsi (named (b'w' ∷ b'l' ∷ b'_' ∷ [])) 0x5000 ≡ true
unfolding choose_backend_wayland_vk_wsi
chosen_by_name = refl

not_chosen : choose_backend_wayland_vk_wsi (named (b'w' ∷ [])) 0x5000 ≡ false
unfolding choose_backend_wayland_vk_wsi
not_chosen = refl

-- MAILBOX and IMMEDIATE, and the FIFO modes where the worker thread has vblanks.
modes_asked :
    query_present_modes (λ p. some capabilities) true display 0x7000 ≡ (error_none, some 15)
unfolding query_present_modes
modes_asked = refl

counts_asked :
    query_buffer_count (λ p. some capabilities) display 0x7000 ≡ (error_none, some (2, 3))
unfolding query_buffer_count
counts_asked = refl

clients_ended : (display_fini (λ p. some capabilities) display).1 ≡ 0 ∷ []
unfolding display_fini
clients_ended = refl

-- The world of a surface in FIFO mode, with nothing in its list.
abbrev in_mode : ℕ → World Libraries
in_mode mode = record system.world {
  surfaces = λ p. some (record zeroed { present_mode = mode; tbm_queue = 0x3000 });
}

-- In FIFO mode without the server the buffer is kept, with a reference, for the next vblank, which
-- commits it.
kept :
    (process_draw_done libraries display_at surface 0x1000 0x40 error_none (in_mode fifo)).lib.shown
    ≡ 0x130 ∷ []
unfolding process_draw_done
kept = refl

shown_by_vblank :
    (vblank libraries display_at surface 0x1000 0 0 0 (
      process_draw_done libraries display_at surface 0x1000 0x40 error_none
        (in_mode fifo))).lib.shown
    ≡ 0x130 ∷ 0x140 ∷ []
unfolding process_draw_done vblank TplList.init TplList.pop_front TplList.push_back commit_buffer
    send
shown_by_vblank = refl

-- A surface gets zeroed memory, and none for a pixmap, for which the assertion fails.
surface_made : (surface_init libraries display_at (some 0x4000) surface system).0 ≡ error_none
unfolding surface_init
surface_made = refl

pixmap_asserted :
    (surface_init libraries display_at
      (some 0x4000)
      (record surface { type = pixmap })
      system).2.world.stopped
    ≡ true
unfolding surface_init
pixmap_asserted = refl

-- The three buffers of a swapchain.
buffers_shown :
    (get_swapchain_buffers libraries display_at surface (record system {
      world = record system.world {
        surfaces = λ p. some (record zeroed { tbm_queue = 0x3000; buffer_count = 3 });
      };
    })).0
    ≡ (error_none, 0x40 ∷ 0x40 ∷ 0x40 ∷ [])
unfolding get_swapchain_buffers
buffers_shown = refl

-- A new buffer: its `wait_sync` is 0 until it is posted.
new_buffer :
    (make_buffer libraries display_at 0x2000 0x8000 0x50
        (record system.world { buffers = λ b. none })).1.buffers
      0x50
    ≡ some (record {
      display = 0x2000;
      wl_proxy = 0x150;
      sync_timeline = some 7;
      sync_timestamp = 0;
      wait_sync = some 0;
    })
unfolding make_buffer
new_buffer = refl

-- The fence of a buffer that was committed before, and none for one that was not.
old_fence :
    (fence_of libraries display_at true 0x40 (record (buffer 0x40) { sync_timestamp = 3 }) start).0
    ≡ some 8
unfolding fence_of
old_fence = refl

no_fence : (fence_of libraries display_at true 0x40 (buffer 0x40) start).0 ≡ none
unfolding fence_of
no_fence = refl

freed : (buffer_free libraries display_at 0x40 system.world).buffers 0x40 ≡ none
unfolding buffer_free
freed = refl
