-- ===== src/WaylandVkWsi/Tests.antt =====
-- Runs of the Wayland Vulkan WSI backend on small inputs.
use libtpl_egl.Base.{
  ℕ, ◌+◌, ◌-◌, ◌*◌, ◌<◌, ◌≡◌, ◌≢◌, ◌↔◌, refl, Bool, true, false, none, some, [], ◌∷◌, arith, ◌==◌,
}
use libtpl_egl.Types.{error_none, invalid_parameter, out_of_memory, Ptr, null, done}
use libtpl_egl.TplList
use libtpl_egl.TplList.Removal.{IsAbsent}
use libtpl_egl.Tbm.{mailbox, free}
use libtpl_egl.WaylandVkWsi.{WsiDisplay, System}
use libtpl_egl.WaylandVkWsi.Displays.{
  Magic, DisplayEnv, capabilities, wayland_vulkan, is_wl_display, ask_server, display_init,
}
use libtpl_egl.WaylandVkWsi.Buffers.{dispatch, has_synced, roundtrip}
use libtpl_egl.WaylandVkWsi.Surface.{
  CondWait, zeroed, deadline, second, wait_free, dequeue_with_fence, surface_fini,
}
use libtpl_egl.WaylandVkWsi.Swapchain.{create_swapchain, waits_for_vblank}
use libtpl_egl.WaylandVkWsi.Times.{deadline-later}
use libtpl_egl.WaylandVkWsi.Events.{IsAnswered}
use libtpl_egl.WaylandVkWsi.Refs.{IsCounting, Gains}
use libtpl_egl.WaylandVkWsi.Refs.Dequeue.{IsWoken, dequeue-Gains}
use libtpl_egl.WaylandVkWsi.Capable.{IsCapable, display_init-IsCapable}
use libtpl_egl.WaylandVkWsi.Branches.{create_swapchain_branches}
use libtpl_egl.WaylandVkWsi.Ends.{surface_fini_releases}
use libtpl_egl.WaylandVkWsi.Samples.{
  Libraries, libraries, with_lib, display, display_at, surface, chain, worker, system,
}

-- The waits for a free buffer, in which one comes nearer each time.
abbrev cond_wait : CondWait Libraries
cond_wait until sys = (
  false,
  record sys {
    world = with_lib sys.world (record sys.world.lib { full = sys.world.lib.full - 1 });
  },
)

abbrev waits_left : System Libraries → ℕ
waits_left sys = sys.world.lib.full

libraries-IsWoken : IsWoken libraries display_at cond_wait waits_left null
libraries-IsWoken = record {
  wakes = λ until sys none_free again. ground (arith, none_free);
  displays = λ until sys. refl;
  running = λ until sys. refl;
}

libraries-IsCounting : IsCounting libraries (λ b t. t.refs b)
libraries-IsCounting = record {
  ref = λ b c t. ground arith;
  unref = λ b c t. ground arith;
  dequeue = λ q t c. refl;
  can_dequeue = λ q t c. refl;
  clock = λ t c. refl;
  allocated = λ t c. refl;
  create_buffer = λ client b t c. refl;
  timeline_create = λ t c. refl;
  proxy_destroy = λ proxy t c. refl;
  set_sync_timeline = λ client proxy fd t c. refl;
  add_release_listener = λ proxy b t c. refl;
  flush = λ d t c. refl;
  fence_create = λ fd b stamp t c. refl;
}

dequeue-Gains_example :
    (there : Bool) × (x : System Libraries) × (wait_free libraries display_at cond_wait 4
        (some (deadline (5, 0) 9))
        null
        system
      ≡ done (there, x))
    × (let r = dequeue_with_fence libraries display_at cond_wait 4 true 9 surface system in
        Gains libraries (λ b t. t.refs b) r.0.0 x.world r.2.world × (r.2.world.stopped ≡ false))
dequeue-Gains_example =
    dequeue-Gains libraries display_at cond_wait waits_left (λ b t. t.refs b) libraries-IsCounting 4
      true 9 surface system zeroed capabilities refl refl refl libraries-IsWoken (omega arith)

abbrev magic : Magic
magic = record {
  interface = 0x9000;
  interface_name = b'w' ∷ b'l' ∷ [];
  first_word = λ p. 0x9000;
  name_at = λ p. [];
}

abbrev display_env : DisplayEnv
display_env = record {
  address = some 0x6000;
  tbm_client = 0x8000;
  globals = record { interface = wayland_vulkan; bound = 0x8100 } ∷ [];
  modes = 3 ∷ 9 ∷ [];
}

display_init-IsCapable_example :
    let r = display_init magic display_env display in
    ((r.0 ≡ error_none) ↔ (
      (p : Ptr) × (some 0x6000 ≡ some p)
      × ((display.native_handle == null) ≡ false)
      × (is_wl_display magic display.native_handle ≡ true)
      × ((display_env.tbm_client == null) ≡ false)))
    × (r.0 ≡ error_none
        → (p : Ptr) × (w : WsiDisplay) × (some 0x6000 ≡ some p)
          × (r.1 ≡ record display { backend_data = p })
          × (r.2 ≡ some w)
          × IsCapable w)
    × (r.0 ≢ error_none → r.2 ≡ none)
display_init-IsCapable_example = display_init-IsCapable magic display_env display

-- MAILBOX and the FIFO that the server announces; an unknown mode is not taken.
asked :
    (display_init magic display_env display).2
    ≡ some
        (record capabilities { wl_tbm_client = 0x8000; wl_vk_client = 0x8100; present_modes = 3 })
unfolding display_init is_wl_display ask_server
asked = refl

create_swapchain_branches_example :
    let r = create_swapchain libraries display_at true chain surface system in
    (true ≡ false → r ≡ (invalid_parameter, surface, system))
    × (true ≡ true
        → (◌==◌ 0x3000 null) ≡ true
        → (r.0 ≡ out_of_memory)
          × (r.1 ≡ surface)
          × (r.2.worker ≡ worker)
          × (r.2.world.surfaces 0x4000
              ≡ some (record zeroed { present_mode = mailbox; tbm_queue = 0x3000 }))
          × (r.2.world.stopped ≡ false))
    × (true ≡ true
        → (◌==◌ 0x3000 null) ≡ false
        → (r.0 ≡ error_none)
          × (r.1 ≡ record surface { width = 64; height = 48 })
          × (r.2.world.surfaces 0x4000
              ≡ some (record zeroed {
                present_mode = mailbox;
                tbm_queue = 0x3000;
                buffer_count = 3;
                free_queue_mutex = free;
              }))
          × (r.2.worker.surface_list ≡ record { nodes = 0x4000 ∷ []; count = 1 })
          × (r.2.world.stopped ≡ false))
unfolding TplList.init TplList.count_up
create_swapchain_branches_example =
    create_swapchain_branches libraries display_at true chain surface system zeroed capabilities
      refl refl (record { fewest = refl; most = refl; modes = omega arith; direct = refl }) refl
      refl (omega arith)

-- The surface in the list of the worker thread, with a queue.
abbrev listed : System Libraries
listed = record {
  world = record system.world {
    surfaces = λ p. some (record zeroed { tbm_queue = 0x3000; present_mode = mailbox });
  };
  worker = record worker { surface_list = record { nodes = 0x10 ∷ 0x4000 ∷ 0x20 ∷ []; count = 3 } };
}

libraries-IsAnswered : IsAnswered libraries 0x5000 (λ w. 0)
unfolding dispatch has_synced
libraries-IsAnswered = record {
  named = λ t. (refl, (tt, tt));
  nearer = λ w ok unanswered. absurd (ground (arith, unanswered));
}

surface_fini_releases_example :
    let r = surface_fini libraries display_at 2 true surface listed in
    (r.world.surfaces 0x4000 ≡ none)
    × (r.world.stopped ≡ false)
    × (r.world.lib
        ≡ record (roundtrip libraries 2 display_at 0x2000 listed.world).lib { dirty = [] })
    × (r.worker.surface_list.nodes ≡ 0x10 ∷ 0x20 ∷ [])
    × IsAbsent 0x4000 r.worker.surface_list.nodes
unfolding waits_for_vblank
surface_fini_releases_example =
    surface_fini_releases libraries display_at surface (λ w. 0) 2 libraries-IsAnswered refl refl
      listed (record zeroed { tbm_queue = 0x3000; present_mode = mailbox }) capabilities refl refl
      refl refl refl refl (omega arith) (0x10 ∷ []) (0x20 ∷ []) refl (omega arith) (refl, tt)
      (refl, tt)

deadline-later_example :
    let r = deadline (5, 999_999_999) 3_000_000_002 in
    (r.1 < second) × (r.0 * second + r.1 ≡ 5 * second + 999_999_999 + 3_000_000_002)
deadline-later_example = deadline-later 5 999_999_999 3_000_000_002 (omega arith)
