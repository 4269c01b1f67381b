-- ===== src/Runtime/Tests.antt =====
-- Runs of the registry of displays on small inputs.
use libtpl_egl.Base.{
  ℕ, ◌≡◌, refl, true, false, ◌&&◌, Option, none, some, [], arith, ◌==◌, if◌then◌else◌,
}
use libtpl_egl.Types.{
  Ptr, null, unknown, gbm, tbm, backend_count, num_of_backends, backend_index, is_unknown, done,
  out_of_bounds,
}
use libtpl_egl.Hlist.{empty_heads}
use libtpl_egl.Hlist.Invariant.{create-IsValid}
use libtpl_egl.Runtime.{
  slot, Runtime, AddEnv, Winsys, Probes, find_display, runtime_fini, add_display, remove_display,
  choose_backend, choose_by_name, choose_by_probe,
}
use libtpl_egl.Runtime.Registry.{
  registered, IsValid, IsBackend, Added, add_display_lem, remove_display_lem,
}
use libtpl_egl.Runtime.Find.{IsFirst, find_display-IsFirst}

-- A registry whose lists have all been made, and are empty.
abbrev made : Runtime
made = record { displays = λ i. some empty_heads }

made-IsValid : IsValid (some made)
made-IsValid i = create-IsValid

abbrev all_ok : AddEnv
all_ok = record {
  mutex_ok = true;
  runtime_ok = true;
  list_ok = true;
  heads_ok = true;
  node_ok = true;
}

abbrev wayland_only : Winsys
wayland_only = record { dri2 = false; dri3 = false; wl = true }

abbrev no_probe : Probes
no_probe = record {
  is_tbm = false;
  is_gbm = false;
  is_wayland_egl = true;
  is_wayland_vk_wsi = false;
  is_x11_dri2 = false;
  is_x11_dri3 = false;
}

tbm-IsBackend : IsBackend tbm
unfolding is_unknown backend_index
tbm-IsBackend = (refl, omega arith)

gbm-IsBackend : IsBackend gbm
unfolding is_unknown backend_index
gbm-IsBackend = (refl, omega arith)

overruns : find_display (some made) backend_count 0x1000 ≡ out_of_bounds
unfolding find_display slot is_unknown backend_index
overruns = refl

fini_of_nothing : runtime_fini none ≡ ([], none)
unfolding runtime_fini
fini_of_nothing = refl

chosen : choose_backend wayland_only (some "drm") no_probe ≡ gbm
unfolding choose_backend choose_by_name choose_by_probe
chosen = refl

find_display-IsFirst_example :
    (p : Ptr) × (find_display (some made) unknown 0x1000 ≡ done p)
    × IsFirst (some made) 0x1000 0 num_of_backends p
find_display-IsFirst_example = find_display-IsFirst (some made) 0x1000

add_display_lem_example :
    Added (some made) gbm 0x1000 0x2000 (add_display all_ok (some made) gbm 0x1000 0x2000)
add_display_lem_example =
    add_display_lem all_ok (some made) gbm 0x1000 0x2000 gbm-IsBackend made-IsValid

remove_display_lem_example :
    (after : Option Runtime) × (remove_display (some made) gbm 0x1000 ≡ done after)
    × ((j : ℕ) (h : Ptr)
        → registered after j h ≡ (
            if (backend_index gbm == j) && (0x1000 == h) then null else registered (some made) j h))
    × IsValid after
remove_display_lem_example = remove_display_lem (some made) gbm 0x1000 made-IsValid gbm-IsBackend
