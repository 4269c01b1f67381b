-- ===== src/Tbm/Order/Posted.antt =====
-- If each fence is signalled, the worker thread hands all buffers of a surface to the queue.
use libtpl_egl.Base.{
  suc, zero, ◌||◌, ◌<◌, ◌≤◌, ◌^◌, ℕ, ℕ, ◌^◌, ◌<◌, ◌≤◌, ◌≡◌, Bool, true, false, List, [], ◌∷◌, ◌==◌,
}
use libtpl_egl.Types.{Ptr, null, Outcome}
use libtpl_egl.Worker.{WorkerSurface, Kernel, signalled}
use libtpl_egl.Tbm.{TbmLib, World}
use libtpl_egl.Tbm.Order.{Account, IsReliable}
use libtpl_egl.TplList
use libtpl_egl.Surface.{Surface, Swapchain}
use libtpl_egl.Tbm.{System}
use libtpl_egl.Tbm.Surface.{is_vulkan_wsi, is_pixmap}
use libtpl_egl.Tbm.Order.{Action, prepared, woken_up, run}
use libtpl_egl.Tbm.Order.Run.{OnWay, stored}

-- Full rounds of the worker thread.
abbrev pub rounds : ℕ → List Action
rounds zero = []
rounds (suc n) = prepared ∷ woken_up true ∷ rounds n

module _ {T : Type 0} (lib : TbmLib T) (kernel : Kernel (World T)) (acc : Account T)
    (mutex_ok : Bool) (display_handle : Ptr → Ptr) (s : Surface) (fuel : ℕ)
    (r : IsReliable lib kernel s.backend_data s.native_handle acc)
    (queue : (s.native_handle == null) ≡ false)
    (shown : (s.display == null || display_handle s.display == null) ≡ false)
    (wsi : is_vulkan_wsi s.backend_type ≡ true) (drawn : is_pixmap s.type ≡ false)
    (mapped : (s.backend_data == null) ≡ false) (small : fuel ≤ 2 ^ 32)
    (all : (fd : ℕ) (v : World T) → (kernel.fence_wait fd v).0 ≡ signalled) where
  abbrev Way : List Ptr → ℕ → System T → Type 0
  Way = OnWay lib kernel acc mutex_ok display_handle s fuel r queue shown wsi drawn mapped small

  abbrev runs : List Action → System T → Outcome (System T)
  runs = run lib kernel mutex_ok display_handle s fuel

  abbrev store_at : System T → WorkerSurface (World T) → World T → System T
  store_at =
      stored lib kernel acc mutex_ok display_handle s fuel r queue shown wsi drawn mapped small
