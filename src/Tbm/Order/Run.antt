-- ===== src/Tbm/Order/Run.antt =====
-- Any sequence of posts and of rounds of the worker thread keeps the order of the buffers.
use mathlib.Core.Path.{subst}
use mathlib.Core.List.{append-nil, append_assoc}
use libtpl_egl.Base.{
  ℕ, ◌+◌, ◌^◌, ◌<◌, ◌≤◌, ◌≡◌, refl, sym, ap, ◌∙◌, Bool, true, false, ◌||◌, List, [], ◌∷◌, ◌++◌,
  arith, ◌==◌, update, All, length,
}
use libtpl_egl.Types.{Ptr, null, done}
use libtpl_egl.Worker.{WorkerSurface, Kernel}
use libtpl_egl.Worker.Thread.{walk, prepare_all, handle_event}
use libtpl_egl.Surface.{Surface}
use libtpl_egl.Tbm.{TbmLib, World, System}
use libtpl_egl.Tbm.Surface.{is_vulkan_wsi, is_pixmap}
use libtpl_egl.TplList.{TplList, is_empty}
use libtpl_egl.Tbm.Order.{
  Account, HasRoom, IsReady, Grows, Ahead, IsConnected, IsReliable, Action, posted, prepared,
  woken_up, post_of, posts, act, run,
}
use libtpl_egl.Tbm.Order.Calls.{All-IsReady, room_before}
use libtpl_egl.Tbm.Order.Prepare.{reordered}
use libtpl_egl.Tbm.Order.Fence.{prepare-Keeps, event-Keeps}
use libtpl_egl.Tbm.Order.Post.{post_keeps}

All-left : (P : Ptr → Type 0) (xs ys : List Ptr) → All P (xs ++ ys) → All P xs × All P ys
All-left P [] ys h = (tt, h)
All-left P (x ∷ xs) ys h = let (k, l) = All-left P xs ys h.1 in ((h.0, k), l)

update_same {ℓ} : {A : Type ℓ} (f : ℕ → A) (p : ℕ) (a : A) → update f p a p ≡ a
update_same f p a = ground arith

-- The list of the worker thread that holds one surface.
abbrev pub alone : Ptr → TplList
alone p = record { nodes = p ∷ []; count = 1 }

pub walk-alone : (p : Ptr) → walk (alone p) ≡ p ∷ []
unfolding walk is_empty
walk-alone p = refl

module _ {T : Type 0} (lib : TbmLib T) (kernel : Kernel (World T)) (acc : Account T)
    (mutex_ok : Bool) (display_handle : Ptr → Ptr) (s : Surface) (fuel : ℕ)
    (r : IsReliable lib kernel s.backend_data s.native_handle acc)
    (queue : (s.native_handle == null) ≡ false)
    (shown : (s.display == null || display_handle s.display == null) ≡ false)
    (wsi : is_vulkan_wsi s.backend_type ≡ true) (drawn : is_pixmap s.type ≡ false)
    (mapped : (s.backend_data == null) ≡ false) (small : fuel ≤ 2 ^ 32) where
  abbrev p : Ptr
  p = s.backend_data

  pub record OnWay (log : List Ptr) (most : ℕ) (sys : System T) : Type 0 where
    pub connected : IsConnected lib acc p s.native_handle (sys.worker.store p)
    pub ahead : Ahead lib acc p log most (sys.worker.store p).draw_wait_buffer sys.world
    pub listed : sys.worker.surface_list ≡ alone p

  abbrev pub stored : System T → WorkerSurface (World T) → World T → System T
  stored sys ws w = record {
    world = w;
    worker = record sys.worker { store = update sys.worker.store p ws };
  }

  pub stored-OnWay :
      (log : List Ptr) (most : ℕ) (sys : System T) (ws : WorkerSurface (World T)) (w : World T)
      → sys.worker.surface_list ≡ alone p
      → IsConnected lib acc p s.native_handle ws
      → Ahead lib acc p log most ws.draw_wait_buffer w
      → OnWay log most (stored sys ws w)
  stored-OnWay log most sys ws w here c h =
      let e = sym (update_same sys.worker.store p ws) in
      record {
        connected = subst (λ x. IsConnected lib acc p s.native_handle x) e c;
        ahead = subst (λ x. Ahead lib acc p log most x.draw_wait_buffer w) e h;
        listed = here;
      }

  stored_idle-OnWay :
      (log : List Ptr) (most : ℕ) (sys : System T) (ws : WorkerSurface (World T)) (w : World T)
      → sys.worker.surface_list ≡ alone p
      → IsConnected lib acc p s.native_handle ws
      → Ahead lib acc p log most ws.draw_wait_buffer w
      → OnWay (log ++ []) (most + 1) (stored sys ws w)
  stored_idle-OnWay log most sys ws w here c h =
      stored-OnWay (log ++ []) (most + 1) sys ws w here c (
        reordered lib acc p log (log ++ []) most (most + 1) ws.draw_wait_buffer w
          (sym (append-nil log)) (omega arith) h)

  room_now : (log : List Ptr) → HasRoom acc (log ++ []) → HasRoom acc log
  room_now log h = subst (λ l. HasRoom acc l) (append-nil log) h

  act_keeps :
      (a : Action) (log : List Ptr) (most : ℕ) (sys : System T)
      → most + 1 < fuel
      → HasRoom acc (log ++ post_of a)
      → All (IsReady lib acc sys.world) (post_of a)
      → OnWay log most sys
      → (sys' : System T) × (act lib kernel mutex_ok display_handle s fuel a sys ≡ done sys')
        × OnWay (log ++ post_of a) (most + 1) sys'
        × Grows lib acc sys.world sys'.world
  unfolding act prepare_all handle_event
  act_keeps (posted b d) log most sys enough room ready h =
      let (w, e, ahead, grows) =
        post_keeps lib kernel s.native_handle acc mutex_ok display_handle s r shown wsi drawn b d
          sys log most (sys.worker.store p).draw_wait_buffer h.connected.surface ready.0 room
          (omega (arith, enough, small)) h.ahead in
      (
        record { world = w; worker = sys.worker },
        rw e refl,
        record { connected = h.connected; ahead = ahead; listed = h.listed },
        grows,
      )
  act_keeps prepared log most sys enough room ready h =
      let (a, e, c, ahead, grows) =
        (prepare-Keeps lib kernel p s.native_handle acc r (sys.worker.store p) h.connected queue log
          most (room_now log room) fuel sys.world (omega (arith, enough)) small h.ahead).0 in
      (
        stored sys a.0 a.1,
        simp (ap walk h.listed ∙ walk-alone p, prepare_all, mapped, e),
        stored_idle-OnWay log most sys a.0 a.1 h.listed c ahead,
        grows,
      )
  act_keeps (woken_up readable) log most sys enough room ready h =
      let (a, e, c, ahead, grows) =
        event-Keeps lib kernel p s.native_handle acc r (sys.worker.store p) h.connected queue log
          most (room_now log room) readable sys.world h.ahead in
      (
        stored sys a.0 a.1,
        simp (handle_event, mapped, e),
        stored_idle-OnWay log most sys a.0 a.1 h.listed c ahead,
        grows,
      )

  pub run_keeps :
      (actions : List Action) (log : List Ptr) (most : ℕ) (sys : System T)
      → most + length actions < fuel
      → HasRoom acc (log ++ posts actions)
      → All (IsReady lib acc sys.world) (posts actions)
      → OnWay log most sys
      → (sys' : System T) × (run lib kernel mutex_ok display_handle s fuel actions sys ≡ done sys')
        × OnWay (log ++ posts actions) (most + length actions) sys'
  unfolding run
  run_keeps [] log most sys enough room ready h =
      (sys, refl, rw (append-nil log) (subst (λ n. OnWay log n sys) (omega arith) h))
  run_keeps (a ∷ rest) log most sys enough room ready h =
      let regroup = append_assoc log (post_of a) (posts rest) in
      let (here, later) = All-left (IsReady lib acc sys.world) (post_of a) (posts rest) ready in
      let (sys₁, e, h₁, grows) =
        act_keeps a log most sys (omega (arith, enough))
          (λ x. room_before x _ (posts rest) _ acc.whole refl (rw regroup (room x))) here h in
      let (sys', e', h') =
        run_keeps rest (log ++ post_of a) (most + 1) sys₁ (omega (arith, enough))
          (λ x. rw regroup (room x))
          (All-IsReady lib acc sys.world sys₁.world (posts rest) grows later) h₁ in
      (
        sys',
        rw e e',
        subst (λ n. OnWay (log ++ (post_of a ++ posts rest)) n sys') (omega arith)
            (subst (λ x. OnWay x (most + 1 + length rest) sys')
              (append_assoc log (post_of a) (posts rest)) h'),
      )
