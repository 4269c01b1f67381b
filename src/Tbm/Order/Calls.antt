-- ===== src/Tbm/Order/Calls.antt =====
-- What the calls that the worker thread makes into src/tpl_tbm.c do to the buffers on their way.
use mathlib.Core.Path.{subst}
use libtpl_egl.Base.{
  Bool-cases, ==_eq, ℕ, suc, ◌^◌, ◌<◌, ◌+◌, ◌-◌, ◌≤◌, if◌then◌else◌, ◌≡◌, refl, ap, ◌∙◌, true,
  false, Option, none, some, inl, inr, List, [], ◌∷◌, ◌++◌, arith, ◌==◌, All, length, is_some,
  update, Option-cases,
}
use libtpl_egl.Types.{TplResult, Ptr, null, done}
use libtpl_egl.TplList.{pop_front, is_empty, count_down, freed}
use libtpl_egl.Worker.{Fd, Kernel}
use libtpl_egl.Tbm.{TbmLib, World}
use libtpl_egl.Tbm.Buffers.{
  draw_done, draw_wait_fd_get, draw_wait_buffer_get, get_tbm_buffer, set_tbm_buffer, put_surface,
  with_waiting, on_lib,
}
use libtpl_egl.Tbm.Order.{
  Account, occurrences, held, IsReady, Grows, Moves, Live, Ahead, IsReliable,
}

count_down-suc : (n : ℕ) → suc n < 2 ^ 32 → count_down (suc n) ≡ n
unfolding count_down
count_down-suc n small = omega arith

pop_lem :
    (b : Ptr) (l : List Ptr)
    → pop_front false (record { nodes = b ∷ l; count = suc (length l) })
      ≡ done (b, record { nodes = l; count = count_down (suc (length l)) }, [])
unfolding pop_front is_empty freed
pop_lem b l = ground arith

module _ {T : Type 0} (lib : TbmLib T) (acc : Account T) where
  pub Moves-refl : (p : Ptr) (w : World T) → Moves lib acc p w w
  Moves-refl p w = record { surface = refl; stopped = refl; ready = λ b h. h }

  pub Moves-trans :
      (p : Ptr) (u v w : World T) → Moves lib acc p u v → Moves lib acc p v w → Moves lib acc p u w
  Moves-trans p u v w f g = record {
    surface = g.surface ∙ f.surface;
    stopped = g.stopped ∙ f.stopped;
    ready = λ b h. g.ready b (f.ready b h);
  }

  pub All-IsReady :
      (w w' : World T) (l : List Ptr)
      → Grows lib acc w w'
      → All (IsReady lib acc w) l
      → All (IsReady lib acc w') l
  All-IsReady w w' [] f h = tt
  All-IsReady w w' (b ∷ l) f h = (f b h.0, All-IsReady w w' l f h.1)

  pub Live-Moves :
      (p : Ptr) (l : List Ptr) (w w' : World T)
      → Moves lib acc p w w'
      → Live lib acc p l w
      → Live lib acc p l w'
  Live-Moves p l w w' m h = record {
    running = m.stopped ∙ h.running;
    surface = h.surface;
    at = m.surface ∙ h.at;
    waiting = h.waiting;
    mode = h.mode;
    ready = All-IsReady w w' l m.ready h.ready;
  }

  pub Ahead-Moves :
      (p : Ptr) (log : List Ptr) (most : ℕ) (b : Ptr) (w v : World T)
      → Moves lib acc p w v
      → acc.queued v.lib ≡ acc.queued w.lib
      → Ahead lib acc p log most b w
      → Ahead lib acc p log most b v
  Ahead-Moves p log most b w v m e h = record {
    rest = h.rest;
    live = Live-Moves p h.rest w v m h.live;
    waits = λ full. m.ready b (h.waits full);
    order = ap (λ x. x ++ held b ++ h.rest) e ∙ h.order;
    fewer = h.fewer;
  }

  -- `draw_wait_fd_get` of a buffer that the backend knows.
  pub draw_wait_fd_get-IsReady :
      (surface b : Ptr) (w : World T)
      → lib.is_valid b w.lib ≡ true
      → IsReady lib acc w b
      → (fd : Fd) × (draw_wait_fd_get lib surface b w ≡ (fd, w))
  unfolding draw_wait_fd_get get_tbm_buffer
  draw_wait_fd_get-IsReady surface b w valid (full, owned, known) =
      elim (Option-cases (w.buffers b)) [
        | inl e ↦ absurd (ground arith)
        | inr (fd, e) ↦ (fd, rw (full, valid, e) refl)
      ]

  -- `draw_wait_buffer_get` of a list that is not empty, and of an empty one.
  pub get_next :
      (p surface b : Ptr) (l : List Ptr) (w : World T)
      → suc (length l) < 2 ^ 32
      → Live lib acc p (b ∷ l) w
      → (w' : World T) × (draw_wait_buffer_get lib p surface w ≡ (b, w'))
        × Live lib acc p l w'
        × IsReady lib acc w' b
        × (w'.lib ≡ w.lib)
        × Grows lib acc w w'
  unfolding draw_wait_buffer_get
  get_next p surface b l w small h =
      let one_less : count_down (suc (length l)) ≡ length l = count_down-suc (length l) small in
      (
        put_surface w p
            (with_waiting h.surface (record { nodes = l; count = count_down (suc (length l)) })),
        rw (draw_wait_buffer_get, h.at, h.waiting, pop_lem b l) refl,
        record {
          running = h.running;
          surface =
              with_waiting h.surface (record { nodes = l; count = count_down (suc (length l)) });
          at = ground arith;
          waiting = rw one_less refl;
          mode = h.mode;
          ready = h.ready.1;
        },
        h.ready.0,
        refl,
        λ c k. k,
      )

  pub get_none :
      (p surface : Ptr) (w : World T)
      → Live lib acc p [] w
      → (w' : World T) × (draw_wait_buffer_get lib p surface w ≡ (null, w'))
        × Live lib acc p [] w'
        × (w'.lib ≡ w.lib)
        × Grows lib acc w w'
  unfolding draw_wait_buffer_get pop_front is_empty
  get_none p surface w h = (
    put_surface w p (with_waiting h.surface h.surface.draw_waiting_queue),
    rw (draw_wait_buffer_get, h.at, h.waiting) refl,
    record {
      running = h.running;
      surface = with_waiting h.surface h.surface.draw_waiting_queue;
      at = ground arith;
      waiting = h.waiting;
      mode = h.mode;
      ready = tt;
    },
    refl,
    λ c k. k,
  )

pub occurrences-append :
    (c : Ptr) (xs ys : List Ptr) → occurrences c (xs ++ ys) ≡ occurrences c xs + occurrences c ys
occurrences-append c [] ys = omega arith
occurrences-append c (x ∷ xs) ys = omega (arith, occurrences-append c xs ys)

-- A part at the front of a log has room where the log has.
pub room_before :
    (c : Ptr) (xs ys log whole : List Ptr)
    → xs ++ ys ≡ log
    → occurrences c log ≤ occurrences c whole
    → occurrences c xs ≤ occurrences c whole
room_before c xs ys log whole e h =
    omega (arith, occurrences-append c xs ys, ap (occurrences c) e, h)

pub none_known {ℓ} : {A : Type ℓ} {o : Option A} → is_some o ≡ true → o ≡ none → ⊥
none_known h e = ground arith

pub known_update :
    (buffers : Ptr → Option Fd) (b c : Ptr) (fd : Fd)
    → is_some (buffers c) ≡ true
    → is_some (update buffers b (some fd) c) ≡ true
known_update buffers b c fd h = ground arith

module _ {T : Type 0} (lib : TbmLib T) (kernel : Kernel (World T)) (p queue : Ptr) (acc : Account T)
    (r : IsReliable lib kernel p queue acc) where
  abbrev done_world : Ptr → Fd → World T → World T
  done_world b fd w =
      let w₁ = set_tbm_buffer lib (on_lib lib w (lib.close fd)) b none in
      on_lib lib w₁ (λ t. (lib.enqueue queue b (lib.unref b t)).1)

  draw_done_eq :
      (surface b : Ptr) (result : TplResult) (l : List Ptr) (w : World T) (fd : Fd)
      → (surface == null) ≡ false
      → (queue == null) ≡ false
      → Live lib acc p l w
      → lib.is_valid b w.lib ≡ true
      → IsReady lib acc w b
      → w.buffers b ≡ some fd
      → draw_done lib p queue surface b result w ≡ done_world b fd w
  unfolding draw_done get_tbm_buffer set_tbm_buffer
  draw_done_eq surface b result l w fd s q h valid (full, owned, known) e =
      rw (draw_done, s, full, valid, h.at, valid, e, q, h.mode) refl

  -- A buffer of which the log has not more than it is to have in the end has a reference.
  pub IsReady-owned :
      (w : World T) (b : Ptr)
      → IsReady lib acc w b
      → occurrences b (acc.queued w.lib) ≤ occurrences b acc.whole
      → 0 < acc.refs b w.lib
  IsReady-owned w b (full, owned, known) room = omega arith

  done_refs :
      (b c : Ptr) (fd : Fd) (w : World T)
      → acc.refs c (done_world b fd w).lib ≡ acc.refs c w.lib - (if b == c then 1 else 0)
  unfolding set_tbm_buffer
  done_refs b c fd w =
      r.enqueue_refs b c _
      ∙ r.unref_refs b c _
      ∙ ap (λ n. n - (if b == c then 1 else 0)) (r.close_refs fd c w.lib)

  done_log :
      (b : Ptr) (fd : Fd) (w : World T)
      → acc.queued (done_world b fd w).lib ≡ acc.queued w.lib ++ b ∷ []
  unfolding set_tbm_buffer
  done_log b fd w = r.enqueue b _ ∙ ap (λ q. q ++ b ∷ []) (r.unref b _ ∙ r.close fd _)

  done_world-owned :
      (b c : Ptr) (fd : Fd) (w : World T)
      → 0 < acc.refs b w.lib
      → occurrences c acc.whole < acc.refs c w.lib + occurrences c (acc.queued w.lib)
      → occurrences c acc.whole
        < acc.refs c (done_world b fd w).lib + occurrences c (acc.queued (done_world b fd w).lib)
  done_world-owned b c fd w one owned =
      rw (done_refs b c fd w, done_log b fd w, occurrences-append c (acc.queued w.lib) (b ∷ []))
        (elim (Bool-cases (b == c)) [
          | inl same ↦
              let alive : 0 < acc.refs c w.lib =
                subst (λ x. 0 < acc.refs x w.lib) (==_eq b c same) one in
              rw same (omega arith)
          | inr other ↦ rw other (omega arith)
        ])

  done_world-Moves :
      (b : Ptr) (fd : Fd) (w : World T)
      → 0 < acc.refs b w.lib
      → Moves lib acc p w (done_world b fd w)
        × (acc.queued (done_world b fd w).lib ≡ acc.queued w.lib ++ b ∷ [])
  unfolding set_tbm_buffer
  done_world-Moves b fd w one = (
    record {
      surface = refl;
      stopped = refl;
      ready = λ c (full, owned, known).
          (full, done_world-owned b c fd w one owned, known_update w.buffers b c none known);
    },
    done_log b fd w,
  )

  -- `draw_done` hands the buffer to the queue, whatever the result says.
  pub draw_done_queues :
      (surface b : Ptr) (result : TplResult) (l : List Ptr) (w : World T)
      → (surface == null) ≡ false
      → (queue == null) ≡ false
      → Live lib acc p l w
      → IsReady lib acc w b
      → occurrences b (acc.queued w.lib) ≤ occurrences b acc.whole
      → Moves lib acc p w (draw_done lib p queue surface b result w)
        × (acc.queued (draw_done lib p queue surface b result w).lib ≡ acc.queued w.lib ++ b ∷ [])
  draw_done_queues surface b result l w s q h ready room = elim (Option-cases (w.buffers b)) [
    | inl e ↦ absurd (none_known ready.2 e)
    | inr (fd, e) ↦
        let one = IsReady-owned w b ready room in
        rw (draw_done_eq surface b result l w fd s q h (r.alive b w.lib one) ready e)
          (done_world-Moves b fd w one)
  ]
