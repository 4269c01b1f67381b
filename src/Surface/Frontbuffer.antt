-- ===== src/Surface/Frontbuffer.antt =====
-- The front buffer of a surface: what the calls that touch it keep of it.
use libtpl_egl.Base.{
  ◌∙◌, ap, sym, ℕ, ◌≡◌, refl, Bool, true, false, not, ◌&&◌, Option, none, some, inl, inr,
  Bool-cases, arith, ◌==◌,
}
use libtpl_egl.Types.{TplResult, error_none, Ptr, null, Outcome, done}
use libtpl_egl.Surface.{
  Surface, SurfaceBackend, Damage, lock, unlock, is_window, set_frontbuffer_mode, take_frontbuffer,
  post, dequeue_buffer_with_sync, enqueue_buffer_with_damage_and_sync,
}

-- Two surfaces have the same type, mode and front buffer.
pub record SameFront (s t : Surface) : Type 0 where
  pub type : t.type ≡ s.type
  pub mode : t.is_frontbuffer_mode ≡ s.is_frontbuffer_mode
  pub buffer : t.frontbuffer ≡ s.frontbuffer

-- There is a front buffer only in front buffer mode.
abbrev pub IsConsistent : Option Surface → Type 0
IsConsistent none = Unit {0}
IsConsistent (some s) = (s.is_frontbuffer_mode ≡ false) → s.frontbuffer ≡ null

-- The surface after a call that ended is consistent.
abbrev pub EndsConsistent {ℓ κ} :
    {A : Type ℓ} {S : Type κ} → Outcome (A × Option Surface × S) → Type 0
EndsConsistent (done r) = IsConsistent r.1
EndsConsistent _ = ⊥

-- The call ended and returned the buffer.
abbrev pub Hands {ℓ κ} : Ptr → {S : Type ℓ} {T : Type κ} → Outcome (Ptr × S × T) → Type 0
Hands b (done r) = r.0 ≡ b
Hands b _ = ⊥

module _ {S : Type 0} (backend : SurfaceBackend S) (mutex_ok : Bool)
    (validates : Surface → S → Bool × Surface × S) (dequeues : ℕ → Surface → S → Ptr × Surface × S)
    (enqueues : Ptr → Damage → Surface → S → TplResult × Surface × S)
    (has_validate : backend.validate ≡ some validates)
    (has_dequeue : backend.dequeue_buffer ≡ some dequeues)
    (has_enqueue : backend.enqueue_buffer ≡ some enqueues)
    (validates_keep : (s : Surface) (state : S) → SameFront s (validates s state).1)
    (dequeues_keep : (t : ℕ) (s : Surface) (state : S) → SameFront s (dequeues t s state).1)
    (enqueues_keep : (b : Ptr) (d : Damage) (s : Surface) (state : S)
      → SameFront s (enqueues b d s state).1) where
  front_after_post :
      (s : Surface) (state : S) (buffer : Ptr) (damage : Damage) (ret : TplResult) (s' : Surface)
      (state' : S)
      → is_window s.type ≡ true
      → s.is_frontbuffer_mode ≡ true
      → (buffer == null) ≡ false
      → enqueue_buffer_with_damage_and_sync backend mutex_ok (some s) buffer damage state
        ≡ done (ret, some s', state')
      → (is_window s'.type ≡ true) × (s'.is_frontbuffer_mode ≡ true) × (s'.frontbuffer ≡ buffer)
  unfolding enqueue_buffer_with_damage_and_sync post lock unlock
  front_after_post s state buffer damage ret s' state' w m b e =
      let k =
        enqueues_keep buffer damage (record (lock mutex_ok s) { frontbuffer = buffer }) state in
      let kt = k.type in let km = k.mode in let kb = k.buffer in ground arith

  front_handed :
      (s : Surface) (state : S) (buffer : Ptr)
      → s.is_frontbuffer_mode ≡ true
      → s.frontbuffer ≡ buffer
      → (buffer == null) ≡ false
      → (validates s state).0 ≡ true
      → take_frontbuffer backend mutex_ok s state
        ≡ done (buffer, (validates s state).1, (validates s state).2)
  unfolding take_frontbuffer
  front_handed s state buffer m f b v =
      let k = validates_keep s state in
      let kb : (validates s state).1.frontbuffer ≡ buffer = k.buffer ∙ f in
      let on : (s.is_frontbuffer_mode && not (s.frontbuffer == null)) ≡ true = ground arith in
      rw (on, has_validate, v) (ap (λ h. done (h, (validates s state).1, (validates s state).2)) kb)

  -- The front buffer of a window is handed out again: after a post of a buffer in front buffer mode, by a
  -- backend whose functions leave the type, the mode and the front buffer of a surface alone, the
  -- surface that is left gives that buffer to a dequeue if the backend finds it valid, and a second
  -- post of the buffer succeeds without a call of the backend.
  pub dequeue-enqueue :
      (size_of : Ptr → ℕ × ℕ) (timeout : ℕ) (s : Surface) (state : S) (buffer : Ptr)
      (damage again : Damage) (ret : TplResult) (s' : Surface) (state' : S)
      → is_window s.type ≡ true
      → s.is_frontbuffer_mode ≡ true
      → (buffer == null) ≡ false
      → enqueue_buffer_with_damage_and_sync backend mutex_ok (some s) buffer damage state
        ≡ done (ret, some s', state')
      → (validates (lock mutex_ok s') state').0 ≡ true
      → Hands buffer (dequeue_buffer_with_sync backend mutex_ok size_of timeout (some s') state')
        × (enqueue_buffer_with_damage_and_sync backend mutex_ok (some s') buffer again state'
            ≡ done (error_none, some (unlock (lock mutex_ok s')), state'))
  unfolding enqueue_buffer_with_damage_and_sync dequeue_buffer_with_sync post lock
  dequeue-enqueue size_of timeout s state buffer damage again ret s' state' w m b e v =
      let (w', m', f) = front_after_post s state buffer damage ret s' state' w m b e in
      let h = front_handed (lock mutex_ok s') state' buffer m' f b v in
      (rw (has_dequeue, h, b) refl, ground arith)

  take_keeps :
      (s : Surface) (state : S)
      → IsConsistent (some s)
      → (r : Ptr × Surface × S) × (take_frontbuffer backend mutex_ok s state ≡ done r)
        × IsConsistent (some r.1)
  unfolding take_frontbuffer
  take_keeps s state h =
      let (valid, s', state') = validates s state in
      let k = validates_keep s state in
      elim (Bool-cases (s.is_frontbuffer_mode && not (s.frontbuffer == null))) [
        | inl on ↦ elim (Bool-cases (validates s state).0) [
          | inl v ↦ (
            (s'.frontbuffer, s', state'),
            rw (on, has_validate, v) refl,
            λ off. k.buffer ∙ h (sym k.mode ∙ off),
          )
          | inr v ↦ (
            (null, record s' { frontbuffer = null }, state'),
            rw (on, has_validate, v) refl,
            λ off. refl,
          )
        ]
        | inr off ↦ ((null, s, state), rw off refl, h)
      ]

  set_keeps :
      (s : Surface) (set : Bool)
      → IsConsistent (some s)
      → IsConsistent (set_frontbuffer_mode mutex_ok (some s) set).1
  unfolding set_frontbuffer_mode lock unlock
  set_keeps s set h = ground arith

  dequeue_keeps :
      (size_of : Ptr → ℕ × ℕ) (timeout : ℕ) (s : Surface) (state : S)
      → IsConsistent (some s)
      → EndsConsistent (dequeue_buffer_with_sync backend mutex_ok size_of timeout (some s) state)
  unfolding dequeue_buffer_with_sync lock unlock
  dequeue_keeps size_of timeout s state h =
      let (r, e, c) = take_keeps (lock mutex_ok s) state h in
      let k = dequeues_keep timeout r.1 r.2 in
      let km = k.mode in let kb = k.buffer in rw (has_dequeue, e) (ground arith)

  enqueue_keeps :
      (s : Surface) (state : S) (buffer : Ptr) (damage : Damage)
      → IsConsistent (some s)
      → EndsConsistent
          (enqueue_buffer_with_damage_and_sync backend mutex_ok (some s) buffer damage state)
  unfolding enqueue_buffer_with_damage_and_sync post lock unlock
  enqueue_keeps s state buffer damage h =
      let k = enqueues_keep buffer damage (lock mutex_ok s) state in
      let k' =
        enqueues_keep buffer damage (record (lock mutex_ok s) { frontbuffer = buffer }) state in
      let km = k.mode in
      let kb = k.buffer in let km' = k'.mode in let kb' = k'.buffer in ground arith

  -- Outside front buffer mode no surface has a front buffer: a change of the mode, a dequeue and a
  -- post keep that, whatever they return, with a backend whose functions leave the mode and the
  -- front buffer alone; the dequeue and the post end.
  pub calls_keep-IsConsistent :
      (size_of : Ptr → ℕ × ℕ) (timeout : ℕ) (s : Surface) (state : S) (set : Bool) (buffer : Ptr)
      (damage : Damage)
      → IsConsistent (some s)
      → IsConsistent (set_frontbuffer_mode mutex_ok (some s) set).1
        × EndsConsistent (dequeue_buffer_with_sync backend mutex_ok size_of timeout (some s) state)
        × EndsConsistent
            (enqueue_buffer_with_damage_and_sync backend mutex_ok (some s) buffer damage state)
  calls_keep-IsConsistent size_of timeout s state set buffer damage h = (
    set_keeps s set h,
    dequeue_keeps size_of timeout s state h,
    enqueue_keeps s state buffer damage h,
  )
