-- ===== src/WaylandEgl/Sizes.antt =====
-- The size of a window as its client sees it.
use libtpl_egl.Base.{
  ℕ, ◌≡◌, refl, true, false, ◌&&◌, ◌||◌, Option, none, some, inl, inr, List, [], ◌∷◌, arith, ◌==◌,
  if◌then◌else◌, Bool-cases,
}
use libtpl_egl.Types.{Ptr, null}
use libtpl_egl.WaylandEgl.{
  Rotation, rotation_0, rotation_90, rotation_180, rotation_270, other, Window, is_turned, is_level,
  same_rotation, call, resize, set_rotation,
}

-- The width and the height before the rotation.
abbrev pub seen : Window → ℕ × ℕ
seen w = if is_turned w.rotation then (w.height, w.width) else (w.width, w.height)

-- What a client does with a window.
pub data Call : Type 0 where
  resized : (width height dx dy : ℕ) → Call
  rotated : Rotation → Call

-- The size that a client last asked for, if it began with `size`.
abbrev pub asked : List Call → (size : ℕ × ℕ) → ℕ × ℕ
asked [] size = size
asked (resized width height dx dy ∷ calls) size = asked calls (width, height)
asked (rotated r ∷ calls) size = asked calls size

-- Two windows agree in size, rotation and resize callback.
abbrev pub SameShape : Window → Window → Type 0
SameShape w v =
    (v.width ≡ w.width)
    × (v.height ≡ w.height)
    × (v.rotation ≡ w.rotation)
    × (v.resize_callback ≡ w.resize_callback)

level-turned : (r : Rotation) → is_level r ≡ true → is_turned r ≡ false
unfolding is_level is_turned
level-turned rotation_0 h = refl
level-turned rotation_90 h = absurd (ground arith)
level-turned rotation_180 h = refl
level-turned rotation_270 h = absurd (ground arith)
level-turned (other n) h = refl

abbrev swapped : Window → Window
swapped w = record w { width = w.height; height = w.width }

module _ (w : Window) (r : Rotation) (size : ℕ × ℕ) (e : seen w ≡ size)
    (known : (is_level w.rotation || is_turned w.rotation) ≡ true)
    (good : (is_level r || is_turned r) ≡ true) where
  seen-swapped :
      (if is_level r then is_turned w.rotation else is_level w.rotation) ≡ true
      → seen (swapped (record w { rotation = r })) ≡ size
  seen-swapped h = ground (arith, e, known, good, h, level-turned r, level-turned w.rotation)

  seen_rotated :
      (if is_level r then is_turned w.rotation else is_level w.rotation) ≡ false
      → seen (record w { rotation = r }) ≡ size
  seen_rotated h = ground (arith, e, known, good, h, level-turned r, level-turned w.rotation)

module _ {S : Type 0} (invoke : Ptr → Window → S → Window × S) where
  abbrev pub one : Call → Window → S → Option Window × S
  one (resized width height dx dy) w state = resize invoke (some w) width height dx dy state
  one (rotated r) w state = set_rotation invoke (some w) r state

  abbrev pub all_calls : List Call → Option Window → S → Option Window × S
  all_calls [] w state = (w, state)
  all_calls (c ∷ cs) none state = (none, state)
  all_calls (c ∷ cs) (some w) state = let (w', state') = one c w state in all_calls cs w' state'

  -- The window is there, of the size, with one of the four rotations and a resize callback.
  abbrev pub IsShown : ℕ × ℕ → Option Window → Type 0
  IsShown size none = ⊥
  IsShown size (some w) =
      (seen w ≡ size)
      × ((is_level w.rotation || is_turned w.rotation) ≡ true)
      × ((w.resize_callback == null) ≡ false)

  IsShown-SameShape :
      (size : ℕ × ℕ) (w v : Window) → SameShape w v → IsShown size (some w) → IsShown size (some v)
  IsShown-SameShape size w v (width, height, rotation, callback) h =
      rw (width, height, rotation, callback) h

  module _ (keeps : (f : Ptr) (w : Window) (state : S) → SameShape w (invoke f w state).0) where
    call-SameShape : (f : Ptr) (w : Window) (state : S) → SameShape w (call invoke f w state).0
    unfolding call
    call-SameShape f w state = elim (Bool-cases (f == null)) [
      | inl e ↦ rw (call, e) (refl, refl, refl, refl)
      | inr e ↦ rw (call, e) (keeps f w state)
    ]

    resize-IsShown :
        (w : Window) (size : ℕ × ℕ) (width height dx dy : ℕ) (state : S)
        → IsShown size (some w)
        → IsShown (width, height) (resize invoke (some w) width height dx dy state).0
    unfolding resize
    resize-IsShown w size width height dx dy state (e, r, c) =
        elim (Bool-cases (is_turned w.rotation)) [
          | inl turned ↦
              let v = record w { dx = dx; dy = dy; width = height; height = width } in
              elim (Bool-cases (w.height == width && w.width == height)) [
                | inl same ↦ rw (resize, turned, same) (ground arith, r, c)
                | inr new ↦
                    rw (resize, turned, new)
                      (IsShown-SameShape (width, height) v (call invoke w.resize_callback v state).0
                        (call-SameShape w.resize_callback v state) (rw turned refl, r, c))
              ]
          | inr level ↦
              let v = record w { dx = dx; dy = dy; width = width; height = height } in
              elim (Bool-cases (w.width == width && w.height == height)) [
                | inl same ↦ rw (resize, level, same) (ground arith, r, c)
                | inr new ↦
                    rw (resize, level, new)
                      (IsShown-SameShape (width, height) v (call invoke w.resize_callback v state).0
                        (call-SameShape w.resize_callback v state) (rw level refl, r, c))
              ]
        ]

    set_rotation-IsShown :
        (w : Window) (size : ℕ × ℕ) (r : Rotation) (state : S)
        → IsShown size (some w)
        → IsShown size (set_rotation invoke (some w) r state).0
    unfolding set_rotation
    set_rotation-IsShown w size r state (e, known, c) =
        let v = record w { rotation = r } in
        let u = (call invoke w.rotate_callback v state).0 in
        let k = call-SameShape w.rotate_callback v state in
        let there : (u.resize_callback == null) ≡ false = rw k.3 c in
        elim (Bool-cases (same_rotation w.rotation r)) [
          | inl same ↦ rw (set_rotation, same) (e, known, c)
          | inr new ↦ elim (Bool-cases (is_level r || is_turned r)) [
            | inr bad ↦ rw (set_rotation, new, bad) (e, known, c)
            | inl good ↦
                elim (Bool-cases
                  (if is_level r then is_turned w.rotation else is_level w.rotation)) [
                    | inl swaps ↦
                        rw (set_rotation, new, good, swaps, there)
                          (IsShown-SameShape size (swapped u)
                            (invoke u.resize_callback (swapped u) _).0
                            (keeps u.resize_callback (swapped u) _)
                            (IsShown-SameShape size (swapped v) (swapped u) (k.1, k.0, k.2, k.3)
                              (seen-swapped w r size e known good swaps, good, c)))
                    | inr stays ↦
                        rw (set_rotation, new, good, stays)
                          (IsShown-SameShape size v u k
                            (seen_rotated w r size e known good stays, good, c))
                  ]
          ]
        ]

    -- With callbacks that leave the size, the rotation and the resize callback of a window alone: a
    -- window with one of the four rotations and a resize callback, which its client sees with a
    -- size, is seen after any sequence of `wl_egl_window_resize` and `wl_egl_window_set_rotation`
    -- with the size of the last resize, or, without one, with its size, whatever the rotations are.
    pub all_calls-IsShown :
        (calls : List Call) (w : Option Window) (size : ℕ × ℕ) (state : S)
        → IsShown size w
        → IsShown (asked calls size) (all_calls calls w state).0
    all_calls-IsShown [] w size state h = h
    all_calls-IsShown (c ∷ calls) none size state h = absurd h
    all_calls-IsShown (resized width height dx dy ∷ calls) (some w) size state h =
        all_calls-IsShown calls _ (width, height) _
          (resize-IsShown w size width height dx dy state h)
    all_calls-IsShown (rotated r ∷ calls) (some w) size state h =
        all_calls-IsShown calls _ size _ (set_rotation-IsShown w size r state h)
