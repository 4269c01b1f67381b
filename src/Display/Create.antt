-- ===== src/Display/Create.antt =====
-- `tpl_display_create`: what it leaves when it succeeds and when it fails.
use libtpl_egl.Base.{
  ℕ, ◌≡◌, ◌≢◌, ◌⊎◌, refl, ◌∙◌, Bool, Option, true, false, ◌&&◌, inl, inr, some, arith, ◌==◌,
  if◌then◌else◌, update, Bool-cases,
}
use libtpl_egl.Types.{TplResult, succeeded, Ptr, null, backend_index, Outcome, done}
use libtpl_egl.Object.{is_valid}
use libtpl_egl.Runtime.{Runtime, add_display}
use libtpl_egl.Runtime.Registry
use libtpl_egl.Runtime.Registry.{registered, IsBackend, Added, add_display_lem, add_display_taken}
use libtpl_egl.Display.{Display, Backends, World, CreateEnv, write, start_display}
use libtpl_egl.Display.Release.{IsFaithful, Released, give_up-Released}

-- A display at `p` that is registered under its type and handle, beside all that was.
pub record Registered (w : World) (p : Ptr) (d : Display) (w' : World) : Type 0 where
  pub table :
      (j : ℕ) (h : Ptr)
      → registered w'.runtime j h ≡ (
          if (backend_index d.backend_type == j) && (d.native_handle == h)
          then p
          else registered w.runtime j h)
  pub valid : Registry.IsValid w'.runtime
  pub store : (q : Ptr) → w'.store q ≡ (if q == p then some d else w.store q)

-- The registration of a display fails.
abbrev pub IsRefused : CreateEnv → World → Ptr → Display → Type 0
IsRefused env w p d =
    (ret : TplResult) × (after : Option Runtime) × (add_display env.add w.runtime d.backend_type
        d.native_handle p
      ≡ done (ret, after))
    × (succeeded ret ≡ false)

-- The two ways in which a creation ends; `ok` says that the backend was initialised.
abbrev pub Ends : CreateEnv → (ok : Bool) → World → Ptr → Display → Outcome (Ptr × World) → Type 0
Ends env ok w p d result =
    ((ok ≡ true) × (w' : World) × (result ≡ done (p, w')) × Registered w p d w')
    ⊎ (((ok ≡ false) ⊎ ((ok ≡ true) × IsRefused env w p d))
        × (w' : World) × (result ≡ done (null, w'))
        × Released w p d w')

module _ (env : CreateEnv) (backends : Backends) (w : World) (p : Ptr) (d : Display)
    (f : IsFaithful backends) (b : IsBackend d.backend_type) (v : Registry.IsValid w.runtime)
    (live : is_valid w.tracked (some d.base) ≡ true) (one : d.base.reference ≡ 1) where
  -- The display after the initialisation of its backend.
  abbrev initialised : Display
  initialised = ((backends d.backend_type).init d).1

  -- Whether it succeeded.
  abbrev is_initialised : Bool
  is_initialised = succeeded ((backends d.backend_type).init d).0

  failed_init :
      succeeded ((backends d.backend_type).init d).0 ≡ false
      → Ends env is_initialised w p initialised (start_display env backends w p d)
  unfolding start_display
  failed_init h =
      let (w', e, r) =
        give_up-Released env backends (write w p (some initialised)) p initialised f
          (rw (f.init_type d) b) v (rw (f.init_base d) live) (rw (f.init_base d) one) in
      inr (
        inl h,
        w',
        rw h e,
        record { table = r.table; valid = r.valid; store = λ q. r.store q ∙ ground arith },
      )

  failed_add :
      (added : Added w.runtime initialised.backend_type initialised.native_handle p
        (add_display env.add w.runtime initialised.backend_type initialised.native_handle p))
      → succeeded ((backends d.backend_type).init d).0 ≡ true
      → succeeded added.ret ≡ false
      → (w' : World) × (start_display env backends w p d ≡ done (null, w'))
        × Released w p initialised w'
  unfolding start_display
  failed_add added h bad =
      let w₁ = record w { runtime = added.after; store = update w.store p (some initialised) } in
      let (w', e, r) =
        give_up-Released env backends w₁ p initialised f (rw (f.init_type d) b) added.valid
          (rw (f.init_base d) live) (rw (f.init_base d) one) in
      (
        w',
        rw (h, added.ends, bad) e,
        record {
          table = λ j k. r.table j k ∙ rw (added.table j k, bad) refl;
          valid = r.valid;
          store = λ q. r.store q ∙ ground arith;
        },
      )

  added_lem :
      Added w.runtime initialised.backend_type initialised.native_handle p
        (add_display env.add w.runtime initialised.backend_type initialised.native_handle p)
  added_lem =
      add_display_lem env.add w.runtime initialised.backend_type initialised.native_handle p
        (rw (f.init_type d) b) v

  after_init :
      (added : Added w.runtime initialised.backend_type initialised.native_handle p
        (add_display env.add w.runtime initialised.backend_type initialised.native_handle p))
      → succeeded ((backends d.backend_type).init d).0 ≡ true
      → Ends env is_initialised w p initialised (start_display env backends w p d)
  unfolding start_display
  after_init added h = elim (Bool-cases (succeeded added.ret)) [
    | inl ok ↦ inl (
      h,
      record w { runtime = added.after; store = update w.store p (some initialised) },
      rw (h, added.ends, ok) refl,
      record {
        table = λ j k. added.table j k ∙ rw ok refl;
        valid = added.valid;
        store = λ q. refl;
      },
    )
    | inr bad ↦
        let (w', e, k) = failed_add added h bad in
        inr (inr (h, (added.ret, added.after, added.ends, bad)), w', e, k)
  ]

  -- `tpl_display_create`, once it has a valid object with one reference and the type of a backend,
  -- in a well-formed registry and with backends whose functions leave the base object, the type
  -- and, at the end, the handle alone, ends whatever fails on the way. Either the initialisation of
  -- the backend succeeded, and the display that it left is returned and registered under its type
  -- and handle, all other entries as before; or that initialisation or the registration behind it
  -- failed, and NULL is returned, the display's memory freed, and the entry under its type and
  -- handle taken out, all others as before.
  pub start_display-Ends :
      Ends env is_initialised w p initialised (start_display env backends w p d)
  start_display-Ends = elim (Bool-cases (succeeded ((backends d.backend_type).init d).0)) [
    | inl ok ↦ after_init added_lem ok
    | inr bad ↦ failed_init bad
  ]

  -- Where `tpl_display_create` has a valid object with one reference and the type of a backend, in a
  -- well-formed registry and with backends whose functions leave the base object, the type and, at
  -- the end, the handle alone; where the backend succeeds, and another display is registered under
  -- the handle that it gives the new one: then the creation fails, and the other display is no
  -- longer registered afterwards.
  pub failed_create_unregisters :
      succeeded ((backends d.backend_type).init d).0 ≡ true
      → registered w.runtime (backend_index d.backend_type) initialised.native_handle ≢ null
      → (w' : World) × (start_display env backends w p d ≡ done (null, w'))
        × (registered w'.runtime (backend_index d.backend_type) initialised.native_handle ≡ null)
  failed_create_unregisters h taken =
      let refused : succeeded added_lem.ret ≡ false =
        add_display_taken env.add w.runtime added_lem.after initialised.backend_type
          initialised.native_handle p added_lem.ret (rw (f.init_type d) taken) added_lem.ends in
      let (w', e, r) = failed_add added_lem h refused in
      (
        w',
        e,
        r.table (backend_index d.backend_type) initialised.native_handle
            ∙ rw (f.init_type d) (ground arith),
      )
