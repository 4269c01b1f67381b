-- ===== src/UtilMap/Identity.antt =====
-- What a client of the map relies on: on the keys that it uses, the comparison function decides
-- the equality of an identity, and the hash function reads no more than that.
use libtpl_egl.Base.{ℕ, ◌≡◌, ◌==◌, ltb, if◌then◌else◌}
use libtpl_egl.UtilMap.{KeyFuncs, key_length, same_key}
use libtpl_egl.UtilMap.Hash.{Key}

pub record IsIdentity (f : KeyFuncs) (Dom : Key → Type 0) (ident : Key → ℕ) : Type 0 where
  pub same : (a b : Key) → Dom a → Dom b → same_key f a b ≡ (ident a == ident b)
  pub hash :
      (a b : Key)
      → Dom a
      → Dom b
      → ident a ≡ ident b
      → f.hash_func a (key_length f a) ≡ f.hash_func b (key_length f b)

-- The key that a new entry stores.
abbrev pub stored_key : KeyFuncs → Key → ℕ → Key
stored_key f key copy = if ltb 0 (key_length f key) then copy else key
