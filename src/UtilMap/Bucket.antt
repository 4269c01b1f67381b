-- ===== src/UtilMap/Bucket.antt =====
-- One bucket of the map: what the loops of `tpl_util_map_get` and `tpl_util_map_set` do with it.
use libtpl_egl.Base.{
  ℕ, ◌≡◌, refl, true, Option, none, some, List, [], ◌∷◌, ◌++◌, Option-cases, inl, inr, arith, ◌==◌,
  if◌then◌else◌, All, is_some,
}
use libtpl_egl.Types.{Ptr, null}
use libtpl_egl.UtilMap.{Entry, KeyFuncs, FreeFunc, FreeCall, get_loop, set_loop, release}
use libtpl_egl.UtilMap.Hash.{Key}
use libtpl_egl.UtilMap.Identity.{IsIdentity}

module _ (ident : Key → ℕ) where
  -- The first entry whose key has the identity `j`.
  unfoldable pub find : ℕ → List Entry → Option Entry
  find j [] = none
  find j (e ∷ es) = if ident e.key == j then some e else find j es

  -- No identity occurs twice.
  abbrev pub Distinct : List Entry → Type 0
  Distinct [] = Unit {0}
  Distinct (e ∷ es) = (find (ident e.key) es ≡ none) × Distinct es

  -- The bucket after an entry for `j` is replaced, or deleted if the value is NULL.
  pub put : ℕ → Ptr → Option FreeFunc → List Entry → List Entry
  put j value free_func [] = []
  put j value free_func (e ∷ es) =
      if ident e.key == j
      then (if value == null then es else record e { value = value; free_func = free_func } ∷ es)
      else e ∷ put j value free_func es

abbrev pub value_of : Option Entry → Ptr
value_of none = null
value_of (some e) = e.value

-- The one call of a free function on a value, or none where there is no function.
abbrev pub call_of : Option FreeFunc → Ptr → List FreeCall
call_of none value = []
call_of (some f) value = (f, value) ∷ []

abbrev pub release_of : Option Entry → List FreeCall
release_of none = []
release_of (some e) = call_of e.free_func e.value

-- The calls of the free functions of all entries of a list, in its order.
abbrev pub releases_of : List Entry → List FreeCall
releases_of [] = []
releases_of (e ∷ es) = call_of e.free_func e.value ++ releases_of es

pub release-call_of : (e : Entry) → release e ≡ call_of e.free_func e.value
unfolding release
release-call_of e = elim (Option-cases e.free_func) [
  | inl absent ↦ rw absent refl
  | inr (f, there) ↦ rw there refl
]

module _ {f : KeyFuncs} {Dom : Key → Type 0} {ident : Key → ℕ} (law : IsIdentity f Dom ident) where
  pub get_loop-find :
      (key : Key) (es : List Entry)
      → Dom key
      → All (λ e. Dom e.key) es
      → get_loop f key es ≡ value_of (find ident (ident key) es)
  unfolding get_loop find
  get_loop-find key [] d a = refl
  get_loop-find key (e ∷ es) d a =
      rw (law.same e.key key a.0 d) (ground (arith, get_loop-find key es d a.1))

  pub set_loop-put :
      (key : Key) (value : Ptr) (free_func : Option FreeFunc) (es : List Entry)
      → Dom key
      → All (λ e. Dom e.key) es
      → set_loop f key value free_func es ≡ elim (find ident (ident key) es) [
        | none ↦ none
        | some e ↦ some (put ident (ident key) value free_func es, release e)
      ]
  unfolding set_loop find put
  set_loop-put key value free_func [] d a = refl
  set_loop-put key value free_func (e ∷ es) d a =
      rw (law.same e.key key a.0 d) (ground (arith, set_loop-put key value free_func es d a.1))

module _ (ident : Key → ℕ) where
  pub find-put-none :
      (j k : ℕ) (value : Ptr) (free_func : Option FreeFunc) (es : List Entry)
      → find ident k es ≡ none
      → find ident k (put ident j value free_func es) ≡ none
  unfolding find put
  find-put-none j k value free_func [] h = refl
  find-put-none j k value free_func (e ∷ es) h =
      ground (arith, find-put-none j k value free_func es)

  -- A lookup after an entry for `j` was replaced or deleted.
  pub find-put :
      (j k : ℕ) (value : Ptr) (free_func : Option FreeFunc) (es : List Entry)
      → Distinct ident es
      → is_some (find ident j es) ≡ true
      → value_of (find ident k (put ident j value free_func es))
        ≡ (if j == k then value else value_of (find ident k es))
  unfolding find put
  find-put j k value free_func [] d h = ground arith
  find-put j k value free_func (e ∷ es) d h = ground (arith, find-put j k value free_func es d.1)

  pub Distinct-put :
      (j : ℕ) (value : Ptr) (free_func : Option FreeFunc) (es : List Entry)
      → Distinct ident es
      → Distinct ident (put ident j value free_func es)
  unfolding put
  Distinct-put j value free_func [] d = tt
  Distinct-put j value free_func (e ∷ es) d = ground (
    arith,
    Distinct-put j value free_func es d.1,
    find-put-none j (ident e.key) value free_func es d.0,
  )

  -- A property of the keys of a bucket outlives `put`, which keeps or drops each key.
  pub All-put :
      (P : Key → Type 0) (j : ℕ) (value : Ptr) (free_func : Option FreeFunc) (es : List Entry)
      → All (λ e. P e.key) es
      → All (λ e. P e.key) (put ident j value free_func es)
  unfolding put
  All-put P j value free_func [] a = tt
  All-put P j value free_func (e ∷ es) a = ground (arith, All-put P j value free_func es a.1)
