-- ===== src/UtilMap/Clear.antt =====
-- `tpl_util_map_clear`.
use Prim.Native.Nat.{bit_and}
use mathlib.Core.List.{append_assoc}
use libtpl_egl.Base.{
  ℕ, zero, suc, ◌≤◌, ◌<◌, ◌≡◌, refl, ap, ◌∙◌, true, false, List, [], ◌∷◌, ◌++◌, arith, ltb,
  if◌then◌else◌, gather, inl, inr, Bool-cases,
}
use libtpl_egl.Types.{null}
use libtpl_egl.UtilMap.{
  UtilMap, Entry, FreeCall, get_bucket_index, get_bucket, key_length, get, get_loop, clear, fini,
  clear_bucket, clear_buckets,
}
use libtpl_egl.UtilMap.Hash.{Key}
use libtpl_egl.UtilMap.Bounds.{IsSized, get_bucket_index-lt}
use libtpl_egl.UtilMap.Laws.{IsValid}
use libtpl_egl.UtilMap.Bucket.{call_of, releases_of, release-call_of}

clear_bucket-append :
    (xs ys : List Entry) → clear_bucket (xs ++ ys) ≡ clear_bucket xs ++ clear_bucket ys
unfolding clear_bucket
clear_bucket-append [] ys = refl
clear_bucket-append (e ∷ xs) ys = simp (clear_bucket-append xs ys, append_assoc)

clear_bucket-releases_of : (es : List Entry) → clear_bucket es ≡ releases_of es
unfolding clear_bucket
clear_bucket-releases_of [] = refl
clear_bucket-releases_of (e ∷ es) =
    ap (λ l. l ++ clear_bucket es) (release-call_of e)
    ∙ ap (λ l. call_of e.free_func e.value ++ l) (clear_bucket-releases_of es)

clear_buckets-gather : (n : ℕ) (b : ℕ → List Entry) → clear_buckets n b ≡ clear_bucket (gather n b)
unfolding clear_buckets
clear_buckets-gather zero b = unfold clear_bucket in refl
clear_buckets-gather (suc n) b =
    simp (clear_buckets-gather n b, clear_bucket-append (gather n b) (b n))

gather_empty :
    {A : Type 0} (n size : ℕ) (b : ℕ → List A)
    → n ≤ size
    → gather n (λ i. if ltb i size then [] else b i) ≡ []
gather_empty zero size b h = refl
gather_empty (suc n) size b h = ground (arith, gather_empty n size b)

-- The map that the `memset` leaves.
abbrev emptied : UtilMap → UtilMap
emptied m = record m { buckets = λ i. if ltb i m.bucket_size then [] else m.buckets i }

clear_full :
    (m : UtilMap)
    → m.has_buckets ≡ true
    → clear m ≡ (emptied m, clear_bucket (gather m.bucket_size m.buckets))
unfolding clear
clear_full m h = ground (arith, clear_buckets-gather m.bucket_size m.buckets)

clear_null : (m : UtilMap) → m.has_buckets ≡ false → clear m ≡ (m, [])
unfolding clear
clear_null m h = ground arith

-- The calls of `tpl_util_map_clear`.
clear_calls :
    (m : UtilMap)
    → (clear m).1 ≡ (if m.has_buckets then releases_of (gather m.bucket_size m.buckets) else [])
clear_calls m = elim (Bool-cases m.has_buckets) [
  | inl h ↦ rw (clear_full m h, h) (clear_bucket-releases_of (gather m.bucket_size m.buckets))
  | inr h ↦ rw (clear_null m h, h) refl
]

-- Those of `tpl_util_map_fini`.
pub fini_calls :
    (m : UtilMap)
    → (fini m).1 ≡ (if m.has_buckets then releases_of (gather m.bucket_size m.buckets) else [])
unfolding fini
fini_calls m = clear_calls m

get-emptied : (m : UtilMap) (key : Key) → IsSized m → get (emptied m) key ≡ null
unfolding get get_bucket get_bucket_index get_loop
get-emptied m key s = ground (arith, index-lt)
  where
    index-lt :
        bit_and (m.funcs.hash_func key (key_length m.funcs key)) m.bucket_mask < m.bucket_size
    index-lt = get_bucket_index-lt m key s

-- On a map with buckets and of the sizes that `tpl_util_map_init` sets, `tpl_util_map_clear` calls
-- the free function of every entry of every bucket once, in bucket order; afterwards no key is
-- found, and clearing once more calls nothing.
pub clear_lem :
    (m : UtilMap) (key : Key)
    → IsSized m
    → m.has_buckets ≡ true
    → ((clear m).1 ≡ releases_of (gather m.bucket_size m.buckets))
      × (get (clear m).0 key ≡ null)
      × ((clear (clear m).0).1 ≡ [])
clear_lem m key s h =
    rw (clear_full m h)
      (clear_bucket-releases_of (gather m.bucket_size m.buckets), get-emptied m key s, again)
  where
    again : (clear (emptied m)).1 ≡ []
    again =
        ap (λ (r : UtilMap × List FreeCall). r.1) (clear_full (emptied m) h)
        ∙ ap clear_bucket (gather_empty m.bucket_size m.bucket_size m.buckets (omega arith))
        ∙ unfold clear_bucket in refl

emptied-IsValid :
    {Dom : Key → Type 0} {ident : Key → ℕ} (m : UtilMap)
    → IsValid Dom ident m
    → IsValid Dom ident (emptied m)
unfolding get_bucket_index
emptied-IsValid m v = record {
  sized = v.sized;
  known =
      λ i. elim (Bool-cases (ltb i m.bucket_size)) [ inl e ↦ rw e tt | inr e ↦ rw e (v.known i) ];
  placed =
      λ i. elim (Bool-cases (ltb i m.bucket_size)) [ inl e ↦ rw e tt | inr e ↦ rw e (v.placed i) ];
  unique =
      λ i. elim (Bool-cases (ltb i m.bucket_size)) [ inl e ↦ rw e tt | inr e ↦ rw e (v.unique i) ];
}

-- `tpl_util_map_clear` keeps the invariant.
pub clear-IsValid :
    {Dom : Key → Type 0} {ident : Key → ℕ} (m : UtilMap)
    → IsValid Dom ident m
    → IsValid Dom ident (clear m).0
clear-IsValid m v = elim (Bool-cases m.has_buckets) [
  | inl h ↦ rw (clear_full m h) (emptied-IsValid m v)
  | inr h ↦ rw (clear_null m h) v
]
