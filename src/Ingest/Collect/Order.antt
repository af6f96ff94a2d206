-- ===== src/Ingest/Collect/Order.antt =====
-- What `collect_cpp_files` of src/cpp_mcp/graphdb/exporter.py answers, and in which order.
use cpp_mcp.Base.{
  Text, List, [], ◌∷◌, Bool, true, false, ◌&&◌, ◌||◌, ◌≟◌, list_eq, nat_eq, elem, keep,
  if◌then◌else◌, ◌≡◌, inl, inr, refl, ◌∙◌, arith, All, All-map, Bool-cases, list_beq_iff,
}
use cpp_mcp.Errors.{ok}
use cpp_mcp.Paths.Text.{parts}
use cpp_mcp.Ingest.Collect.{
  Listing, is_cpp, text_le, parts_le, path_le, insert_path, sorted, wanted, collect_cpp_files,
}

pub text_total : (s t : Text) → (text_le s t || text_le t s) ≡ true
unfolding text_le
text_total [] t = refl
text_total (x ∷ s) [] = refl
text_total (x ∷ s) (y ∷ t) = ground (arith, text_total s t)

pub text_trans : (s t u : Text) → text_le s t ≡ true → text_le t u ≡ true → text_le s u ≡ true
unfolding text_le
text_trans [] t u h k = refl
text_trans (x ∷ s) [] u h k = absurd (cc h)
text_trans (x ∷ s) (y ∷ t) [] h k = absurd (cc k)
text_trans (x ∷ s) (y ∷ t) (z ∷ u) h k = ground (arith, text_trans s t u, h, k)

text_antisym : (s t : Text) → text_le s t ≡ true → text_le t s ≡ true → s ≡ t
unfolding text_le
text_antisym [] [] h k = refl
text_antisym [] (y ∷ t) h k = absurd (cc k)
text_antisym (x ∷ s) [] h k = absurd (cc h)
text_antisym (x ∷ s) (y ∷ t) h k = ground (arith, text_antisym s t, h, k)

parts_total : (vs ws : List Text) → (parts_le vs ws || parts_le ws vs) ≡ true
unfolding parts_le
parts_total [] ws = refl
parts_total (v ∷ vs) [] = refl
parts_total (v ∷ vs) (w ∷ ws) =
    ground (arith, parts_total vs ws, text_total v w, list_beq_iff v w, list_beq_iff w v)

parts_trans :
    (us vs ws : List Text) → parts_le us vs ≡ true → parts_le vs ws ≡ true → parts_le us ws ≡ true
unfolding parts_le
parts_trans [] vs ws h k = refl
parts_trans (u ∷ us) [] ws h k = absurd (cc h)
parts_trans (u ∷ us) (v ∷ vs) [] h k = absurd (cc k)
parts_trans (u ∷ us) (v ∷ vs) (w ∷ ws) h k = ground (
  arith,
  parts_trans us vs ws,
  h,
  k,
  text_trans u v w,
  text_antisym u v,
  list_beq_iff u v,
  list_beq_iff v w,
  list_beq_iff u w,
)

path_total : (p q : Text) → path_le p q ≡ false → path_le q p ≡ true
unfolding path_le
path_total p q h = ground (arith, parts_total (parts p) (parts q), h)

-- Each path comes before all that follow it.
abbrev pub IsAscending : List Text → Type 0
IsAscending [] = Unit
IsAscending (p ∷ ps) = All (λ q. path_le p q ≡ true) ps × IsAscending ps

All-insert :
    (P : Text → Type 0) (p : Text) (qs : List Text) → P p → All P qs → All P (insert_path p qs)
unfolding insert_path
All-insert P p [] h hs = (h, tt)
All-insert P p (q ∷ qs) h hs = elim (Bool-cases (path_le p q)) [
  | inl before ↦ rw before (h, hs)
  | inr after ↦ rw after (hs.0, All-insert P p qs h hs.1)
]

insert-IsAscending : (p : Text) (qs : List Text) → IsAscending qs → IsAscending (insert_path p qs)
unfolding insert_path
insert-IsAscending p [] h = (tt, tt)
insert-IsAscending p (q ∷ qs) h = elim (Bool-cases (path_le p q)) [
  | inl before ↦ rw before (
    (
      before,
      All-map (λ r. path_le q r ≡ true) (λ r. path_le p r ≡ true) qs
          (λ r k. parts_trans (parts p) (parts q) (parts r) before k) h.0,
    ),
    h,
  )
  | inr after ↦ rw after (
    All-insert (λ r. path_le q r ≡ true) p qs (path_total p q after) h.0,
    insert-IsAscending p qs h.1,
  )
]

sorted-IsAscending : (ps : List Text) → IsAscending (sorted ps)
unfolding sorted
sorted-IsAscending [] = tt
sorted-IsAscending (p ∷ ps) = insert-IsAscending p (sorted ps) (sorted-IsAscending ps)

elem-insert : (r p : Text) (qs : List Text) → elem r (insert_path p qs) ≡ ((r ≟ p) || elem r qs)
unfolding insert_path
elem-insert r p [] = refl
elem-insert r p (q ∷ qs) = elim (Bool-cases (path_le p q)) [
  | inl before ↦ rw before refl
  | inr after ↦ rw after (ground (arith, elem-insert r p qs))
]

elem-sorted : (r : Text) (ps : List Text) → elem r (sorted ps) ≡ elem r ps
unfolding sorted
elem-sorted r [] = refl
elem-sorted r (p ∷ ps) = elem-insert r p (sorted ps) ∙ ground (arith, elem-sorted r ps)

elem-keep : (w : Text → Bool) (r : Text) (ps : List Text) → elem r (keep w ps) ≡ (elem r ps && w r)
elem-keep w r [] = refl
elem-keep w r (p ∷ ps) = elim (Bool-cases (w p)) [
  | inl kept ↦ rw kept (ground (arith, elem-keep w r ps, kept, list_beq_iff r p))
  | inr left ↦ rw left (ground (arith, elem-keep w r ps, left, list_beq_iff r p))
]

-- For a directory whose listing does not raise, the collected paths are exactly those of the listing
-- that are files with a suffix of C++, and they come in the order of their parts.
pub collect_cpp_files-IsAscending :
    (listing : Listing) (path : Text) (recursive : Bool) (found : List Text)
    → listing.is_file path ≡ false
    → (if recursive then listing.rglob path else listing.iterdir path) ≡ ok found
    → (files : List Text) × (collect_cpp_files listing path recursive ≡ ok files)
      × IsAscending files
      × ((p : Text) → elem p files ≡ (elem p found && (listing.is_file p && is_cpp p)))
unfolding collect_cpp_files
collect_cpp_files-IsAscending listing path recursive found is_dir listed = (
  sorted (keep (wanted listing) found),
  rw (is_dir, listed) refl,
  sorted-IsAscending (keep (wanted listing) found),
  λ p. elem-sorted p (keep (wanted listing) found) ∙ elem-keep (wanted listing) p found,
)
