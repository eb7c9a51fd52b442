-- ===== src/Store/Unread/Arrive/Sorted.antt =====
-- ircStore.svelte.ts: the order of the merged highlight times.
use ircfiber_site.Common.{
  ℕ, ◌≤◌, ◌<◌, ◌≡◌, refl, ◌∙◌, false, ◌||◌, List, [], ◌∷◌, ◌++◌, arith, ◌==◌,
}
use ircfiber_site.Store.Unread.Markers.{IsAbove}
use ircfiber_site.Store.Unread.Arrive.{has_time, add_time, merge_times, insert_time, sort_times}

unfoldable pub IsAscending : List ℕ → Type 0
IsAscending [] = Unit
IsAscending (h ∷ hs) = IsAbove h hs × IsAscending hs

IsDistinct : List ℕ → Type 0
IsDistinct [] = Unit
IsDistinct (h ∷ hs) = (has_time h hs ≡ false) × IsDistinct hs

IsAbove-has_time : (h : ℕ) (hs : List ℕ) → IsAbove h hs → has_time h hs ≡ false
unfolding has_time
IsAbove-has_time h [] a = refl
IsAbove-has_time h (k ∷ hs) a = ground (arith, IsAbove-has_time h hs)

IsAscending-IsDistinct : (hs : List ℕ) → IsAscending hs → IsDistinct hs
unfolding IsAscending IsDistinct
IsAscending-IsDistinct [] a = tt
IsAscending-IsDistinct (h ∷ hs) a = (IsAbove-has_time h hs a.0, IsAscending-IsDistinct hs a.1)

pub has_time-snoc : (t k : ℕ) (hs : List ℕ) → has_time t (hs ++ k ∷ []) ≡ (has_time t hs || k == t)
unfolding has_time
has_time-snoc t k [] = ground arith
has_time-snoc t k (h ∷ hs) = ground (arith, has_time-snoc t k hs)

snoc-IsDistinct :
    (t : ℕ) (hs : List ℕ) → has_time t hs ≡ false → IsDistinct hs → IsDistinct (hs ++ t ∷ [])
unfolding IsDistinct has_time
snoc-IsDistinct t [] n d = (refl, tt)
snoc-IsDistinct t (h ∷ hs) n d = ground (arith, snoc-IsDistinct t hs, has_time-snoc h t hs)

merge_times-IsDistinct : (ts hs : List ℕ) → IsDistinct hs → IsDistinct (merge_times ts hs)
unfolding merge_times add_time
merge_times-IsDistinct [] hs d = d
merge_times-IsDistinct (t ∷ ts) hs d =
    merge_times-IsDistinct ts (add_time t hs) (ground (arith, snoc-IsDistinct t hs))

pub snoc-IsAbove : (s t : ℕ) (hs : List ℕ) → s < t → IsAbove s hs → IsAbove s (hs ++ t ∷ [])
snoc-IsAbove s t [] l a = (l, tt)
snoc-IsAbove s t (h ∷ hs) l a = (a.0, snoc-IsAbove s t hs l a.1)

pub merge_times-IsAbove :
    (s : ℕ) (ts hs : List ℕ) → IsAbove s ts → IsAbove s hs → IsAbove s (merge_times ts hs)
unfolding merge_times add_time
merge_times-IsAbove s [] hs b a = a
merge_times-IsAbove s (t ∷ ts) hs b a =
    merge_times-IsAbove s ts (add_time t hs) b.1 (ground (arith, snoc-IsAbove s t hs))

insert_time-IsAbove : (s t : ℕ) (hs : List ℕ) → s < t → IsAbove s hs → IsAbove s (insert_time t hs)
unfolding insert_time
insert_time-IsAbove s t [] l a = (l, tt)
insert_time-IsAbove s t (h ∷ hs) l a = ground (arith, insert_time-IsAbove s t hs)

pub sort_times-IsAbove : (s : ℕ) (ts : List ℕ) → IsAbove s ts → IsAbove s (sort_times ts)
unfolding sort_times
sort_times-IsAbove s [] a = tt
sort_times-IsAbove s (t ∷ ts) a =
    insert_time-IsAbove s t (sort_times ts) a.0 (sort_times-IsAbove s ts a.1)

IsAbove-trans : (s t : ℕ) (hs : List ℕ) → s ≤ t → IsAbove t hs → IsAbove s hs
IsAbove-trans s t [] l a = tt
IsAbove-trans s t (h ∷ hs) l a = (omega arith, IsAbove-trans s t hs l a.1)

has_time-insert_time :
    (t k : ℕ) (hs : List ℕ) → has_time t (insert_time k hs) ≡ (k == t || has_time t hs)
unfolding has_time insert_time
has_time-insert_time t k [] = refl
has_time-insert_time t k (h ∷ hs) = ground (arith, has_time-insert_time t k hs)

pub has_time-sort_times : (t : ℕ) (ts : List ℕ) → has_time t (sort_times ts) ≡ has_time t ts
unfolding has_time sort_times
has_time-sort_times t [] = refl
has_time-sort_times t (k ∷ ts) =
    ground (arith, has_time-insert_time t k (sort_times ts), has_time-sort_times t ts)

insert_time-IsAscending :
    (t : ℕ) (hs : List ℕ) → has_time t hs ≡ false → IsAscending hs → IsAscending (insert_time t hs)
unfolding IsAscending insert_time has_time
insert_time-IsAscending t [] n a = (tt, tt)
insert_time-IsAscending t (h ∷ hs) n a =
    ground (arith, insert_time-IsAscending t hs, insert_time-IsAbove h t hs, IsAbove-trans t h hs)

sort_times-IsAscending : (ts : List ℕ) → IsDistinct ts → IsAscending (sort_times ts)
unfolding sort_times IsDistinct IsAscending
sort_times-IsAscending [] d = tt
sort_times-IsAscending (t ∷ ts) d =
    insert_time-IsAscending t (sort_times ts) (has_time-sort_times t ts ∙ d.0)
      (sort_times-IsAscending ts d.1)

pub merged-IsAscending :
    (ts hs : List ℕ) → IsAscending hs → IsAscending (sort_times (merge_times ts hs))
merged-IsAscending ts hs a =
    sort_times-IsAscending (merge_times ts hs)
      (merge_times-IsDistinct ts hs (IsAscending-IsDistinct hs a))
