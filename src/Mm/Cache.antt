-- ===== src/Mm/Cache.antt =====
-- `SlabCache` and `SlabAllocator` of `src/kern/mm/slab.rs`: the pages of one object size, and the
-- eight sizes. New pages come from the page allocator of `Mm.Buddy`.
use package.avaria.Prelude.{
  ℕ, zero, suc, ◌+◌, ◌-◌, Bool, true, false, not, ◌==◌, ltb, leb, ◌&&◌, ◌||◌,
}
use package.avaria.Prelude.{
  if◌then◌else◌, Option, none, some, List, [], ◌∷◌, get_or, set, replicate,
}
use package.avaria.Mm.Buddy.{BuddyAllocator, alloc_one, free_one}
use package.avaria.Mm.Slab.{SlabPage, new_page, page_alloc, page_free, is_full, is_empty, contains}

abbrev pub max_slabs_per_size : ℕ
max_slabs_per_size = 16

pub record SlabCache : Type 0 where
  pub obj_size : ℕ
  pub pages : List (Option SlabPage)
  pub count : ℕ

abbrev pub new_cache : ℕ → SlabCache
new_cache obj_size = record { obj_size = obj_size; pages = replicate 16 none; count = 0 }

abbrev pub page_at : SlabCache → ℕ → Option SlabPage
page_at c i = get_or c.pages i none

-- The first page of those from `i` on, `left` of them, that the test accepts.
pub first_page : (SlabPage → Bool) → SlabCache → ℕ → ℕ → Option (ℕ × SlabPage)
first_page test c zero i = none
first_page test c (suc left) i =
    let rest = first_page test c left (i + 1) in
    elim (page_at c i) [ some page ↦ if test page then some (i, page) else rest | none ↦ rest ]

-- `SlabCache::alloc` with a new page.
pub cache_grow : SlabCache → BuddyAllocator × Option ℕ → SlabCache × BuddyAllocator × Option ℕ
unfolding page_alloc new_page
cache_grow c (buddy, none) = (c, buddy, none)
cache_grow c (buddy, some page_addr) =
    let (slab, result) = page_alloc (new_page page_addr c.obj_size) in
    (record c { pages = set c.pages c.count (some slab); count = c.count + 1 }, buddy, result)

pub cache_alloc : SlabCache → BuddyAllocator → SlabCache × BuddyAllocator × Option ℕ
unfolding first_page is_full page_alloc alloc_one cache_grow
cache_alloc c buddy = elim (first_page (λ p. not (is_full p)) c c.count 0) [
  | some (i, page) ↦
      let (page', result) = page_alloc page in
      (record c { pages = set c.pages i (some page') }, buddy, result)
  | none ↦
      if leb max_slabs_per_size c.count then (c, buddy, none) else cache_grow c (alloc_one buddy)
]

abbrev pub swap : List (Option SlabPage) → ℕ → ℕ → List (Option SlabPage)
swap pages i j = set (set pages i (get_or pages j none)) j (get_or pages i none)

-- The loop of `compact`, at `i` with `left` swaps to go.
pub shift_down : List (Option SlabPage) → ℕ → ℕ → List (Option SlabPage)
shift_down pages zero i = pages
shift_down pages (suc left) i = shift_down (swap pages i (i + 1)) left (i + 1)

pub compact : SlabCache → ℕ → SlabCache
unfolding shift_down
compact c removed =
    let last = c.count - 1 in
    record c {
      pages = if ltb removed last then shift_down c.pages (last - removed) removed else c.pages;
      count = last;
    }

-- `any` over the pages other than `i` that are empty, from `j` on.
pub other_empty : SlabCache → ℕ → ℕ → ℕ → Bool
unfolding is_empty
other_empty c i zero j = false
other_empty c i (suc left) j =
    (not (j == i) && elim (page_at c j) [ some page ↦ is_empty page | none ↦ false ])
    || other_empty c i left (j + 1)

pub cache_free : SlabCache → ℕ → BuddyAllocator → SlabCache × BuddyAllocator × Bool
unfolding first_page contains page_free is_empty other_empty compact free_one
cache_free c addr buddy = elim (first_page (λ p. contains p addr) c c.count 0) [
  | none ↦ (c, buddy, false)
  | some (i, page) ↦
      let page' = (page_free page addr).0 in
      let c' = record c { pages = set c.pages i (some page') } in
      if is_empty page' && ltb 1 c.count && other_empty c' i c.count 0
      then (compact (record c' { pages = set c'.pages i none }) i, free_one buddy page'.base, true)
      else (c', buddy, true)
]

abbrev pub slab_sizes : List ℕ
slab_sizes = 16 ∷ 32 ∷ 64 ∷ 128 ∷ 256 ∷ 512 ∷ 1024 ∷ 2048 ∷ []

-- `SlabAllocator` is its list of caches.
abbrev pub SlabAllocator : Type 0
SlabAllocator = List SlabCache

abbrev pub caches_of : List ℕ → SlabAllocator
caches_of [] = []
caches_of (n ∷ ns) = new_cache n ∷ caches_of ns

abbrev pub new_allocator : SlabAllocator
new_allocator = caches_of slab_sizes

unfoldable pub slab_alloc :
    SlabAllocator → ℕ → BuddyAllocator → SlabAllocator × BuddyAllocator × Option ℕ
unfolding cache_alloc
slab_alloc [] size buddy = ([], buddy, none)
slab_alloc (c ∷ cs) size buddy =
    let rest = slab_alloc cs size buddy in
    let (c', buddy', result) = cache_alloc c buddy in
    if leb size c.obj_size then (c' ∷ cs, buddy', result) else (c ∷ rest.0, rest.1, rest.2)

unfoldable pub slab_free :
    SlabAllocator → ℕ → BuddyAllocator → SlabAllocator × BuddyAllocator × Bool
unfolding cache_free
slab_free [] addr buddy = ([], buddy, false)
slab_free (c ∷ cs) addr buddy =
    let (c', buddy', done) = cache_free c addr buddy in
    let rest = slab_free cs addr buddy' in
    if done then (c' ∷ cs, buddy', true) else (c' ∷ rest.0, rest.1, rest.2)
