-- ===== src/Keyboard/Cache/Laws.antt =====
-- src/keyboard.c: the cache as a finite map from the codes of pressed keys to descriptors.
use keyd_fork.Common.{
  ℕ, zero, suc, ◌+◌, ◌≡◌, refl, ◌≢◌, ◌↔◌, ◌⊎◌, inl, inr, Option, none, some, List, [], ◌∷◌, arith,
  ◌==◌, if◌then◌else◌, ==_eq, ==_ne, Bool-cases, Option-cases, modify,
}
use keyd_fork.Keyboard.Cache.{find_slot, write_entry, find_entry, set_entries, cache_set, cache_get}
use keyd_fork.Keyboard.State.{CacheEntry, Keyboard}

abbrev pub Absent : ℕ → List CacheEntry → Type 0
Absent code [] = Unit {0}
Absent code (e ∷ es) = (e.code ≢ code) × Absent code es

-- The slot that `cache_set` writes: the first that holds the code, or a free one if none does.
abbrev Fits : ℕ → List CacheEntry → ℕ → Type 0
Fits code [] k = ⊥
Fits code (e ∷ es) zero = (e.code ≡ code) ⊎ ((e.code ≡ 0) × Absent code es)
Fits code (e ∷ es) (suc k) = (e.code ≢ code) × Fits code es k

find_slot-some :
    (es : List CacheEntry) (code i : ℕ) (slot : Option ℕ) (s : ℕ)
    → find_slot es code i slot ≡ some s
    → ((slot ≡ some s) × Absent code es) ⊎ ((k : ℕ) × (s ≡ i + k) × Fits code es k)
unfolding find_slot
find_slot-some [] code i slot s h = inl (h, tt)
find_slot-some (e ∷ es) code i slot s h = elim (Bool-cases (e.code == code)) [
  | inl hit ↦ inr (0, ground arith, inl (ground arith))
  | inr miss ↦ elim (Bool-cases (e.code == 0)) [
    | inl free ↦ elim (find_slot-some es code (suc i) (some i) s (ground arith)) [
      | inl (q, absent) ↦ inr (0, ground arith, inr (ground arith, absent))
      | inr (k, q, fits) ↦ inr (suc k, omega arith, (ground arith, fits))
    ]
    | inr busy ↦ elim (find_slot-some es code (suc i) slot s (ground arith)) [
      | inl (q, absent) ↦ inl (q, (ground arith, absent))
      | inr (k, q, fits) ↦ inr (suc k, omega arith, (ground arith, fits))
    ]
  ]
]

Absent-find_entry : (es : List CacheEntry) (code : ℕ) → Absent code es → find_entry es code ≡ none
unfolding find_entry
Absent-find_entry [] code h = refl
Absent-find_entry (e ∷ es) code h = ground (arith, Absent-find_entry es code h.1)

find_entry-write :
    (es : List CacheEntry) (code k j : ℕ) (ent : CacheEntry)
    → Fits code es k
    → code ≢ 0
    → j ≢ 0
    → find_entry (modify es k (write_entry code (some ent))) j
      ≡ (if code == j then some (record ent { code = code }) else find_entry es j)
unfolding find_entry write_entry
find_entry-write [] code k j ent f hc hj = absurd f
find_entry-write (e ∷ es) code zero j ent f hc hj = ground (arith, Absent-find_entry es code)
find_entry-write (e ∷ es) code (suc k) j ent f hc hj =
    ground (arith, find_entry-write es code k j ent f.1 hc hj)

-- No code is held twice; 0 marks a free slot.
abbrev pub IsDistinct : List CacheEntry → Type 0
IsDistinct [] = Unit {0}
IsDistinct (e ∷ es) = ((e.code ≡ 0) ⊎ Absent e.code es) × IsDistinct es

Absent-write :
    (es : List CacheEntry) (code c k : ℕ) (ent : Option CacheEntry)
    → c ≢ code
    → c ≢ 0
    → Absent c es
    → Absent c (modify es k (write_entry code ent))
unfolding write_entry
Absent-write [] code c k ent h h' a = tt
Absent-write (e ∷ es) code c zero none h h' a = (ground arith, a.1)
Absent-write (e ∷ es) code c zero (some x) h h' a = (ground arith, a.1)
Absent-write (e ∷ es) code c (suc k) ent h h' a = (a.0, Absent-write es code c k ent h h' a.1)

find_entry-erase :
    (es : List CacheEntry) (code k j : ℕ)
    → IsDistinct es
    → Fits code es k
    → code ≢ 0
    → j ≢ 0
    → find_entry (modify es k (write_entry code none)) j
      ≡ (if code == j then none else find_entry es j)
unfolding find_entry write_entry
find_entry-erase [] code k j v f hc hj = absurd f
find_entry-erase (e ∷ es) code zero j v f hc hj = ground (arith, Absent-find_entry es code)
find_entry-erase (e ∷ es) code (suc k) j v f hc hj =
    ground (arith, find_entry-erase es code k j v.1 f.1 hc hj)

write-IsDistinct :
    (es : List CacheEntry) (code k : ℕ) (ent : Option CacheEntry)
    → code ≢ 0
    → Fits code es k
    → IsDistinct es
    → IsDistinct (modify es k (write_entry code ent))
unfolding write_entry
write-IsDistinct [] code k ent hc f v = absurd f
write-IsDistinct (e ∷ es) code zero none hc f v = (inl refl, v.1)
write-IsDistinct (e ∷ es) code zero (some x) hc f v = (inr (ground arith), v.1)
write-IsDistinct (e ∷ es) code (suc k) ent hc f v =
    (keep v.0, write-IsDistinct es code k ent hc f.1 v.1)
  where
    keep :
        (e.code ≡ 0) ⊎ Absent e.code es
        → (e.code ≡ 0) ⊎ Absent e.code (modify es k (write_entry code ent))
    keep (inl z) = inl z
    keep (inr a) = elim (Bool-cases (e.code == 0)) [
      | inl z ↦ inl (==_eq e.code 0 z)
      | inr n ↦ inr (Absent-write es code e.code k ent f.0 (==_ne e.code 0 n) a)
    ]

-- The slots are all taken.
abbrev pub IsFull : List CacheEntry → Type 0
IsFull [] = Unit {0}
IsFull (e ∷ es) = (e.code ≢ 0) × IsFull es

find_slot-none :
    (es : List CacheEntry) (code i : ℕ) (slot : Option ℕ)
    → find_slot es code i slot ≡ none
    → (slot ≡ none) × Absent code es × IsFull es
unfolding find_slot
find_slot-none [] code i slot h = (h, tt, tt)
find_slot-none (e ∷ es) code i slot h =
    ground (arith, find_slot-none es code (suc i) slot, find_slot-none es code (suc i) (some i))

find_slot_full :
    (es : List CacheEntry) (code i : ℕ)
    → Absent code es
    → IsFull es
    → find_slot es code i none ≡ none
unfolding find_slot
find_slot_full [] code i a f = refl
find_slot_full (e ∷ es) code i a f = ground (arith, find_slot_full es code (suc i) a.1 f.1)

-- `cache_set` fails exactly where the code is absent and every slot is taken.
pub set_entries-none :
    (es : List CacheEntry) (code : ℕ) (ent : Option CacheEntry)
    → (set_entries es code ent ≡ none) ↔ (Absent code es × IsFull es)
unfolding set_entries
set_entries-none es code ent = (
  λ h. let full = find_slot-none es code 0 none (ground arith) in (full.1, full.2),
  λ a. ground (arith, find_slot_full es code 0 a.0 a.1),
)

set_entries-some :
    (es : List CacheEntry) {es' : List CacheEntry} (code : ℕ) (ent : Option CacheEntry)
    → set_entries es code ent ≡ some es'
    → (k : ℕ) × Fits code es k × (es' ≡ modify es k (write_entry code ent))
unfolding set_entries
set_entries-some es {es'} code ent h = elim (Option-cases (find_slot es code 0 none)) [
  | inl missing ↦ ground arith
  | inr (s, found) ↦ elim (find_slot-some es code 0 none s found) [
    | inl (q, _) ↦ cc
    | inr (k, q, fits) ↦ (k, fits, ground arith)
  ]
]

cache_set-some :
    (kbd : Keyboard) {kbd' : Keyboard} (code : ℕ) (ent : Option CacheEntry)
    → cache_set kbd code ent ≡ some kbd'
    → (k : ℕ) × Fits code kbd.cache k × (kbd'.cache ≡ modify kbd.cache k (write_entry code ent))
unfolding cache_set
cache_set-some kbd {kbd'} code ent h = elim (Option-cases (set_entries kbd.cache code ent)) [
  | inl missing ↦ ground arith
  | inr (es, stored) ↦
      let (k, fits, e) = set_entries-some kbd.cache code ent stored in (k, fits, ground arith)
]

-- A key that cache_set stores is found again with its descriptor; every other key is found as
-- before. The codes are not 0.
pub cache_get-cache_set :
    (kbd : Keyboard) {kbd' : Keyboard} (code j : ℕ) (ent : CacheEntry)
    → cache_set kbd code (some ent) ≡ some kbd'
    → code ≢ 0
    → j ≢ 0
    → cache_get kbd' j ≡ (if code == j then some (record ent { code = code }) else cache_get kbd j)
unfolding cache_get
cache_get-cache_set kbd {kbd'} code j ent h hc hj =
    let (k, fits, e) = cache_set-some kbd code (some ent) h in
    rw e (find_entry-write kbd.cache code k j ent fits hc hj)

-- In a cache that holds no code twice, a key that cache_set erases is gone; every other key is found
-- as before. The codes are not 0.
pub cache_get-cache_set-none :
    (kbd : Keyboard) {kbd' : Keyboard} (code j : ℕ)
    → IsDistinct kbd.cache
    → cache_set kbd code none ≡ some kbd'
    → code ≢ 0
    → j ≢ 0
    → cache_get kbd' j ≡ (if code == j then none else cache_get kbd j)
unfolding cache_get
cache_get-cache_set-none kbd {kbd'} code j v h hc hj =
    let (k, fits, e) = cache_set-some kbd code none h in
    rw e (find_entry-erase kbd.cache code k j v fits hc hj)

-- A cache that holds no code twice holds none twice after cache_set of a code that is not 0.
pub cache_set-IsDistinct :
    (kbd : Keyboard) {kbd' : Keyboard} (code : ℕ) (ent : Option CacheEntry)
    → IsDistinct kbd.cache
    → cache_set kbd code ent ≡ some kbd'
    → code ≢ 0
    → IsDistinct kbd'.cache
cache_set-IsDistinct kbd {kbd'} code ent v h hc =
    let (k, fits, e) = cache_set-some kbd code ent h in
    rw e (write-IsDistinct kbd.cache code k ent hc fits v)

-- cache_set returns -1 exactly where the code is absent and no slot is free.
pub cache_set-none :
    (kbd : Keyboard) (code : ℕ) (ent : Option CacheEntry)
    → (cache_set kbd code ent ≡ none) ↔ (Absent code kbd.cache × IsFull kbd.cache)
unfolding cache_set
cache_set-none kbd code ent = (
  (λ h. (set_entries-none kbd.cache code ent).0 (ground arith)),
  λ a. ground (arith, (set_entries-none kbd.cache code ent).1 a),
)

-- `cache_set` changes the cache alone.
pub cache_set_frame :
    (kbd : Keyboard) {kbd' : Keyboard} (code : ℕ) (ent : Option CacheEntry)
    → cache_set kbd code ent ≡ some kbd'
    → kbd' ≡ record kbd { cache = kbd'.cache }
unfolding cache_set
cache_set_frame kbd {kbd'} code ent h = ground arith
