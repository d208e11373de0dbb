-- ===== src/Keyboard/Cache.antt =====
-- src/keyboard.c, cache_set and cache_get: the descriptor that each pressed key was resolved to.
pub mod Laws
use keyd_fork.Common.{ℕ, suc, Option, none, some, List, [], ◌∷◌, ◌==◌, if◌then◌else◌, modify}
use keyd_fork.Keyboard.State.{CacheEntry, Keyboard}

-- The loop of `cache_set`: the slot that holds `code`, or else the last free one.
find_slot : List CacheEntry → ℕ → ℕ → Option ℕ → Option ℕ
find_slot [] code i slot = slot
find_slot (e ∷ es) code i slot =
    let rest = find_slot es code (suc i) (if e.code == 0 then some i else slot) in
    if e.code == code then some i else rest

-- What `cache_set` writes into the slot.
write_entry : ℕ → Option CacheEntry → CacheEntry → CacheEntry
write_entry code none old = record old { code = 0 }
write_entry code (some ent) old = record ent { code = code }

pub set_entries : List CacheEntry → ℕ → Option CacheEntry → Option (List CacheEntry)
unfolding find_slot write_entry
set_entries entries code ent = elim (find_slot entries code 0 none) [
  | none ↦ none
  | some slot ↦ some (modify entries slot (write_entry code ent))
]

-- `none` is the result -1.
unfoldable pub cache_set : Keyboard → ℕ → Option CacheEntry → Option Keyboard
unfolding set_entries
cache_set kbd code ent = elim (set_entries kbd.cache code ent) [
  | none ↦ none
  | some entries ↦ some (record kbd { cache = entries })
]

pub find_entry : List CacheEntry → ℕ → Option CacheEntry
find_entry [] code = none
find_entry (e ∷ es) code = if e.code == code then some e else find_entry es code

unfoldable pub cache_get : Keyboard → ℕ → Option CacheEntry
unfolding find_entry
cache_get kbd code = find_entry kbd.cache code

-- A write through the pointer that `cache_get` returns.
unfoldable pub update_entry : List CacheEntry → ℕ → (CacheEntry → CacheEntry) → List CacheEntry
update_entry [] code f = []
update_entry (e ∷ es) code f = if e.code == code then f e ∷ es else e ∷ update_entry es code f
