-- ===== src/Parser/Index/Match.antt =====
-- src/config.c: what config_check_match and config_get_layer_index find.
use keyd_fork.Common.{
  ℕ, bit_and, ◌≡◌, refl, Bool, not, ◌&&◌, ◌||◌, Option, none, some, List, [], ◌∷◌, arith, ◌==◌,
  if◌then◌else◌,
}
use keyd_fork.Parser.Index.{match_ids, config_check_match}
use keyd_fork.Config.{DeviceId, Config}
use keyd_fork.Text.CString.{has_prefix}

-- The id's entry concerns the device: it is a prefix, and excludes it or has one of its flags.
abbrev pub is_decisive : List ℕ → ℕ → DeviceId → Bool
is_decisive id flags d =
    has_prefix d.id id && (not (bit_and d.flags 1 == 0) || not (bit_and d.flags flags == 0))

-- The first entry that concerns the device, if one does.
abbrev pub first_decisive : List ℕ → ℕ → List DeviceId → Option DeviceId
first_decisive id flags [] = none
first_decisive id flags (d ∷ ds) =
    let rest = first_decisive id flags ds in if is_decisive id flags d then some d else rest

match_ids-first :
    (wildcard : Bool) (id : List ℕ) (flags : ℕ) (ds : List DeviceId)
    → match_ids wildcard id flags ds ≡ elim (first_decisive id flags ds) [
      | none ↦ if wildcard then 1 else 0
      | some d ↦ if bit_and d.flags 1 == 0 then 2 else 0
    ]
unfolding match_ids
match_ids-first wildcard id flags [] = refl
match_ids-first wildcard id flags (d ∷ ds) = ground (arith, match_ids-first wildcard id flags ds)

-- config_check_match goes by the first id that is a prefix of the device's and either excludes it or
-- has one of its flags: it gives 0 where that id excludes, 2 where it does not, and without such an
-- id 1 for a wildcard and 0 else.
pub config_check_match-first :
    (config : Config) (id : List ℕ) (flags : ℕ)
    → config_check_match config id flags ≡ elim (first_decisive id flags config.ids) [
      | none ↦ if config.wildcard then 1 else 0
      | some d ↦ if bit_and d.flags 1 == 0 then 2 else 0
    ]
unfolding config_check_match
config_check_match-first config id flags = match_ids-first config.wildcard id flags config.ids
