-- ===== src/Daemon/Configs/Released.antt =====
-- src/daemon.c: what reload leaves.
use keyd_fork.Common.{
  ℕ, zero, suc, ◌+◌, ◌≤◌, ◌<◌, ◌≡◌, refl, Bool, true, false, Option, none, some, List, [], ◌∷◌,
  arith, ◌==◌, if◌then◌else◌, if_intro, if_split, range_from, Result, ◌>>=◌, Ensures-ok, bind-ok,
  ok,
}
use keyd_fork.Config.{Config}
use keyd_fork.Daemon.Invariant.Steps.{clear_vkbd-Quiet}
use keyd_fork.Daemon.Invariant.Reload.{load_configs-Loading, managed-Inv}
use keyd_fork.Daemon.Configs.{
  reload, add_config, load_entry, config_path, load_entries, load_configs, free_configs,
}
use keyd_fork.Daemon.Invariant.{is_held, Recorded, Inv, Quiet-Inv}
use keyd_fork.Daemon.{Daemon, Effect, World}
use keyd_fork.Daemon.Vkbd.{clear_keys, send_key, clear_vkbd}

-- No key is put down.
clear_keys-up :
    (d : Daemon) (is : List ℕ) (c : ℕ) → d.keystate c ≡ false → (clear_keys d is).keystate c ≡ false
unfolding clear_keys send_key
clear_keys-up d [] c h = h
clear_keys-up d (i ∷ is) c h =
    clear_keys-up (if d.keystate i then send_key d i false else d) is c (ground arith)

clear_keys-keystate :
    (d : Daemon) (i n c : ℕ)
    → i ≤ c
    → c < i + n
    → (clear_keys d (range_from i n)).keystate c ≡ false
unfolding clear_keys send_key
clear_keys-keystate d i zero c h k = ground arith
clear_keys-keystate d i (suc n) c h k = split (i == c) refl (λ lower upper.
    clear_keys-keystate (if d.keystate i then send_key d i false else d) (suc i) n c lower upper)
  where
    d' : Daemon
    d' = if d.keystate i then send_key d i false else d

    cleared : (i == c) ≡ true → d'.keystate c ≡ false
    cleared e =
        if_split (λ (x : Daemon). x.keystate c ≡ false) (d.keystate i) (λ h. ground arith)
          (λ h. ground arith)

    split :
        (b : Bool)
        → (i == c) ≡ b
        → (suc i ≤ c → c < suc i + n → (clear_keys d' (range_from (suc i) n)).keystate c ≡ false)
        → (clear_keys d' (range_from (suc i) n)).keystate c ≡ false
    split true e ih = clear_keys-up d' (range_from (suc i) n) c (cleared e)
    split false e ih = ih (ground arith) (omega arith)

-- What the virtual device does not hold.
abbrev pub IsIdle : Daemon → Type 0
IsIdle d = (c : ℕ) → c < 256 → is_held d.trace c ≡ false

clear_vkbd-IsIdle : (d : Daemon) → Recorded d → IsIdle (clear_vkbd d)
unfolding clear_vkbd
clear_vkbd-IsIdle d r c less = up (is_held (clear_vkbd d).trace c) refl
  where
    up : (b : Bool) → is_held (clear_vkbd d).trace c ≡ b → b ≡ false
    up false e = refl
    up true e =
        let known = (clear_vkbd-Quiet d).records r c e in
        let off = clear_keys-keystate d 0 256 c (omega arith) less in cc

-- Every file of a configuration is parsed, or refused.
abbrev pub Parses : World → Type 0
Parses w = (t : List Effect) (path : List ℕ) → (o : Option Config) × (w.parse t path ≡ ok o)

load_entry-returns :
    (w : World) (d : Daemon) (e : List ℕ × Bool)
    → Parses w
    → (d' : Daemon) × (load_entry w d e ≡ ok d')
unfolding load_entry ◌>>=◌
load_entry-returns w d (name, is_dir) h =
    if_intro (λ (r : Result Daemon). (d' : Daemon) × (r ≡ ok d')) is_dir (d, refl)
      (at_path (config_path w.config_dir name))
  where
    result :
        (o : Option Config)
        → (d' : Daemon) × (Path
            (Result Daemon)
            (elim o [ none ↦ ok d | some config ↦ ok (add_config d config) ])
            (ok d'))
    result none = (d, refl)
    result (some config) = (add_config d config, refl)

    parsed :
        (r : Result (Option Config)) (o : Option Config)
        → r ≡ ok o
        → (d' : Daemon) × ((r
              >>= (λ o. elim o [ none ↦ ok d | some config ↦ ok (add_config d config) ]))
            ≡ ok d')
    parsed r o e = let (d', e') = result o in (d', bind-ok _ e e')

    at_path :
        (o : Option (List ℕ))
        → (d' : Daemon) × (Path
            (Result Daemon)
            (elim o [
              | none ↦ ok d
              | some path ↦
                  w.parse d.trace path
                  >>= (λ r. elim r [ none ↦ ok d | some config ↦ ok (add_config d config) ])
            ])
            (ok d'))
    at_path none = (d, refl)
    at_path (some path) = let (o, e) = h d.trace path in parsed (w.parse d.trace path) o e

load_entries-returns :
    (w : World) (d : Daemon) (es : List (List ℕ × Bool))
    → Parses w
    → (d' : Daemon) × (load_entries w d es ≡ ok d')
unfolding load_entries
load_entries-returns w d [] h = (d, refl)
load_entries-returns w d (e ∷ es) h =
    let (d', same) = load_entry-returns w d e h in
    let (d'', same') = load_entries-returns w d' es h in (d'', bind-ok _ same same')

load_configs-returns :
    (w : World) (d : Daemon) (es : List (List ℕ × Bool))
    → w.entries d.trace ≡ some es
    → Parses w
    → (d' : Daemon) × (load_configs w d ≡ ok d')
unfolding load_configs
load_configs-returns w d es e h =
    rw (load_configs, e) (load_entries-returns w (record d { configs = [] }) es h)

-- Where the directory of configurations can be listed and every file is parsed or refused, reload
-- returns, keeps the invariant, and leaves the virtual device holding no key below 256.
pub reload-IsIdle :
    (w : World) (d : Daemon) (es : List (List ℕ × Bool))
    → Inv d
    → w.entries d.trace ≡ some es
    → Parses w
    → (d' : Daemon) × (reload w d ≡ ok d') × Inv d' × IsIdle d'
unfolding reload
reload-IsIdle w d es v e h =
    let (loaded, same) = load_configs-returns w (free_configs d) es e h in
    let l = Ensures-ok (load_configs-Loading w (free_configs d) v.recorded) same in
    let kept = managed-Inv w d loaded v l in
    (_, bind-ok _ same refl, Quiet-Inv (clear_vkbd-Quiet _) kept, clear_vkbd-IsIdle _ kept.recorded)
