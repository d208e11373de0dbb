-- ===== src/Daemon/Configs/Loaded.antt =====
-- src/daemon.c: what is kept while load_configs adds configurations.
use keyd_fork.Common.{
  ℕ, Bool, Option, none, some, List, [], ◌∷◌, if_intro, Result, ◌>>=◌, Ensures, Ensures-bind, ok,
  aborted, out_of_fuel, exited, done, aborts, starves,
}
use keyd_fork.Config.{Config}
use keyd_fork.Daemon.{World, Daemon}
use keyd_fork.Daemon.Configs.{add_config, config_path, load_entry, load_entries, load_configs}

module _ (P : Daemon → Type 0) (w : World) where
  load_entry-Ensures :
      (d : Daemon) (e : List ℕ × Bool)
      → ((d : Daemon) (config : Config) → P d → P (add_config d config))
      → P d
      → Ensures P (load_entry w d e)
  unfolding load_entry ◌>>=◌
  load_entry-Ensures d (name, is_dir) step v =
      if_intro (Ensures P) is_dir (done v) (at_path (config_path w.config_dir name))
    where
      result :
          (r : Option Config)
          → Ensures P (elim r [ none ↦ ok d | some config ↦ ok (add_config d config) ])
      result none = done v
      result (some config) = done (step d config v)

      given :
          (r : Result (Option Config))
          → Ensures P (r >>= (λ r. elim r [ none ↦ ok d | some config ↦ ok (add_config d config) ]))
      given (ok r) = result r
      given (aborted e) = aborts
      given out_of_fuel = starves

      at_path :
          (o : Option (List ℕ))
          → Ensures P (elim o [
            | none ↦ ok d
            | some path ↦
                w.parse d.trace path
                >>= (λ r. elim r [ none ↦ ok d | some config ↦ ok (add_config d config) ])
          ])
      at_path none = done v
      at_path (some path) = given (w.parse d.trace path)

  load_entries-Ensures :
      (d : Daemon) (es : List (List ℕ × Bool))
      → ((d : Daemon) (config : Config) → P d → P (add_config d config))
      → P d
      → Ensures P (load_entries w d es)
  unfolding load_entries
  load_entries-Ensures d [] step v = done v
  load_entries-Ensures d (e ∷ es) step v =
      Ensures-bind _ (load_entry-Ensures d e step v) (λ d' v'. load_entries-Ensures d' es step v')

  pub load_configs-Ensures :
      (d : Daemon)
      → ((d : Daemon) (config : Config) → P d → P (add_config d config))
      → P (record d { configs = [] })
      → Ensures P (load_configs w d)
  unfolding load_configs
  load_configs-Ensures d step v = listed (w.entries d.trace)
    where
      listed :
          (o : Option (List (List ℕ × Bool)))
          → Ensures P (elim o [
            | none ↦ aborted exited
            | some es ↦ load_entries w (record d { configs = [] }) es
          ])
      listed none = aborts
      listed (some es) = load_entries-Ensures (record d { configs = [] }) es step v
