-- ===== src/Parser/File/Serves.antt =====
-- src/config.c: what config_parse makes of a file.
use keyd_fork.Common.{
  ℕ, ◌<◌, ◌≡◌, refl, subst, Option, none, some, List, length, All, Result, ◌>>=◌, Ensures, bind-ok,
  bind-return, ok, aborted, out_of_fuel, done, aborts, starves,
}
use keyd_fork.Parser.Sound.{OnSome}
use keyd_fork.Keyboard.Fuel.Descriptors.{IsNested}
use keyd_fork.Keyboard.Invariant.{HasReleasedMacros}
use keyd_fork.Parser.Init.Returns.{config_init-returns}
use keyd_fork.Config.{Config, Descriptor}
use keyd_fork.Parser.File.{Files, read_file, config_parse}
use keyd_fork.Parser.File.Plain.{IsPlain, read_file-lines}
use keyd_fork.Parser.Init.{join_lines, config_init}
use keyd_fork.Parser.Passes.{config_parse_string}
use keyd_fork.Parser.Sound.Passes.{config_parse_string-serves}
use keyd_fork.Macro.{Env}

-- The macros let go of what they hold, and references from the binding of any key of any layer are nested
-- at most as deep as there are descriptors.
abbrev pub Serves : Config → Type 0
Serves c =
    HasReleasedMacros c
    × ((layer code : ℕ) → IsNested c c.nr_descriptors ((c.layers layer).keymap code))

parsed-Serves :
    (fs : Files) (env : Env) (junk : Descriptor) (path : List ℕ) (c : Config)
    → config_parse fs env junk path ≡ ok (some c)
    → Serves c
unfolding config_parse ◌>>=◌
parsed-Serves fs env junk path c run =
    bind-return
      (λ r. elim r [
        | none ↦ ok none
        | some content ↦
            config_init env junk >>= (λ config. config_parse_string env junk config content)
      ])
      (read_file fs path) parsed run
  where
    parsed :
        (r : Option (List ℕ))
        → Path
            (Result (Option Config))
            (elim r [
              | none ↦ ok none
              | some content ↦
                  config_init env junk >>= (λ config. config_parse_string env junk config content)
            ])
            (ok (some c))
        → Serves c
    parsed none e = cc
    parsed (some content) e =
        let (c0, init, sound) = config_init-returns env junk in
        config_parse_string-serves env junk c0 content c sound (
          subst
            (λ (m : Result Config).
              (m >>= (λ config. config_parse_string env junk config content)) ≡ ok (some c))
            init e)

-- The configuration that config_parse makes of a file, whatever the files are, serves the engine: its
-- macros let go of what they hold, and references from the binding of any key of any layer are nested
-- at most as deep as there are descriptors.
pub config_parse-Serves :
    (fs : Files) (env : Env) (junk : Descriptor) (path : List ℕ)
    → Ensures (OnSome Serves) (config_parse fs env junk path)
config_parse-Serves fs env junk path =
    given (config_parse fs env junk path) (parsed-Serves fs env junk path)
  where
    given :
        (r : Result (Option Config))
        → ((c : Config) → r ≡ ok (some c) → Serves c)
        → Ensures (OnSome Serves) r
    given (ok none) h = done tt
    given (ok (some c)) h = done (h c refl)
    given (aborted e) h = aborts
    given out_of_fuel h = starves

-- Of a file of less than 65536 bytes whose lines each end in a newline, hold fewer than 256 bytes and no
-- NUL, and do not start with include and a space, config_parse makes what config_parse_string makes of
-- its text, from the configuration of config_init.
pub config_parse-lines :
    (fs : Files) (env : Env) (junk : Descriptor) (path : List ℕ) (ls : List (List ℕ))
    → All IsPlain ls
    → length (join_lines ls) < 65536
    → fs.fopen path ≡ some (join_lines ls)
    → (c : Config) × (config_init env junk ≡ ok c)
      × (config_parse fs env junk path ≡ config_parse_string env junk c (join_lines ls))
unfolding config_parse
config_parse-lines fs env junk path ls h room file =
    let (c0, init, sound) = config_init-returns env junk in
    (c0, init, bind-ok _ (read_file-lines fs path ls h room file) (bind-ok _ init refl))
