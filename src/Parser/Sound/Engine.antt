-- ===== src/Parser/Sound/Engine.antt =====
-- src/config.c and src/keyboard.c: the engine on a configuration that the parser built.
use keyd_fork.Common.{ℕ, ◌<◌, ◌≡◌, false, some, List, ok}
use keyd_fork.Parser.Passes.{config_parse_string}
use keyd_fork.Keyboard.Send.{reset_keystate}
use keyd_fork.Keyboard.Safety.{kbd_process_events-reset}
use keyd_fork.Keyboard.Events.{kbd_process_events}
use keyd_fork.Parser.Sound.Passes.{config_parse_string-serves}
use keyd_fork.Config.{Config, Descriptor}
use keyd_fork.Macro.{Env}
use keyd_fork.Output.{is_down}
use keyd_fork.Parser.Sound.{Sound}
use keyd_fork.Keyboard.State.{KeyEvent, Keyboard}
use keyd_fork.Keyboard.Create.{new_keyboard}

module _ (env : Env) (junk : Descriptor) (base cfg : Config) (content : List ℕ) where
  -- Where config_parse_string makes a configuration of a sound one, and the engine returns for the
  -- events that come to a new keyboard with it, reset_keystate then leaves no key below 256 down on
  -- the virtual device, whatever macros the text defines.
  pub parsed_engine-reset :
      (clock fuel : ℕ) (events : List KeyEvent) (t : ℕ) (kbd : Keyboard)
      → Sound base
      → config_parse_string env junk base content ≡ ok (some cfg)
      → kbd_process_events env fuel (new_keyboard cfg clock) events ≡ ok (t, kbd)
      → (c : ℕ) → c < 256
      → is_down (reset_keystate kbd).out c ≡ false
  parsed_engine-reset clock fuel events t kbd sound parse run c h =
      kbd_process_events-reset env cfg
        (config_parse_string-serves env junk base content cfg sound parse).0 clock fuel events t kbd
        run c h
