-- ===== src/Tests/Daemon.antt =====
-- Instances of the theorems on the daemon and what is around it: a configuration for
-- every keyboard, one keyboard, and a key that is held.
use keyd_fork.Util.{xread}
use keyd_fork.Util.Ends.{xread-end}
use keyd_fork.Log.{colorize, escape_num}
use keyd_fork.Log.Long.{colorize-long}
use keyd_fork.Log.Marked.{Piece, bare, coloured, shown, colorize-marked}
use keyd_fork.Common.{
  ℕ, ◌≡◌, refl, subst, ◌≢◌, ◌↔◌, inl, true, false, ◌&&◌, ◌||◌, none, some, List, [], ◌∷◌, arith,
  ◌==◌, if◌then◌else◌, length, elem, ◌>>=◌, Ensures, ok, aborted, out_of_fuel, use_after_free,
  exited,
}
use keyd_fork.Daemon.Invariant.Devices.{some_injective}
use keyd_fork.Evloop.Fresh.{evloop-scanned}
use keyd_fork.Vkbd.HidTable.{hid_table}
use keyd_fork.Vkbd.Gadget.{get_modifier, vkbd_send_key, Gadget}
use keyd_fork.Daemon.Listeners.{add_listener}
use keyd_fork.Keys.{keyd_esc, keyd_enter, keyd_backspace, keyd_mouse_back}
use keyd_fork.Daemon.Events.{timed_out, event_handler}
use keyd_fork.Vkbd.Gadget.Held.{last_codes, vkbd_send_key-held}
use keyd_fork.Vkbd.Uinput.Codes.{IsOrdered, key_code-event_code}
use keyd_fork.Daemon.Configs.Dangling.{reload-dangling}
use keyd_fork.Vkbd.Uinput.{event_code, Uinput}
use keyd_fork.Device.Init.{Opened, device_scan}
use keyd_fork.Device.Read.{event, key_code, Evdev}
use keyd_fork.Evloop.Sequence.{calm, value, panic_check-sequence, checks}
use keyd_fork.Daemon.Configs.Best.{rank_of, lookup_config_ent-IsBest, IsBest}
use keyd_fork.Evloop.{evloop, track_key, Loop, Round, Panic, panic_check}
use keyd_fork.Tests.{config, env}
use keyd_fork.Text.CString.{codes}
use keyd_fork.Keyboard.Create.{new_keyboard}
use keyd_fork.Config.{Config, unset_descriptor}
use keyd_fork.Daemon.{Daemon, World, vkbd_key}
use keyd_fork.Common.Int.{pos}
use keyd_fork.Device.{Device, cap_keyboard, EventType}
use keyd_fork.Daemon.Configs.{reload, lookup_config_ent}
use keyd_fork.Daemon.Configs.Released.{reload-IsIdle, IsIdle, Parses}
use keyd_fork.Daemon.Invariant.{Inv}

abbrev any_keyboard : Config
any_keyboard = record config { wildcard = true }

abbrev world : World
world = record {
  grabs = λ _ _. true;
  ungrabs = λ _ _. true;
  takes = λ _ _. true;
  config_dir = codes "/etc/keyd";
  entries = λ _. some ((codes "default.conf", false) ∷ []);
  parse = λ _ _. ok (some any_keyboard);
  env = env;
}

abbrev keyboard : Device
keyboard = record {
  fd = some 5;
  grabbed = true;
  capabilities = cap_keyboard;
  is_virtual = false;
  id = codes "0001:0001:00000000";
  name = codes "a keyboard";
  path = codes "/dev/input/event0";
  maxx = 0;
  maxy = 0;
  minx = 0;
  miny = 0;
  data' = some 0;
}

abbrev running : Daemon
running = record {
  configs = record { config = any_keyboard; kbd = 0 } ∷ [];
  kbds = λ a. if a == 0 then some (new_keyboard any_keyboard 0) else none;
  next_kbd = 1;
  clock = 0;
  scroll = λ _. (pos 0, pos 0);
  keystate = λ c. if 30 == c then true else false;
  listeners = [];
  active_kbd = some 0;
  device_table = keyboard ∷ [];
  last_time = 0;
  timeout = 0;
  trace = vkbd_key 30 true ∷ [];
}

running-Inv : Inv running
running-Inv = record {
  recorded = λ c down. down;
  configs_live = ((new_keyboard any_keyboard 0, refl), tt);
  devices_served = (
    (
      (λ v. ground arith),
      λ a e. (
        new_keyboard any_keyboard 0,
        subst (λ (x : ℕ). running.kbds x ≡ some (new_keyboard any_keyboard 0))
            (some_injective 0 a e) refl,
      ),
    ),
    tt,
  );
}

parses : Parses world
parses t path = (some any_keyboard, refl)

reload-IsIdle_example : (d' : Daemon) × (reload world running ≡ ok d') × Inv d' × IsIdle d'
reload-IsIdle_example =
    reload-IsIdle world running ((codes "default.conf", false) ∷ []) running-Inv refl parses

abbrev reloaded : Daemon
reloaded = reload-IsIdle_example.0

reload-dangling_example :
    (event_handler world 100 unset_descriptor reloaded timed_out 10 ≡ aborted use_after_free)
    × (length reloaded.listeners ≢ 32 → add_listener reloaded 7 ≡ aborted use_after_free)
reload-dangling_example =
    reload-dangling world 100 unset_descriptor running reloaded 0 10 7 refl (inl refl) (omega arith)
      reload-IsIdle_example.1

lookup_config_ent-IsBest_example :
    IsBest (rank_of keyboard.id 4) running.configs (lookup_config_ent running.configs keyboard.id 4)
lookup_config_ent-IsBest_example = lookup_config_ent-IsBest running.configs keyboard.id 4

-- The codes of Linux.
abbrev linux : Evdev
linux = record {
  ev_rel = 2;
  ev_abs = 3;
  ev_key = 1;
  ev_led = 17;
  rel_wheel = 8;
  rel_hwheel = 6;
  rel_x = 0;
  rel_y = 1;
  abs_x = 0;
  abs_y = 1;
  btn_left = 272;
  btn_middle = 274;
  btn_right = 273;
  btn_side = 275;
  btn_extra = 276;
  btn_back = 278;
  btn_forward = 277;
  key_fn = 464;
  key_zoom = 372;
  key_voicecommand = 582;
  btn_digi = 320;
  btn_tool_quadtap = 335;
}

abbrev opened : Opened
opened = record {
  fd = 6;
  probe = some (record {
    keys = 1 ∷ 2 ∷ 3 ∷ 4 ∷ 5 ∷ 6 ∷ 7 ∷ 8 ∷ 9 ∷ 10 ∷ 11 ∷ 16 ∷ 17 ∷ 18 ∷ 19 ∷ 20 ∷ 21 ∷ [];
    relmask = 0;
    absmask = 0;
    vendor = 1;
    product = 1;
  });
  name = some (codes "a keyboard");
  abs_x = none;
  abs_y = none;
  info = true;
}

abbrev idle_loop : Loop
idle_loop = record {
  daemon = running;
  panic = calm;
  devev = record { type = EventType.key; code = 0; pressed = 0; x = 0; y = 0 };
  timeout = 0;
}

-- The key a is pressed, and a second keyboard comes.
abbrev pressed_a : Round
pressed_a = record {
  timestamp = 20;
  elapsed = 20;
  ready = λ i. i == 0;
  readings = λ _. event (record { type = 1; code = 30; value = 1 }) ∷ [];
  aux = [];
  added = record keyboard { data' = none } ∷ [];
}

evloop-scanned_example :
    Ensures
      (λ l. Inv l.daemon)
      (device_scan (λ _. some opened) keyboard (some ((codes "event0", false) ∷ [])) >>= (λ devices.
        evloop linux world 100 unset_descriptor idle_loop devices 0 (pressed_a ∷ [])))
evloop-scanned_example =
    evloop-scanned (λ _. some opened) keyboard (some ((codes "event0", false) ∷ [])) linux world 100
      unset_descriptor idle_loop 0 (pressed_a ∷ []) running-Inv ((refl, tt), tt)

abbrev two_keys : List (ℕ × ℕ)
two_keys = (keyd_enter, 1) ∷ (keyd_backspace, 1) ∷ []

abbrev two_down : Panic
two_down = record { enter = 1; backspace = 1; escape = 0 }

two_down-checks : checks two_keys ≡ ok two_down
unfolding ◌>>=◌ panic_check track_key
two_down-checks = refl

panic_check-sequence_example : (panic_check two_down keyd_esc 1 ≡ aborted exited) ↔ (
    (value ((keyd_esc, 1) ∷ two_keys) keyd_enter ≢ 0)
    × (value ((keyd_esc, 1) ∷ two_keys) keyd_backspace ≢ 0)
    × (value ((keyd_esc, 1) ∷ two_keys) keyd_esc ≢ 0))
panic_check-sequence_example = panic_check-sequence two_keys two_down keyd_esc 1 two_down-checks

abbrev uinput : Uinput
uinput = record {
  evdev = linux;
  ev_rep = 20;
  ev_syn = 0;
  led_numl = 0;
  led_misc = 8;
  rel_z = 2;
  btn_task = 279;
  name_size = 80;
}

uinput-IsOrdered : IsOrdered uinput
uinput-IsOrdered = record {
  left = omega arith;
  right = omega arith;
  middle = omega arith;
  side = omega arith;
  extra = omega arith;
  forward = omega arith;
  back = omega arith;
  task = omega arith;
  zoom = omega arith;
  fn = omega arith;
  voicecommand = omega arith;
}

key_code-event_code_example :
    key_code linux (event_code uinput keyd_mouse_back).1 ≡ some keyd_mouse_back
key_code-event_code_example =
    key_code-event_code uinput keyd_mouse_back uinput-IsOrdered (omega arith)

-- The key b is held, with the code 5.
abbrev holding_b : Gadget
holding_b = record { mods = 2; keys = 5 ∷ 0 ∷ 0 ∷ 0 ∷ 0 ∷ 0 ∷ []; reports = [] }

plain_30 : get_modifier 30 ≡ 0
unfolding get_modifier
plain_30 = refl

vkbd_send_key-held_example :
    (elem 5 (last_codes (vkbd_send_key holding_b 30 true)) ≡ (
      if hid_table 30 == 5
      then true && (elem (hid_table 30) holding_b.keys || elem 0 holding_b.keys)
      else elem 5 holding_b.keys))
    × ((vkbd_send_key holding_b 30 true).mods ≡ holding_b.mods)
vkbd_send_key-held_example = vkbd_send_key-held holding_b 30 true 5 plain_30 (omega arith)

xread-end_example : xread 100 (λ _. some []) 4112 (codes "a part") ≡ out_of_fuel
xread-end_example = xread-end 100 (λ _. some []) 4112 (codes "a part") (λ k. refl) (omega arith)

colorize-long_example : colorize false (codes "a plain text") ≡ ok (codes "a plain text")
colorize-long_example = colorize-long false (codes "a plain text") refl

abbrev message : List Piece
message = bare (codes "CONFIG: parsing ") ∷ coloured 98 (codes "a.conf") ∷ []

colorize-marked_example :
    colorize false (codes "CONFIG: parsing b{a.conf}") ≡ ok (shown false message)
unfolding escape_num
colorize-marked_example =
    let names : escape_num 98 ≢ 0 = omega arith in
    colorize-marked false message ((refl, refl), (((refl, refl), names), record {})) (omega arith)
