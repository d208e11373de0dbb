-- ===== src/Lib.antt =====
-- keyd, a key remapping daemon: the engine that turns key events into key events, layer changes and
-- commands, the parser that builds the configuration it runs on, and the daemon around them.
--
-- The daemon reads events from devices and hands them to the engine (src/keyboard.c). The engine
-- looks a key up in the active layers of the configuration, remembers in a cache what each pressed
-- key was resolved to, and carries out its descriptor: keys, layers, one-shot layers, macros,
-- chords, and keys whose meaning waits for time or for another key. What goes out is a list of
-- outputs, newest first. The configuration is built from a text (src/config.c): its lines are cut
-- into sections and entries (src/ini.c), the sections declare layers, and each entry binds a key of
-- a layer to a descriptor. The poll loop (src/evloop.c) reads the devices (src/device.c) and hands
-- their events to the daemon (src/daemon.c), which keeps a keyboard for each configuration, chooses
-- one for each device, serves clients, and sends what the engine puts out to a virtual device
-- (src/vkbd).
--
-- Files, and the code that they model:
--   Common: Boolean tests, lists and arrays over native numbers, and the result of a call: a value,
--     a failed assertion, or a call that ran out of the model's fuel.
--   Keys: constants of src/keys.h and the modifier table of src/keys.c. Keys/Table: keycode_table.
--     Keys/Names: modstring, parse_modset, parse_key_sequence, and lookup_keycode of src/config.c.
--   Config: the configuration, src/config.h and src/macro.h.
--   Util: xread and xwrite of src/util.c. Log: colorize of src/log.c; Log/Marked has
--     the pieces that a message is made of.
--   Output: what the engine sends out, and which keys that leaves down.
--   Macro: macro_execute of src/macro.c. Macro/Spec describes it with a list of held entries.
--     Macro/Parse: macro_parse.
--   Keyboard: src/keyboard.c and src/keyboard.h. State has the structures. Cache: cache_set,
--     cache_get. Send: send_key, clear_mod, set_mods, update_mods, execute_macro, reset_keystate.
--     Lookup: lookup_descriptor. Layers: activate_layer, deactivate_layer, clear_oneshot, clear,
--     setlayout. Timeouts: schedule_timeout, calculate_main_loop_timeout. Chords:
--     chord_event_match, check_chord_match, enqueue_chord_event. Actions, Swap and Descriptors:
--     process_descriptor, case by case. Events: handle_chord, resolve_chord, handle_pending_key,
--     process_event and kbd_process_events. Create: new_keyboard. Invariant: what all of these
--     keep. Safety: what that says of a run. Fuel: how much of it is enough.
--   Text: utf8_read_char, utf8_strlen, is_timeval and str_escape of src/strutil.c; Text/CString has
--     the functions of the C library that work on strings.
--   Ini: parse_kvp of src/ini.c. Ini/Parse: ini_parse_string.
--   Parser: src/config.c. Index: config_get_layer_index, config_check_match. Function: parse_fn.
--     Actions: the table of the actions. Expression: parse_command, parse_macro_expression. Store
--     and Descriptor: parse_descriptor. Layers: new_layer, config_add_layer. Entry:
--     set_layer_entry, config_add_entry, and kbd_eval of src/keyboard.c. Sections: the sections
--     ids, aliases and global. Passes: config_parse_string. Init: config_init. File: config_parse,
--     read_file and resolve_include_path. Sound: what the configurations that these build are like,
--     function by function, and Sound/Engine the engine on them.
--   Device: src/device.h. Device/Id: resolve_device_capabilities and generate_uid of src/device.c.
--     Device/Init: device_init, device_scan, devmon_read_device. Device/Read: device_read_event.
--   Vkbd: Uinput is src/vkbd/uinput.c, Gadget and HidTable are src/vkbd/usb-gadget.c and its
--     header.
--   Daemon: src/daemon.c, its static variables and what it does to the world. Vkbd: send_key and
--     clear_vkbd. Listeners: add_listener, on_layer_change. Engine: the calls of the engine, and
--     the callbacks that its outputs stand for. Configs: load_configs to reload, and device_grab,
--     device_ungrab of src/device.c. Input: input. Client: handle_client. Events: event_handler.
--     Invariant: what all of these keep.
--   Evloop: src/evloop.c, with what poll and the reads of a round give as a value, Round.
--   Tests: a small configuration, runs of the engine on it, and instances of the theorems.
--
-- Numbers are natural numbers. The bytes that the code stores into uint8_t are cut with % 256;
-- times are naturals, and a test such as time - a >= b is written b + a <= time. Arrays that the
-- code indexes without a bound (layers, descriptors, macros, keystate) are functions; arrays that
-- it searches or fills (cache, active_chords, timeouts, the queues) are lists with the bounds that
-- the code asserts. The int and long types are not cut, but for what the daemon and the devices do
-- with positions.
--
-- process_descriptor calls itself for the descriptors that a descriptor refers to, and
-- process_event is called again by the code that it calls, to replay queued events;
-- kbd_process_events loops while timeouts fall due. Each takes fuel, and runs out of it as a result
-- of its own, out_of_fuel: the fuel bounds how deep these calls nest and how often the loop turns.
-- For process_descriptor, Keyboard/Fuel says how much is enough. The runs in Tests are given fuel
-- 8, and return. parse_descriptor calls itself for the arguments that are descriptors;
-- config_add_entry gives it fuel 600 for a text of fewer than 512 bytes, in which a call's argument
-- is shorter than the call, but for lettermod, whose expansion is one call longer. macro_parse
-- reads a character of one byte at least in each round.
--
-- A string is the list of its bytes before the NUL; a pointer that may be NULL is an Option. What
-- parse_descriptor leaves of the memory that it was given is a parameter, junk. A macro that fails
-- to parse is taken not to touch its slot, which is beyond the macros that are counted. A number of
-- a global option is not negative: the model stops at a negative one, with negative_option. A write
-- past an array and a read at NULL stop it too, with out_of_bounds and null_pointer.
--
-- The daemon's keyboards have addresses: a keyboard that is freed is none at its address, no
-- address is given twice, and a read of a freed keyboard stops the model with use_after_free. What
-- the system answers is a parameter: World for the daemon (grabs, writes to connections, the
-- directory of configurations, and what config_parse gives of each file, which changes over time),
-- Files for what config_parse reads, Opened for a device, Evdev and Uinput for the constants of the
-- kernel's headers. A message of a client is read whole, which xread need not do. In the poll loop
-- a negative timeout is 0, which the code treats alike.
--
-- Not modelled: the client and the monitor (src/ipc.c, src/monitor.c, src/keyd.c) and the formatted
-- output of src/log.c, since they are calls of the system; run_daemon and cleanup of src/daemon.c
-- and devmon_create of src/device.c, which open and close things; and src/vkbd/stdout.c, which
-- prints. unicode_get_sequence and unicode_lookup_index are generated by the build, and are
-- parameters. The mouse positions in scroll are not read by the engine. The timeout that
-- process_descriptor returns is not read by its callers, and is left out.
pub mod Common
pub mod Keys
pub mod Config
pub mod Output
pub mod Util
pub mod Log
pub mod Macro
pub mod Keyboard
pub mod Text
pub mod Ini
pub mod Parser
pub mod Device
pub mod Vkbd
pub mod Daemon
pub mod Evloop
pub mod Tests
