-- ===== src/Daemon/Vkbd.antt =====
-- src/daemon.c: send_key, clear_vkbd, and what the engine puts out.
use keyd_fork.Common.{ℕ, Bool, false, List, [], ◌∷◌, if◌then◌else◌, update, range}
use keyd_fork.Daemon.{Daemon, vkbd_key}

unfoldable pub send_key : Daemon → ℕ → Bool → Daemon
send_key d code state = record d {
  keystate = update d.keystate code state;
  trace = vkbd_key code state ∷ d.trace;
}

-- The loop over the keys.
unfoldable pub clear_keys : Daemon → List ℕ → Daemon
unfolding send_key
clear_keys d [] = d
clear_keys d (i ∷ is) = clear_keys (if d.keystate i then send_key d i false else d) is

unfoldable pub clear_vkbd : Daemon → Daemon
unfolding clear_keys
clear_vkbd d = clear_keys d (range 256)
