-- ===== src/Vkbd/Uinput/Enabled.antt =====
-- src/vkbd/uinput.c: which of the keys that are written the devices were made for.
use keyd_fork.Common.{ℕ, Bool, true, false, List, [], ◌∷◌, ◌==◌, if◌then◌else◌}
use keyd_fork.Vkbd.Uinput.{
  Uinput, Request, set_evbit, set_keybit, set_ledbit, set_absbit, set_relbit, user_dev, dev_create,
  keyboard_requests, pointer_requests,
}

-- Whether a device that is made by the requests can send the key: the input core drops the events of
-- the others.
abbrev pub is_enabled : List Request → ℕ → Bool
is_enabled [] c = false
is_enabled (set_keybit k ∷ rs) c = if k == c then true else is_enabled rs c
is_enabled (set_evbit _ ∷ rs) c = is_enabled rs c
is_enabled (set_ledbit _ ∷ rs) c = is_enabled rs c
is_enabled (set_absbit _ ∷ rs) c = is_enabled rs c
is_enabled (set_relbit _ ∷ rs) c = is_enabled rs c
is_enabled (user_dev _ _ _ ∷ rs) c = is_enabled rs c
is_enabled (dev_create ∷ rs) c = is_enabled rs c

-- The requests for the device that an event goes to.
abbrev pub requests_for : Uinput → List ℕ → List ℕ → Bool → List Request
requests_for u name pointer_name is_btn =
    if is_btn then pointer_requests u pointer_name else keyboard_requests u name
