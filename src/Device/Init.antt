-- ===== src/Device/Init.antt =====
-- src/device.c: device_init, device_scan and devmon_read_device.
use keyd_fork.Common.{
  ℕ, suc, bit_and, Bool, false, not, ◌&&◌, ◌||◌, Option, none, some, List, [], ◌∷◌, ◌++◌, ltb, ◌==◌,
  if◌then◌else◌, take, Result, ◌>>=◌, ok, aborted, exited, too_many_devices,
}
use keyd_fork.Device.{Device, cap_mouse_abs}
use keyd_fork.Device.Id.{Probe, resolve_device_capabilities, device_id}
use keyd_fork.Text.CString.{codes, str_eq, has_prefix}

-- What the system says of a file that it opens: `none` where it fails. `info` says whether the ids are
-- given; they are the probe's.
pub record Opened : Type 0 where
  pub fd : ℕ
  pub probe : Option Probe
  pub name : Option (List ℕ)
  pub abs_x : Option (ℕ × ℕ)
  pub abs_y : Option (ℕ × ℕ)
  pub info : Bool

abbrev vkbd_name : List ℕ
vkbd_name = codes "keyd virtual keyboard"

-- The device with the ranges of its axes, where it has any.
unfoldable pub read_ranges : ℕ → Opened → Device → Option Device
read_ranges capabilities o dev =
    if bit_and capabilities cap_mouse_abs == 0 then some dev else (elim o.abs_x [
      | none ↦ none
      | some (minx, maxx) ↦ elim o.abs_y [
        | none ↦ none
        | some (miny, maxy) ↦
            some (record dev { minx = minx; maxx = maxx; miny = miny; maxy = maxy })
      ]
    ])

-- The rest of the device.
unfoldable pub identify : Opened → Probe → List ℕ → List ℕ → Device → Option Device
identify o p name path dev =
    if resolve_device_capabilities (some p) == 0 || not o.info
    then none
    else some (record dev {
      path = take 255 path;
      id = device_id p name;
      fd = some o.fd;
      capabilities = resolve_device_capabilities (some p);
      data' = none;
      grabbed = false;
      is_virtual = str_eq name vkbd_name;
    })

-- `before` is what the memory of the device holds. `none` is -1; a device that does not answer the
-- probe has no capabilities, and ends there.
unfoldable pub device_init : Option Opened → List ℕ → Device → Option Device
unfolding read_ranges identify
device_init none path before = none
device_init (some o) path before = elim o.name [
  | none ↦ none
  | some name ↦
      elim (read_ranges (resolve_device_capabilities o.probe) o (record before { name = name })) [
        | none ↦ none
        | some dev ↦ elim o.probe [ none ↦ none | some p ↦ identify o p name path dev ]
      ]
]

abbrev is_event : List ℕ → Bool
is_event name = has_prefix (codes "event") name

-- The path of a file of /dev/input, in 1024 bytes.
abbrev input_path : List ℕ → List ℕ
input_path name = take 1023 (codes "/dev/input/" ++ name)

-- The loop over the directory: the paths of the workers, each with the number of those before it.
unfoldable pub scan_paths : ℕ → List (List ℕ × Bool) → Result (List (List ℕ))
scan_paths n [] = ok []
scan_paths n ((name, is_dir) ∷ es) =
    let rest = scan_paths (suc n) es in
    let others = scan_paths n es in
    if not is_dir && is_event name
    then (if ltb n 64 then rest >>= (λ ps. ok (input_path name ∷ ps)) else aborted too_many_devices)
    else others

-- The devices of the workers that made one.
unfoldable pub scan_workers : (List ℕ → Option Opened) → Device → List (List ℕ) → List Device
unfolding device_init
scan_workers opens before [] = []
scan_workers opens before (path ∷ ps) =
    let rest = scan_workers opens before ps in
    elim (device_init (opens path) path before) [ none ↦ rest | some dev ↦ dev ∷ rest ]

-- `none` is a directory that cannot be opened.
unfoldable pub device_scan :
    (List ℕ → Option Opened) → Device → Option (List (List ℕ × Bool)) → Result (List Device)
unfolding scan_paths scan_workers
device_scan opens before none = aborted exited
device_scan opens before (some es) = scan_paths 0 es >>= (λ ps. ok (scan_workers opens before ps))

-- The names of the events that wait, and what is left of them.
unfoldable pub devmon_read_device :
    (List ℕ → Option Opened) → Device → List (List ℕ) → Option Device × List (List ℕ)
unfolding device_init
devmon_read_device opens before [] = (none, [])
devmon_read_device opens before (name ∷ names) =
    let rest = devmon_read_device opens before names in
    if is_event name
    then (elim (device_init (opens (input_path name)) (input_path name) before) [
      | none ↦ rest
      | some dev ↦ (some dev, names)
    ])
    else rest
