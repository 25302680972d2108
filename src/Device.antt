-- ===== src/Device.antt =====
-- source/kernel/dev/dev.c: the table of the devices that are open. The drivers' own state is a
-- parameter `S`; a driver is the address of its descriptor, and 0 is null. `dev_open` and
-- `dev_close` run with interrupts off, so a call is one step.
pub mod Unique
use os_training.Base.{
  ℕ, zero, suc, ◌+◌, ◌-◌, ℤ, pos, inc, dec, is_zero, minus_one, Bool, true, false, ◌&&◌, ◌||◌, not,
  ◌==◌, ltb, leb, if◌then◌else◌, Option, none, some, List, [], ◌∷◌,
}

abbrev pub dev_table_size : ℕ
dev_table_size = 128

-- `device_t`.
pub record DeviceEntry : Type 0 where
  pub desc : ℕ
  pub mode : ℕ
  pub minor : ℕ
  pub data_addr : ℕ
  pub open_count : ℤ

-- All bytes 0.
abbrev pub no_device : DeviceEntry
no_device = record { desc = 0; mode = 0; minor = 0; data_addr = 0; open_count = pos 0 }

-- The descriptors: `dev_desc_tbl` with their `major`, and what their functions do. `open` gives 0 as
-- `true`, and may set the mode and the data of the device.
pub record Drivers (S : Type 0) : Type 0 where
  pub dev_desc_tbl : List ℕ
  pub major : (desc : ℕ) → ℕ
  pub open_device : DeviceEntry → S → Bool × ℕ × ℕ × S
  pub close_device : DeviceEntry → S → S
  pub read_device : DeviceEntry → (addr : ℤ) → (buf : ℕ) → (size : ℤ) → S → ℤ × S
  pub write_device : DeviceEntry → (addr : ℤ) → (buf : ℕ) → (size : ℤ) → S → ℤ × S
  pub control_device : DeviceEntry → (cmd arg0 arg1 : ℤ) → S → ℤ × S

abbrev pub put_device : (ℕ → DeviceEntry) → (i : ℕ) → DeviceEntry → ℕ → DeviceEntry
put_device tbl i d j = if j == i then d else tbl j

-- The device is open under these numbers.
abbrev pub is_open_as : {S : Type 0} → Drivers S → DeviceEntry → (major minor : ℕ) → Bool
is_open_as ds d major minor =
    not (is_zero d.open_count) && ds.major d.desc == major && d.minor == minor

-- How the loop of `dev_open` ends: with the device that is open already, or with `free_dev`.
pub data FindEnd : Type 0 where
  already : (i : ℕ) → FindEnd
  spare : (free_dev : Option ℕ) → FindEnd

-- The loop, with `n` devices to go.
unfoldable pub find_device :
    {S : Type 0}
    → (n : ℕ) → Drivers S
    → (ℕ → DeviceEntry)
    → (major minor i : ℕ) → Option ℕ
    → FindEnd
find_device zero ds tbl major minor i free_dev = spare free_dev
find_device (suc n) ds tbl major minor i free_dev =
    let empty = find_device n ds tbl major minor (i + 1) (some i) in
    let next = find_device n ds tbl major minor (i + 1) free_dev in
    if is_zero (tbl i).open_count
    then empty
    else if is_open_as ds (tbl i) major minor
    then already i
    else next

-- The descriptor of a kind of device; 0 for none.
unfoldable pub find_desc : {S : Type 0} → Drivers S → List ℕ → (major : ℕ) → ℕ
find_desc ds [] major = 0
find_desc ds (d ∷ rest) major =
    let r = find_desc ds rest major in if ds.major d == major then d else r

-- What is done with a free place: `none` for -1.
abbrev pub open_free :
    {S : Type 0}
    → Drivers S
    → (ℕ → DeviceEntry)
    → S
    → (desc minor data_addr i : ℕ) → Option ℕ × (ℕ → DeviceEntry) × S
open_free ds tbl s desc minor data_addr i =
    let asked : DeviceEntry = record (tbl i) {
      desc = desc;
      minor = minor;
      data_addr = data_addr;
    } in
    let (ok, mode, addr, s') = ds.open_device asked s in
    let kept : DeviceEntry = record asked { mode = mode; data_addr = addr } in
    let counted : DeviceEntry = record kept { open_count = pos 1 } in
    if ok then (some i, put_device tbl i counted, s') else (none, put_device tbl i kept, s')

-- What `dev_open` does at the end of that loop, with the descriptor for the kind of device.
abbrev pub dev_opened :
    {S : Type 0}
    → Drivers S
    → (ℕ → DeviceEntry)
    → S
    → (desc minor data_addr : ℕ) → FindEnd
    → Option ℕ × (ℕ → DeviceEntry) × S
dev_opened ds tbl s desc minor data_addr (already i) =
    (some i, put_device tbl i (record (tbl i) { open_count = inc (tbl i).open_count }), s)
dev_opened ds tbl s desc minor data_addr (spare none) = (none, tbl, s)
dev_opened ds tbl s desc minor data_addr (spare (some i)) =
    if desc == 0 then (none, tbl, s) else open_free ds tbl s desc minor data_addr i

unfoldable pub dev_open :
    {S : Type 0}
    → Drivers S
    → (ℕ → DeviceEntry)
    → S
    → (major minor data_addr : ℕ) → Option ℕ × (ℕ → DeviceEntry) × S
dev_open ds tbl s major minor data_addr =
    dev_opened ds tbl s (find_desc ds ds.dev_desc_tbl major) minor data_addr
      (find_device dev_table_size ds tbl major minor 0 none)

unfoldable pub is_devid_bad : (ℕ → DeviceEntry) → (dev_id : ℕ) → Bool
is_devid_bad tbl dev_id = leb dev_table_size dev_id || (tbl dev_id).desc == 0

unfoldable pub dev_close :
    {S : Type 0} → Drivers S → (ℕ → DeviceEntry) → S → (dev_id : ℕ) → (ℕ → DeviceEntry) × S
dev_close ds tbl s dev_id =
    let left = dec (tbl dev_id).open_count in
    let dev : DeviceEntry = record (tbl dev_id) { open_count = left } in
    if is_devid_bad tbl dev_id
    then (tbl, s)
    else if is_zero left
    then (put_device tbl dev_id no_device, ds.close_device dev s)
    else (put_device tbl dev_id dev, s)

unfoldable pub dev_read :
    {S : Type 0}
    → Drivers S
    → (ℕ → DeviceEntry)
    → S
    → (dev_id : ℕ) → (addr : ℤ) → (buf : ℕ) → (size : ℤ) → ℤ × S
dev_read ds tbl s dev_id addr buf size =
    if is_devid_bad tbl dev_id then (minus_one, s) else ds.read_device (tbl dev_id) addr buf size s

unfoldable pub dev_write :
    {S : Type 0}
    → Drivers S
    → (ℕ → DeviceEntry)
    → S
    → (dev_id : ℕ) → (addr : ℤ) → (buf : ℕ) → (size : ℤ) → ℤ × S
dev_write ds tbl s dev_id addr buf size =
    if is_devid_bad tbl dev_id then (minus_one, s) else ds.write_device (tbl dev_id) addr buf size s

unfoldable pub dev_control :
    {S : Type 0} → Drivers S → (ℕ → DeviceEntry) → S → (dev_id : ℕ) → (cmd arg0 arg1 : ℤ) → ℤ × S
dev_control ds tbl s dev_id cmd arg0 arg1 =
    if is_devid_bad tbl dev_id
    then (minus_one, s)
    else ds.control_device (tbl dev_id) cmd arg0 arg1 s
