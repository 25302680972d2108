-- ===== src/Examples/Devices.antt =====
-- A table with one terminal open, and the drivers for terminals and disks.
use os_training.Base.{
  ℕ, suc, ◌≡◌, ◌∙◌, sym, true, false, ◌==◌, if◌then◌else◌, arith, Bool-cases, inl, inr, ==_iff, pos,
  is_zero, [], ◌∷◌,
}
use os_training.Device.{DeviceEntry, Drivers, no_device, put_device, dev_open}
use os_training.Device.Unique.{IsUnique, dev_open-IsUnique}

-- The descriptors at 16 and 32 have the numbers 1 and 2; the state counts the opens.
abbrev pub drivers : Drivers ℕ
drivers = record {
  dev_desc_tbl = 16 ∷ 32 ∷ [];
  major = λ d. if d == 16 then 1 else 2;
  open_device = λ d s. (true, 0, 0, suc s);
  close_device = λ d s. s;
  read_device = λ d addr buf size s. (size, s);
  write_device = λ d addr buf size s. (size, s);
  control_device = λ d cmd arg0 arg1 s. (pos 0, s);
}

abbrev terminal : DeviceEntry
terminal = record { desc = 16; mode = 0; minor = 0; data_addr = 0; open_count = pos 1 }

abbrev pub devices : ℕ → DeviceEntry
devices = put_device (λ i. no_device) 5 terminal

at_five : (i : ℕ) → is_zero (devices i).open_count ≡ false → i ≡ 5
at_five i o = elim (Bool-cases (i == 5)) [
  | inl e ↦ (==_iff i 5).0 e
  | inr ne ↦ absurd (closed i ne o)
]
  where
    closed : (i : ℕ) → (i == 5) ≡ false → is_zero (devices i).open_count ≡ false → ⊥
    closed i ne o = ground (arith, ne, o)

devices-IsUnique : IsUnique drivers devices
devices-IsUnique i j li lj oi oj e f = at_five i oi ∙ sym (at_five j oj)

dev_open-IsUnique_example : IsUnique drivers (dev_open drivers devices 0 2 0x80 0).1
dev_open-IsUnique_example = dev_open-IsUnique drivers devices 0 2 0x80 0 devices-IsUnique
