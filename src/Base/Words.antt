-- ===== src/Base/Words.antt =====
-- Numbers of 32 bits: conversion, `&` and `|`, and the rounding of
-- source/kernel/include/tools/klib.h.
use Prim.Native.Nat.{ℕ, zero, suc, ◌+◌, ◌-◌, ◌*◌, ◌/◌, ◌%◌, ◌^◌}
use mathlib.Core.Bool.{◌&&◌, ◌||◌}
use os_training.Base.Tests.{◌==◌, if◌then◌else◌}

-- Conversion to `uint32_t`.
abbrev pub u32 : ℕ → ℕ
u32 n = n % 2 ^ 32

-- `a & b` and `a | b` on the `n` lowest bits.
unfoldable pub bits_and : (n a b : ℕ) → ℕ
bits_and zero a b = 0
bits_and (suc n) a b =
    let rest = bits_and n (a / 2) (b / 2) in (if a % 2 == 1 && b % 2 == 1 then 1 else 0) + 2 * rest

unfoldable pub bits_or : (n a b : ℕ) → ℕ
bits_or zero a b = 0
bits_or (suc n) a b =
    let rest = bits_or n (a / 2) (b / 2) in (if a % 2 == 1 || b % 2 == 1 then 1 else 0) + 2 * rest

-- `(size + bound - 1) & ~(bound - 1)`
unfoldable pub up2 : (size bound : ℕ) → ℕ
up2 size bound = bits_and 32 (u32 (size + bound - 1)) (2 ^ 32 - 1 - (bound - 1))
