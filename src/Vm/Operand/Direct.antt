-- ===== src/Vm/Operand/Direct.antt =====
-- A register operand in direct mode: no mode bits are set.
use mihini.Prelude.{
  ℕ, ◌<◌, ◌==◌, ◌≡◌, refl, true, update, bit_and, all_below, all_below_sound, ==_iff,
}
use mihini.Vm.State.{Vm, ok, steps}
use mihini.Vm.Operand.{
  read_by_mode, write_by_mode, vm_read_register_or_memory, vm_write_register_or_memory,
}

mode_table : all_below 16 (λ d. bit_and d 0xF0 == 0) ≡ true
mode_table = refl

number_table : all_below 16 (λ d. bit_and d 0xF == d) ≡ true
number_table = refl

pub direct_mode : (d : ℕ) → d < 16 → bit_and d 0xF0 ≡ 0
direct_mode d h = (==_iff _ _).0 (all_below_sound 16 (λ x. bit_and x 0xF0 == 0) d mode_table h)

pub direct_number : (d : ℕ) → d < 16 → bit_and d 0xF ≡ d
direct_number d h = (==_iff _ _).0 (all_below_sound 16 (λ x. bit_and x 0xF == x) d number_table h)

pub read_direct :
    (d width : ℕ) (s : Vm) → d < 16 → vm_read_register_or_memory d width s ≡ ok (s.registers d) s
unfolding vm_read_register_or_memory read_by_mode steps
read_direct d width s h = rw (direct_mode d h, direct_number d h)

abbrev pub with_register : Vm → ℕ → ℕ → Vm
with_register s d v = record s { registers = update s.registers d v }

pub write_direct :
    (d v width : ℕ) (s : Vm)
    → d < 16
    → vm_write_register_or_memory d v width s ≡ ok tt (with_register s d v)
unfolding vm_write_register_or_memory write_by_mode steps
write_direct d v width s h = rw (direct_mode d h, direct_number d h)
