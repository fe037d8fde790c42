-- ===== src/Vm/Execute/Load.antt =====
-- A whole instruction of src/vm.c, from the fetch of its opcode: LOAD into a register.
use mihini.Prelude.{
  ℕ, ◌+◌, ◌^◌, ◌<◌, ◌≤◌, ◌==◌, ◌≡◌, refl, ap, arith, Bool, true, false, bit_or, update,
  if◌then◌else◌,
}
use mihini.Opcode.{opcode_load, width_64}
use mihini.Width.{vm_width_to_bytes}
use mihini.Vm.State.{Vm, ok, Action, ◌>>=◌, steps, when, or_condition}
use mihini.Vm.Memory.{load_le, read_uint8}
use mihini.Vm.Memory.Fetch.{advanced, AreBytes, read_width-ok, read_uint8-ok}
use mihini.Vm.Operand.Direct.{write_direct, with_register}
use mihini.Vm.Data.{cr_equal_zero, vm_opcode_load}
use mihini.Vm.Execute.{switch, cases_data, dispatch, vm_opcode_execute, value_reg}
use mihini.Vm.Execute.Decode.{vm_opcode_execute-decodes}

-- One round of `vm_run`
abbrev pub execute_next : (ℕ → ℕ) → ℕ → Action
execute_next double_bits fuel = do op ← read_uint8; vm_opcode_execute double_bits fuel op

-- The bytes at the instruction pointer are LOAD at the width, an immediate of that width, and the
-- register `d`, all in bounds.
pub record HasLoad (width d : ℕ) (s : Vm) : Type 0 where
  pub bytes : AreBytes s.memory
  pub opcode : s.memory s.ip ≡ bit_or opcode_load width
  pub register : s.memory (s.ip + 1 + vm_width_to_bytes width) ≡ d
  pub inside : s.ip + 1 + vm_width_to_bytes width + 1 ≤ s.memsize
  pub addressed : s.memsize < 2 ^ 32

-- The machine once the value `v` is in register `d`, the flags are set for it, and the program goes on
-- at `next`.
abbrev pub loaded : Vm → ℕ → ℕ → ℕ → Vm
loaded s d v next = record s {
  registers = update s.registers d v;
  condition = if v == 0 then cr_equal_zero else 0;
  ip = next;
}

flag :
    (b : Bool) (s : Vm)
    → when b (or_condition cr_equal_zero) (record s { condition = 0 })
      ≡ ok tt (record s { condition = if b then cr_equal_zero else 0 })
unfolding steps
flag true s = refl
flag false s = refl

load_direct :
    (width v d : ℕ) (s : Vm)
    → d < 16
    → vm_opcode_load width v d s
      ≡ ok tt (record s {
        registers = update s.registers d v;
        condition = if v == 0 then cr_equal_zero else 0;
      })
unfolding vm_opcode_load steps
load_direct width v d s h =
    rw (write_direct d v width (record s { condition = 0 }) h) (flag (v == 0) (with_register s d v))

module _ (double_bits : ℕ → ℕ) (fuel : ℕ) where
  load_decoded :
      (width : ℕ) (s : Vm)
      → width ≤ width_64
      → vm_opcode_execute double_bits fuel (bit_or opcode_load width) s
        ≡ value_reg width (vm_opcode_load width) s
  unfolding dispatch switch cases_data
  load_decoded width s w =
      ap (λ (m : Action). m s) (vm_opcode_execute-decodes double_bits fuel 1 width (omega arith) w)

  -- From bytes of the program that are a LOAD at some width into a register, one round of the machine
  -- puts the immediate of that width into the whole register, sets the flags for it, moves the
  -- instruction pointer behind the instruction, and changes nothing else.
  pub execute_next-load :
      (width d : ℕ) (s : Vm)
      → width ≤ width_64
      → d < 16
      → HasLoad width d s
      → execute_next double_bits fuel s
        ≡ ok tt (
            loaded s d
              (load_le s.memory (s.ip + 1) (vm_width_to_bytes width))
              (s.ip + 1 + vm_width_to_bytes width + 1))
  unfolding steps
  execute_next-load width d s w e h =
      rw
        (
          read_uint8-ok s h.bytes in_opcode h.addressed,
          h.opcode,
          load_decoded width (advanced s 1) w,
          read_width-ok width (advanced s 1) w h.bytes in_value h.addressed,
          read_uint8-ok behind h.bytes in_register h.addressed,
          h.register,
          load_direct width value d (advanced behind 1) e,
        )
        refl
    where
      behind : Vm
      behind = advanced (advanced s 1) (vm_width_to_bytes width)

      value : ℕ
      value = load_le s.memory (s.ip + 1) (vm_width_to_bytes width)

      in_opcode : s.ip < s.memsize
      in_opcode = let k = h.inside in omega arith

      in_value : s.ip + 1 + vm_width_to_bytes width ≤ s.memsize
      in_value = let k = h.inside in omega arith

      in_register : s.ip + 1 + vm_width_to_bytes width < s.memsize
      in_register = let k = h.inside in omega arith
