-- ===== src/Vm/Execute.antt =====
-- `vm_opcode_execute` and `vm_run` of src/vm.c. C leaves the order in which a call's arguments are
-- evaluated open; the operands are fetched here from left to right, as the encoding lists them.
pub mod Decode
pub mod Load
use mihini.Prelude.{ℕ, zero, suc, ◌==◌, ltb, if◌then◌else◌, bit_and, List, [], ◌∷◌}
use mihini.Opcode
use mihini.Opcode.{opcode_bra, width_64}
use mihini.Vm.State.{diverge, Action, skip, ◌>>=◌, ◌>>◌, get, set_ip, emit, unknown_opcode}
use mihini.Vm.Memory.{read_uint8, read_uint16, read_uint32, read_uint64, read_width}
use mihini.Vm.Data
use mihini.Vm.Arith
use mihini.Vm.Logic
use mihini.Vm.Compare
use mihini.Vm.Flow

-- `switch(op)` over cases that end in `break`
unfoldable pub switch : ℕ → List (ℕ × Action) → Action → Action
switch op [] otherwise = otherwise
switch op ((label, body) ∷ cases) otherwise =
    if op == label then body else switch op cases otherwise

-- The operand lists: a register; two registers; three; an immediate of the width and a register; a
-- byte and a register; a register set and a register; an immediate of 32 bits.
abbrev pub reg_operand : (ℕ → Action) → Action
reg_operand f = do reg ← read_uint8; f reg

abbrev pub two_regs : (ℕ → ℕ → Action) → Action
two_regs f = do rega ← read_uint8; regb ← read_uint8; f rega regb

abbrev pub three_regs : (ℕ → ℕ → ℕ → Action) → Action
three_regs f = do rega ← read_uint8; regb ← read_uint8; regc ← read_uint8; f rega regb regc

abbrev pub value_reg : ℕ → (ℕ → ℕ → Action) → Action
value_reg width f = do value ← read_width width; reg ← read_uint8; f value reg

abbrev pub value_two_regs : ℕ → (ℕ → ℕ → ℕ → Action) → Action
value_two_regs width f = do
  value ← read_width width
  rega ← read_uint8
  regb ← read_uint8
  f value rega regb

abbrev pub regset_reg : (ℕ → ℕ → Action) → Action
regset_reg f = do regset ← read_uint16; reg ← read_uint8; f regset reg

abbrev pub quad_reg : (ℕ → ℕ → Action) → Action
quad_reg f = do value ← read_uint64; reg ← read_uint8; f value reg

abbrev pub long_operand : (ℕ → Action) → Action
long_operand f = do value ← read_uint32; f value

abbrev pub long_reg : (ℕ → ℕ → Action) → Action
long_reg f = do value ← read_uint32; reg ← read_uint8; f value reg

-- `double_bits` is the conversion of `vm_opcode_fcast`; `fuel` bounds the loop of `vm_opcode_pop`.
module _ (double_bits : ℕ → ℕ) (fuel : ℕ) where
  unfoldable pub cases_data : ℕ → List (ℕ × Action)
  cases_data width =
      (Opcode.opcode_nop, Data.vm_opcode_nop width)
      ∷ (Opcode.opcode_load, value_reg width (Data.vm_opcode_load width))
      ∷ (Opcode.opcode_move, two_regs (Data.vm_opcode_move width))
      ∷ (Opcode.opcode_push, regset_reg (Data.vm_opcode_push width))
      ∷ (Opcode.opcode_pop, regset_reg (Data.vm_opcode_pop fuel width))
      ∷ (Opcode.opcode_inc, reg_operand (Data.vm_opcode_inc width))
      ∷ (Opcode.opcode_dec, reg_operand (Data.vm_opcode_dec width))
      ∷ (Opcode.opcode_clr, reg_operand (Data.vm_opcode_clr width))
      ∷ []

  unfoldable pub cases_arith : ℕ → List (ℕ × Action)
  cases_arith width =
      (Opcode.opcode_addi, value_reg width (Arith.vm_opcode_addi width))
      ∷ (Opcode.opcode_add, two_regs (Arith.vm_opcode_add width))
      ∷ (Opcode.opcode_subi, value_reg width (Arith.vm_opcode_subi width))
      ∷ (Opcode.opcode_sub, two_regs (Arith.vm_opcode_sub width))
      ∷ (Opcode.opcode_muli, value_reg width (Arith.vm_opcode_muli width))
      ∷ (Opcode.opcode_mul, two_regs (Arith.vm_opcode_mul width))
      ∷ (Opcode.opcode_divi, value_two_regs width (Arith.vm_opcode_divi width))
      ∷ (Opcode.opcode_div, three_regs (Arith.vm_opcode_div width))
      ∷ []

  unfoldable pub cases_logic : ℕ → List (ℕ × Action)
  cases_logic width =
      (Opcode.opcode_andi, value_reg width (Logic.vm_opcode_andi width))
      ∷ (Opcode.opcode_and, two_regs (Logic.vm_opcode_and width))
      ∷ (Opcode.opcode_ori, value_reg width (Logic.vm_opcode_ori width))
      ∷ (Opcode.opcode_or, two_regs (Logic.vm_opcode_or width))
      ∷ (Opcode.opcode_xori, value_reg width (Logic.vm_opcode_xori width))
      ∷ (Opcode.opcode_xor, two_regs (Logic.vm_opcode_xor width))
      ∷ (Opcode.opcode_lsli, two_regs (Logic.vm_opcode_lsli width))
      ∷ (Opcode.opcode_lsl, two_regs (Logic.vm_opcode_lsl width))
      ∷ (Opcode.opcode_lsri, two_regs (Logic.vm_opcode_lsri width))
      ∷ (Opcode.opcode_lsr, two_regs (Logic.vm_opcode_lsr width))
      ∷ (Opcode.opcode_roli, two_regs (Logic.vm_opcode_roli width))
      ∷ (Opcode.opcode_rol, two_regs (Logic.vm_opcode_rol width))
      ∷ (Opcode.opcode_rori, two_regs (Logic.vm_opcode_rori width))
      ∷ (Opcode.opcode_ror, two_regs (Logic.vm_opcode_ror width))
      ∷ (Opcode.opcode_not, reg_operand (Logic.vm_opcode_not width))
      ∷ []

  unfoldable pub cases_compare : ℕ → List (ℕ × Action)
  cases_compare width =
      (Opcode.opcode_tsti, two_regs (Compare.vm_opcode_tsti width))
      ∷ (Opcode.opcode_tst, two_regs (Compare.vm_opcode_tst width))
      ∷ (Opcode.opcode_cmpi, value_reg width (Compare.vm_opcode_cmpi width))
      ∷ (Opcode.opcode_cmp, two_regs (Compare.vm_opcode_cmp width))
      ∷ []

  unfoldable pub cases_float : ℕ → List (ℕ × Action)
  cases_float width =
      (Opcode.opcode_fload, quad_reg (Compare.vm_opcode_fload width))
      ∷ (Opcode.opcode_fcast, two_regs (Compare.vm_opcode_fcast double_bits width))
      ∷ (Opcode.opcode_fround, two_regs (Compare.vm_opcode_float_unimplemented width))
      ∷ (Opcode.opcode_fadd, two_regs (Compare.vm_opcode_float_unimplemented width))
      ∷ (Opcode.opcode_fsub, two_regs (Compare.vm_opcode_float_unimplemented width))
      ∷ (Opcode.opcode_fmul, two_regs (Compare.vm_opcode_float_unimplemented width))
      ∷ (Opcode.opcode_fdiv, two_regs (Compare.vm_opcode_float_unimplemented width))
      ∷ (Opcode.opcode_fmod, two_regs (Compare.vm_opcode_float_unimplemented width))
      ∷ (Opcode.opcode_fsqrt, two_regs (Compare.vm_opcode_float_unimplemented width))
      ∷ (Opcode.opcode_fexp, two_regs (Compare.vm_opcode_float_unimplemented width))
      ∷ (Opcode.opcode_flog, two_regs (Compare.vm_opcode_float_unimplemented width))
      ∷ (Opcode.opcode_flog10, two_regs (Compare.vm_opcode_float_unimplemented width))
      ∷ (Opcode.opcode_fceil, two_regs (Compare.vm_opcode_float_unimplemented width))
      ∷ (Opcode.opcode_ffloor, two_regs (Compare.vm_opcode_float_unimplemented width))
      ∷ (Opcode.opcode_fpow, two_regs (Compare.vm_opcode_float_unimplemented width))
      ∷ (Opcode.opcode_fsin, two_regs (Compare.vm_opcode_float_unimplemented width))
      ∷ (Opcode.opcode_fcos, two_regs (Compare.vm_opcode_float_unimplemented width))
      ∷ (Opcode.opcode_ftan, two_regs (Compare.vm_opcode_float_unimplemented width))
      ∷ []

  unfoldable pub cases_flow : ℕ → List (ℕ × Action)
  cases_flow width =
      (Opcode.opcode_bra, long_operand (Flow.vm_opcode_bra width))
      ∷ (Opcode.opcode_beq, long_operand (Flow.vm_opcode_beq width))
      ∷ (Opcode.opcode_bne, long_operand (Flow.vm_opcode_bne width))
      ∷ (Opcode.opcode_bcb, long_operand (Flow.vm_opcode_bcb width))
      ∷ (Opcode.opcode_blt, long_operand (Flow.vm_opcode_blt width))
      ∷ (Opcode.opcode_bgt, long_operand (Flow.vm_opcode_bgt width))
      ∷ (Opcode.opcode_ble, long_operand (Flow.vm_opcode_ble width))
      ∷ (Opcode.opcode_bge, long_operand (Flow.vm_opcode_bge width))
      ∷ (Opcode.opcode_jmpi, long_operand (Flow.vm_opcode_jmpi width))
      ∷ (Opcode.opcode_jmpm, reg_operand (Flow.vm_opcode_jmpm width))
      ∷ (Opcode.opcode_jmp, long_operand (Flow.vm_opcode_jmp width))
      ∷ (Opcode.opcode_calli, long_operand (Flow.vm_opcode_calli width))
      ∷ (Opcode.opcode_callm, reg_operand (Flow.vm_opcode_callm width))
      ∷ (Opcode.opcode_call, long_operand (Flow.vm_opcode_call width))
      ∷ (Opcode.opcode_ret, Flow.vm_opcode_ret width)
      ∷ []

  unfoldable pub cases_system : ℕ → List (ℕ × Action)
  cases_system width =
      (Opcode.opcode_alloc, long_reg (Flow.vm_opcode_alloc width))
      ∷ (Opcode.opcode_free, reg_operand (Flow.vm_opcode_free width))
      ∷ (Opcode.opcode_refer, long_reg (Flow.vm_opcode_refer width))
      ∷ (Opcode.opcode_syscall, long_operand (Flow.vm_opcode_syscall width))
      ∷ (Opcode.opcode_stop, Flow.vm_opcode_stop width)
      ∷ (Opcode.opcode_ext, skip)
      ∷ []

  -- The groups are one `switch`, taken in the source's order.
  unfoldable pub dispatch : ℕ → ℕ → Action
  dispatch op width = switch op (cases_data width) (
      switch op (cases_arith width) (
        switch op (cases_logic width) (
          switch op (cases_compare width) (
            switch op (cases_float width) (
              switch op (cases_flow width)
                (switch op (cases_system width) (emit (unknown_opcode op))))))))

  unfoldable pub vm_opcode_execute : ℕ → Action
  vm_opcode_execute op =
      if ltb op opcode_bra
      then dispatch (bit_and op 0b11111100) (bit_and op width_64)
      else dispatch op 0x11

  -- `while(!state->stopped)`
  unfoldable pub run_loop : ℕ → Action
  run_loop zero = diverge
  run_loop (suc rounds) = do
    s ← get
    if s.stopped then skip else (do op ← read_uint8; vm_opcode_execute op; run_loop rounds)

  unfoldable pub vm_run : ℕ → ℕ → Action
  vm_run rounds address = do set_ip address; run_loop rounds
