-- ===== src/Vm/Data/Pop.antt =====
-- `vm_opcode_pop` of src/vm.c counts down with a `uint8_t` and tests that it is at least 0.
use mihini.Prelude.{
  ℕ, zero, suc, ◌+◌, ◌-◌, ◌^◌, ◌<◌, ◌≤◌, ◌==◌, ◌≡◌, ◌≢◌, inl, inr, refl, arith, if◌then◌else◌,
  update, sub64, u8, ltb, bit_and, Bool-cases,
}
use mihini.Width.{vm_width_to_bytes}
use mihini.Vm.State.{
  Vm, Run, ok, undefined, out_of_fuel, Action, and_then, ◌>>=◌, skip, set_register, steps,
}
use mihini.Vm.Memory.{read_bytes, vm_read_memory}
use mihini.Vm.Operand.{
  read_at_register, read_by_mode, decrement_register, increment_register,
  vm_read_register_or_memory,
}
use mihini.Vm.Data.{pop_loop, vm_opcode_pop}

read_memory_ends : (a width : ℕ) (s : Vm) → vm_read_memory a width s ≢ out_of_fuel
unfolding vm_read_memory read_bytes steps
read_memory_ends a width s = ground arith

at_register_ends : (r width : ℕ) (s : Vm) → read_at_register r width s ≢ out_of_fuel
unfolding read_at_register steps
at_register_ends r width s = read_memory_ends _ width s

by_mode_ends : (mode r width : ℕ) (s : Vm) → read_by_mode mode r width s ≢ out_of_fuel
unfolding read_by_mode decrement_register increment_register steps
by_mode_ends mode r width s = ground (
  arith,
  at_register_ends r width s,
  at_register_ends r width (record s {
    registers = update s.registers r (sub64 (s.registers r) (vm_width_to_bytes width));
  }),
)

-- A read of an operand has no loop.
operand_ends : (reg width : ℕ) (s : Vm) → vm_read_register_or_memory reg width s ≢ out_of_fuel
unfolding vm_read_register_or_memory
operand_ends reg width s = by_mode_ends _ _ width s

-- The body of the loop, with the register set's bit at `i`.
abbrev pop_body : ℕ → ℕ → ℕ → ℕ → Action
pop_body width reg i chosen =
    if chosen == 0 then skip else vm_read_register_or_memory reg width >>= λ val. set_register i val

body_ends : (width reg i chosen : ℕ) (s : Vm) → pop_body width reg i chosen s ≢ out_of_fuel
unfolding steps
body_ends width reg i chosen s = ground (arith, operand_ends reg width s)

abbrev Undefined : Action → Type 0
Undefined m = (s : Vm) → m s ≡ undefined

then-Undefined :
    (m rest : Action)
    → ((s : Vm) → m s ≢ out_of_fuel)
    → Undefined rest
    → Undefined (m >>= λ _. rest)
unfolding steps
then-Undefined m rest ends doomed s = go (m s) (ends s)
  where
    go : (r : Run (Unit {0})) → r ≢ out_of_fuel → and_then r (λ _. rest) ≡ undefined
    go (ok _ s') h = doomed s'
    go undefined h = refl
    go out_of_fuel h = absurd (h refl)

pop_round :
    (width regset reg fuel i : ℕ)
    → Undefined (pop_loop width regset reg fuel (u8 (i + 2 ^ 8 - 1)))
    → Undefined (pop_loop width regset reg (suc fuel) i)
unfolding pop_loop steps
pop_round width regset reg fuel i doomed s = elim (Bool-cases (ltb i 31)) [
  | inl low ↦ rw low (
      then-Undefined (pop_body width reg i (bit_and regset (2 ^ i)))
        (pop_loop width regset reg fuel (u8 (i + 2 ^ 8 - 1)))
        (body_ends width reg i (bit_and regset (2 ^ i))) doomed s)
  | inr high ↦ rw high
]

-- Past 0 the counter wraps to 255, and `0x1 << 255` is undefined.
pop_past_zero : (width regset reg fuel : ℕ) → Undefined (pop_loop width regset reg (suc fuel) 255)
unfolding pop_loop steps
pop_past_zero width regset reg fuel s = refl

pop-Undefined :
    (width regset reg i fuel : ℕ)
    → i < 256
    → Undefined (pop_loop width regset reg (suc (i + suc fuel)) i)
pop-Undefined width regset reg zero fuel h =
    let e : 0 + suc fuel ≡ suc fuel = omega arith in
    pop_round width regset reg _ zero (rw e (pop_past_zero width regset reg fuel))
pop-Undefined width regset reg (suc i) fuel h =
    let rounds : suc i + suc fuel ≡ suc (i + suc fuel) = omega arith in
    let lower : u8 (suc i + 2 ^ 8 - 1) ≡ i = omega arith in
    pop_round width regset reg _ (suc i)
      (rw (rounds, lower) (pop-Undefined width regset reg i fuel (omega arith)))

-- POP never completes: with fuel for seventeen rounds or more it ends in undefined behaviour, for
-- every width, register set, operand and machine.
pub vm_opcode_pop-undefined :
    (fuel width regset reg : ℕ) (s : Vm)
    → 17 ≤ fuel
    → vm_opcode_pop fuel width regset reg s ≡ undefined
unfolding vm_opcode_pop steps
vm_opcode_pop-undefined fuel width regset reg s h =
    let rounds : fuel ≡ suc (15 + suc (fuel - 17)) = omega arith in
    rw (rounds, pop-Undefined width regset reg 15 (fuel - 17) (omega arith) s)
