-- ===== src/Vm/Arith/Laws.antt =====
-- What the integer arithmetic of src/vm.c does to registers in direct mode.
use native.Mathlib.Nat.{div-add-mod, mod-lt, mul_comm}
use mihini.Prelude.{
  ℕ, zero, suc, ◌+◌, ◌*◌, ◌/◌, ◌^◌, ◌%◌, ◌<◌, ◌==◌, ◌≡◌, ◌≢◌, refl, ap, arith, update, u64, sub64,
  if◌then◌else◌, Bool, true, false,
}
use mihini.Vm.State.{Vm, ok, steps, when, ◌>>◌, set_condition}
use mihini.Vm.Operand.Direct.{read_direct, write_direct, with_register}
use mihini.Vm.Data.{cr_equal_zero}
use mihini.Vm.Arith.{vm_opcode_addi, vm_opcode_subi, vm_opcode_divi}

-- The machine once the result `x` is in register `d` and the flags are set for it.
abbrev pub resulted : Vm → ℕ → ℕ → Vm
resulted s d x = record s {
  registers = update s.registers d x;
  condition = if x == 0 then cr_equal_zero else 0;
}

pub when_zero :
    (b : Bool) (s : Vm)
    → when b (set_condition cr_equal_zero) s
      ≡ ok tt (record s { condition = if b then cr_equal_zero else s.condition })
unfolding steps
when_zero true s = refl
when_zero false s = refl

abbrev pub unflagged : Vm → Vm
unflagged s = record s { condition = 0 }

pub vm_opcode_addi-direct :
    (width value d : ℕ) (s : Vm)
    → d < 16
    → vm_opcode_addi width value d s ≡ ok tt (resulted s d (u64 (s.registers d + value)))
unfolding vm_opcode_addi steps
vm_opcode_addi-direct width value d s h =
    rw
      (
        read_direct d width (unflagged s) h,
        write_direct d (u64 (s.registers d + value)) width (unflagged s) h,
      )
      (when_zero (u64 (s.registers d + value) == 0)
        (with_register (unflagged s) d (u64 (s.registers d + value))))

pub vm_opcode_subi-direct :
    (width value d : ℕ) (s : Vm)
    → d < 16
    → vm_opcode_subi width value d s ≡ ok tt (resulted s d (sub64 (s.registers d) value))
unfolding vm_opcode_subi steps
vm_opcode_subi-direct width value d s h =
    rw
      (
        read_direct d width (unflagged s) h,
        write_direct d (sub64 (s.registers d) value) width (unflagged s) h,
      )
      (when_zero (sub64 (s.registers d) value == 0)
        (with_register (unflagged s) d (sub64 (s.registers d) value)))

add_back : (a v : ℕ) → a < 2 ^ 64 → v < 2 ^ 64 → sub64 (u64 (a + v)) v ≡ a
add_back a v h k = omega arith

update_same : (f : ℕ → ℕ) (d x : ℕ) → update f d x d ≡ x
update_same f d x = ground arith

update_restore : (f : ℕ → ℕ) (d x y r : ℕ) → y ≡ f d → update (update f d x) d y r ≡ f r
update_restore f d x y r h = ground (arith, ap f {x = d} {y = r})

-- SUBI of a value undoes ADDI of the same value on a register, whatever wraps: every register is as it
-- was, and the flag of zero tells whether the register is zero.
pub vm_opcode_addi-subi :
    (width value d : ℕ) (s : Vm)
    → d < 16
    → s.registers d < 2 ^ 64
    → value < 2 ^ 64
    → (t : Vm) × ((vm_opcode_addi width value d >> vm_opcode_subi width value d) s ≡ ok tt t)
      × ((r : ℕ) → t.registers r ≡ s.registers r)
      × (t.condition ≡ (if s.registers d == 0 then cr_equal_zero else 0))
      × (t.memory ≡ s.memory)
unfolding steps
vm_opcode_addi-subi width value d s h k l = (
  resulted mid d (sub64 (mid.registers d) value),
  rw (vm_opcode_addi-direct width value d s h) (vm_opcode_subi-direct width value d mid h),
  λ r. update_restore s.registers d (u64 (s.registers d + value)) _ r back,
  rw back refl,
  refl,
)
  where
    mid : Vm
    mid = resulted s d (u64 (s.registers d + value))

    back : sub64 (mid.registers d) value ≡ s.registers d
    back =
        rw (update_same s.registers d (u64 (s.registers d + value)))
          (add_back (s.registers d) value k l)

-- The machine once the quotient and then the remainder are stored.
abbrev pub divided : Vm → ℕ → ℕ → ℕ → ℕ → Vm
divided s da db q r = with_register (with_register (unflagged s) da q) db r

positive : (v : ℕ) → (suc v == 0) ≡ false
positive v = ground arith

-- DIVI by a value above 0 leaves the quotient in the first register and the remainder in the second,
-- which must be another one; the flags are cleared.
pub vm_opcode_divi-direct :
    (width value da db : ℕ) (s : Vm)
    → 0 < value
    → da < 16
    → db < 16
    → da ≢ db
    → (t : Vm) × (vm_opcode_divi width value da db s ≡ ok tt t)
      × (t.registers da * value + t.registers db ≡ s.registers da)
      × (t.registers db < value)
      × (t.condition ≡ 0)
unfolding vm_opcode_divi steps
vm_opcode_divi-direct width zero da db s pos ha hb apart = elim pos [ ]
vm_opcode_divi-direct width (suc v) da db s pos ha hb apart = (
  divided s da db q r,
  rw
      (
        read_direct da width (unflagged s) ha,
        positive v,
        write_direct da q width (unflagged s) ha,
        write_direct db r width (with_register (unflagged s) da q) hb,
      )
      refl,
  sum_back,
  small,
  refl,
)
  where
    q : ℕ
    q = s.registers da / suc v

    r : ℕ
    r = s.registers da % suc v

    first : update (update s.registers da q) db r da ≡ q
    first = ground arith

    second : update (update s.registers da q) db r db ≡ r
    second = ground arith

    sum_back :
        update (update s.registers da q) db r da * suc v + update (update s.registers da q) db r db
        ≡ s.registers da
    sum_back =
        rw (first, second) (omega (arith, div-add-mod (s.registers da) (suc v), mul_comm q (suc v)))

    small : update (update s.registers da q) db r db < suc v
    small = rw second (mod-lt (s.registers da) pos)
