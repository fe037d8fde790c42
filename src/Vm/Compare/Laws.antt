-- ===== src/Vm/Compare/Laws.antt =====
-- A comparison, and the branches that read its flags.
use mihini.Prelude.{
  order-cases, ℕ, ◌<◌, ◌==◌, ◌≡◌, inl, inr, refl, true, false, arith, ltb, leb, if◌then◌else◌, not,
  Bool,
}
use mihini.Vm.State.{Vm, ok, Action, ◌>>◌, steps, skip}
use mihini.Vm.Operand.Direct.{read_direct}
use mihini.Vm.Data.{cr_equal_zero, cr_greater_than, cr_less_than}
use mihini.Vm.Compare.{set_comparison, vm_opcode_cmpi, vm_opcode_cmp}
use mihini.Vm.Flow.{
  branch_by, vm_opcode_beq, vm_opcode_bne, vm_opcode_blt, vm_opcode_bgt, vm_opcode_ble,
  vm_opcode_bge,
}

-- The one flag that a comparison of `b` against `a` sets.
abbrev pub comparison : ℕ → ℕ → ℕ
comparison a b = if b == a then cr_equal_zero else if ltb a b then cr_greater_than else cr_less_than

less :
    (a b : ℕ)
    → a < b
    → (ltb a b ≡ true)
      × (ltb b a ≡ false)
      × ((b == a) ≡ false)
      × (leb a b ≡ true)
      × (leb b a ≡ false)
less a b h = ground arith

greater :
    (a b : ℕ)
    → b < a
    → (ltb a b ≡ false)
      × (ltb b a ≡ true)
      × ((b == a) ≡ false)
      × (leb a b ≡ false)
      × (leb b a ≡ true)
greater a b h = ground arith

equal :
    (a b : ℕ)
    → a ≡ b
    → (ltb a b ≡ false)
      × (ltb b a ≡ false)
      × ((b == a) ≡ true)
      × (leb a b ≡ true)
      × (leb b a ≡ true)
equal a b h = ground arith

set_comparison-ok :
    (a b : ℕ) (s : Vm)
    → set_comparison a b (record s { condition = 0 })
      ≡ ok tt (record s { condition = comparison a b })
unfolding set_comparison steps
set_comparison-ok a b s = elim (order-cases a b) [
  | inl h ↦ rw ((less a b h).0, (less a b h).1, (less a b h).2)
  | inr (inl h) ↦ rw ((equal a b h).0, (equal a b h).1, (equal a b h).2)
  | inr (inr h) ↦ rw ((greater a b h).0, (greater a b h).1, (greater a b h).2)
]

-- CMPI of a register sets exactly the flag of the order between the value and the whole register, and
-- changes nothing else.
pub vm_opcode_cmpi-direct :
    (width value d : ℕ) (s : Vm)
    → d < 16
    → vm_opcode_cmpi width value d s
      ≡ ok tt (record s { condition = comparison (s.registers d) value })
unfolding vm_opcode_cmpi steps
vm_opcode_cmpi-direct width value d s h =
    rw (
      read_direct d width (record s { condition = 0 }) h,
      set_comparison-ok (s.registers d) value s,
    )

-- The branch is taken, with `b`, or falls through, without it.
abbrev pub taken : Bool → ℕ → Action
taken b offset = if b then branch_by offset else skip

abbrev pub compared : ℕ → ℕ → Vm → Vm
compared d value s = record s { condition = comparison (s.registers d) value }

-- What each of the six branches does after `before` on `s`, where that leaves `t` and the compared
-- numbers are `a`, of the register, and `b`.
abbrev pub BranchesAfter : Action → (width a b offset : ℕ) → (s t : Vm) → Type 0
BranchesAfter before width a b offset s t =
    ((before >> vm_opcode_beq width offset) s ≡ taken (b == a) offset t)
    × ((before >> vm_opcode_bne width offset) s ≡ taken (not (b == a)) offset t)
    × ((before >> vm_opcode_bgt width offset) s ≡ taken (ltb a b) offset t)
    × ((before >> vm_opcode_blt width offset) s ≡ taken (ltb b a) offset t)
    × ((before >> vm_opcode_bge width offset) s ≡ taken (leb a b) offset t)
    × ((before >> vm_opcode_ble width offset) s ≡ taken (leb b a) offset t)

branches_after :
    (before : Action) (width a b offset : ℕ) (s t : Vm)
    → before s ≡ ok tt (record t { condition = comparison a b })
    → BranchesAfter before width a b offset s (record t { condition = comparison a b })
unfolding vm_opcode_beq vm_opcode_bne vm_opcode_bgt vm_opcode_blt vm_opcode_bge vm_opcode_ble steps
branches_after before width a b offset s t h = elim (order-cases a b) [
  | inl l ↦
      let (p, q, r, u, v) = less a b l in rw (h, p, q, r, u, v) (refl, refl, refl, refl, refl, refl)
  | inr (inl l) ↦
      let (p, q, r, u, v) = equal a b l in
      rw (h, p, q, r, u, v) (refl, refl, refl, refl, refl, refl)
  | inr (inr l) ↦
      let (p, q, r, u, v) = greater a b l in
      rw (h, p, q, r, u, v) (refl, refl, refl, refl, refl, refl)
]

-- After CMPI of a value with a register, BEQ, BNE, BGT, BLT, BGE and BLE are taken exactly when the
-- value is equal to the register, is not, is greater, less, greater or equal, less or equal, at any
-- width; all else but the flags is as before.
pub vm_opcode_cmpi-branches :
    (width value d offset : ℕ) (s : Vm)
    → d < 16
    → BranchesAfter
        (vm_opcode_cmpi width value d)
        width
        (s.registers d)
        value
        offset
        s
        (record s { condition = comparison (s.registers d) value })
vm_opcode_cmpi-branches width value d offset s h =
    branches_after _ width (s.registers d) value offset s s
      (vm_opcode_cmpi-direct width value d s h)

vm_opcode_cmp-direct :
    (width da db : ℕ) (s : Vm)
    → da < 16
    → db < 16
    → vm_opcode_cmp width da db s
      ≡ ok tt (record s { condition = comparison (s.registers da) (s.registers db) })
unfolding vm_opcode_cmp steps
vm_opcode_cmp-direct width da db s h k = rw (
  read_direct da width (record s { condition = 0 }) h,
  read_direct db width (record s { condition = 0 }) k,
  set_comparison-ok (s.registers da) (s.registers db) s,
)

-- After CMP of two registers, at any width, BEQ, BNE, BGT, BLT, BGE and BLE are taken exactly when the
-- second register is equal to the first, is not, is greater, less, greater or equal, less or equal;
-- all else but the flags is as before.
vm_opcode_cmp-branches :
    (width da db offset : ℕ) (s : Vm)
    → da < 16
    → db < 16
    → BranchesAfter
        (vm_opcode_cmp width da db)
        width
        (s.registers da)
        (s.registers db)
        offset
        s
        (record s { condition = comparison (s.registers da) (s.registers db) })
vm_opcode_cmp-branches width da db offset s h k =
    branches_after _ width (s.registers da) (s.registers db) offset s s
      (vm_opcode_cmp-direct width da db s h k)
