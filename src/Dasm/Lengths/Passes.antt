-- ===== src/Dasm/Lengths/Passes.antt =====
-- The bytes that each pass of src/mhdasm.c takes for a layout.
use mihini.Prelude.{ℕ, ◌+◌, ◌≤◌, List, [], ◌∷◌}
use mihini.Opcode.{width_64}
use mihini.Width.{vm_width_to_bytes}
use mihini.Btree.{BtreeNode}
use mihini.Asm.Layout.{
  Layout, nothing, one_label, one_immediate, one_reg, one_reg_width, label_reg, long_reg, value_reg,
  byte_reg, float_reg, two_regs, set_reg, reg_set, value_two_regs, three_regs,
}
use mihini.Dasm.{
  M, Action, ◌>>=◌, pure, print_line, read_bytes, read_uint8, read_uint16, read_uint32, read_uint64,
}
use mihini.Dasm.First.{first_operands}
use mihini.Dasm.Second.{printed_register, printed_set, read_label, second_operands}
use mihini.Dasm.Lengths.{
  Takes, Takes-bind, Takes-pure, Takes-get, Takes-print_line, Takes-message, Takes-add_label,
  Takes-print_with_label, first_bytes, second_bytes, Takes-read, Takes-read_variable,
}

module _ (junk : ℕ → ℕ) where
  -- A read whose value is not used, or is what the rest depends on
  Takes-then :
      {A : Type 0} (n b : ℕ) (k : ℕ → M A)
      → ((x : ℕ) → Takes b (k x))
      → Takes (n + b) (read_bytes junk n >>= k)
  Takes-then n b k next = Takes-bind n b (read_bytes junk n) k (Takes-read junk n) next

  skip_one : Takes 1 (read_bytes junk 1 >>= λ _. pure tt)
  skip_one = Takes-then 1 0 _ (λ x. Takes-pure tt)

  pub Takes-first_operands :
      (layout : Layout) (width opcode : ℕ)
      → width ≤ width_64
      → Takes (first_bytes layout width) (first_operands junk layout width opcode)
  unfolding first_operands read_uint8 read_uint16 read_uint32 read_uint64
  Takes-first_operands nothing width opcode h = Takes-pure tt
  Takes-first_operands one_immediate width opcode h = Takes-then 4 0 _ (λ x. Takes-pure tt)
  Takes-first_operands one_reg width opcode h = skip_one
  Takes-first_operands one_label width opcode h = Takes-then 4 0 _ (λ x. Takes-add_label x)
  Takes-first_operands label_reg width opcode h =
      Takes-then 4 1 _ (λ x. Takes-bind 0 1 _ _ (Takes-add_label x) (λ u. skip_one))
  Takes-first_operands set_reg width opcode h = Takes-then 2 1 _ (λ x. skip_one)
  Takes-first_operands long_reg width opcode h = Takes-then 4 1 _ (λ x. skip_one)
  Takes-first_operands value_reg width opcode h = Takes-then 8 1 _ (λ x. skip_one)
  Takes-first_operands byte_reg width opcode h = Takes-then 1 1 _ (λ x. skip_one)
  Takes-first_operands two_regs width opcode h = Takes-then 1 1 _ (λ x. skip_one)
  Takes-first_operands value_two_regs width opcode h =
      Takes-bind (vm_width_to_bytes width) 2 _ _ (Takes-read_variable junk width h)
        (λ x. Takes-then 1 1 _ (λ y. skip_one))
  Takes-first_operands three_regs width opcode h =
      Takes-then 1 2 _ (λ x. Takes-then 1 1 _ (λ y. skip_one))
  Takes-first_operands other width opcode h = Takes-message _

module _ (float_text : ℕ → List ℕ) (junk : ℕ → ℕ) where
  -- A register that is read and printed, and what follows
  reg_then :
      (b : ℕ) (k : List ℕ → Action)
      → ((x : List ℕ) → Takes b (k x))
      → Takes (1 + b) (printed_register float_text junk >>= k)
  unfolding read_uint8
  reg_then b k next = Takes-bind 1 b _ k (Takes-then junk 1 0 _ (λ x. Takes-pure _)) next

  set_then :
      (b : ℕ) (k : List ℕ → Action)
      → ((x : List ℕ) → Takes b (k x))
      → Takes (2 + b) (printed_set float_text junk >>= k)
  unfolding read_uint16
  set_then b k next = Takes-bind 2 b _ k (Takes-then junk 2 0 _ (λ x. Takes-pure _)) next

  label_then :
      (b : ℕ) (k : BtreeNode ℕ → Action)
      → ((x : BtreeNode ℕ) → Takes b (k x))
      → Takes (4 + b) (read_label float_text junk >>= k)
  unfolding read_uint32
  label_then b k next =
      Takes-bind 4 b _ k
        (Takes-then junk 4 0 _ (λ x. Takes-bind 0 0 _ _ Takes-get (λ s. Takes-pure _))) next

  line : (text : List ℕ) → Takes 0 (print_line text)
  line = Takes-print_line

  pub Takes-second_operands :
      (layout : Layout) (width : ℕ) (name : List ℕ)
      → width ≤ width_64
      → Takes (second_bytes layout width) (second_operands float_text junk layout width name)
  unfolding second_operands read_uint8 read_uint16 read_uint32 read_uint64
  Takes-second_operands nothing width name h = line _
  Takes-second_operands one_label width name h =
      label_then 0 _ (λ l. Takes-print_with_label name l [])
  Takes-second_operands one_immediate width name h = Takes-then junk 4 0 _ (λ x. line _)
  Takes-second_operands label_reg width name h =
      label_then 1 _ (λ l. reg_then 0 _ (λ r. Takes-print_with_label name l (r ∷ [])))
  Takes-second_operands set_reg width name h = set_then 1 _ (λ m. reg_then 0 _ (λ r. line _))
  Takes-second_operands reg_set width name h = set_then 1 _ (λ m. reg_then 0 _ (λ r. line _))
  Takes-second_operands one_reg width name h = reg_then 0 _ (λ r. line _)
  Takes-second_operands one_reg_width width name h = reg_then 0 _ (λ r. line _)
  Takes-second_operands long_reg width name h =
      Takes-then junk 4 1 _ (λ x. reg_then 0 _ (λ r. line _))
  Takes-second_operands value_reg width name h =
      Takes-then junk 1 1 _ (λ x. reg_then 0 _ (λ r. line _))
  Takes-second_operands float_reg width name h =
      Takes-then junk 8 1 _ (λ x. reg_then 0 _ (λ r. line _))
  Takes-second_operands two_regs width name h = reg_then 1 _ (λ r. reg_then 0 _ (λ q. line _))
  Takes-second_operands value_two_regs width name h =
      Takes-bind (vm_width_to_bytes width) 2 _ _ (Takes-read_variable junk width h)
        (λ x. reg_then 1 _ (λ r. reg_then 0 _ (λ q. line _)))
  Takes-second_operands three_regs width name h =
      reg_then 2 _ (λ r. reg_then 1 _ (λ q. reg_then 0 _ (λ p. line _)))
  Takes-second_operands other width name h = Takes-pure tt
