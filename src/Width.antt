-- ===== src/Width.antt =====
-- The conversions of a width code in src/vm.c. Where the code has no case the source prints a
-- message to stderr and returns 0; the message is not modelled.
use mihini.Prelude.{ℕ, ◌==◌, if◌then◌else◌}
use mihini.Opcode.{width_8, width_16, width_32, width_64}

unfoldable pub vm_width_to_bits : ℕ → ℕ
vm_width_to_bits width =
    if width == width_8
    then 8
    else if width == width_16
    then 16
    else if width == width_32
    then 32
    else if width == width_64
    then 64
    else 0

unfoldable pub vm_width_to_bytes : ℕ → ℕ
vm_width_to_bytes width =
    if width == width_8
    then 1
    else if width == width_16
    then 2
    else if width == width_32
    then 4
    else if width == width_64
    then 8
    else 0

unfoldable pub vm_width_to_mask : ℕ → ℕ
vm_width_to_mask width =
    if width == width_8
    then 0xFF
    else if width == width_16
    then 0xFFFF
    else if width == width_32
    then 0xFFFFFFFF
    else if width == width_64
    then 0xFFFFFFFFFFFFFFFF
    else 0
