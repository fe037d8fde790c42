-- ===== src/Opcode/Tables/Examples.antt =====
-- The assembler's table of src/opcodes.c on a host that has zeroes in its memory.
use mihini.Prelude.{◌+◌, true, none}
use mihini.Stree.{StreeNode, Malloc, null, node}

abbrev host : Malloc
host = record { zeroed = true; usable = λ n. n + 8 }

-- The node of '-', as the assembler begins
abbrev root : StreeNode
root = node null null null 45 none 0
