-- ===== src/Asm/Fix.antt =====
-- The end of an assembly in src/mhasm.c: the offsets of forward references, `fix_fwd_labels_iter` and
-- `fix_fwd_labels_iter_2`.
use mihini.Prelude.{ℕ, zero, suc, Bool, false, if◌then◌else◌, List, [], ◌∷◌, Option, none, some}
use mihini.Stree.{is_null, stree_get, stree_iterate}
use mihini.Asm.{Asm, ForwardRef, report, undefined_reference}
use mihini.Asm.Write.{bytes_le}
use mihini.Asm.Label.{offset_between, node_value}

-- The bytes over those of a file, from its start
unfoldable pub overwrite : List ℕ → List ℕ → List ℕ
overwrite dest [] = dest
overwrite [] (b ∷ bs) = b ∷ bs
overwrite (d ∷ ds) (b ∷ bs) = b ∷ overwrite ds bs

-- `fseek` to an offset from the start, and `fwrite`; a gap behind the end of the file is zeroes.
unfoldable pub write_at : List ℕ → ℕ → List ℕ → List ℕ
write_at dest zero bytes = overwrite dest bytes
write_at [] (suc offset) bytes = 0 ∷ write_at [] offset bytes
write_at (d ∷ ds) (suc offset) bytes = d ∷ write_at ds offset bytes

unfoldable pub fix_fwd_labels_iter_2 : ForwardRef → ℕ → List ℕ → List ℕ
fix_fwd_labels_iter_2 ref pos dest =
    write_at dest ref.dest_pos (bytes_le 4 (offset_between pos ref.dest_pos))

-- `dll_iterate`, forwards
unfoldable pub fix_refs : List ForwardRef → ℕ → List ℕ → List ℕ
fix_refs [] pos dest = dest
fix_refs (ref ∷ refs) pos dest = fix_refs refs pos (fix_fwd_labels_iter_2 ref pos dest)

-- The key of a node that has a value is not NULL.
unfoldable pub fix_fwd_labels_iter : Option (List ℕ) → ℕ → Asm → Bool × Asm
fix_fwd_labels_iter none value state = (false, state)
fix_fwd_labels_iter (some key) value state =
    let found = stree_get state.labels key in
    (
      false,
      if is_null found
          then report (undefined_reference key) state
          else record state { dest = fix_refs (state.lists value) (node_value found) state.dest },
    )

unfoldable pub fix_labels : Asm → Asm
fix_labels state = stree_iterate state.fwd_labels fix_fwd_labels_iter state
