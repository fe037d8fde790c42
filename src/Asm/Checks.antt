-- ===== src/Asm/Checks.antt =====
-- `check_args` of src/mhasm.c does nothing but give messages.
use mihini.Prelude.{ℕ, ◌==◌, ◌||◌, not, Bool, true, false, if◌then◌else◌}
use mihini.Asm.{
  Asm, Report, report, expects_width, expects_no_width, takes_no_arguments, needs_arguments,
  takes_only,
}
use mihini.Asm.Assemble.{absent, report_if, check_width, check_count, check_args}

module _ (P : Asm → Type 0) (reported : (r : Report) (s : Asm) → P s → P (report r s)) where
  choice_keeps : (test : Bool) {s t : Asm} → P s → P t → P (if test then s else t)
  choice_keeps true h k = h
  choice_keeps false h k = k

  report_if-keeps : (test : Bool) (r : Report) (s : Asm) → P s → P (report_if test r s)
  report_if-keeps test r s h = choice_keeps test (reported r s h) h

  check_width-keeps : (haswidth : Bool) (s : Asm) → P s → P (check_width haswidth s)
  unfolding check_width
  check_width-keeps true s h = report_if-keeps (absent s.offsets.width) expects_width s h
  check_width-keeps false s h = report_if-keeps (not (absent s.offsets.width)) expects_no_width s h

  check_count-keeps : (args : ℕ) (s : Asm) → P s → P (check_count args s)
  unfolding check_count
  check_count-keeps args s h =
      let o = s.offsets in
      let two = absent o.arg1 || absent o.arg2 in
      choice_keeps (args == 0) (report_if-keeps (not (absent o.arg1)) takes_no_arguments s h) (
        choice_keeps (args == 1)
          (report_if-keeps (not (absent o.arg2)) (takes_only 1) _
            (report_if-keeps (absent o.arg1) (needs_arguments 1) s h))
          (choice_keeps (args == 2)
            (report_if-keeps (not (absent o.arg3)) (takes_only 2) _
              (report_if-keeps two (needs_arguments 2) s h))
            (choice_keeps (args == 3)
              (report_if-keeps (absent o.arg1 || absent o.arg2 || absent o.arg3) (needs_arguments 3)
                s h)
              h)))

  -- What messages do not change, `check_args` does not change.
  pub check_args-keeps :
      (haswidth : Bool) (args : ℕ) (s : Asm) → P s → P (check_args haswidth args s)
  unfolding check_args
  check_args-keeps haswidth args s h =
      check_count-keeps args (check_width haswidth s) (check_width-keeps haswidth s h)
