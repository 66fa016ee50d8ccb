-- ===== src/Process/Syscall/Faults.antt =====
-- When a system call writes behind the end of its number buffer.
use os_from_zero.Base.{
  ℕ, ◌^◌, ◌≤◌, ◌≡◌, ◌≢◌, ◌↔◌, ◌⊎◌, inl, inr, none, List, arith, Output, ltb, Bool-cases, ltb→lt,
  print, [], ◌∷◌, ◌-◌,
}
use os_from_zero.Process.Syscall.{report, syscall_handler, report_fits, report_overflow}

abbrev pub IsUnknown : ℕ → Type 0
IsUnknown n = (n ≢ 1) × (n ≢ 2) × (n ≢ 4) × (n ≢ 5)

-- The number that a call prints, if it prints one, has more digits than the buffer has bytes.
abbrev pub PrintsLong : ℕ → ℕ → Type 0
PrintsLong syscall_num arg1 =
    ((syscall_num ≡ 1) × (10 ^ 16 ≤ arg1)) ⊎ (IsUnknown syscall_num × (10 ^ 16 ≤ syscall_num))

report-eq-none : (shown : List Output) (n result : ℕ) → report shown n result ≡ none → 10 ^ 16 ≤ n
report-eq-none shown n result e = elim (Bool-cases (ltb n (10 ^ 16))) [
  | inl lt ↦ let (out, run) = report_fits shown n result (ltb→lt n (10 ^ 16) lt) in cc
  | inr ge ↦ ground arith
]

module _ (string_at : ℕ → List ℕ) (key syscall_num arg1 : ℕ) where
  faults : syscall_handler string_at key syscall_num arg1 ≡ none → PrintsLong syscall_num arg1
  unfolding syscall_handler
  faults e = ground (
    arith,
    report-eq-none (print "Program exited with code: " ∷ []) arg1 0,
    report-eq-none (print "Unknown system call: " ∷ []) syscall_num (2 ^ 64 - 1),
  )

  overflows : PrintsLong syscall_num arg1 → syscall_handler string_at key syscall_num arg1 ≡ none
  unfolding syscall_handler
  overflows (inl h) =
      ground (arith, report_overflow (print "Program exited with code: " ∷ []) arg1 0)
  overflows (inr h) =
      ground (arith, report_overflow (print "Unknown system call: " ∷ []) syscall_num (2 ^ 64 - 1))

  -- A system call writes behind the end of `num_buf` exactly when it is an exit with a code of more
  -- than 16 digits, or an unknown call whose number has more than 16 digits.
  pub syscall_handler-eq-none_iff :
      (syscall_handler string_at key syscall_num arg1 ≡ none) ↔ PrintsLong syscall_num arg1
  syscall_handler-eq-none_iff = (faults, overflows)
