-- ===== src/Process/Syscall.antt =====
-- syscall_handler of process.c. What lies at an address and the key that read_key returns are the
-- caller's; the handler is given them.
pub mod Faults
use os_from_zero.Base.{
  ℕ, zero, suc, ◌+◌, ◌-◌, ◌%◌, ◌^◌, ◌≤◌, ◌<◌, ◌≡◌, ◌≢◌, ◌↔◌, refl, Bool, true, false, Option, none,
  some, List, [], ◌∷◌, ◌==◌, if◌then◌else◌, ◌>>=◌, ◌++◌, Output, print, print_text, putchar,
  putchars, arith, Bool-cases, inl, inr,
}
use os_from_zero.Decimal.{print_number}
use os_from_zero.Decimal.Bound.{print_number_fits, print_number-eq-none_iff}

-- The inline number printing, with its `num_buf` of 16 bytes.
unfoldable pub report : List Output → ℕ → ℕ → Option (ℕ × List Output)
report shown n result = do
  digits ← print_number 16 n
  some (result, shown ++ putchars digits ++ (print "\n" ∷ []))

unfoldable pub syscall_handler : (ℕ → List ℕ) → ℕ → ℕ → ℕ → Option (ℕ × List Output)
unfolding report
syscall_handler string_at key syscall_num arg1 =
    if syscall_num == 1
    then report (print "Program exited with code: " ∷ []) arg1 0
    else if syscall_num == 2
    then some (0, if arg1 == 0 then [] else print_text (string_at arg1) ∷ [])
    else if syscall_num == 4
    then some (0, putchar (arg1 % 256) ∷ [])
    else if syscall_num == 5
    then some (key, [])
    else report (print "Unknown system call: " ∷ []) syscall_num (2 ^ 64 - 1)

report_fits :
    (shown : List Output) (n result : ℕ)
    → n < 10 ^ 16
    → (out : List Output) × (report shown n result ≡ some (result, out))
unfolding report
report_fits shown n result h =
    let (digits, run, bound) = print_number_fits 16 n (omega arith) h in
    (shown ++ putchars digits ++ (print "\n" ∷ []), rw run)

report_overflow : (shown : List Output) (n result : ℕ) → 10 ^ 16 ≤ n → report shown n result ≡ none
unfolding report
report_overflow shown n result h = rw ((print_number-eq-none_iff 16 n (omega arith)).1 h)
