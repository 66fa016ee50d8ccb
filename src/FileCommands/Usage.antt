-- ===== src/FileCommands/Usage.antt =====
-- The figures of `df`.
use native.Mathlib.Nat.{div-le_of_le-mul}
use os_from_zero.Base.{
  ℕ, ◌+◌, ◌*◌, ◌/◌, ◌%◌, ◌^◌, ◌<◌, ◌≤◌, ◌≡◌, true, some, List, [], ◌∷◌, arith, length, Output,
  add64, Bool-cases, inl, inr, print, putchars, ◌++◌, ltb,
}
use os_from_zero.Decimal.Bound.{print_number_fits}
use os_from_zero.Filesystem.{
  File, FileSystem, max_files, max_file_size, free_slots, used_bytes, get_free_space,
  get_used_space,
}
use os_from_zero.FileCommands.{print_file_size, df_percentage, cmd_df}

-- No file is longer than its buffer.
abbrev pub AllBounded : List File → Type 0
AllBounded [] = Unit {0}
AllBounded (f ∷ fs) = (f.size ≤ max_file_size) × AllBounded fs

space_bound :
    (fs : List File)
    → AllBounded fs
    → used_bytes fs + free_slots fs * max_file_size ≤ length fs * max_file_size
space_bound [] h = omega arith
space_bound (f ∷ fs) h = ground (arith, space_bound fs h.1)

-- While no file is longer than its buffer, the used and the free space together are at most that
-- of the 16 buffers.
pub get_used_space-bound :
    (s : FileSystem)
    → length s.files ≡ max_files
    → AllBounded s.files
    → get_used_space s + get_free_space s ≤ max_files * max_file_size
unfolding get_used_space get_free_space
get_used_space-bound s size h = ground (arith, space_bound s.files h)

print_file_size_fits :
    (size : ℕ) → size < 2 ^ 40 → (out : List Output) × (print_file_size size ≡ some out)
unfolding print_file_size
print_file_size_fits size h = elim (Bool-cases (ltb size 1024)) [
  | inl small ↦
      let (digits, run, _) = print_number_fits 15 size (omega arith) (ground arith) in
      (print "    " ∷ putchars digits ++ (print "B" ∷ []), rw (small, run))
  | inr large ↦
      let int : ltb (size / 1024 % 2 ^ 32) (2 ^ 31) ≡ true = ground arith in
      let (digits, run, _) =
        print_number_fits 15 (size / 1024 % 2 ^ 32) (omega arith) (ground arith) in
      (print "   " ∷ putchars digits ++ (print "KB" ∷ []), rw (large, int, run))
]

share_bound : (used total : ℕ) → used ≤ total → total < 2 ^ 40 → used * 100 % 2 ^ 64 / total ≤ 100
share_bound used total le h =
    let exact : used * 100 % 2 ^ 64 ≡ used * 100 = omega arith in
    rw exact (div-le_of_le-mul total (omega arith))

df_percentage_fits :
    (used total : ℕ)
    → used ≤ total
    → total < 2 ^ 40
    → (out : List Output) × (df_percentage used total ≡ some out)
unfolding df_percentage
df_percentage_fits used total le h = elim (Bool-cases (ltb 0 total)) [
  | inl some_space ↦
      let share = share_bound used total le h in
      let int : ltb (used * 100 % 2 ^ 64 / total % 2 ^ 32) (2 ^ 31) ≡ true = ground arith in
      let (digits, run, _) =
        print_number_fits 3 (used * 100 % 2 ^ 64 / total % 2 ^ 32) (omega arith) (ground arith) in
      (print "Usage: " ∷ putchars digits ++ (print "%\n" ∷ []), rw (some_space, int, run))
  | inr no_space ↦ ([], rw no_space)
]

df_runs :
    (s : FileSystem) (a b c d : List Output)
    → print_file_size (add64 (get_used_space s) (get_free_space s)) ≡ some a
    → print_file_size (get_used_space s) ≡ some b
    → print_file_size (get_free_space s) ≡ some c
    → df_percentage (get_used_space s) (add64 (get_used_space s) (get_free_space s)) ≡ some d
    → (out : List Output) × (cmd_df s ≡ some (out, s))
unfolding cmd_df
df_runs s a b c d run_a run_b run_c run_d = (
  (print "Filesystem Usage:\n" ∷ print "Total space: " ∷ a)
      ++ (print "\nUsed space:  " ∷ b)
      ++ (print "\nFree space:  " ∷ c)
      ++ (print "\n" ∷ d),
  rw (run_a, run_b, run_c, run_d),
)

-- `df` prints its figures in the buffers that it has, whatever files there are, while none is
-- longer than its buffer.
pub cmd_df_fits :
    (s : FileSystem)
    → length s.files ≡ max_files
    → AllBounded s.files
    → (out : List Output) × (cmd_df s ≡ some (out, s))
cmd_df_fits s size h =
    let bound = get_used_space-bound s size h in
    let total : add64 (get_used_space s) (get_free_space s) ≡ get_used_space s + get_free_space s =
      omega arith in
    let (a, run_a) =
      print_file_size_fits (add64 (get_used_space s) (get_free_space s)) (omega arith) in
    let (b, run_b) = print_file_size_fits (get_used_space s) (omega arith) in
    let (c, run_c) = print_file_size_fits (get_free_space s) (omega arith) in
    let (d, run_d) =
      df_percentage_fits (get_used_space s) (add64 (get_used_space s) (get_free_space s))
        (omega arith) (omega arith) in
    df_runs s a b c d run_a run_b run_c run_d
