-- ===== src/Logger/Append.antt =====
-- logger_log, with the log file that it appends to.
use os_from_zero.Base.{
  ℕ, ◌+◌, ◌≤◌, ◌≡◌, ◌≢◌, refl, ap, sym, ◌∙◌, true, ◌⊎◌, inl, inr, Option, none, some, List, [], ◌∷◌,
  ◌++◌, arith, length, map, codes, ◌>>=◌, ◌==◌, ltb, if_false, if_true, length-append, length-take,
  Bool-cases,
}
use os_from_zero.Strings.Text.{c_text}
use os_from_zero.Filesystem.{
  FileSystem, max_filename_length, read_file, write_file, find_file, find_free_slot_from,
}
use os_from_zero.Filesystem.Store.{AllSized}
use os_from_zero.Filesystem.Store.Over.{Stored}
use os_from_zero.Filesystem.Store.Write.{write_file_lem}
use os_from_zero.Logger.{Logger, LogArg, Piece, one, shown, Mode, first_pass, before}
use os_from_zero.Logger.Lines.{
  log_file_path, append_line, write_log, logger_log, module_text, printed_header,
}
use os_from_zero.Logger.Copy.{take_all}
use os_from_zero.Logger.Room.{IsPlain, log_text, log_whole, log_line_plain}

short_path : length (c_text log_file_path) ≤ max_filename_length
unfolding c_text
short_path = omega arith

abbrev bytes_or_none : Option (List ℕ) → List ℕ
bytes_or_none none = []
bytes_or_none (some bytes) = bytes

-- The bytes of the log file; a file that is not there has none.
abbrev pub logged : FileSystem → List ℕ
logged fs = bytes_or_none (read_file fs log_file_path)

-- What a line does to the files: it is appended, or the files stay, as the log would not stay below
-- 1024 bytes or there is no room for a new file.
pub record Grown (fs fs' : FileSystem) (line : List ℕ) : Type 0 where
  pub appended : read_file fs' log_file_path ≡ some (logged fs ++ line)
  pub others :
      (other : List ℕ)
      → c_text other ≢ c_text log_file_path
      → read_file fs' other ≡ read_file fs other
  pub sized : AllSized fs'.files
  pub on : fs'.initialized ≡ true

abbrev pub IsLong : FileSystem → List ℕ → Type 0
IsLong fs line = 1024 ≤ length (logged fs) + length line

abbrev pub IsFull : FileSystem → Type 0
IsFull fs = (find_file fs log_file_path ≡ none) × (find_free_slot_from fs.files 0 ≡ none)

abbrev pub Appended : FileSystem → FileSystem → List ℕ → Type 0
Appended fs fs' line = ((IsLong fs line ⊎ IsFull fs) × (fs' ≡ fs)) ⊎ Grown fs fs' line

grown :
    (fs fs' : FileSystem) (bytes line : List ℕ)
    → logged fs ≡ bytes
    → Stored fs fs' log_file_path (bytes ++ line) (length (bytes ++ line))
    → Grown fs fs' line
grown fs fs' bytes line same st = record {
  appended =
      st.read_back
      ∙ (ap some (take_all (bytes ++ line) _ (omega arith))
          ∙ ap (λ b. some (b ++ line)) (sym same));
  others = st.others;
  sized = st.sized;
  on = st.on;
}

-- Writing the log back, with the bytes that were in it.
written_back :
    (fs : FileSystem) (bytes line : List ℕ)
    → fs.initialized ≡ true
    → AllSized fs.files
    → logged fs ≡ bytes
    → length (bytes ++ line) ≤ 1024
    → (fs' : FileSystem) × ((write_file fs log_file_path (bytes ++ line) (length (bytes ++ line))
          >>= λ r. some r.1)
        ≡ some fs')
      × Appended fs fs' line
written_back fs bytes line on sized same small =
    elim (write_file_lem fs log_file_path (bytes ++ line) (length (bytes ++ line)) on sized small
      (omega arith) short_path) [
        | inl (absent, full, refused) ↦
            (fs, ap (λ o. o >>= λ r. some r.1) refused, inl (inr (absent, full), refl))
        | inr (fs', run, st) ↦
            (fs', ap (λ o. o >>= λ r. some r.1) run, inr (grown fs fs' bytes line same st))
      ]

pub append_line_lem :
    (fs : FileSystem) (line : List ℕ) (o : Option (List ℕ))
    → fs.initialized ≡ true
    → AllSized fs.files
    → length line ≤ 511
    → read_file fs log_file_path ≡ o
    → (fs' : FileSystem) × (append_line fs line o ≡ some fs') × Appended fs fs' line
unfolding append_line
append_line_lem fs line none on sized short same =
    written_back fs [] line on sized (ap bytes_or_none same) (omega (arith, short))
append_line_lem fs line (some bytes) on sized short same =
    let size = length-append bytes line in
    elim (Bool-cases (ltb (length bytes + length line) 1024)) [
      | inl room ↦
          let (fs', run, done) =
            written_back fs bytes line on sized (ap bytes_or_none same)
              (ground (arith, size, room)) in
          (
            fs',
            if_true (ltb (length bytes + length line) 1024) _ _ room
                ∙ (ap (λ n. write_file fs log_file_path (bytes ++ line) n >>= λ r. some r.1)
                      (sym size)
                    ∙ run),
            done,
          )
      | inr long ↦ (
        fs,
        if_false (ltb (length bytes + length line) 1024) _ _ long,
        inl (inl (ground (arith, long, ap bytes_or_none same)), refl),
      )
    ]

first_pass_plain :
    (format : List ℕ) (args : List LogArg)
    → IsPlain format
    → first_pass Mode.outside format args ≡ some (map one format)
unfolding first_pass
first_pass_plain [] args h = refl
first_pass_plain (c ∷ s) args h =
    if_false (c == b'%') _ _ (ground (arith, h.0))
    ∙ ap (before (one c ∷ [])) (first_pass_plain s args h.1)

write_log_lem :
    (l : Logger) (level : ℕ) (m format : List ℕ) (args : List LogArg) (fs' : FileSystem)
    → l.log_file_initialized ≡ true
    → length m ≤ 500
    → IsPlain format
    → append_line l.fs (log_text level m format) (read_file l.fs log_file_path) ≡ some fs'
    → write_log l level m format args ≡ some fs'
unfolding write_log
write_log_lem l level m format args fs' ready short plain run =
    if_true l.log_file_initialized _ _ ready
    ∙ (ap (λ o. o >>= λ line. append_line l.fs line (read_file l.fs log_file_path))
          (log_line_plain level m format args short plain)
        ∙ run)

pub logger_log_steps :
    (l : Logger) (level : ℕ) (m : Option (List ℕ)) (format : List ℕ) (args : List LogArg)
    (pieces : List Piece) (fs' : FileSystem)
    → l.current_log_level ≤ level
    → first_pass Mode.outside format args ≡ some pieces
    → write_log l level (module_text m) format args ≡ some fs'
    → logger_log l level m format args
      ≡ some (
        printed_header level (module_text m) ++ (pieces ++ (shown (codes "\n") ∷ [])),
        record l { fs = fs' },
      )
unfolding logger_log
logger_log_steps l level m format args pieces fs' loud printed written =
    if_false (ltb level l.current_log_level) _ _ (ground (arith, loud)) ∙ rw (printed, written)

-- logger_log at a level that is not filtered, with a format without directives and a module of at
-- most 500 characters, once the logger and the file system are initialised and the buffers have
-- their sizes: it prints the header, the format and a newline; the line, cut to the 511 characters
-- of its buffer, is appended to the log file, and every other file reads as before; or no file
-- changes, because the log would reach 1024 bytes, or is not there and finds no free slot.
pub logger_log-appends :
    (l : Logger) (level : ℕ) (m : Option (List ℕ)) (format : List ℕ) (args : List LogArg)
    → l.current_log_level ≤ level
    → l.log_file_initialized ≡ true
    → l.fs.initialized ≡ true
    → AllSized l.fs.files
    → length (module_text m) ≤ 500
    → IsPlain format
    → (fs' : FileSystem) × (logger_log l level m format args
        ≡ some (
          printed_header level (module_text m) ++ (map one format ++ (shown (codes "\n") ∷ [])),
          record l { fs = fs' },
        ))
      × Appended l.fs fs' (log_text level (module_text m) format)
logger_log-appends l level m format args loud ready on sized short plain =
    let line = log_text level (module_text m) format in
    let (fs', run, done) =
      append_line_lem l.fs line _ on sized
        (omega (arith, length-take 511 (log_whole level (module_text m) format))) refl in
    (
      fs',
      logger_log_steps l level m format args (map one format) fs' loud
          (first_pass_plain format args plain)
          (write_log_lem l level (module_text m) format args fs' ready short plain run),
      done,
    )
