-- ===== src/FileCommands/Contents.antt =====
-- What `write` writes is what `cat` shows.
use os_from_zero.Base.{
  ℕ, suc, ◌<◌, ◌≤◌, ◌≡◌, ◌≢◌, refl, ap, ◌∙◌, Bool, true, false, ◌⊎◌, inl, inr, some, List, [], ◌∷◌,
  ◌++◌, arith, length, take, replicate, print, putchars, ◌>>=◌, leb, if_false,
}
use os_from_zero.Strings.{head, strlen}
use os_from_zero.Strings.Text.{c_text}
use os_from_zero.Shell.Dispatch.{IsWord, split_word_lem, skip_spaces_lem, strlen_pos}
use os_from_zero.Filesystem.{FileSystem, max_filename_length, max_file_size, write_file, read_file}
use os_from_zero.Filesystem.Store.{AllSized}
use os_from_zero.Filesystem.Store.Write.{write_file_lem}
use os_from_zero.FileCommands.{write_words, cmd_write, cmd_cat, written, quoted, last_newline}

strlen-length : (s : List ℕ) → strlen s ≤ length s
unfolding strlen
strlen-length [] = omega arith
strlen-length (c ∷ s) = ground (arith, strlen-length s)

length-c_text : (s : List ℕ) → length (c_text s) ≤ length s
unfolding c_text
length-c_text [] = omega arith
length-c_text (c ∷ s) = ground (arith, length-c_text s)

write_words_lem :
    (name text : List ℕ) (n : ℕ) (s : FileSystem) (r : Bool × FileSystem)
    → length name < max_filename_length
    → head text ≢ b' '
    → write_file s name text (strlen text) ≡ some r
    → write_words name (replicate (suc n) b' ' ++ text) s ≡ some (written name r)
unfolding write_words
write_words_lem name text n s r short start run =
    if_false (leb max_filename_length (length name)) _ _ (ground (arith, short))
    ∙ (ap (λ t. write_file s name t (strlen t) >>= λ w. some (written name w))
          (skip_spaces_lem (suc n) text start)
        ∙ ap (λ o. o >>= λ w. some (written name w)) run)

cmd_write_lem :
    (x : ℕ) (w text : List ℕ) (n : ℕ) (s : FileSystem)
    → IsWord (x ∷ w)
    → cmd_write (some ((x ∷ w) ++ (replicate (suc n) b' ' ++ text))) s
      ≡ write_words (x ∷ w) (replicate (suc n) b' ' ++ text) s
unfolding cmd_write
cmd_write_lem x w text n s word =
    let rest = replicate (suc n) b' ' ++ text in
    rw (strlen_pos x (w ++ rest) word.0) (rw (split_word_lem (x ∷ w) rest word (inl refl)))

cmd_cat_lem :
    (x : ℕ) (w bytes : List ℕ) (s : FileSystem)
    → x ≢ 0
    → read_file s (x ∷ w) ≡ some bytes
    → cmd_cat (some (x ∷ w)) s ≡ some (putchars bytes ++ last_newline bytes, s)
unfolding cmd_cat
cmd_cat_lem x w bytes s pos found = rw (strlen_pos x w pos) (rw found)

-- A line for `write` of a name of fewer than 32 characters, spaces and a text of at most 1024
-- characters that does not begin with a space, once the file system is initialised and its buffers
-- have their sizes: it is refused and nothing changes, or `cat` of the name then shows the text,
-- with a newline if it does not end with one.
pub cmd_write-cat :
    (x : ℕ) (w text : List ℕ) (n : ℕ) (s : FileSystem)
    → IsWord (x ∷ w)
    → length (x ∷ w) < max_filename_length
    → head text ≢ b' '
    → strlen text ≤ max_file_size
    → s.initialized ≡ true
    → AllSized s.files
    → (cmd_write (some ((x ∷ w) ++ (replicate (suc n) b' ' ++ text))) s
        ≡ some (quoted (print "Error: Could not write to file '") (x ∷ w) (print "'.\n"), s))
      ⊎ ((s' : FileSystem) × (cmd_write (some ((x ∷ w) ++ (replicate (suc n) b' ' ++ text))) s
            ≡ some (quoted (print "Content written to '") (x ∷ w) (print "'.\n"), s'))
          × (cmd_cat (some (x ∷ w)) s'
              ≡ some (
                putchars (take (strlen text) text) ++ last_newline (take (strlen text) text),
                s',
              )))
cmd_write-cat x w text n s word short start small on sized =
    let line = cmd_write_lem x w text n s word in
    elim (write_file_lem s (x ∷ w) text (strlen text) on sized small (strlen-length text)
      (ground (arith, length-c_text (x ∷ w), short))) [
        | inl (_, _, refused) ↦
            inl (line ∙ write_words_lem (x ∷ w) text n s (false, s) short start refused)
        | inr (s', run, stored) ↦ inr (
          s',
          line ∙ write_words_lem (x ∷ w) text n s (true, s') short start run,
          cmd_cat_lem x w (take (strlen text) text) s' word.0 stored.read_back,
        )
      ]
