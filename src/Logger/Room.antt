-- ===== src/Logger/Room.antt =====
-- The line of the log file: what fits its buffer, and what does not.
use os_from_zero.Base.{
  if◌then◌else◌, Option, ◌⊎◌, ◌>>=◌, ltb, Bool-cases, inl, inr, if_true, if_false, ℕ, suc, ◌+◌, ◌<◌,
  ◌≤◌, ◌≡◌, ◌≢◌, refl, sym, ap, ◌∙◌, false, none, some, List, [], ◌∷◌, ◌++◌, arith, length, take,
  codes, length-append,
}
use os_from_zero.Logger.{LogArg, get_level_string}
use os_from_zero.Logger.Lines.{put, put_text, put_raw, second_pass, end_line, log_header, log_line}
use os_from_zero.Logger.Copy.{
  longer, put_text-take, put_raw_fits, put_raw_over, put_text_fits, length-put_text,
  take-take_append,
}

length-get_level_string : (level : ℕ) → length (get_level_string level) ≡ 5
length-get_level_string level = ground arith

-- "[LEVEL] [module"

-- "[LEVEL] ["
abbrev opening : ℕ → List ℕ
opening level = ((b'[' ∷ []) ++ get_level_string level) ++ codes "] ["

abbrev pub header_text : ℕ → List ℕ → List ℕ
header_text level m = (opening level ++ m) ++ codes "] "

length-opening : (level : ℕ) → length (opening level) ≡ 9
length-opening level =
    length-append ((b'[' ∷ []) ++ get_level_string level) (codes "] [")
    ∙ ap (λ n. suc n + 3) (length-get_level_string level)

log_header_start :
    (level : ℕ) (m : List ℕ)
    → log_header level m ≡ put_raw (put_text (opening level) m) (codes "] ")
unfolding log_header
log_header_start level m =
    let L = get_level_string level in
    let five = length-get_level_string level in
    ap (λ o. put_raw o (codes "] [") >>= λ n. put_raw (put_text n m) (codes "] "))
      (put_text_fits L (b'[' ∷ []) (omega (arith, five)))
    ∙ ap (λ o. o >>= λ n. put_raw (put_text n m) (codes "] "))
        (put_raw_fits (codes "] [") ((b'[' ∷ []) ++ L) (omega (arith, five)))

pub log_header_fits :
    (level : ℕ) (m : List ℕ) → length m ≤ 500 → log_header level m ≡ some (header_text level m)
log_header_fits level m h =
    let nine = length-opening level in
    log_header_start level m
    ∙ (ap (λ o. put_raw o (codes "] ")) (put_text_fits m (opening level) (omega (arith, nine, h)))
        ∙ put_raw_fits (codes "] ") (opening level ++ m)
            (omega (arith, nine, h, length-append (opening level) m)))

end_line_fits : (out : List ℕ) → length out ≤ 511 → end_line out ≡ some (put_text out (10 ∷ []))
unfolding end_line put put_text
end_line_fits out h = ground (arith, h, longer out 10)

end_line_over : (out : List ℕ) → length out ≡ 512 → end_line out ≡ none
unfolding end_line put
end_line_over out h = ground (arith, h)

second_pass_full :
    (format : List ℕ) (args : List LogArg) (out : List ℕ)
    → length out ≡ 512
    → second_pass false format args out ≡ some out
unfolding second_pass
second_pass_full [] args out h = refl
second_pass_full (c ∷ s) args out h = if_false (ltb (length out) 511) _ _ (ground (arith, h))

line_behind :
    (o : Option (List ℕ)) (format : List ℕ) (args : List LogArg)
    → (o ≡ none) ⊎ ((out : List ℕ) × (o ≡ some out) × (length out ≡ 512))
    → (o >>= λ header. second_pass false format args header >>= end_line) ≡ none
line_behind o format args (inl e) =
    ap (λ u. u >>= λ header. second_pass false format args header >>= end_line) e
line_behind o format args (inr (out, e, full)) =
    ap (λ u. u >>= λ header. second_pass false format args header >>= end_line) e
    ∙ (ap (λ u. u >>= end_line) (second_pass_full format args out full) ∙ end_line_over out full)

close_header :
    (out : List ℕ)
    → 510 ≤ length out
    → length out ≤ 511
    → (put_raw out (codes "] ") ≡ none)
      ⊎ ((o : List ℕ) × (put_raw out (codes "] ") ≡ some o) × (length o ≡ 512))
close_header out low high = elim (Bool-cases (ltb (length out) 511)) [
  | inl room ↦ inr (
    out ++ codes "] ",
    put_raw_fits (codes "] ") out (ground (arith, room)),
    ground (arith, length-append out (codes "] "), room, low),
  )
  | inr full ↦ inl (put_raw_over (codes "] ") out (omega (arith, high)) (ground (arith, full)))
]

-- A line of the log file is not written for a module whose name is longer than 500 characters: the
-- header goes behind the end of log_buffer, whatever the format.
pub log_line_over :
    (level : ℕ) (m format : List ℕ) (args : List LogArg)
    → 500 < length m
    → log_line level m format args ≡ none
unfolding log_line
log_line_over level m format args long =
    let size = length-put_text m (opening level) (omega (arith, length-opening level)) in
    let nine = length-opening level in
    ap (λ o. o >>= λ header. second_pass false format args header >>= end_line)
      (log_header_start level m)
    ∙ line_behind _ format args (
        close_header (put_text (opening level) m) (omega (arith, size, nine, long))
          (omega (arith, size, nine, long)))

abbrev pub IsPlain : List ℕ → Type 0
IsPlain [] = Unit {0}
IsPlain (c ∷ s) = (c ≢ b'%') × IsPlain s

second_pass_plain :
    (format : List ℕ) (args : List LogArg) (out : List ℕ)
    → IsPlain format
    → second_pass false format args out ≡ some (put_text out format)
unfolding second_pass put_text put
second_pass_plain [] args out h = refl
second_pass_plain (c ∷ s) args out h = elim (Bool-cases (ltb (length out) 511)) [
  | inl room ↦
      if_true (ltb (length out) 511) _ _ room
      ∙ (ap (λ b. second_pass b s args (if b then out else put out c)) {y = false}
            (ground (arith, h.0))
          ∙ (ap (second_pass false s args) (if_true (ltb (length out) 511) _ _ room)
              ∙ (second_pass_plain s args (out ++ (c ∷ [])) h.1
                  ∙ ap some (sym (if_true (ltb (length out) 511) _ _ room)))))
  | inr full ↦
      if_false (ltb (length out) 511) _ _ full
      ∙ ap some (sym (if_false (ltb (length out) 511) _ _ full))
]

pub end_line_lem :
    (header format : List ℕ)
    → length header ≤ 511
    → end_line (put_text header format) ≡ some (take 511 ((header ++ format) ++ (10 ∷ [])))
end_line_lem header format h =
    let small : length (put_text header format) ≤ 511 =
      omega (arith, length-put_text format header h) in
    end_line_fits (put_text header format) small
    ∙ ap some (
        put_text-take (10 ∷ []) (put_text header format) small
        ∙ (ap (λ t. take 511 (t ++ (10 ∷ []))) (put_text-take format header h)
            ∙ take-take_append 511 (header ++ format) (10 ∷ [])))

pub length-header_text : (level : ℕ) (m : List ℕ) → length (header_text level m) ≡ 11 + length m
length-header_text level m =
    length-append (opening level ++ m) (codes "] ")
    ∙ (ap (λ n. n + 2)
          (length-append (opening level) m ∙ ap (λ n. n + length m) (length-opening level))
        ∙ omega arith)

-- The header, the format and a newline, cut to the 511 characters that log_buffer has room for.
abbrev pub log_whole : ℕ → List ℕ → List ℕ → List ℕ
log_whole level m format = (header_text level m ++ format) ++ (10 ∷ [])

abbrev pub log_text : ℕ → List ℕ → List ℕ → List ℕ
log_text level m format = take 511 (log_whole level m format)

-- The line of the log file, for a module of at most 500 characters and a format without directives:
-- the header, the format and a newline, cut to the 511 characters that log_buffer has room for.
pub log_line_plain :
    (level : ℕ) (m format : List ℕ) (args : List LogArg)
    → length m ≤ 500
    → IsPlain format
    → log_line level m format args ≡ some (log_text level m format)
unfolding log_line
log_line_plain level m format args short plain =
    ap (λ o. o >>= λ header. second_pass false format args header >>= end_line)
      (log_header_fits level m short)
    ∙ (ap (λ o. o >>= end_line) (second_pass_plain format args (header_text level m) plain)
        ∙ end_line_lem (header_text level m) format
            (omega (arith, length-header_text level m, short)))
