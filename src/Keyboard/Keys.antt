-- ===== src/Keyboard/Keys.antt =====
-- What read_key returns.
use os_from_zero.Base.{
  ℕ, zero, suc, ◌≤◌, ◌≡◌, ◌≢◌, ◌⊎◌, inl, inr, Bool, true, false, Option, some, List, [], ◌∷◌, arith,
  ◌==◌, ltb, get_or, ==_iff, if◌then◌else◌, Bool-cases, test_bit, leb, ◌&&◌, ◌||◌, ◌++◌, if_true,
  if_false, refl, ap, sym, ◌∙◌,
}
use os_from_zero.Mouse.{Mouse, mouse_handle_interrupt}
use os_from_zero.Mouse.Bounds.{OnScreen, mouse_handle_interrupt-OnScreen}
use os_from_zero.Keyboard.{scancode_to_ascii, key_of, Poll, read_key}

-- Entries that are the editor's characters: backspace, tab, newline and the printable ones.
abbrev pub IsKey : ℕ → Type 0
IsKey c = (c ≡ 8) ⊎ ((c ≡ 9) ⊎ ((c ≡ 10) ⊎ ((32 ≤ c) × (c ≤ 126))))

abbrev all_keys : List ℕ → Bool
all_keys [] = true
all_keys (c ∷ s) =
    (c == 0 || (c == 8 || (c == 9 || (c == 10 || (leb 32 c && leb c 126))))) && all_keys s

get_or-IsKey : (s : List ℕ) (i : ℕ) → all_keys s ≡ true → get_or s i 0 ≢ 0 → IsKey (get_or s i 0)
get_or-IsKey [] i h ne = absurd (ne refl)
get_or-IsKey (c ∷ s) zero h ne = ground arith
get_or-IsKey (c ∷ s) (suc i) h ne = get_or-IsKey s i (ground arith) ne

returned :
    (k c : ℕ) (m m' : Mouse) (polls rest : List Poll)
    → let got : Option (ℕ × Mouse × List Poll) = some (k, m, polls) in
      got ≡ some (c, m', rest) → (k ≡ c) × (m ≡ m') × (polls ≡ rest)
returned k c m m' polls rest e = ground arith

key_of-IsKey : (scancode : ℕ) → key_of scancode ≢ 0 → IsKey (key_of scancode)
unfolding key_of
key_of-IsKey scancode ne = elim (Bool-cases (ltb scancode 128)) [
  | inl press ↦
      let entry = if_true (ltb scancode 128) (get_or scancode_to_ascii scancode 0) 0 press in
      rw entry (get_or-IsKey scancode_to_ascii scancode refl (λ e. ne (entry ∙ e)))
  | inr release ↦ absurd (ne (if_false (ltb scancode 128) _ _ release))
]

-- A poll that brings no character: there is no byte, it is one of the mouse, or its key has none.
abbrev pub IsIdle : Poll → Type 0
IsIdle p =
    (test_bit p.status 0 ≡ false)
    ⊎ ((test_bit p.status 0 ≡ true) × ((test_bit p.status 5 ≡ true) ⊎ (key_of p.byte ≡ 0)))

abbrev pub AllIdle : List Poll → Type 0
AllIdle [] = Unit {0}
AllIdle (p ∷ ps) = IsIdle p × AllIdle ps

-- The mouse when it has taken those of the bytes that are its own.
abbrev pub mouse_after : Mouse → List Poll → Mouse
mouse_after m [] = m
mouse_after m (p ∷ ps) =
    mouse_after
      (if test_bit p.status 0 && test_bit p.status 5
        then mouse_handle_interrupt m p.mouse_statuses p.byte
        else m)
      ps

-- The first of the polls that brings a character brings `c`, before `rest`, and the mouse is `m'`
-- by then.
pub record FirstKey (m : Mouse) (polls : List Poll) (c : ℕ) (m' : Mouse) (rest : List Poll)
    : Type 0 where
  pub seen : List Poll
  pub key : Poll
  pub split : polls ≡ seen ++ (key ∷ rest)
  pub idle : AllIdle seen
  pub full : test_bit key.status 0 ≡ true
  pub from_keyboard : test_bit key.status 5 ≡ false
  pub code : key_of key.byte ≡ c
  pub mouse : m' ≡ mouse_after m seen

passed :
    (m m₁ : Mouse) (p : Poll) (polls : List Poll) (c : ℕ) (m' : Mouse) (rest : List Poll)
    → IsIdle p
    → (if test_bit p.status 0 && test_bit p.status 5
        then mouse_handle_interrupt m p.mouse_statuses p.byte
        else m)
      ≡ m₁
    → FirstKey m₁ polls c m' rest
    → FirstKey m (p ∷ polls) c m' rest
passed m m₁ p polls c m' rest idle moved f = record {
  seen = p ∷ f.seen;
  key = f.key;
  split = ap (λ ps. p ∷ ps) f.split;
  idle = (idle, f.idle);
  full = f.full;
  from_keyboard = f.from_keyboard;
  code = f.code;
  mouse = f.mouse ∙ ap (λ k. mouse_after k f.seen) (sym moved);
}

-- Whatever the controller answers, a key that read_key returns is the first of the polls that
-- brings a character: a backspace, a tab, a newline or a printable character. The polls behind it
-- are left, and the mouse has taken its bytes before it and stays on the screen.
pub read_key-IsKey :
    (m : Mouse) (polls : List Poll) (c : ℕ) (m' : Mouse) (rest : List Poll)
    → OnScreen m
    → read_key m polls ≡ some (c, m', rest)
    → IsKey c × OnScreen m' × FirstKey m polls c m' rest
unfolding read_key
read_key-IsKey m [] c m' rest h e = ground arith
read_key-IsKey m (p ∷ polls) c m' rest h e = elim (Bool-cases (test_bit p.status 0)) [
  | inr empty ↦
      let (key, on, first) = read_key-IsKey m polls c m' rest h (rw empty at e) in
      (key, on, passed m m p polls c m' rest (inl empty) (ground (arith, empty)) first)
  | inl full ↦ elim (Bool-cases (test_bit p.status 5)) [
    | inl from_mouse ↦
        let m₁ = mouse_handle_interrupt m p.mouse_statuses p.byte in
        let (key, on, first) =
          read_key-IsKey m₁ polls c m' rest
            (mouse_handle_interrupt-OnScreen m p.mouse_statuses p.byte h)
            (rw (full, from_mouse) at e) in
        (
          key,
          on,
          passed m m₁ p polls c m' rest (inr (full, inl from_mouse))
              (ground (arith, full, from_mouse)) first,
        )
    | inr from_keyboard ↦ elim (Bool-cases (key_of p.byte == 0)) [
      | inl no_key ↦
          let (key, on, first) =
            read_key-IsKey m polls c m' rest h (rw (full, from_keyboard, no_key) at e) in
          (
            key,
            on,
            passed m m p polls c m' rest (inr (full, inr ((==_iff (key_of p.byte) 0).0 no_key)))
                (ground (arith, full, from_keyboard)) first,
          )
      | inr key ↦
          let (same_c, same_m, same_rest) =
            returned (key_of p.byte) c m m' polls rest (rw (full, from_keyboard, key) at e) in
          (
            rw (sym same_c) (key_of-IsKey p.byte (ground arith)),
            rw (sym same_m) h,
            record {
              seen = [];
              key = p;
              split = ap (λ ps. p ∷ ps) same_rest;
              idle = tt;
              full = full;
              from_keyboard = from_keyboard;
              code = same_c;
              mouse = sym same_m;
            },
          )
    ]
  ]
]
