-- ===== src/Abi/Text/Json.antt =====
-- src/abi.rs, `decode_params`: its texts are escaped by `escape_default` and then read as JSON.
use play_evmone.Base.{
  ℕ, ◌≡◌, ◌+◌, ◌*◌, ◌-◌, refl, arith, Bool, true, false, ◌&&◌, ◌||◌, Option, none, some, [], ◌∷◌,
  ◌++◌, leb, ltb, ◌==◌, if◌then◌else◌, Bool-cases, ==_iff, inl, inr,
}
use play_evmone.Abi.{Text}
use play_evmone.Abi.Text.{escape_char, escape_default}

-- The character that a JSON string has for one behind a backslash, by RFC 8259; `u` and its four
-- digits aside.
abbrev simple_escape : ℕ → Option ℕ
simple_escape c =
    if c == 34 || c == 92 || c == b'/'
    then some c
    else if c == b'b'
    then some 8
    else if c == b'f'
    then some 12
    else if c == b'n'
    then some 10
    else if c == b'r'
    then some 13
    else if c == b't'
    then some 9
    else none

abbrev hex_value : ℕ → Option ℕ
hex_value c =
    if leb b'0' c && leb c b'9'
    then some (c - b'0')
    else if leb b'a' c && leb c b'f'
    then some (c - 87)
    else if leb b'A' c && leb c b'F'
    then some (c - 55)
    else none

abbrev push : ℕ → Option Text → Option Text
push c none = none
push c (some cs) = some (c ∷ cs)

-- Between characters, behind a backslash, and with hexadecimal digits still to come.
pub data Mode : Type 0 where
  plain escaped : Mode
  digits : ℕ → ℕ → Mode

-- The text that the inside of a JSON string stands for, by RFC 8259; `none` if it is not one.
-- Surrogates are not joined.
read_string : Mode → Text → Option Text
read_string plain [] = some []
read_string escaped [] = none
read_string (digits n left) [] = none
read_string plain (c ∷ cs) =
    let behind = read_string escaped cs in
    let rest = read_string plain cs in
    if c == 92 then behind else if c == 34 || ltb c 0x20 then none else push c rest
read_string escaped (c ∷ cs) =
    let number = read_string (digits 0 4) cs in
    let rest = read_string plain cs in
    if c == b'u' then number else elim (simple_escape c) [ none ↦ none | some d ↦ push d rest ]
read_string (digits n left) (c ∷ cs) = elim (hex_value c) [
  | none ↦ none
  | some d ↦
      let more = read_string (digits (16 * n + d) (left - 1)) cs in
      let rest = read_string plain cs in if ltb 1 left then more else push (16 * n + d) rest
]

unfoldable pub json_string : Text → Option Text
unfolding read_string
json_string t = read_string plain t

-- A character that is escaped as JSON has it: printable ASCII but the single quote, and tab, line
-- feed and carriage return.
abbrev pub is_json_safe : ℕ → Bool
is_json_safe c =
    if c == 39 then false else c == 9 || c == 10 || c == 13 || (leb 0x20 c && leb c 0x7e)

abbrev pub all_safe : Text → Bool
all_safe [] = true
all_safe (c ∷ cs) = is_json_safe c && all_safe cs

-- A split on whether a character is a given one.
at : {A : Type 0} (c d : ℕ) → (c ≡ d → A) → ((c == d) ≡ false → A) → A
at c d same other = elim (Bool-cases (c == d)) [ inl e ↦ same ((==_iff c d).0 e) | inr e ↦ other e ]

printable : (c : ℕ) → (leb 0x20 c && leb c 0x7e) ≡ true → ltb c 0x20 ≡ false
printable c h = ground arith

read_string-escape_char :
    (c : ℕ) (rest : Text)
    → read_string plain (escape_char c ++ rest)
      ≡ (if is_json_safe c then push c (read_string plain rest) else none)
unfolding read_string escape_char
read_string-escape_char c rest =
    at c 9 (λ e. rw e refl)
      λ tab.
        at c 13 (λ e. rw e refl)
          λ return.
            at c 10 (λ e. rw e refl)
              λ line.
                at c 34 (λ e. rw e refl)
                  λ double.
                    at c 39 (λ e. rw e refl)
                      λ single.
                        at c 92 (λ e. rw e refl)
                          λ slash.
                            rw (tab, return, line, double, single, slash)
                              (elim (Bool-cases (leb 0x20 c && leb c 0x7e)) [
                                | inl e ↦ rw (e, slash, double, printable c e) refl
                                | inr e ↦ rw e refl
                              ])

read_string-escape_default :
    (t : Text) → read_string plain (escape_default t) ≡ (if all_safe t then some t else none)
unfolding read_string escape_default
read_string-escape_default [] = refl
read_string-escape_default (c ∷ cs) =
    rw (read_string-escape_char c (escape_default cs), read_string-escape_default cs)
      (elim (Bool-cases (is_json_safe c)) [
        | inl e ↦
            rw e (elim (Bool-cases (all_safe cs)) [ inl e' ↦ rw e' refl | inr e' ↦ rw e' refl ])
        | inr e ↦ rw e refl
      ])

-- A text that is escaped by `escape_default` is the inside of a JSON string exactly if all its
-- characters are safe, and then of itself: with a single quote, a control character or one that is
-- not ASCII, it is none.
pub json_string-escape_default :
    (t : Text) → json_string (escape_default t) ≡ (if all_safe t then some t else none)
unfolding json_string
json_string-escape_default t = read_string-escape_default t
