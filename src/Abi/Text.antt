-- ===== src/Abi/Text.antt =====
-- What src/abi.rs uses of the standard library's texts. A text is the list of its characters, by
-- their code points.
pub mod Json
use play_evmone.Base.{
  ℕ, zero, suc, ◌+◌, ◌/◌, ◌%◌, Bool, true, false, ◌&&◌, ◌||◌, List, [], ◌∷◌, ◌++◌, leb, ltb, ◌==◌,
  if◌then◌else◌,
}
use play_evmone.Abi.{Text}

-- The bytes of a text, `str::as_bytes`.
abbrev utf8_char : ℕ → List ℕ
utf8_char c =
    if ltb c 0x80
    then c ∷ []
    else if ltb c 0x800
    then (0xc0 + c / 64) ∷ (0x80 + c % 64) ∷ []
    else if ltb c 0x10000
    then (0xe0 + c / 4096) ∷ (0x80 + c / 64 % 64) ∷ (0x80 + c % 64) ∷ []
    else (0xf0 + c / 262144) ∷ (0x80 + c / 4096 % 64) ∷ (0x80 + c / 64 % 64) ∷ (0x80 + c % 64) ∷ []

unfoldable pub as_bytes : Text → List ℕ
as_bytes [] = []
as_bytes (c ∷ cs) = utf8_char c ++ as_bytes cs

-- The hexadecimal digits of a number, as many as there are in the first argument at most.
abbrev hex_digit : ℕ → ℕ
hex_digit n = if ltb n 10 then b'0' + n else 87 + n

hex_number : ℕ → ℕ → Text
hex_number zero n = []
hex_number (suc k) n =
    let front = hex_number k (n / 16) in
    if ltb n 16 then hex_digit n ∷ [] else front ++ hex_digit (n % 16) ∷ []

abbrev backslash : ℕ
backslash = 92

-- A double or single quote, or a backslash.
abbrev pub is_quote : ℕ → Bool
is_quote c = c == 34 || c == 39 || c == backslash

-- `char::escape_default`
escape_char : ℕ → Text
unfolding hex_number
escape_char c =
    if c == 9
    then backslash ∷ b't' ∷ []
    else if c == 13
    then backslash ∷ b'r' ∷ []
    else if c == 10
    then backslash ∷ b'n' ∷ []
    else if is_quote c
    then backslash ∷ c ∷ []
    else if leb 0x20 c && leb c 0x7e
    then c ∷ []
    else backslash ∷ b'u' ∷ b'{' ∷ (hex_number 6 c ++ b'}' ∷ [])

-- `str::escape_default`
unfoldable pub escape_default : Text → Text
unfolding escape_char
escape_default [] = []
escape_default (c ∷ cs) = escape_char c ++ escape_default cs
