-- ===== src/Bram/Init.antt =====
-- ql-qlf-plugin/pp3_braminit.cc: the INIT parameter of a RAM block, from a memory file.
--
-- The tokens of a line come from Yosys' `next_token`, and numbers from the C library's `strtol`, which
-- are an interface: `strtol` gives a number and the text behind it, `to_int` is the conversion to a C++
-- int, with `none` for a negative one, and `to_word` that to uint32_t. The loop over the tokens of a
-- line takes fuel. `mem` has 2048 words; the source does not compare data_depth_int with that, and
-- a write past the end, which is undefined there, is `none` here, as is the end of the fuel.
pub mod Word
pub mod Kept
mod Tests
use yosys_f4pga_plugins.Prelude.{
  ℕ, ◌≡◌, zero, suc, ◌+◌, ◌-◌, ◌/◌, ◌%◌, ◌^◌, ◌<◌, Bool, true, false, ◌&&◌, ◌||◌, not, Option, none,
  some, List, [], ◌∷◌, ◌++◌, ◌==◌, ltb, if◌then◌else◌, get_or, set, replicate, length,
}
use yosys_f4pga_plugins.Prelude.Words.{split_on}

-- token.empty() || token.compare(0, 2, "//") == 0
abbrev pub ends_line : List ℕ → Bool
ends_line [] = true
ends_line (c ∷ []) = false
ends_line (c ∷ d ∷ s) = c == b'/' && d == b'/'

pub record TokenApi : Type 1 where
  pub Number : Type 0
  pub next_token : List ℕ → List ℕ × List ℕ
  pub strtol : List ℕ → Number × List ℕ
  pub to_int : Number → Option ℕ
  pub to_word : Number → ℕ
  pub next_token-shorter :
      (s : List ℕ) → ends_line (next_token s).0 ≡ false → length (next_token s).1 < length s

-- The loop that blanks comments, on the rest of a line; the result is the line and in_comment.
unfoldable pub strip_comments : Bool → List ℕ → List ℕ × Bool
strip_comments in_comment [] = ([], in_comment)
strip_comments true (c ∷ []) = (b' ' ∷ [], true)
strip_comments false (c ∷ []) = (c ∷ [], false)
strip_comments true (c ∷ d ∷ s) = elim (c == b'*' && d == b'/') [
  | true ↦ let (line, out) = strip_comments false s in (b' ' ∷ b' ' ∷ line, out)
  | false ↦ let (line, out) = strip_comments true (d ∷ s) in (b' ' ∷ line, out)
]
strip_comments false (c ∷ d ∷ s) = elim (c == b'/' && d == b'*') [
  | true ↦ let (line, out) = strip_comments true (d ∷ s) in (b' ' ∷ line, out)
  | false ↦ let (line, out) = strip_comments false (d ∷ s) in (c ∷ line, out)
]

pub record Memory : Type 0 where
  pub mem : List ℕ
  pub cursor : Option ℕ

-- if (cursor >= 0 && cursor < ramDataDepth) mem[cursor++] = value
unfoldable pub store_at : ℕ → ℕ → Memory → Option ℕ → Option Memory
store_at depth word m none = some m
store_at depth word m (some c) =
    if ltb c depth
    then if ltb c (length m.mem)
      then some (record { mem = set m.mem c word; cursor = some (c + 1) })
      else none
    else some m

unfoldable pub store : ℕ → ℕ → Memory → Option Memory
unfolding store_at
store depth word m = store_at depth word m m.cursor

-- std::bitset<W>(word).to_string()
unfoldable pub word_bits : ℕ → ℕ → List ℕ
word_bits zero word = []
word_bits (suc b) word = (b'0' + word / 2 ^ b % 2) ∷ word_bits b word

-- for (i = ramDataDepth - 1; i >= 0; i--) val += ...
unfoldable pub init_string : ℕ → ℕ → List ℕ → List ℕ
unfolding word_bits
init_string width zero mem = []
init_string width (suc i) mem = word_bits width (get_or mem i 0) ++ init_string width i mem

module _ (api : TokenApi) where
  open api use {Number, next_token, strtol, to_int, to_word}

  -- A number with the text behind it, as an address or as a value: where there is text, the token is
  -- passed over.
  unfoldable pub use_number : ℕ → Bool → Number × List ℕ → Memory → Option Memory
  unfolding store
  use_number depth set_cursor (n, d ∷ rest) m = some m
  use_number depth true (n, []) m = some (record m { cursor = to_int n })
  use_number depth false (n, []) m = store depth (to_word n) m

  -- if (!*nptr || *endptr), and what follows
  unfoldable pub read_number : ℕ → Bool → List ℕ → Memory → Option Memory
  unfolding use_number
  read_number depth set_cursor [] m = some m
  read_number depth set_cursor (c ∷ token) m = use_number depth set_cursor (strtol (c ∷ token)) m

  -- if (token[0] == '@') { token = token.substr(1); set_cursor = true; }
  unfoldable pub read_token : ℕ → List ℕ → Memory → Option Memory
  unfolding read_number
  read_token depth [] m = some m
  read_token depth (c ∷ token) m =
      if c == b'@' then read_number depth true token m else read_number depth false (c ∷ token) m

  -- while (1), with fuel
  unfoldable pub read_tokens : ℕ → ℕ → List ℕ → Memory → Option Memory
  unfolding read_token
  read_tokens depth zero line m = none
  read_tokens depth (suc fuel) line m =
      if ends_line (next_token line).0
      then some m
      else elim (read_token depth (next_token line).0 m) [
        | none ↦ none
        | some m' ↦ read_tokens depth fuel (next_token line).1 m'
      ]

  -- while (!f.eof()), over the lines of the file
  unfoldable pub read_lines : ℕ → Bool → List (List ℕ) → Memory → Option Memory
  unfolding read_tokens strip_comments
  read_lines depth in_comment [] m = some m
  read_lines depth in_comment (line ∷ lines) m =
      let (code, still) = strip_comments in_comment line in
      elim (read_tokens depth (suc (length code)) code m) [
        | none ↦ none
        | some m' ↦ read_lines depth still lines m'
      ]

  -- memset, the loop over the file's lines, and the string, where the width is one of the three that
  -- are supported; `some none` is a width that is not.
  unfoldable pub braminit : ℕ → ℕ → List ℕ → Option (Option (List ℕ))
  unfolding read_lines init_string
  braminit width depth content =
      elim (read_lines depth false (split_on b'\n' content)
        (record { mem = replicate 2048 0; cursor = some 0 })) [
          | none ↦ none
          | some m ↦ some (
              if width == 8 || (width == 16 || width == 32)
              then some (init_string width depth m.mem)
              else none)
        ]
