-- ===== src/Bram/Init/Tests.antt =====
-- A memory file read with tokens of one character, each of which is a number.
use yosys_f4pga_plugins.Prelude.{
  ℕ, ◌+◌, ◌*◌, ◌-◌, ◌/◌, ◌%◌, ◌^◌, ◌<◌, ◌≡◌, false, some, List, [], ◌∷◌, arith, length, get_or,
  replicate,
}
use yosys_f4pga_plugins.Prelude.Text.{codes}
use yosys_f4pga_plugins.Bram.Init.{TokenApi, Memory, ends_line, read_lines, init_string}
use yosys_f4pga_plugins.Bram.Init.Word.{init_string-bit}
use yosys_f4pga_plugins.Bram.Init.Kept.{read_lines-within}

abbrev first_character : List ℕ → List ℕ × List ℕ
first_character [] = ([], [])
first_character (c ∷ s) = (c ∷ [], s)

abbrev number : List ℕ → ℕ × List ℕ
number [] = (0, [])
number (c ∷ s) = (c, s)

shorter :
    (s : List ℕ) → ends_line (first_character s).0 ≡ false → length (first_character s).1 < length s
shorter [] h = absurd (cc h)
shorter (c ∷ s) h = omega arith

abbrev characters : TokenApi
characters = record {
  Number = ℕ;
  next_token = first_character;
  strtol = number;
  to_int = λ n. some n;
  to_word = λ n. n;
  next_token-shorter = shorter;
}

read_lines-within_example :
    (m : Memory) × (read_lines characters 16 false
        (codes "12" ∷ codes "3" ∷ [])
        (record { mem = replicate 2048 0; cursor = some 0 })
      ≡ some m)
    × (length m.mem ≡ 2048)
    × (get_or m.mem 20 0 ≡ 0)
read_lines-within_example =
    read_lines-within characters 16 20 (codes "12" ∷ codes "3" ∷ []) (omega arith) (omega arith)

init_string-bit_example :
    get_or (init_string 8 2 (5 ∷ 6 ∷ [])) (1 * 8 + (8 - 1 - 2)) 0
    ≡ b'0' + get_or (5 ∷ 6 ∷ []) (2 - 1 - 1) 0 / 2 ^ 2 % 2
init_string-bit_example = init_string-bit 8 2 1 2 (5 ∷ 6 ∷ []) (omega arith) (omega arith)
