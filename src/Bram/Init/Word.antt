-- ===== src/Bram/Init/Word.antt =====
-- The bits of the INIT string.
use yosys_f4pga_plugins.Prelude.{
  ℕ, zero, suc, ◌+◌, ◌-◌, ◌*◌, ◌/◌, ◌%◌, ◌^◌, ◌<◌, ◌≡◌, refl, sym, ap, ◌∙◌, List, [], ◌∷◌, ◌++◌,
  arith, length, get_or, ◌==◌, ==_iff, Bool-cases, false, inl, inr,
}
use yosys_f4pga_plugins.Bram.Init.{word_bits, init_string}

length-word_bits : (width word : ℕ) → length (word_bits width word) ≡ width
unfolding word_bits
length-word_bits zero word = refl
length-word_bits (suc b) word = ap suc (length-word_bits b word)

word_bits-bit :
    (width word b : ℕ)
    → b < width
    → get_or (word_bits width word) (width - 1 - b) 0 ≡ b'0' + word / 2 ^ b % 2
unfolding word_bits
word_bits-bit zero word b h = absurd (omega arith)
word_bits-bit (suc w) word b h = elim (Bool-cases (b == w)) [
  | inl e ↦
      let same = (==_iff b w).0 e in
      ap (λ i. get_or (word_bits (suc w) word) i 0) (first same)
      ∙ ap (λ i. b'0' + word / 2 ^ i % 2) (sym same)
  | inr e ↦
      ap (λ i. get_or (word_bits (suc w) word) i 0) (later e)
      ∙ word_bits-bit w word b (ground arith)
]
  where
    first : b ≡ w → suc w - 1 - b ≡ 0
    first e = omega arith

    later : (b == w) ≡ false → suc w - 1 - b ≡ suc (w - 1 - b)
    later e = ground arith

get_or-append_left :
    (xs ys : List ℕ) (i : ℕ) → i < length xs → get_or (xs ++ ys) i 0 ≡ get_or xs i 0
get_or-append_left [] ys i h = absurd (omega arith)
get_or-append_left (x ∷ xs) ys zero h = refl
get_or-append_left (x ∷ xs) ys (suc i) h = get_or-append_left xs ys i (omega arith)

get_or-append_right : (xs ys : List ℕ) (i : ℕ) → get_or (xs ++ ys) (length xs + i) 0 ≡ get_or ys i 0
get_or-append_right [] ys i = at_index (omega arith)
  where
    at_index : 0 + i ≡ i → get_or ys (0 + i) 0 ≡ get_or ys i 0
    at_index e = ap (λ j. get_or ys j 0) e
get_or-append_right (x ∷ xs) ys i =
    ap (λ j. get_or (x ∷ (xs ++ ys)) j 0) index ∙ get_or-append_right xs ys i
  where
    index : suc (length xs) + i ≡ suc (length xs + i)
    index = omega arith

-- The INIT string holds the words from the last to the first, each with its highest bit first: for
-- word i and bit b of it, the character that stands b places before the end of the part of word i is
-- the digit of that bit.
pub init_string-bit :
    (width depth k b : ℕ) (mem : List ℕ)
    → k < depth
    → b < width
    → get_or (init_string width depth mem) (k * width + (width - 1 - b)) 0
      ≡ b'0' + get_or mem (depth - 1 - k) 0 / 2 ^ b % 2
unfolding init_string
init_string-bit width zero k b mem h l = absurd (omega arith)
init_string-bit width (suc d) zero b mem h l =
    ap (λ i. get_or (init_string width (suc d) mem) i 0) zero_index
    ∙ get_or-append_left (word_bits width (get_or mem d 0)) (init_string width d mem)
        (width - 1 - b) (omega (arith, length-word_bits width (get_or mem d 0)))
    ∙ word_bits-bit width (get_or mem d 0) b l
    ∙ ap (λ i. b'0' + get_or mem i 0 / 2 ^ b % 2) word_index
  where
    word_index : d ≡ suc d - 1 - 0
    word_index = omega arith

    zero_index : 0 * width + (width - 1 - b) ≡ width - 1 - b
    zero_index = omega arith
init_string-bit width (suc d) (suc k) b mem h l =
    ap (λ i. get_or (init_string width (suc d) mem) i 0) next_index
    ∙ get_or-append_right (word_bits width (get_or mem d 0)) (init_string width d mem)
        (k * width + (width - 1 - b))
    ∙ init_string-bit width d k b mem (omega arith) l
    ∙ ap (λ i. b'0' + get_or mem i 0 / 2 ^ b % 2) word_index
  where
    word_index : d - 1 - k ≡ suc d - 1 - suc k
    word_index = omega arith

    next_index :
        suc k * width + (width - 1 - b)
        ≡ length (word_bits width (get_or mem d 0)) + (k * width + (width - 1 - b))
    next_index = omega (arith, length-word_bits width (get_or mem d 0))
