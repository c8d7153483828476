-- ===== src/Bram/Init/Kept.antt =====
-- The loop over the file ends, and stays in the memory.
use yosys_f4pga_plugins.Prelude.{
  ℕ, zero, suc, ◌+◌, ◌<◌, ◌≤◌, ◌≡◌, refl, ◌∙◌, Bool, true, false, Bool-cases, Option, none, some,
  List, [], ◌∷◌, arith, inl, inr, get_or, set, replicate, length, length-set, length-replicate, ltb,
  ◌==◌, ltb→lt, lt→ltb,
}
use yosys_f4pga_plugins.Bram.Init.{
  TokenApi, Memory, store_at, store, use_number, ends_line, strip_comments, read_number, read_token,
  read_tokens, read_lines,
}

get_or-set_other : (xs : List ℕ) (c i v : ℕ) → c < i → get_or (set xs c v) i 0 ≡ get_or xs i 0
get_or-set_other [] c i v h = refl
get_or-set_other (x ∷ xs) c zero v h = absurd (omega arith)
get_or-set_other (x ∷ xs) zero (suc i) v h = refl
get_or-set_other (x ∷ xs) (suc c) (suc i) v h = get_or-set_other xs c i v (omega arith)

module _ (api : TokenApi) (depth i : ℕ) (fits : depth ≤ 2048) (behind : depth ≤ i) where
  open api use {Number, next_token, strtol, to_int, to_word, next_token-shorter}

  -- The memory has its size, and word i, behind the depth, is 0.
  record Kept (m : Memory) : Type 0 where
    size : length m.mem ≡ 2048
    blank : get_or m.mem i 0 ≡ 0

  -- The step returns a memory that is kept.
  Keeps : Option Memory → Type 0
  Keeps o = (m : Memory) × (o ≡ some m) × Kept m

  store_at-Keeps :
      (word : ℕ) (m : Memory) (cursor : Option ℕ) → Kept m → Keeps (store_at depth word m cursor)
  unfolding store_at Keeps
  store_at-Keeps word m none h = (m, refl, h)
  store_at-Keeps word m (some c) h = elim (Bool-cases (ltb c depth)) [
    | inr f ↦ (m, rw f refl, h)
    | inl f ↦ (
      record { mem = set m.mem c word; cursor = some (c + 1) },
      rw (f, in_memory f) refl,
      record {
        size = length-set m.mem c word ∙ h.size;
        blank = get_or-set_other m.mem c i word (below f) ∙ h.blank;
      },
    )
  ]
    where
      below : ltb c depth ≡ true → c < i
      below f = omega (arith, ltb→lt c depth f)

      in_memory : ltb c depth ≡ true → ltb c (length m.mem) ≡ true
      in_memory f = lt→ltb c (length m.mem) (omega (arith, ltb→lt c depth f, h.size))

  use_number-Keeps :
      (set_cursor : Bool) (n : Number × List ℕ) (m : Memory)
      → Kept m
      → Keeps (use_number api depth set_cursor n m)
  unfolding use_number store Keeps
  use_number-Keeps set_cursor (n, d ∷ rest) m h = (m, refl, h)
  use_number-Keeps true (n, []) m h =
      (record m { cursor = to_int n }, refl, record { size = h.size; blank = h.blank })
  use_number-Keeps false (n, []) m h = store_at-Keeps (to_word n) m m.cursor h

  read_number-Keeps :
      (set_cursor : Bool) (token : List ℕ) (m : Memory)
      → Kept m
      → Keeps (read_number api depth set_cursor token m)
  unfolding read_number Keeps
  read_number-Keeps set_cursor [] m h = (m, refl, h)
  read_number-Keeps set_cursor (c ∷ token) m h =
      use_number-Keeps set_cursor (strtol (c ∷ token)) m h

  read_token-Keeps : (token : List ℕ) (m : Memory) → Kept m → Keeps (read_token api depth token m)
  unfolding read_token Keeps
  read_token-Keeps [] m h = (m, refl, h)
  read_token-Keeps (c ∷ token) m h = elim (Bool-cases (c == b'@')) [
    | inl e ↦ rw e (read_number-Keeps true token m h)
    | inr e ↦ rw e (read_number-Keeps false (c ∷ token) m h)
  ]

  read_tokens-Keeps :
      (fuel : ℕ) (line : List ℕ) (m : Memory)
      → length line < fuel
      → Kept m
      → Keeps (read_tokens api depth fuel line m)
  unfolding read_tokens Keeps
  read_tokens-Keeps zero line m f h = absurd (omega arith)
  read_tokens-Keeps (suc fuel) line m f h = elim (Bool-cases (ends_line (next_token line).0)) [
    | inl e ↦ (m, rw e refl, h)
    | inr e ↦
        let (m', q, k) = read_token-Keeps (next_token line).0 m h in
        let (m2, r, l) =
          read_tokens-Keeps fuel (next_token line).1 m' (omega (arith, next_token-shorter line e))
            k in
        (m2, rw (read_tokens, e) (rw q r), l)
  ]

  read_lines-Keeps :
      (in_comment : Bool) (lines : List (List ℕ)) (m : Memory)
      → Kept m
      → Keeps (read_lines api depth in_comment lines m)
  unfolding read_lines Keeps
  read_lines-Keeps in_comment [] m h = (m, refl, h)
  read_lines-Keeps in_comment (line ∷ lines) m h =
      let code = (strip_comments in_comment line).0 in
      let (m', q, k) = read_tokens-Keeps (suc (length code)) code m (omega arith) h in
      let (m2, r, l) = read_lines-Keeps (strip_comments in_comment line).1 lines m' k in
      (m2, rw (read_lines, q) r, l)

get_or-replicate_zero : (n i : ℕ) → get_or {A = ℕ} (replicate n 0) i 0 ≡ 0
get_or-replicate_zero zero i = refl
get_or-replicate_zero (suc n) zero = refl
get_or-replicate_zero (suc n) (suc i) = get_or-replicate_zero n i

-- Where the depth is at most 2048, reading any lines from a blank memory ends without a write past
-- the memory, and a word behind the depth is still 0 then.
pub read_lines-within :
    (api : TokenApi) (depth i : ℕ) (lines : List (List ℕ))
    → depth ≤ 2048
    → depth ≤ i
    → (m : Memory) × (read_lines api depth false lines
          (record { mem = replicate 2048 0; cursor = some 0 })
        ≡ some m)
      × (length m.mem ≡ 2048)
      × (get_or m.mem i 0 ≡ 0)
unfolding Keeps
read_lines-within api depth i lines f b =
    let blank : Memory = record { mem = replicate 2048 0; cursor = some 0 } in
    let kept : Kept api depth i f b blank = record {
      size = length-replicate {A = ℕ} 2048 0;
      blank = get_or-replicate_zero 2048 i;
    } in
    let (m, e, k) = read_lines-Keeps api depth i f b false lines blank kept in
    (m, e, k.size, k.blank)
