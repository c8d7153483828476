-- ===== src/Iob/Pinmap/Accepts.antt =====
-- Which pinmap files are accepted.
use yosys_f4pga_plugins.Prelude.{
  ℕ, ◌≤◌, ◌≡◌, ◌↔◌, ◌≢◌, refl, sym, ap, ◌∙◌, true, false, none, some, Option-cases, List, [], ◌∷◌,
  ◌++◌, All, length, arith, inl, inr,
}
use yosys_f4pga_plugins.Prelude.Words.{split_on}
use yosys_f4pga_plugins.Iob.Pinmap.{
  Entry, PinmapParser, get_fields, parse_row, parse_data, parse-split, parse,
}

-- A line is empty, or has at most as many fields as there are columns.
unfoldable pub Fits : ℕ → List ℕ → Type 0
Fits columns [] = Unit
Fits columns (c ∷ line) = length (get_fields (c ∷ line)) ≤ columns

parse_row-fits :
    (fields data_ : List (List ℕ)) (entry : Entry)
    → length data_ ≤ length fields
    → (e : Entry) × (parse_row fields data_ entry ≡ some e)
unfolding parse_row
parse_row-fits fields [] entry h = (entry, refl)
parse_row-fits [] (d ∷ data_) entry h = absurd (omega arith)
parse_row-fits (f ∷ fields) (d ∷ data_) entry h = parse_row-fits fields data_ _ (omega arith)

parse_row-some :
    (fields data_ : List (List ℕ)) (entry e : Entry)
    → parse_row fields data_ entry ≡ some e
    → length data_ ≤ length fields
unfolding parse_row
parse_row-some fields [] entry e h = omega arith
parse_row-some [] (d ∷ data_) entry e h = absurd (cc h)
parse_row-some (f ∷ fields) (d ∷ data_) entry e h = omega (arith, parse_row-some fields data_ _ e h)

parse_data-Fits :
    (rest : List (List ℕ)) (p : PinmapParser)
    → All (Fits (length p.fields)) rest
    → (parse_data rest p).0 ≡ true
unfolding parse_data Fits
parse_data-Fits [] p h = refl
parse_data-Fits ([] ∷ rest) p h = parse_data-Fits rest p h.1
parse_data-Fits ((c ∷ line) ∷ rest) p h =
    let (e, q) = parse_row-fits p.fields (get_fields (c ∷ line)) [] h.0 in
    rw (parse_data, q) (parse_data-Fits rest _ h.1)

parse_data-true :
    (rest : List (List ℕ)) (p : PinmapParser)
    → (parse_data rest p).0 ≡ true
    → All (Fits (length p.fields)) rest
unfolding parse_data Fits
parse_data-true [] p h = tt
parse_data-true ([] ∷ rest) p h = (tt, parse_data-true rest p h)
parse_data-true ((c ∷ line) ∷ rest) p h =
    elim (Option-cases (parse_row p.fields (get_fields (c ∷ line)) [])) [
      | inl q ↦ absurd (false_ne_true (sym (rejected q) ∙ h))
      | inr (e, q) ↦ (
        parse_row-some p.fields (get_fields (c ∷ line)) [] e q,
        parse_data-true rest _ (sym (accepted e q) ∙ h),
      )
    ]
  where
    false_ne_true : false ≢ true
    false_ne_true k = cc

    rejected :
        parse_row p.fields (get_fields (c ∷ line)) [] ≡ none
        → (parse_data ((c ∷ line) ∷ rest) p).0 ≡ false
    rejected q = rw (parse_data, q) refl

    accepted :
        (e : Entry)
        → parse_row p.fields (get_fields (c ∷ line)) [] ≡ some e
        → (parse_data ((c ∷ line) ∷ rest) p).0
          ≡ (parse_data rest (record p { entries = p.entries ++ (e ∷ []) })).0
    accepted e q = rw (parse_data, q) refl

-- A file is accepted exactly if it can be opened and no line after the first has more fields than the
-- first, empty lines aside.
pub parse-accepts :
    (header : List ℕ) (rest : List (List ℕ)) (content : List ℕ) (p : PinmapParser)
    → split_on b'\n' content ≡ header ∷ rest
    → ((parse (some content) p).0 ≡ true) ↔ All (Fits (length (get_fields header))) rest
parse-accepts header rest content p h =
    let q = record p { fields = get_fields header; entries = [] } in
    let same = ap (λ r. r.0) (parse-split content header rest p h) in
    (λ k. parse_data-true rest q (sym same ∙ k), λ k. same ∙ parse_data-Fits rest q k)
