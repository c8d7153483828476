-- ===== src/Iob/Pcf/Line.antt =====
-- One line of a PCF file.
use yosys_f4pga_plugins.Prelude.{
  ℕ, ◌≡◌, ◌≢◌, refl, ap, ◌∙◌, Bool, true, false, Option, none, some, List, [], ◌∷◌, ◌++◌, arith,
}
use yosys_f4pga_plugins.Prelude.Text.{codes, strip}
use yosys_f4pga_plugins.Iob.Pcf.{
  Constraint, is_space, is_name, is_any, span, some_of, all_of, match_hash, match_comment,
  match_end, match_pad, match_gap, match_net, match_names, match_line,
}

-- A name: some characters of [^#\s].
unfoldable pub IsName : List ℕ → Type 0
IsName w = (w ≢ []) × (all_of is_name w ≡ true)

-- Where the class ends.
Stops : (ℕ → Bool) → List ℕ → Type 0
Stops p [] = Unit
Stops p (c ∷ s) = p c ≡ false

span-append :
    (p : ℕ → Bool) (w s : List ℕ) → all_of p w ≡ true → Stops p s → span p (w ++ s) ≡ (w, s)
unfolding span all_of Stops
span-append p [] [] h k = refl
span-append p [] (c ∷ s) h k = rw k refl
span-append p (c ∷ w) s h k = rw (all_of_head, span-append p w s all_of_tail k) refl
  where
    all_of_head : p c ≡ true
    all_of_head = ground arith

    all_of_tail : all_of p w ≡ true
    all_of_tail = ground arith

some_of-append :
    {A : Type 0} (p : ℕ → Bool) (w s : List ℕ) (next : List ℕ → List ℕ → Option A)
    → w ≢ []
    → all_of p w ≡ true
    → Stops p s
    → some_of p (w ++ s) next ≡ next w s
unfolding some_of
some_of-append p [] s next ne h k = absurd (ne refl)
some_of-append p (c ∷ w) s next ne h k =
    rw (some_of, span-append p (c ∷ w) s h k)
      (ap (λ q. next (c ∷ w) q.1) (span-append p (c ∷ w) s h k))

-- Behind a space stands a name, and behind a name a space.
name-Stops : (w s : List ℕ) → IsName w → Stops is_space (w ++ s)
unfolding IsName Stops all_of is_name
name-Stops [] s h = absurd (h.0 refl)
name-Stops (c ∷ w) s h = ground (arith, h.1)

-- The text behind the pad's name: nothing, or a comment.
unfoldable pub comment_text : List ℕ → List ℕ
comment_text [] = []
comment_text (c ∷ s) = b' ' ∷ b'#' ∷ c ∷ s

unfoldable pub constraint_line : Constraint → List ℕ
constraint_line c =
    codes "set_io"
    ++ ((b' ' ∷ []) ++ (c.net_name ++ ((b' ' ∷ []) ++ (c.pad_name ++ comment_text c.comment))))

-- Two names, and a comment of one line.
pub record IsConstraint (c : Constraint) : Type 0 where
  pub net_word : IsName c.net_name
  pub pad_word : IsName c.pad_name
  pub comment_line : all_of is_any c.comment ≡ true

match_comment-text : (s : List ℕ) → all_of is_any s ≡ true → match_comment (comment_text s) ≡ some s
unfolding match_comment comment_text match_hash is_space all_of Stops
match_comment-text [] h = refl
match_comment-text (c ∷ s) h =
    some_of-append is_space (b' ' ∷ []) (b'#' ∷ c ∷ s) (λ w rest. match_hash rest) (λ e. cc) refl
      refl
    ∙ rw h refl

comment_text-Stops : (s : List ℕ) → Stops is_name (comment_text s)
unfolding comment_text Stops is_name is_space
comment_text-Stops [] = tt
comment_text-Stops (c ∷ s) = refl

match_end-comment :
    (net pad s : List ℕ)
    → all_of is_any s ≡ true
    → match_end net pad (comment_text s)
      ≡ some (record { net_name = net; pad_name = pad; comment = s })
unfolding match_end
match_end-comment net pad s h = rw (match_end, match_comment-text s h) refl

-- Behind `set_io`: two names, and what stands behind the pad's name.
behind_set_io : List ℕ → List ℕ → List ℕ → List ℕ
behind_set_io net pad t = (b' ' ∷ []) ++ (net ++ ((b' ' ∷ []) ++ (pad ++ t)))

match_names-tail :
    (net pad t : List ℕ)
    → IsName net
    → IsName pad
    → Stops is_name t
    → match_names (behind_set_io net pad t) ≡ match_end net pad t
unfolding match_names match_net match_gap match_pad behind_set_io is_space is_name all_of Stops
    IsName
match_names-tail net pad t n p k =
    let after_net = (b' ' ∷ []) ++ (pad ++ t) in
    some_of-append is_space (b' ' ∷ []) (net ++ after_net) (λ w rest. match_net rest) (λ e. cc) refl
      (name-Stops net after_net n)
    ∙ some_of-append is_name net after_net match_gap n.0 n.1 refl
    ∙ some_of-append is_space (b' ' ∷ []) (pad ++ t) (λ w rest. match_pad net rest) (λ e. cc) refl
        (name-Stops pad t p)
    ∙ some_of-append is_name pad t (match_end net) p.0 p.1 k

match_line-tail :
    (net pad t : List ℕ)
    → match_line (codes "set_io" ++ behind_set_io net pad t) ≡ match_names (behind_set_io net pad t)
unfolding match_line span is_space behind_set_io strip
match_line-tail net pad t = refl

pub match_line-constraint :
    (c : Constraint) → IsConstraint c → match_line (constraint_line c) ≡ some c
unfolding constraint_line behind_set_io
match_line-constraint c h =
    match_line-tail c.net_name c.pad_name (comment_text c.comment)
    ∙ match_names-tail c.net_name c.pad_name (comment_text c.comment) h.net_word h.pad_word
        (comment_text-Stops c.comment)
    ∙ match_end-comment c.net_name c.pad_name c.comment h.comment_line

-- A constraint with one space, tab or carriage return behind the pad's name does not match.
pub match_line-trailing_space :
    (net pad : List ℕ) (c : ℕ)
    → IsName net
    → IsName pad
    → is_space c ≡ true
    → match_line (codes "set_io" ++ ((b' ' ∷ []) ++ (net ++ ((b' ' ∷ []) ++ (pad ++ (c ∷ []))))))
      ≡ none
unfolding behind_set_io Stops is_name match_comment match_hash all_of match_end
match_line-trailing_space net pad c n p h =
    match_line-tail net pad (c ∷ []) ∙ match_names-tail net pad (c ∷ []) n p (rw h refl) ∙ blank h
  where
    blank_comment : is_space c ≡ true → match_comment (c ∷ []) ≡ none
    blank_comment k =
        some_of-append is_space (c ∷ []) [] (λ w rest. match_hash rest) (λ e. cc) (rw k refl) tt

    blank : is_space c ≡ true → match_end net pad (c ∷ []) ≡ none
    blank k = rw (match_end, blank_comment k) refl
