-- ===== src/Prelude/Words.antt =====
-- Texts as words between spaces and lines between newlines.
use mathlib.Core.List.{append_assoc, append-nil}
use Prim.Native.Nat.{ℕ}
use mathlib.Core.Path.{◌≡◌, refl, ap, ◌∙◌, sym}
use mathlib.Core.Bool.{Bool, true, ◌&&◌, not}
use mathlib.Core.List.{List, [], ◌∷◌, ◌++◌}
use yosys_f4pga_plugins.Prelude.Tests.{◌==◌, if◌then◌else◌, Bool-cases, ≢→==false, ==_self}
use native.Mathlib.Omega.{arith}
use yosys_f4pga_plugins.Prelude.Lists.{All, All-append}
use mathlib.Core.Logic.{◌≢◌, inl, inr}

-- A character in front of the first of some words.
unfoldable pub onto_first : ℕ → List (List ℕ) → List (List ℕ)
onto_first c [] = (c ∷ []) ∷ []
onto_first c (w ∷ ws) = (c ∷ w) ∷ ws

-- The parts of a text between separators.
unfoldable pub split_on : ℕ → List ℕ → List (List ℕ)
split_on sep [] = [] ∷ []
split_on sep (c ∷ s) =
    let rest = split_on sep s in if c == sep then [] ∷ rest else onto_first c rest

-- Without the parts that are empty.
unfoldable pub filled : List (List ℕ) → List (List ℕ)
filled [] = []
filled ([] ∷ ws) = filled ws
filled ((c ∷ w) ∷ ws) = (c ∷ w) ∷ filled ws

unfoldable pub words : List ℕ → List (List ℕ)
unfolding split_on filled
words s = filled (split_on b' ' s)

unfoldable pub lines : List ℕ → List (List ℕ)
unfolding split_on filled
lines s = filled (split_on b'\n' s)

-- Texts without a separator, and words: not empty, with no space and no newline in them.
abbrev pub Free : ℕ → List ℕ → Type 0
Free sep s = All (λ c. c ≢ sep) s

unfoldable pub IsWord : List ℕ → Type 0
IsWord w = (w ≢ []) × Free b' ' w × Free b'\n' w

-- A test for the first on a concrete text.
unfoldable pub is_free : ℕ → List ℕ → Bool
is_free sep [] = true
is_free sep (c ∷ s) = not (c == sep) && is_free sep s

pub is_free-Free : (sep : ℕ) (s : List ℕ) → is_free sep s ≡ true → Free sep s
unfolding is_free
is_free-Free sep [] h = tt
is_free-Free sep (c ∷ s) h = (ground arith, is_free-Free sep s (ground arith))

pub split_on-append :
    (sep : ℕ) (w s : List ℕ) → Free sep w → split_on sep (w ++ (sep ∷ s)) ≡ w ∷ split_on sep s
unfolding split_on onto_first
split_on-append sep [] s f = rw (==_self sep) refl
split_on-append sep (c ∷ w) s f = rw (≢→==false c sep f.0, split_on-append sep w s f.1) refl

pub split_on-Free : (sep : ℕ) (w : List ℕ) → Free sep w → split_on sep w ≡ w ∷ []
unfolding split_on onto_first
split_on-Free sep [] f = refl
split_on-Free sep (c ∷ w) f = rw (≢→==false c sep f.0, split_on-Free sep w f.1) refl

pub filled-cons : (w : List ℕ) (ws : List (List ℕ)) → w ≢ [] → filled (w ∷ ws) ≡ w ∷ filled ws
unfolding filled
filled-cons [] ws h = absurd (h refl)
filled-cons (c ∷ w) ws h = refl

pub words-append : (w s : List ℕ) → Free b' ' w → w ≢ [] → words (w ++ (b' ' ∷ s)) ≡ w ∷ words s
unfolding words
words-append w s f h = ap filled (split_on-append b' ' w s f) ∙ filled-cons w (split_on b' ' s) h

pub words-Free : (w : List ℕ) → Free b' ' w → w ≢ [] → words w ≡ w ∷ []
unfolding words filled
words-Free w f h = ap filled (split_on-Free b' ' w f) ∙ filled-cons w [] h

pub lines-append : (w s : List ℕ) → Free b'\n' w → w ≢ [] → lines (w ++ (b'\n' ∷ s)) ≡ w ∷ lines s
unfolding lines
lines-append w s f h = ap filled (split_on-append b'\n' w s f) ∙ filled-cons w (split_on b'\n' s) h

-- Words, each behind a space.
unfoldable pub spaced : List (List ℕ) → List ℕ
spaced [] = []
spaced (w ∷ ws) = b' ' ∷ (w ++ spaced ws)

pub spaced-append : (vs ws : List (List ℕ)) → spaced (vs ++ ws) ≡ spaced vs ++ spaced ws
unfolding spaced
spaced-append [] ws = refl
spaced-append (v ∷ vs) ws =
    ap (λ s. b' ' ∷ s)
      (ap (λ s. v ++ s) (spaced-append vs ws) ∙ sym (append_assoc v (spaced vs) (spaced ws)))

-- Read back, the words are those that were written.
pub words-spaced :
    (w : List ℕ) (ws : List (List ℕ)) → IsWord w → All IsWord ws → words (w ++ spaced ws) ≡ w ∷ ws
unfolding spaced IsWord
words-spaced w [] h hs = ap words (append-nil w) ∙ words-Free w h.1 h.0
words-spaced w (v ∷ ws) h hs =
    words-append w (v ++ spaced ws) h.1 h.0 ∙ ap (λ r. w ∷ r) (words-spaced v ws hs.0 hs.1)

pub spaced-Free : (ws : List (List ℕ)) → All IsWord ws → Free b'\n' (spaced ws)
unfolding spaced IsWord
spaced-Free [] h = tt
spaced-Free (w ∷ ws) h =
    (λ e. omega arith, All-append (λ c. c ≢ b'\n') w (spaced ws) h.0.2 (spaced-Free ws h.1))

-- One line of words in front of a text.
pub lines-spaced :
    (w : List ℕ) (ws : List (List ℕ)) (s : List ℕ)
    → IsWord w
    → All IsWord ws
    → lines ((w ++ spaced ws) ++ (b'\n' ∷ s)) ≡ (w ++ spaced ws) ∷ lines s
unfolding IsWord
lines-spaced w ws s h hs =
    lines-append (w ++ spaced ws) s
      (All-append (λ c. c ≢ b'\n') w (spaced ws) h.2 (spaced-Free ws hs)) (filled_first w h.0)
  where
    filled_first : (v : List ℕ) → v ≢ [] → v ++ spaced ws ≢ []
    filled_first [] k = absurd (k refl)
    filled_first (c ∷ v) k = λ e. cc

-- Words, each in front of a space.
unfoldable pub closed : List (List ℕ) → List ℕ
closed [] = []
closed (w ∷ ws) = w ++ (b' ' ∷ closed ws)

pub closed-append : (vs ws : List (List ℕ)) → closed (vs ++ ws) ≡ closed vs ++ closed ws
unfolding closed
closed-append [] ws = refl
closed-append (v ∷ vs) ws =
    ap (λ s. v ++ (b' ' ∷ s)) (closed-append vs ws)
    ∙ sym (append_assoc v (b' ' ∷ closed vs) (closed ws))

pub words-closed :
    (ws : List (List ℕ)) (s : List ℕ) → All IsWord ws → words (closed ws ++ s) ≡ ws ++ words s
unfolding closed IsWord
words-closed [] s h = refl
words-closed (w ∷ ws) s h =
    ap words (append_assoc w (b' ' ∷ closed ws) s)
    ∙ words-append w (closed ws ++ s) h.0.1 h.0.0
    ∙ ap (λ r. w ∷ r) (words-closed ws s h.1)

-- There is always a first part.
pub split_on-nonempty :
    (sep : ℕ) (s : List ℕ) → (w : List ℕ) × (ws : List (List ℕ)) × (split_on sep s ≡ w ∷ ws)
unfolding split_on onto_first
split_on-nonempty sep [] = ([], [], refl)
split_on-nonempty sep (c ∷ s) =
    let (w, ws, e) = split_on-nonempty sep s in
    elim (Bool-cases (c == sep)) [
      | inl q ↦ ([], split_on sep s, rw q refl)
      | inr q ↦ (c ∷ w, ws, rw (q, e) refl)
    ]

-- Parts with a separator between them.
unfoldable pub joined : ℕ → List (List ℕ) → List ℕ
joined sep [] = []
joined sep (w ∷ []) = w
joined sep (w ∷ v ∷ ws) = w ++ (sep ∷ joined sep (v ∷ ws))

pub split_on-joined :
    (sep : ℕ) (w : List ℕ) (ws : List (List ℕ))
    → All (Free sep) (w ∷ ws)
    → split_on sep (joined sep (w ∷ ws)) ≡ w ∷ ws
unfolding joined
split_on-joined sep w [] h = split_on-Free sep w h.0
split_on-joined sep w (v ∷ ws) h =
    split_on-append sep w (joined sep (v ∷ ws)) h.0 ∙ ap (λ r. w ∷ r) (split_on-joined sep v ws h.1)
