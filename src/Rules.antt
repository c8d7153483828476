-- ===== src/Rules.antt =====
-- dsp-ff-plugin/dsp_ff.cc: the rules file of the pass `dsp_ff`: its data, and the words of its lines.
--
-- A constant is of a type `C` with a comparison. RTLIL's escape_id and the two readings of a text as a
-- constant are the record `Kernel`. A section of the file that is open is on a stack, the innermost
-- first, and the lists of cell types have the latest first.
pub mod Sections
pub mod Pairs
pub mod Signals
pub mod Load
mod Tests
use yosys_f4pga_plugins.Prelude.{
  ℕ, zero, suc, ◌+◌, ◌*◌, ◌-◌, ◌^◌, ◌≡◌, refl, Bool, true, false, ◌&&◌, ◌||◌, not, Option, none,
  some, List, [], ◌∷◌, ◌++◌, ◌==◌, leb, ltb, if◌then◌else◌, ◌⊎◌, inl, inr,
}
use yosys_f4pga_plugins.Prelude.Equality.{Eq}
use yosys_f4pga_plugins.Prelude.Text.{codes, same_text, text_eq}
use yosys_f4pga_plugins.Prelude.Dict.{same_dict}

-- `rejected` is log_error; `thrown` is std::out_of_range of std::stoi; `undefined` is back() of a list
-- that is empty, or a failed assertion.
pub data Outcome (A : Type 0) : Type 0 where
  rejected thrown undefined : Outcome A
  returned : A → Outcome A

infixl 5 ◌>>=◌
abbrev pub ◌>>=◌ : {A B : Type 0} → Outcome A → (A → Outcome B) → Outcome B
rejected >>= f = rejected
thrown >>= f = thrown
undefined >>= f = undefined
returned a >>= f = f a

pub record Kernel (C : Type 0) : Type 0 where
  pub escape_id : List ℕ → List ℕ
  pub text_const : List ℕ → C
  pub from_string : List ℕ → C
  pub undefined_const : C

pub record FlopType (C : Type 0) : Type 0 where
  pub name : List ℕ
  pub ports : List (List ℕ × List ℕ)
  pub matching : List (List ℕ)
  pub required : List (List ℕ × C)
  pub set : List (List ℕ × C)
  pub map : List (List ℕ × List ℕ)

-- The bits of a port, from low to high, or none where the rule gives no range (-1 in the source).
pub record PortType (C : Type 0) : Type 0 where
  pub name : List ℕ
  pub bits : Option (ℕ × ℕ)
  pub assoc : List (List ℕ × (List ℕ × C))

pub record RegisterType (C : Type 0) : Type 0 where
  pub set : List (List ℕ × C)
  pub map : List (List ℕ × List ℕ)
  pub connect : List (List ℕ × C)

pub record DspType (C : Type 0) : Type 0 where
  pub name : List ℕ
  pub registers : List (RegisterType C × List (PortType C))

unfoldable pub same_register : {C : Type 0} ⦃e : Eq C⦄ → RegisterType C → RegisterType C → Bool
unfolding same_dict
same_register ⦃e⦄ l r =
    same_dict e.beq l.set r.set
    && (same_dict same_text l.map r.map && same_dict e.beq l.connect r.connect)

-- The port goes to the register's entry, if there is one.
unfoldable pub push_existing :
    {C : Type 0} ⦃e : Eq C⦄
    → RegisterType C
    → PortType C
    → List (RegisterType C × List (PortType C))
    → Option (List (RegisterType C × List (PortType C)))
unfolding same_register
push_existing register port [] = none
push_existing register port ((r, ports) ∷ registers) = elim (same_register register r) [
  | true ↦ some ((r, ports ++ (port ∷ [])) ∷ registers)
  | false ↦ elim (push_existing register port registers) [
    | none ↦ none
    | some registers' ↦ some ((r, ports) ∷ registers')
  ]
]

-- registers[register].push_back(port); an entry that is new is the first to be walked.
unfoldable pub push_port :
    {C : Type 0} ⦃e : Eq C⦄
    → RegisterType C
    → PortType C
    → List (RegisterType C × List (PortType C))
    → List (RegisterType C × List (PortType C))
unfolding push_existing
push_port register port registers = elim (push_existing register port registers) [
  | none ↦ (register, port ∷ []) ∷ registers
  | some registers' ↦ registers'
]

-- The white space of a regular expression.
unfoldable pub is_blank : ℕ → Bool
is_blank c = c == b' ' || (leb 9 c && leb c 13)

unfoldable pub no_blank : List ℕ → Bool
unfolding is_blank
no_blank [] = true
no_blank (c ∷ s) = not (is_blank c) && no_blank s

abbrev pub is_empty : {A : Type 0} → List A → Bool
is_empty [] = true
is_empty (a ∷ s) = false

-- The parts in front of and behind the last `=` that has something behind it.
unfoldable pub last_equals : List ℕ → Option (List ℕ × List ℕ)
last_equals [] = none
last_equals (c ∷ s) = elim (last_equals s) [
  | some (key, value) ↦ some (c ∷ key, value)
  | none ↦ if c == b'=' && not (is_empty s) then some ([], s) else none
]

-- (\S+)=(\S+), whose first part takes as much as it can.
unfoldable pub match_name_value : List ℕ → Option (List ℕ × List ℕ)
unfolding last_equals no_blank
match_name_value s =
    if no_blank s
    then elim (last_equals s) [
      | none ↦ none
      | some ([], value) ↦ none
      | some (c ∷ key, value) ↦ some (c ∷ key, value)
    ]
    else none

-- parseNameValue, on the words behind the keyword.
unfoldable pub parse_name_value : List (List ℕ) → Outcome (List (List ℕ × List ℕ))
unfolding match_name_value
parse_name_value [] = returned []
parse_name_value (s ∷ strs) = elim (match_name_value s) [
  | none ↦ rejected
  | some pair ↦ parse_name_value strs >>= λ vec. returned (pair ∷ vec)
]

-- The digits that a text, read from its end, starts with, and the rest.
unfoldable pub digits : List ℕ → List ℕ × List ℕ
digits [] = ([], [])
digits (c ∷ s) =
    let (ds, rest) = digits s in if leb b'0' c && leb c b'9' then (c ∷ ds, rest) else ([], c ∷ s)

-- The number whose digits are given from the last to the first, and std::stoi of it.
unfoldable pub number_of : List ℕ → ℕ
number_of [] = 0
number_of (c ∷ ds) = (c - b'0') + 10 * number_of ds

unfoldable pub stoi : List ℕ → Outcome ℕ
unfolding number_of
stoi ds = if ltb (number_of ds) (2 ^ 31) then returned (number_of ds) else thrown

unfoldable pub reversed : {A : Type 0} → List A → List A → List A
reversed [] acc = acc
reversed (c ∷ s) acc = reversed s (c ∷ acc)

unfoldable pub no_line_end : List ℕ → Bool
no_line_end [] = true
no_line_end (c ∷ s) = not (c == b'\n' || c == 13) && no_line_end s

-- A character of a text, and the rest.
unfoldable pub after : ℕ → List ℕ → Option (List ℕ)
after c [] = none
after c (d ∷ s) = if c == d then some s else none

-- ^(.*)\[([0-9]+):([0-9]+)\], from the end: the name, and the two numbers' digits, reversed.
unfoldable pub match_port : List ℕ → Option (List ℕ × List ℕ × List ℕ)
unfolding after digits reversed no_line_end
match_port s = elim (after b']' (reversed s [])) [
  | none ↦ none
  | some s1 ↦
      let (low, s2) = digits s1 in
      elim (after b':' s2) [
        | none ↦ none
        | some s3 ↦
            let (high, s4) = digits s3 in
            elim (after b'[' s4) [
              | none ↦ none
              | some s5 ↦
                  if is_empty low || (is_empty high || not (no_line_end s5))
                  then none
                  else some (reversed s5 [], high, low)
            ]
      ]
]

-- parsePortName
unfoldable pub parse_port_name : List ℕ → Outcome (List ℕ × Option (ℕ × ℕ))
unfolding match_port stoi
parse_port_name s = elim (match_port s) [
  | none ↦ returned (s, none)
  | some (name, high, low) ↦ stoi high >>= λ hi.
      stoi low >>= λ lo. (if ltb hi lo then rejected else returned (name, some (lo, hi)))
]
