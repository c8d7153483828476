-- ===== src/Rules/Sections.antt =====
-- dsp-ff-plugin/dsp_ff.cc: what load_rules does with the words of one line.
use yosys_f4pga_plugins.Prelude.{ℕ, List, [], ◌∷◌, map}
use yosys_f4pga_plugins.Prelude.Equality.{Eq}
use yosys_f4pga_plugins.Prelude.Text.{codes, text_eq}
use yosys_f4pga_plugins.Prelude.Dict.{insert_new}
use yosys_f4pga_plugins.Rules.{
  Outcome, rejected, undefined, returned, ◌>>=◌, Kernel, FlopType, PortType, RegisterType, DspType,
  push_port, parse_port_name,
}

pub data Section : Type 0 where
  dsp port ff : Section

-- The variables of load_rules.
pub record Loader (C : Type 0) : Type 0 where
  pub tok : List Section
  pub dsp_types : List (DspType C)
  pub flop_types : List (FlopType C)
  pub dsp_aliases : List (List ℕ)
  pub port_names : List (List ℕ)
  pub port_type : PortType C
  pub register_type : RegisterType C

-- A change of the last element.
unfoldable pub with_back : {A : Type 0} → (A → A) → List A → Outcome (List A)
with_back f [] = undefined
with_back f (a ∷ rest) = returned (f a ∷ rest)

module _ {C : Type 0} ⦃const_eq : Eq C⦄ (kernel : Kernel C) where
  abbrev pub escaped : List (List ℕ) → List (List ℕ)
  escaped = map kernel.escape_id

  abbrev pub empty_register : RegisterType C
  empty_register = record { set = []; map = []; connect = [] }

  -- An entry of a dictionary of constants, and of names, for each pair.
  unfoldable pub consts_of : List (List ℕ × List ℕ) → List (List ℕ × C) → List (List ℕ × C)
  unfolding insert_new
  consts_of [] m = m
  consts_of ((key, value) ∷ vec) m =
      consts_of vec (insert_new (kernel.escape_id key) (kernel.text_const value) m)

  unfoldable pub names_of : List (List ℕ × List ℕ) → List (List ℕ × List ℕ) → List (List ℕ × List ℕ)
  unfolding insert_new
  names_of [] m = m
  names_of ((key, value) ∷ vec) m =
      names_of vec (insert_new (kernel.escape_id key) (kernel.escape_id value) m)

  -- The dictionary of a new port, and of a new flip-flop type.
  unfoldable pub no_assoc : List (List ℕ × (List ℕ × C))
  unfolding insert_new
  no_assoc =
      insert_new (kernel.escape_id (codes "ena")) ([], kernel.undefined_const)
        (insert_new (kernel.escape_id (codes "rst")) ([], kernel.undefined_const)
          (insert_new (kernel.escape_id (codes "clk")) ([], kernel.undefined_const) []))

  unfoldable pub new_flop_type : List ℕ → FlopType C
  unfolding insert_new
  new_flop_type name = record {
    name = kernel.escape_id name;
    ports = insert_new (kernel.escape_id (codes "q")) [] (
        insert_new (kernel.escape_id (codes "d")) [] (
          insert_new (kernel.escape_id (codes "ena")) [] (
            insert_new (kernel.escape_id (codes "rst")) []
              (insert_new (kernel.escape_id (codes "clk")) [] []))));
    matching = [];
    required = [];
    set = [];
    map = [];
  }

  -- Each rule gets the words behind its keyword.
  unfoldable pub dsp_rule : List (List ℕ) → Loader C → Outcome (Loader C)
  dsp_rule [] s = rejected
  dsp_rule (name ∷ aliases) s = elim s.tok [
    | [] ↦ returned (record s {
      tok = dsp ∷ [];
      dsp_types = record { name = kernel.escape_id name; registers = [] } ∷ s.dsp_types;
      dsp_aliases = escaped aliases;
    })
    | t ∷ tok ↦ rejected
  ]

  -- dspTypes.back(), once for each alias, under its name.
  unfoldable pub push_aliases : DspType C → List (List ℕ) → List (DspType C) → List (DspType C)
  push_aliases dsp_type [] types = types
  push_aliases dsp_type (alias ∷ aliases) types =
      push_aliases dsp_type aliases (record dsp_type { name = alias } ∷ types)

  unfoldable pub enddsp_rule : List (List ℕ) → Loader C → Outcome (Loader C)
  unfolding push_aliases
  enddsp_rule (arg ∷ args) s = rejected
  enddsp_rule [] s = elim s.tok [
    | dsp ∷ [] ↦ elim s.dsp_types [
      | [] ↦ undefined
      | t ∷ types ↦
          returned (record s { tok = []; dsp_types = push_aliases t s.dsp_aliases (t ∷ types) })
    ]
    | _ ↦ rejected
  ]

  unfoldable pub port_rule : List (List ℕ) → Loader C → Outcome (Loader C)
  unfolding parse_port_name no_assoc
  port_rule [] s = rejected
  port_rule (name ∷ names) s = elim s.tok [
    | dsp ∷ [] ↦ parse_port_name name >>= λ spec. returned (record s {
      tok = port ∷ dsp ∷ [];
      port_type = record { name = kernel.escape_id spec.0; bits = spec.1; assoc = no_assoc };
      register_type = empty_register;
      port_names = names;
    })
    | _ ↦ rejected
  ]

  -- The other ports of the register, which differ in the name and the bits.
  unfoldable pub push_ports :
      List (List ℕ) → PortType C → RegisterType C → DspType C → Outcome (DspType C)
  unfolding parse_port_name push_port
  push_ports [] port_type register_type t = returned t
  push_ports (name ∷ names) port_type register_type t = parse_port_name name >>= λ spec.
      push_ports names port_type register_type (record t {
        registers =
            push_port register_type
              (record port_type { name = kernel.escape_id spec.0; bits = spec.1 }) t.registers;
      })

  unfoldable pub endport_rule : List (List ℕ) → Loader C → Outcome (Loader C)
  unfolding push_ports push_port
  endport_rule (arg ∷ args) s = rejected
  endport_rule [] s = elim s.tok [
    | port ∷ t ∷ [] ↦ elim s.dsp_types [
      | [] ↦ undefined
      | d ∷ types ↦
          push_ports s.port_names s.port_type s.register_type
            (record d { registers = push_port s.register_type s.port_type d.registers })
          >>= λ d'. returned (record s { tok = t ∷ []; dsp_types = d' ∷ types })
    ]
    | _ ↦ rejected
  ]

  unfoldable pub ff_rule : List (List ℕ) → Loader C → Outcome (Loader C)
  unfolding new_flop_type
  ff_rule (name ∷ []) s = elim s.tok [
    | [] ↦ returned (record s { tok = ff ∷ []; flop_types = new_flop_type name ∷ s.flop_types })
    | t ∷ tok ↦ rejected
  ]
  ff_rule _ s = rejected

  unfoldable pub endff_rule : List (List ℕ) → Loader C → Outcome (Loader C)
  endff_rule (arg ∷ args) s = rejected
  endff_rule [] s = elim s.tok [ ff ∷ [] ↦ returned (record s { tok = [] }) | _ ↦ rejected ]
