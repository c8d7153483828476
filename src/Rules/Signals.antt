-- ===== src/Rules/Signals.antt =====
-- dsp-ff-plugin/dsp_ff.cc: the rules of load_rules that stand inside of a section.
use yosys_f4pga_plugins.Prelude.{ℕ, Option, none, some, List, [], ◌∷◌, ◌++◌}
use yosys_f4pga_plugins.Prelude.Equality.{Eq}
use yosys_f4pga_plugins.Prelude.Text.{text_eq}
use yosys_f4pga_plugins.Prelude.Dict.{put}
use yosys_f4pga_plugins.Rules.{
  Outcome, rejected, returned, ◌>>=◌, Kernel, FlopType, parse_name_value,
}
use yosys_f4pga_plugins.Rules.Sections.{
  Section, port, ff, Loader, with_back, consts_of, names_of, escaped,
}

-- tok.back(), if there is one
unfoldable pub back : List Section → Option Section
back [] = none
back (t ∷ tok) = some t

module _ {C : Type 0} ⦃const_eq : Eq C⦄ (kernel : Kernel C) where
  -- A change of flopTypes.back().
  unfoldable pub with_flop : (FlopType C → FlopType C) → Loader C → Outcome (Loader C)
  unfolding with_back
  with_flop f s = with_back f s.flop_types >>= λ types. returned (record s { flop_types = types })

  -- portType.assoc[key] = (name, value)
  unfoldable pub associate : List ℕ → List ℕ → List ℕ → Loader C → Outcome (Loader C)
  unfolding put
  associate key name value s = returned (record s {
    port_type = record s.port_type {
      assoc =
          put (kernel.escape_id key) (kernel.escape_id name, kernel.from_string value)
            s.port_type.assoc;
    };
  })

  -- flopTypes.back().ports[key] = name
  unfoldable pub set_flop_port : List ℕ → List ℕ → Loader C → Outcome (Loader C)
  unfolding with_flop put
  set_flop_port key name =
      with_flop
        (λ t. record t { ports = put (kernel.escape_id key) (kernel.escape_id name) t.ports })

  -- clk, rst and ena
  unfoldable pub control_port : List ℕ → List (List ℕ) → Loader C → Outcome (Loader C)
  unfolding associate
  control_port key (name ∷ value ∷ []) s = associate key name value s
  control_port key _ s = rejected

  unfoldable pub control_flop : List ℕ → List (List ℕ) → Loader C → Outcome (Loader C)
  unfolding set_flop_port
  control_flop key (name ∷ []) s = set_flop_port key name s
  control_flop key _ s = rejected

  unfoldable pub control_rule : List ℕ → List (List ℕ) → Loader C → Outcome (Loader C)
  unfolding back control_port control_flop
  control_rule key args s = elim (back s.tok) [
    | some port ↦ control_port key args s
    | some ff ↦ control_flop key args s
    | _ ↦ rejected
  ]

  -- d and q
  unfoldable pub data_rule : List ℕ → List (List ℕ) → Loader C → Outcome (Loader C)
  unfolding back set_flop_port
  data_rule key (name ∷ []) s = elim (back s.tok) [
    | some ff ↦ set_flop_port key name s
    | _ ↦ rejected
  ]
  data_rule key _ s = rejected

  unfoldable pub require_rule : List (List ℕ) → Loader C → Outcome (Loader C)
  unfolding back parse_name_value consts_of with_flop
  require_rule [] s = rejected
  require_rule (arg ∷ args) s = elim (back s.tok) [
    | some ff ↦ parse_name_value (arg ∷ args) >>= λ vec.
        with_flop (λ t. record t { required = consts_of kernel vec t.required }) s
    | _ ↦ rejected
  ]

  unfoldable pub match_rule : List (List ℕ) → Loader C → Outcome (Loader C)
  unfolding back with_flop
  match_rule [] s = rejected
  match_rule (arg ∷ args) s = elim (back s.tok) [
    | some ff ↦ with_flop (λ t. record t { matching = t.matching ++ escaped kernel (arg ∷ args) }) s
    | _ ↦ rejected
  ]

  unfoldable pub set_rule : List (List ℕ) → Loader C → Outcome (Loader C)
  unfolding back parse_name_value consts_of with_flop
  set_rule [] s = rejected
  set_rule (arg ∷ args) s = elim (back s.tok) [
    | some port ↦ parse_name_value (arg ∷ args) >>= λ vec.
        returned
          (record s { register_type = record s.register_type { set = consts_of kernel vec [] } })
    | some ff ↦ parse_name_value (arg ∷ args) >>= λ vec.
        with_flop (λ t. record t { set = consts_of kernel vec [] }) s
    | _ ↦ rejected
  ]

  unfoldable pub map_rule : List (List ℕ) → Loader C → Outcome (Loader C)
  unfolding back parse_name_value names_of with_flop
  map_rule [] s = rejected
  map_rule (arg ∷ args) s = elim (back s.tok) [
    | some port ↦ parse_name_value (arg ∷ args) >>= λ vec.
        returned
          (record s { register_type = record s.register_type { map = names_of kernel vec [] } })
    | some ff ↦ parse_name_value (arg ∷ args) >>= λ vec.
        with_flop (λ t. record t { map = names_of kernel vec [] }) s
    | _ ↦ rejected
  ]

  unfoldable pub con_rule : List (List ℕ) → Loader C → Outcome (Loader C)
  unfolding back parse_name_value consts_of
  con_rule [] s = rejected
  con_rule (arg ∷ args) s = elim (back s.tok) [
    | some port ↦ parse_name_value (arg ∷ args) >>= λ vec. returned (record s {
      register_type = record s.register_type {
        connect = consts_of kernel vec s.register_type.connect;
      };
    })
    | _ ↦ rejected
  ]
