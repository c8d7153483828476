-- ===== src/Rules/Load/Nested.antt =====
-- The rules keep the sections nested.
use yosys_f4pga_plugins.Prelude.{ℕ, List, [], ◌∷◌}
use yosys_f4pga_plugins.Prelude.Equality.{Eq}
use yosys_f4pga_plugins.Rules.{
  Outcome, Kernel, FlopType, PortType, RegisterType, DspType, parse_name_value, parse_port_name,
}
use yosys_f4pga_plugins.Rules.Sections.{
  Section, dsp, port, ff, Loader, with_back, push_ports, dsp_rule, enddsp_rule, port_rule,
  endport_rule, ff_rule, endff_rule,
}
use yosys_f4pga_plugins.Rules.Signals.{
  back, with_flop, associate, set_flop_port, control_port, control_flop, control_rule, data_rule,
  require_rule, match_rule, set_rule, map_rule, con_rule,
}
use yosys_f4pga_plugins.Rules.Load.Returns.{
  Holds, >>=-Holds, Always, parse_name_value-Holds, parse_port_name-Holds,
}

-- The sections that can be open, and the types that are there then.
pub data IsNested {C : Type 0} : List Section → List (DspType C) → List (FlopType C) → Type 0 where
  outside : {ds : List (DspType C)} {fs : List (FlopType C)} → IsNested [] ds fs
  in_dsp :
      {d : DspType C} {ds : List (DspType C)} {fs : List (FlopType C)}
      → IsNested (dsp ∷ []) (d ∷ ds) fs
  in_port :
      {d : DspType C} {ds : List (DspType C)} {fs : List (FlopType C)}
      → IsNested (port ∷ dsp ∷ []) (d ∷ ds) fs
  in_ff :
      {f : FlopType C} {ds : List (DspType C)} {fs : List (FlopType C)}
      → IsNested (ff ∷ []) ds (f ∷ fs)

unfoldable pub IsOpen : {C : Type 0} → Loader C → Type 0
IsOpen s = IsNested s.tok s.dsp_types s.flop_types

module _ {C : Type 0} ⦃const_eq : Eq C⦄ (kernel : Kernel C) where
  module _ (aliases names : List (List ℕ)) (port_type : PortType C)
      (register_type : RegisterType C) where
    abbrev pub loader : List Section → List (DspType C) → List (FlopType C) → Loader C
    loader tok ds fs = record {
      tok = tok;
      dsp_types = ds;
      flop_types = fs;
      dsp_aliases = aliases;
      port_names = names;
      port_type = port_type;
      register_type = register_type;
    }

    -- A rule keeps the sections nested.
    abbrev pub Keeps : (Loader C → Outcome (Loader C)) → Type 0
    Keeps rule =
        (tok : List Section) (ds : List (DspType C)) (fs : List (FlopType C))
        → IsNested tok ds fs
        → Holds IsOpen (rule (loader tok ds fs))

    pub dsp_rule-Keeps : (args : List (List ℕ)) → Keeps (dsp_rule kernel args)
    unfolding dsp_rule Holds IsOpen
    dsp_rule-Keeps [] _ _ _ h = tt
    dsp_rule-Keeps (name ∷ more) _ _ _ outside = in_dsp
    dsp_rule-Keeps (name ∷ more) _ _ _ in_dsp = tt
    dsp_rule-Keeps (name ∷ more) _ _ _ in_port = tt
    dsp_rule-Keeps (name ∷ more) _ _ _ in_ff = tt

    pub enddsp_rule-Keeps : (args : List (List ℕ)) → Keeps (enddsp_rule kernel args)
    unfolding enddsp_rule Holds IsOpen
    enddsp_rule-Keeps (arg ∷ args) _ _ _ h = tt
    enddsp_rule-Keeps [] _ _ _ outside = tt
    enddsp_rule-Keeps [] _ _ _ in_dsp = outside
    enddsp_rule-Keeps [] _ _ _ in_port = tt
    enddsp_rule-Keeps [] _ _ _ in_ff = tt

    pub port_rule-Keeps : (args : List (List ℕ)) → Keeps (port_rule kernel args)
    unfolding port_rule Holds IsOpen
    port_rule-Keeps [] _ _ _ h = tt
    port_rule-Keeps (name ∷ more) _ _ _ outside = tt
    port_rule-Keeps (name ∷ more) _ _ _ in_dsp =
        >>=-Holds Always IsOpen (parse_port_name name) _ (parse_port_name-Holds name)
          (λ spec h. in_port)
    port_rule-Keeps (name ∷ more) _ _ _ in_port = tt
    port_rule-Keeps (name ∷ more) _ _ _ in_ff = tt

    push_ports-Holds :
        (more : List (List ℕ)) (t : DspType C)
        → Holds Always (push_ports kernel more port_type register_type t)
    unfolding push_ports Holds
    push_ports-Holds [] t = tt
    push_ports-Holds (name ∷ more) t =
        >>=-Holds Always Always (parse_port_name name) _ (parse_port_name-Holds name)
          (λ spec h. push_ports-Holds more _)

    pub endport_rule-Keeps : (args : List (List ℕ)) → Keeps (endport_rule kernel args)
    unfolding endport_rule Holds IsOpen
    endport_rule-Keeps (arg ∷ args) _ _ _ h = tt
    endport_rule-Keeps [] _ _ _ outside = tt
    endport_rule-Keeps [] _ _ _ in_dsp = tt
    endport_rule-Keeps [] _ _ _ in_port =
        >>=-Holds Always IsOpen (push_ports kernel names port_type register_type _) _
          (push_ports-Holds names _) (λ t h. in_dsp)
    endport_rule-Keeps [] _ _ _ in_ff = tt

    pub ff_rule-Keeps : (args : List (List ℕ)) → Keeps (ff_rule kernel args)
    unfolding ff_rule Holds IsOpen
    ff_rule-Keeps [] _ _ _ h = tt
    ff_rule-Keeps (a ∷ b ∷ args) _ _ _ h = tt
    ff_rule-Keeps (name ∷ []) _ _ _ outside = in_ff
    ff_rule-Keeps (name ∷ []) _ _ _ in_dsp = tt
    ff_rule-Keeps (name ∷ []) _ _ _ in_port = tt
    ff_rule-Keeps (name ∷ []) _ _ _ in_ff = tt

    pub endff_rule-Keeps : (args : List (List ℕ)) → Keeps (endff_rule kernel args)
    unfolding endff_rule Holds IsOpen
    endff_rule-Keeps (arg ∷ args) _ _ _ h = tt
    endff_rule-Keeps [] _ _ _ outside = tt
    endff_rule-Keeps [] _ _ _ in_dsp = tt
    endff_rule-Keeps [] _ _ _ in_port = tt
    endff_rule-Keeps [] _ _ _ in_ff = outside

    pub control_rule-Keeps :
        (key : List ℕ) (args : List (List ℕ)) → Keeps (control_rule kernel key args)
    unfolding control_rule control_port control_flop associate set_flop_port with_flop with_back
        back Holds IsOpen
    control_rule-Keeps key args _ _ _ outside = tt
    control_rule-Keeps key args _ _ _ in_dsp = tt
    control_rule-Keeps key [] _ _ _ in_port = tt
    control_rule-Keeps key (a ∷ []) _ _ _ in_port = tt
    control_rule-Keeps key (a ∷ b ∷ []) _ _ _ in_port = in_port
    control_rule-Keeps key (a ∷ b ∷ c ∷ args) _ _ _ in_port = tt
    control_rule-Keeps key [] _ _ _ in_ff = tt
    control_rule-Keeps key (a ∷ []) _ _ _ in_ff = in_ff
    control_rule-Keeps key (a ∷ b ∷ args) _ _ _ in_ff = tt

    pub data_rule-Keeps : (key : List ℕ) (args : List (List ℕ)) → Keeps (data_rule kernel key args)
    unfolding data_rule set_flop_port with_flop with_back back Holds IsOpen
    data_rule-Keeps key [] _ _ _ h = tt
    data_rule-Keeps key (a ∷ b ∷ args) _ _ _ h = tt
    data_rule-Keeps key (a ∷ []) _ _ _ outside = tt
    data_rule-Keeps key (a ∷ []) _ _ _ in_dsp = tt
    data_rule-Keeps key (a ∷ []) _ _ _ in_port = tt
    data_rule-Keeps key (a ∷ []) _ _ _ in_ff = in_ff

    pub require_rule-Keeps : (args : List (List ℕ)) → Keeps (require_rule kernel args)
    unfolding require_rule with_flop with_back back Holds IsOpen
    require_rule-Keeps [] _ _ _ h = tt
    require_rule-Keeps (a ∷ args) _ _ _ outside = tt
    require_rule-Keeps (a ∷ args) _ _ _ in_dsp = tt
    require_rule-Keeps (a ∷ args) _ _ _ in_port = tt
    require_rule-Keeps (a ∷ args) _ _ _ in_ff =
        >>=-Holds Always IsOpen (parse_name_value (a ∷ args)) _ (parse_name_value-Holds (a ∷ args))
          (λ vec h. in_ff)

    pub match_rule-Keeps : (args : List (List ℕ)) → Keeps (match_rule kernel args)
    unfolding match_rule with_flop with_back back Holds IsOpen
    match_rule-Keeps [] _ _ _ h = tt
    match_rule-Keeps (a ∷ args) _ _ _ outside = tt
    match_rule-Keeps (a ∷ args) _ _ _ in_dsp = tt
    match_rule-Keeps (a ∷ args) _ _ _ in_port = tt
    match_rule-Keeps (a ∷ args) _ _ _ in_ff = in_ff

    pub set_rule-Keeps : (args : List (List ℕ)) → Keeps (set_rule kernel args)
    unfolding set_rule with_flop with_back back Holds IsOpen
    set_rule-Keeps [] _ _ _ h = tt
    set_rule-Keeps (a ∷ args) _ _ _ outside = tt
    set_rule-Keeps (a ∷ args) _ _ _ in_dsp = tt
    set_rule-Keeps (a ∷ args) _ _ _ in_port =
        >>=-Holds Always IsOpen (parse_name_value (a ∷ args)) _ (parse_name_value-Holds (a ∷ args))
          (λ vec h. in_port)
    set_rule-Keeps (a ∷ args) _ _ _ in_ff =
        >>=-Holds Always IsOpen (parse_name_value (a ∷ args)) _ (parse_name_value-Holds (a ∷ args))
          (λ vec h. in_ff)

    pub map_rule-Keeps : (args : List (List ℕ)) → Keeps (map_rule kernel args)
    unfolding map_rule with_flop with_back back Holds IsOpen
    map_rule-Keeps [] _ _ _ h = tt
    map_rule-Keeps (a ∷ args) _ _ _ outside = tt
    map_rule-Keeps (a ∷ args) _ _ _ in_dsp = tt
    map_rule-Keeps (a ∷ args) _ _ _ in_port =
        >>=-Holds Always IsOpen (parse_name_value (a ∷ args)) _ (parse_name_value-Holds (a ∷ args))
          (λ vec h. in_port)
    map_rule-Keeps (a ∷ args) _ _ _ in_ff =
        >>=-Holds Always IsOpen (parse_name_value (a ∷ args)) _ (parse_name_value-Holds (a ∷ args))
          (λ vec h. in_ff)

    pub con_rule-Keeps : (args : List (List ℕ)) → Keeps (con_rule kernel args)
    unfolding con_rule back Holds IsOpen
    con_rule-Keeps [] _ _ _ h = tt
    con_rule-Keeps (a ∷ args) _ _ _ outside = tt
    con_rule-Keeps (a ∷ args) _ _ _ in_dsp = tt
    con_rule-Keeps (a ∷ args) _ _ _ in_port =
        >>=-Holds Always IsOpen (parse_name_value (a ∷ args)) _ (parse_name_value-Holds (a ∷ args))
          (λ vec h. in_port)
    con_rule-Keeps (a ∷ args) _ _ _ in_ff = tt
