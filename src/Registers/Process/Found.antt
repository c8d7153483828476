-- ===== src/Registers/Process/Found.antt =====
-- What the scan of the ports of a register finds.
use yosys_f4pga_plugins.Prelude.{
  ℕ, ◌≤◌, arith, ◌≡◌, sym, ap, ◌∙◌, inl, inr, true, false, Bool-cases, Option, none, some,
  Option-cases, List, [], ◌∷◌, get_elem?, IsIn,
}
use yosys_f4pga_plugins.Prelude.Equality.{Eq}
use yosys_f4pga_plugins.Prelude.Text.{same_text, same_text_iff, text_eq}
use yosys_f4pga_plugins.Prelude.Options.{◌>>=◌, >>=_some}
use yosys_f4pga_plugins.Prelude.Dict.{lookup}
use yosys_f4pga_plugins.Rules.{FlopType, PortType, RegisterType}
use yosys_f4pga_plugins.Inverters.{Pin}
use yosys_f4pga_plugins.Registers.{Cell, Netlist, ConnMap, FlopData, check_flop, get_flop_data}
use yosys_f4pga_plugins.Registers.Scan.{
  skipped, refused, found, others_of, data_port, mapped_params, probe_flop, probe_pin, probe_others,
  is_excluded, probe_bit,
}

-- A rule has no range, or the bit is in it.
unfoldable pub InRange : Option (ℕ × ℕ) → ℕ → Type 0
InRange none j = Unit
InRange (some (low, high)) j = (low ≤ j) × (j ≤ high)

is_excluded-InRange :
    (range : Option (ℕ × ℕ)) (j : ℕ) → is_excluded range j ≡ false → InRange range j
unfolding is_excluded InRange
is_excluded-InRange none j h = tt
is_excluded-InRange (some (low, high)) j h = (ground arith, ground arith)

module _ {B C : Type 0} ⦃bit_eq : Eq B⦄ ⦃const_eq : Eq C⦄ (netlist : Netlist B C)
    (flop_types : List (List ℕ × FlopType C)) (cells : List (Cell B C)) (conns : ConnMap B)
    (removed : List ℕ) (register : RegisterType C) (ports : List (PortType C)) where
  -- A flip-flop with its data at a bit of one of the register's ports: the bit is in the range of that
  -- port's rule, the flip-flop's pin is alone on its net, it is the data pin of a flip-flop with rules,
  -- and the flip-flop passes the checks.
  pub record IsFound (dsp : Cell B C) (i : ℕ) (d : FlopData B C) : Type 0 where
    pub port : PortType C
    pub in_ports : IsIn port ports
    pub bits : List B
    pub connected : lookup port.name dsp.connections ≡ some bits
    pub j : ℕ
    pub bit : B
    pub at_bit : get_elem? bits j ≡ some bit
    pub in_range : InRange port.bits j
    pub pin : Pin
    pub alone :
        others_of netlist flop_types cells conns removed dsp.type port.name (netlist.sig_map bit)
        ≡ some (pin ∷ [])
    pub cell : pin.cell ≡ some i
    pub flop : Cell B C
    pub there : get_elem? cells i ≡ some flop
    pub flop_type : FlopType C
    pub has_rules : lookup flop.type flop_types ≡ some flop_type
    pub data_pin : data_port netlist dsp.type port.name flop_type ≡ some pin.port
    pub passed : check_flop netlist flop_type flop ≡ some true
    pub params : List (List ℕ × C)
    pub has_data : get_flop_data netlist flop_type flop params ≡ some d

  probe_flop-IsFound :
      (dsp : Cell B C) (port : PortType C) (bits : List B) (j : ℕ) (b : B) (pin : Pin) (i : ℕ)
      (c : Cell B C) (t : FlopType C) (n : ℕ) (d : FlopData B C)
      → IsIn port ports
      → lookup port.name dsp.connections ≡ some bits
      → get_elem? bits j ≡ some b
      → is_excluded port.bits j ≡ false
      → others_of netlist flop_types cells conns removed dsp.type port.name (netlist.sig_map b)
        ≡ some (pin ∷ [])
      → pin.cell ≡ some i
      → get_elem? cells i ≡ some c
      → lookup c.type flop_types ≡ some t
      → probe_flop netlist flop_types cells conns removed register dsp.type port.name i pin c t
        ≡ some (found n d)
      → IsFound dsp n d
  unfolding probe_flop
  probe_flop-IsFound dsp port bits j b pin i c t n d h0 h1 h2 h3 h4 h5 h6 h7 h =
      let (flop_port, e1, k1) = >>=_some (data_port netlist dsp.type port.name t) _ (found n d) h in
      elim (Bool-cases (same_text flop_port pin.port)) [
        | inr f ↦ absurd (cc (rw f at k1))
        | inl f ↦
            let (ok, e2, k2) = >>=_some (check_flop netlist t c) _ (found n d) (rw f at k1) in
            elim (Bool-cases ok) [
              | inr g ↦ absurd (cc (rw g at k2))
              | inl g ↦
                  let (params, e3, k3) =
                    >>=_some (mapped_params c register.map []) _ (found n d) (rw g at k2) in
                  let (d', e4, k4) = >>=_some (get_flop_data netlist t c params) _ (found n d) k3 in
                  record {
                    port = port;
                    in_ports = h0;
                    bits = bits;
                    connected = h1;
                    j = j;
                    bit = b;
                    at_bit = h2;
                    in_range = is_excluded-InRange port.bits j h3;
                    pin = pin;
                    alone = h4;
                    cell = h5 ∙ ap some (position d' k4);
                    flop = c;
                    there = ap (get_elem? cells) (sym (position d' k4)) ∙ h6;
                    flop_type = t;
                    has_rules = h7;
                    data_pin = e1 ∙ ap some ((same_text_iff flop_port pin.port).0 f);
                    passed = e2 ∙ ap some g;
                    params = params;
                    has_data = e4 ∙ ap some (data_of d' k4);
                  }
            ]
      ]
    where
      position : (d' : FlopData B C) → some (found i d') ≡ some (found n d) → i ≡ n
      position d' k = cc

      data_of : (d' : FlopData B C) → some (found i d') ≡ some (found n d) → d' ≡ d
      data_of d' k = cc

  pub probe_bit-IsFound :
      (dsp : Cell B C) (port : PortType C) (bits : List B) (j : ℕ) (b : B) (n : ℕ)
      (d : FlopData B C)
      → IsIn port ports
      → lookup port.name dsp.connections ≡ some bits
      → get_elem? bits j ≡ some b
      → probe_bit netlist flop_types cells conns removed register dsp.type port j b
        ≡ some (found n d)
      → IsFound dsp n d
  unfolding probe_bit probe_others probe_pin
  probe_bit-IsFound dsp port bits j b n d h0 h1 h2 h =
      elim (Bool-cases (netlist.is_wire (netlist.sig_map b))) [
        | inr e ↦ absurd (cc (rw (probe_bit, e) at h))
        | inl e ↦ elim (Bool-cases (is_excluded port.bits j)) [
          | inl f ↦ absurd (cc (rw f at (rw (probe_bit, e) at h)))
          | inr f ↦ elim (Option-cases others) [
            | inl g ↦ absurd (cc (rw g at (rw f at (rw (probe_bit, e) at h))))
            | inr (pins, g) ↦ alone pins f g (rw g at (rw f at (rw (probe_bit, e) at h)))
          ]
        ]
      ]
    where
      others : Option (List Pin)
      others =
          others_of netlist flop_types cells conns removed dsp.type port.name (netlist.sig_map b)

      at_flop :
          (pin : Pin) (i : ℕ)
          → is_excluded port.bits j ≡ false
          → others ≡ some (pin ∷ [])
          → pin.cell ≡ some i
          → (get_elem? cells i >>= λ c. elim (lookup c.type flop_types) [
            | none ↦ some refused
            | some t ↦
                probe_flop netlist flop_types cells conns removed register dsp.type port.name i pin
                  c t
          ])
            ≡ some (found n d)
          → IsFound dsp n d
      at_flop pin i f g e k =
          let (c, e1, k1) = >>=_some (get_elem? cells i) _ (found n d) k in
          elim (Option-cases (lookup c.type flop_types)) [
            | inl e2 ↦ absurd (cc (rw e2 at k1))
            | inr (t, e2) ↦
                probe_flop-IsFound dsp port bits j b pin i c t n d h0 h1 h2 f g e e1 e2
                  (rw e2 at k1)
          ]

      at_edge :
          (name : List ℕ)
          → some (elim name [ [] ↦ skipped | x ∷ xs ↦ refused ]) ≡ some (found n d)
          → ⊥
      at_edge [] k = cc
      at_edge (x ∷ xs) k = cc

      at_pin :
          (pin : Pin)
          → is_excluded port.bits j ≡ false
          → others ≡ some (pin ∷ [])
          → probe_pin netlist flop_types cells conns removed register dsp.type port.name pin
            ≡ some (found n d)
          → IsFound dsp n d
      at_pin pin f g k = elim (Option-cases pin.cell) [
        | inl e ↦ absurd (at_edge pin.port (rw (probe_pin, e) at k))
        | inr (i, e) ↦ at_flop pin i f g e (rw (probe_pin, e) at k)
      ]

      alone :
          (pins : List Pin)
          → is_excluded port.bits j ≡ false
          → others ≡ some pins
          → probe_others netlist flop_types cells conns removed register dsp.type port.name pins
            ≡ some (found n d)
          → IsFound dsp n d
      alone [] f g k = absurd (cc k)
      alone (pin ∷ []) f g k = at_pin pin f g k
      alone (pin ∷ pin' ∷ pins) f g k = absurd (cc k)
