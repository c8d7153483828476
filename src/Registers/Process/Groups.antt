-- ===== src/Registers/Process/Groups.antt =====
-- The flip-flops that a scan lists, and their groups.
use mathlib.Core.Path.{subst}
use yosys_f4pga_plugins.Prelude.{
  ℕ, suc, ◌+◌, ◌≡◌, ◌⊎◌, refl, ap, ◌∙◌, inl, inr, Bool, true, false, ◌||◌, Bool-cases, Option, none,
  some, Option-cases, List, [], ◌∷◌, get_elem?, All, All-imp, IsIn, arith,
}
use yosys_f4pga_plugins.Prelude.Equality.{Eq}
use yosys_f4pga_plugins.Prelude.Text.{text_eq}
use yosys_f4pga_plugins.Prelude.Options.{◌>>=◌, check, >>=_some, >>_some}
use yosys_f4pga_plugins.Prelude.Dict.{lookup, put, All-put}
use yosys_f4pga_plugins.Rules.{FlopType, PortType, RegisterType}
use yosys_f4pga_plugins.Registers.{Cell, Netlist, ConnMap, FlopData, same_flop_data}
use yosys_f4pga_plugins.Registers.Scan.{
  Probe, skipped, refused, found, Scanned, probe_bit, has_group, insert_group, scan_bits,
  scan_ports,
}
use yosys_f4pga_plugins.Registers.Process.Found.{IsFound, probe_bit-IsFound}

module _ {B C : Type 0} ⦃bit_eq : Eq B⦄ ⦃const_eq : Eq C⦄ where
  -- A configuration is that of a group.
  unfoldable pub Agrees : FlopData B C → FlopData B C → Type 0
  Agrees d g = (d ≡ g) ⊎ (same_flop_data d g ≡ true)

  unfoldable pub IsGrouped : FlopData B C → List (FlopData B C) → Type 0
  IsGrouped d [] = ⊥
  IsGrouped d (g ∷ groups) = Agrees d g ⊎ IsGrouped d groups

  has_group-IsGrouped :
      (d : FlopData B C) (groups : List (FlopData B C))
      → has_group d groups ≡ true
      → IsGrouped d groups
  unfolding has_group IsGrouped Agrees
  has_group-IsGrouped d [] h = absurd (cc h)
  has_group-IsGrouped d (g ∷ groups) h = elim (Bool-cases (same_flop_data d g)) [
    | inl e ↦ inl (inr e)
    | inr e ↦ inr (has_group-IsGrouped d groups (rw e at h))
  ]

  insert_group-IsGrouped :
      (d : FlopData B C) (groups : List (FlopData B C)) → IsGrouped d (insert_group d groups)
  unfolding insert_group IsGrouped Agrees
  insert_group-IsGrouped d groups = elim (Bool-cases (has_group d groups)) [
    | inl e ↦ rw (insert_group, e) (has_group-IsGrouped d groups e)
    | inr e ↦ rw (insert_group, e) (inl (inl refl))
  ]

  insert_group-keeps :
      (d other : FlopData B C) (groups : List (FlopData B C))
      → IsGrouped other groups
      → IsGrouped other (insert_group d groups)
  unfolding insert_group IsGrouped
  insert_group-keeps d other groups h = elim (Bool-cases (has_group d groups)) [
    | inl e ↦ rw (insert_group, e) h
    | inr e ↦ rw (insert_group, e) (inr h)
  ]

abbrev listed :
    {B C : Type 0}
    → List (Option ℕ)
    → Bool
    → List (FlopData B C)
    → Option (List (Option ℕ) × Bool × List (FlopData B C))
listed flops ok groups = some (flops, ok, groups)

module _ {B C : Type 0} ⦃bit_eq : Eq B⦄ ⦃const_eq : Eq C⦄ (netlist : Netlist B C)
    (flop_types : List (List ℕ × FlopType C)) (cells : List (Cell B C)) (conns : ConnMap B)
    (removed : List ℕ) (register : RegisterType C) (ports : List (PortType C))
    (dsp : Cell B C) where
  -- A flip-flop, if there is one, that was found and belongs to one of the groups.
  unfoldable pub IsListed : List (FlopData B C) → Option ℕ → Type 0
  IsListed groups none = Unit
  IsListed groups (some i) =
      (d : FlopData B C) × IsFound netlist flop_types cells conns removed register ports dsp i d
      × IsGrouped d groups

  abbrev pub Grows : List (FlopData B C) → List (FlopData B C) → Type 0
  Grows groups groups' = (d : FlopData B C) → IsGrouped d groups → IsGrouped d groups'

  IsListed-Grows :
      (groups groups' : List (FlopData B C)) (flop : Option ℕ)
      → Grows groups groups'
      → IsListed groups flop
      → IsListed groups' flop
  unfolding IsListed
  IsListed-Grows groups groups' none g h = tt
  IsListed-Grows groups groups' (some i) g h = (h.0, h.1, g h.0 h.2)

  scan_bits-IsListed :
      (port : PortType C) (all_bits : List B)
      → IsIn port ports
      → lookup port.name dsp.connections ≡ some all_bits
      → (bits : List B) (i : ℕ) (ok : Bool) (groups : List (FlopData B C)) (flops : List (Option ℕ))
        (ok' : Bool) (groups' : List (FlopData B C))
      → ((k : ℕ) (b : B) → get_elem? bits k ≡ some b → get_elem? all_bits (i + k) ≡ some b)
      → scan_bits netlist flop_types cells conns removed register dsp.type port bits i ok groups
        ≡ listed flops ok' groups'
      → Grows groups groups' × All (IsListed groups') flops
  unfolding scan_bits IsListed
  scan_bits-IsListed port all_bits m c [] i ok groups flops ok' groups' at_i h = (
    λ d x. subst (IsGrouped d) (groups_same h) x,
    subst (All (IsListed groups')) (flops_same h) tt,
  )
    where
      groups_same : listed [] ok groups ≡ listed flops ok' groups' → groups ≡ groups'
      groups_same h = cc

      flops_same : listed [] ok groups ≡ listed flops ok' groups' → [] ≡ flops
      flops_same h = cc
  scan_bits-IsListed port all_bits m c (b ∷ bits) i ok groups flops ok' groups' at_i h =
      let (p, e, h1) =
        >>=_some (probe_bit netlist flop_types cells conns removed register dsp.type port i b) _
          (flops, ok', groups') h in
      after_probe
        (λ ok1 groups1 flops1 ok1' k.
          scan_bits-IsListed port all_bits m c bits (suc i) ok1 groups1 flops1 ok1' groups' later k)
        p e h1
    where
      here : get_elem? all_bits i ≡ some b
      here = subst (λ n. get_elem? all_bits n ≡ some b) (omega arith) (at_i 0 b refl)

      later :
          (k : ℕ) (b' : B) → get_elem? bits k ≡ some b' → get_elem? all_bits (suc i + k) ≡ some b'
      later k b' e = subst (λ n. get_elem? all_bits n ≡ some b') (omega arith) (at_i (suc k) b' e)

      Rest : Type 0
      Rest =
          (ok1 : Bool) (groups1 : List (FlopData B C)) (flops1 : List (Option ℕ)) (ok1' : Bool)
          → scan_bits netlist flop_types cells conns removed register dsp.type port bits (suc i) ok1
              groups1
            ≡ listed flops1 ok1' groups'
          → Grows groups1 groups' × All (IsListed groups') flops1

      Result : Type 0
      Result = Grows groups groups' × All (IsListed groups') flops

      rest :
          Rest
          → (flop : Option ℕ) (ok1 : Bool) (groups1 : List (FlopData B C)) → Grows groups groups1
          → (Grows groups1 groups' → IsListed groups' flop)
          → (scan_bits netlist flop_types cells conns removed register dsp.type port bits
                (suc i)
                ok1
                groups1
              >>= λ r. listed (flop ∷ r.0) r.1 r.2)
            ≡ listed flops ok' groups'
          → Result
      rest ih flop ok1 groups1 g l k =
          let (r, e, k1) =
            >>=_some
              (scan_bits netlist flop_types cells conns removed register dsp.type port bits (suc i)
                ok1 groups1)
              _ (flops, ok', groups') k in
          let (g', a) = ih ok1 groups1 r.0 ok' (e ∙ ap some (same r flop k1)) in
          (λ d x. g' d (g d x), subst (All (IsListed groups')) (flops_are r flop k1) (l g', a))
        where
          same :
              (r : List (Option ℕ) × Bool × List (FlopData B C)) (flop : Option ℕ)
              → listed (flop ∷ r.0) r.1 r.2 ≡ listed flops ok' groups'
              → r ≡ (r.0, ok', groups')
          same r flop k = cc

          flops_are :
              (r : List (Option ℕ) × Bool × List (FlopData B C)) (flop : Option ℕ)
              → listed (flop ∷ r.0) r.1 r.2 ≡ listed flops ok' groups'
              → flop ∷ r.0 ≡ flops
          flops_are r flop k = cc

      after_probe :
          Rest
          → (p : Probe B C)
          → probe_bit netlist flop_types cells conns removed register dsp.type port i b ≡ some p
          → elim p [
            | skipped ↦
                scan_bits netlist flop_types cells conns removed register dsp.type port bits
                  (suc i)
                  ok
                  groups
                >>= λ r. listed (none ∷ r.0) r.1 r.2
            | refused ↦
                scan_bits netlist flop_types cells conns removed register dsp.type port bits
                  (suc i)
                  false
                  groups
                >>= λ r. listed (none ∷ r.0) r.1 r.2
            | found flop d ↦
                scan_bits netlist flop_types cells conns removed register dsp.type port bits
                  (suc i)
                  ok
                  (insert_group d groups)
                >>= λ r. listed (some flop ∷ r.0) r.1 r.2
          ]
            ≡ listed flops ok' groups'
          → Result
      after_probe ih skipped e k = rest ih none ok groups (λ d x. x) (λ g. tt) k
      after_probe ih refused e k = rest ih none false groups (λ d x. x) (λ g. tt) k
      after_probe ih (found flop d) e k =
          rest ih (some flop) ok (insert_group d groups)
            (λ other. insert_group-keeps d other groups)
            (λ g. (
              d,
              probe_bit-IsFound netlist flop_types cells conns removed register ports dsp port
                  all_bits i b flop d m c here e,
              g d (insert_group-IsGrouped d groups),
            ))
            k

  -- Every list of flip-flops that the scan holds.
  abbrev pub AllListed : Scanned B C → Type 0
  AllListed s = All (λ (e : List ℕ × List (Option ℕ)). All (IsListed s.groups) e.1) s.flops

  pub scan_ports-AllListed :
      (rest : List (PortType C)) (s s' : Scanned B C)
      → ((p : PortType C) → IsIn p rest → IsIn p ports)
      → scan_ports netlist flop_types cells conns removed register dsp rest s ≡ some s'
      → AllListed s
      → AllListed s'
  unfolding scan_ports
  scan_ports-AllListed [] s s' m h a = subst AllListed (injective h) a
    where
      injective : some s ≡ some s' → s ≡ s'
      injective h = cc
  scan_ports-AllListed (port ∷ rest) s s' m h a =
      elim (Option-cases (lookup port.name dsp.connections)) [
        | inl e ↦ scan_ports-AllListed rest s s' (λ p k. m p (inr k)) (rw (scan_ports, e) at h) a
        | inr (bits, e) ↦
            let (_, e1, h1) =
              >>_some
                (check (netlist.output dsp.type port.name || netlist.input dsp.type port.name)) _ s'
                (rw (scan_ports, e) at h) in
            let (r, e2, h2) =
              >>=_some
                (scan_bits netlist flop_types cells conns removed register dsp.type port bits 0
                  s.flops_ok s.groups)
                _ s' h1 in
            let (g, l) =
              scan_bits-IsListed port bits (m port (inl refl)) e bits 0 s.flops_ok s.groups r.0 r.1
                r.2 (λ k b x. subst (λ n. get_elem? bits n ≡ some b) (omega arith) x) e2 in
            scan_ports-AllListed rest
              (record { flops_ok = r.1; groups = r.2; flops = put port.name r.0 s.flops }) s'
              (λ p k. m p (inr k)) h2
              (All-put (λ name flops. All (IsListed r.2) flops) port.name r.0 s.flops l
                (All-imp _ _ (λ x. All-imp _ _ (λ flop. IsListed-Grows s.groups r.2 flop g) x.1)
                  s.flops a))
      ]
