-- ===== src/Registers/Process/Sound.antt =====
-- The flip-flops that a register takes up have one configuration, and each passed the checks.
use mathlib.Core.Path.{subst}
use yosys_f4pga_plugins.Prelude.{
  ℕ, ◌≡◌, ◌⊎◌, refl, inl, inr, true, Bool-cases, Option, none, some, Option-cases, List, [], ◌∷◌,
  get_elem?, All, All-imp,
}
use yosys_f4pga_plugins.Prelude.Equality.{Eq, nat_eq, beq_refl}
use yosys_f4pga_plugins.Prelude.Text.{text_eq}
use yosys_f4pga_plugins.Prelude.Options.{>>=_some}
use yosys_f4pga_plugins.Prelude.Dict.{lookup, member, insert, All-insert, lookup-All}
use yosys_f4pga_plugins.Rules.{FlopType, PortType, RegisterType}
use yosys_f4pga_plugins.Registers.{Cell, Netlist, ConnMap, FlopData}
use yosys_f4pga_plugins.Registers.Scan.{Scanned, or_empty, scan_ports}
use yosys_f4pga_plugins.Registers.Integrate.{
  is_used, check_flop_data_against_dsp_register, reconnect_bits, reconnect_ports, far_port,
  through_flop, map_ports,
}
use yosys_f4pga_plugins.Registers.Process.{State, integrate, process_group, process_register}
use yosys_f4pga_plugins.Registers.Process.Found.{IsFound}
use yosys_f4pga_plugins.Registers.Process.Groups.{
  Agrees, IsGrouped, IsListed, AllListed, scan_ports-AllListed,
}

-- A property of the flip-flop, if there is one.
abbrev IfSome : (ℕ → Type 0) → Option ℕ → Type 0
IfSome P none = Unit
IfSome P (some i) = P i

module _ {B C : Type 0} ⦃bit_eq : Eq B⦄ ⦃const_eq : Eq C⦄ (netlist : Netlist B C)
    (cells : List (Cell B C)) (P : ℕ → Type 0) where
  reconnect_bits-All :
      (type port : List ℕ) (t : FlopType C) (flops : List (Option ℕ)) (bits : List B)
      (removed : List ℕ) (r : List B × List ℕ)
      → reconnect_bits netlist cells type port t flops bits removed ≡ some r
      → All (IfSome P) flops
      → All P removed
      → All P r.1
  unfolding reconnect_bits
  reconnect_bits-All type port t [] bits removed r h f a = subst (λ s. All P s.1) (injective h) a
    where
      injective : some (bits, removed) ≡ some r → (bits, removed) ≡ r
      injective h = cc
  reconnect_bits-All type port t (flop ∷ flops) [] removed r h f a = absurd (cc h)
  reconnect_bits-All type port t (none ∷ flops) (b ∷ bits) removed r h f a =
      let (s, e, h1) =
        >>=_some (reconnect_bits netlist cells type port t flops bits removed) _ r h in
      subst (λ x. All P x.1) (injective s h1)
        (reconnect_bits-All type port t flops bits removed s e f.1 a)
    where
      injective : (s : List B × List ℕ) → some (b ∷ s.0, s.1) ≡ some r → (b ∷ s.0, s.1) ≡ r
      injective s h = cc
  reconnect_bits-All type port t (some i ∷ flops) (b ∷ bits) removed r h f a =
      let (flop, e1, h1) = >>=_some (get_elem? cells i) _ r h in
      let (flop_port, e2, h2) = >>=_some (far_port netlist type port t) _ r h1 in
      let (b', e3, h3) = >>=_some (through_flop netlist flop flop_port) _ r h2 in
      let (s, e, h4) =
        >>=_some (reconnect_bits netlist cells type port t flops bits (insert i removed)) _ r h3 in
      subst (λ x. All P x.1) (injective s b' h4)
        (reconnect_bits-All type port t flops bits (insert i removed) s e f.1
          (All-insert P i removed f.0 a))
    where
      injective :
          (s : List B × List ℕ) (b' : B) → some (b' ∷ s.0, s.1) ≡ some r → (b' ∷ s.0, s.1) ≡ r
      injective s b' h = cc

  reconnect_ports-All :
      (t : FlopType C) (flops : List (List ℕ × List (Option ℕ)))
      → All (λ (e : List ℕ × List (Option ℕ)). All (IfSome P) e.1) flops
      → (ports : List (PortType C)) (dsp : Cell B C) (removed : List ℕ) (r : Cell B C × List ℕ)
      → reconnect_ports netlist cells t flops ports dsp removed ≡ some r
      → All P removed
      → All P r.1
  unfolding reconnect_ports
  reconnect_ports-All t flops f [] dsp removed r h a = subst (λ s. All P s.1) (injective h) a
    where
      injective : some (dsp, removed) ≡ some r → (dsp, removed) ≡ r
      injective h = cc
  reconnect_ports-All t flops f (port ∷ ports) dsp removed r h a =
      elim (Option-cases (lookup port.name flops)) [
        | inl e ↦ reconnect_ports-All t flops f ports dsp removed r (rw (reconnect_ports, e) at h) a
        | inr (conns, e) ↦
            let (bits, e1, h1) =
              >>=_some (lookup port.name dsp.connections) _ r (rw (reconnect_ports, e) at h) in
            let (s, e2, h2) =
              >>=_some (reconnect_bits netlist cells dsp.type port.name t conns bits removed) _ r
                h1 in
            reconnect_ports-All t flops f ports _ s.1 r h2 (
              reconnect_bits-All dsp.type port.name t conns bits removed s e2
                (lookup-All (λ name list. All (IfSome P) list) port.name conns flops f e) a)
      ]

members-All :
    (xs ys : List ℕ)
    → ((k : ℕ) → member k xs ≡ true → member k ys ≡ true)
    → All (λ k. member k ys ≡ true) xs
unfolding member
members-All [] ys h = tt
members-All (x ∷ xs) ys h =
    (h x (rw (beq_refl x) refl), members-All xs ys (λ k e. h k (either k e)))
  where
    either : (k : ℕ) → member k xs ≡ true → member k (x ∷ xs) ≡ true
    either k e = elim (Bool-cases (nat_eq.beq k x)) [ inl f ↦ rw f refl | inr f ↦ rw f e ]

module _ {B C : Type 0} ⦃bit_eq : Eq B⦄ ⦃const_eq : Eq C⦄ (netlist : Netlist B C)
    (flop_types : List (List ℕ × FlopType C)) (conns : ConnMap B) where
  -- A cell that was marked before, or a flip-flop that was found, of the configuration `d`.
  unfoldable pub IsTaken :
      State B C → RegisterType C → List (PortType C) → Cell B C → FlopData B C → ℕ → Type 0
  unfolding Agrees
  IsTaken s register ports dsp d k =
      (member k s.removed ≡ true)
      ⊎ ((d' : FlopData B C) × IsFound netlist flop_types s.cells conns s.removed register ports dsp
            k d'
          × Agrees d' d)

  module _ (s s' : State B C) (i : ℕ) (dsp : Cell B C) (register : RegisterType C)
      (ports : List (PortType C)) where
    -- Nothing changes, or what is marked then is taken for one configuration.
    Outcome : Type 0
    Outcome = (s' ≡ s) ⊎ ((d : FlopData B C) × All (IsTaken s register ports dsp d) s'.removed)

    integrate-IsTaken :
        (scanned : Scanned B C) (d : FlopData B C) (t : FlopType C)
        → All
            (λ (e : List ℕ × List (Option ℕ)).
              All
                (IsListed netlist flop_types s.cells conns s.removed register ports dsp (d ∷ []))
                e.1)
            scanned.flops
        → integrate netlist flop_types conns s i dsp register ports scanned d t ≡ some s'
        → All (IsTaken s register ports dsp d) s'.removed
    unfolding integrate IsTaken IsListed IsGrouped
    integrate-IsTaken scanned d t l h =
        let (r, e1, h1) =
          >>=_some (reconnect_ports netlist s.cells t scanned.flops ports dsp s.removed) _ s' h in
        let (dsp', e2, h2) = >>=_some (map_ports netlist d ports r.0) _ s' h1 in
        subst (All (IsTaken s register ports dsp d)) (removed_same _ h2) (
          reconnect_ports-All netlist s.cells (IsTaken s register ports dsp d) t scanned.flops
            (All-imp _ _ (λ e. All-imp _ _ taken e.1) scanned.flops l) ports dsp s.removed r e1
            (All-imp _ _ (λ k m. inl m) s.removed (members-All s.removed s.removed (λ k m. m))))
      where
        removed_same : (x : State B C) → some x ≡ some s' → x.removed ≡ s'.removed
        removed_same x h = cc

        taken :
            (flop : Option ℕ)
            → IsListed netlist flop_types s.cells conns s.removed register ports dsp (d ∷ []) flop
            → IfSome (IsTaken s register ports dsp d) flop
        taken none x = tt
        taken (some k) (d', f, inl a) = inr (d', f, a)
        taken (some k) (d', f, inr a) = absurd a

    process_group-IsTaken :
        (scanned : Scanned B C) (groups : List (FlopData B C))
        → scanned.groups ≡ groups
        → AllListed netlist flop_types s.cells conns s.removed register ports dsp scanned
        → process_group netlist flop_types conns s i dsp register ports scanned groups ≡ some s'
        → Outcome
    unfolding process_group Outcome
    process_group-IsTaken scanned [] g l h = inl (cc h)
    process_group-IsTaken scanned (d ∷ d' ∷ groups) g l h = inl (cc h)
    process_group-IsTaken scanned (d ∷ []) g l h =
        let (t, e1, h1) = >>=_some (lookup d.type flop_types) _ s' h in
        let (ok, e2, h2) =
          >>=_some
            (check_flop_data_against_dsp_register netlist t (or_empty (lookup i s.changes)) d dsp
              register ports)
            _ s' h1 in
        elim (Bool-cases ok) [
          | inr e ↦ inl (unchanged (rw e at h2))
          | inl e ↦ inr (
            d,
            integrate-IsTaken scanned d t
                (subst
                  (λ gs.
                    All
                      (λ (e : List ℕ × List (Option ℕ)).
                        All
                          (IsListed netlist flop_types s.cells conns s.removed register ports dsp
                            gs)
                          e.1)
                      scanned.flops)
                  g l)
                (rw e at h2),
          )
        ]
      where
        unchanged : some s ≡ some s' → s' ≡ s
        unchanged h = cc

    pub process_register-IsTaken :
        get_elem? s.cells i ≡ some dsp
        → process_register netlist flop_types conns s i register ports ≡ some s'
        → (s' ≡ s) ⊎ ((d : FlopData B C) × All (IsTaken s register ports dsp d) s'.removed)
    unfolding process_register Outcome
    process_register-IsTaken at_i h =
        let (dsp', e0, h0) = >>=_some (get_elem? s.cells i) _ s' h in
        let same : dsp' ≡ dsp = cc in
        let (used, e1, h1) = >>=_some (is_used netlist dsp' register.set) _ s' h0 in
        elim (Bool-cases used) [
          | inl e ↦ inl (unchanged (rw e at h1))
          | inr e ↦
              let (scanned, e2, h2) =
                >>=_some
                  (scan_ports netlist flop_types s.cells conns s.removed register dsp' ports
                    (record { flops_ok = true; groups = []; flops = [] }))
                  _ s' (rw e at h1) in
              elim (Bool-cases scanned.flops_ok) [
                | inr f ↦ inl (unchanged (rw f at h2))
                | inl f ↦
                    process_group-IsTaken scanned scanned.groups refl
                      (scan_ports-AllListed netlist flop_types s.cells conns s.removed register
                        ports dsp ports _ scanned (λ p k. k) (rw same at e2) tt)
                      (rw same at (rw f at h2))
              ]
        ]
      where
        unchanged : some s ≡ some s' → s' ≡ s
        unchanged h = cc
