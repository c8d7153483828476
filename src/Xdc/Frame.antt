-- ===== src/Xdc/Frame.antt =====
-- What `set_property` changes, and its dictionaries.
use mathlib.Core.Path.{subst}
use yosys_f4pga_plugins.Prelude.{
  ℕ, ◌≡◌, ◌≢◌, refl, ◌∙◌, false, not, ◌&&◌, ◌||◌, Bool-cases, Option, none, some, Option-cases,
  List, [], ◌∷◌, All, inl, inr, ltb, leb, ◌+◌,
}
use yosys_f4pga_plugins.Prelude.Text.{codes, same_text, text_eq}
use yosys_f4pga_plugins.Prelude.Words.{words}
use yosys_f4pga_plugins.Prelude.Options.{◌>>=◌, check, >>=_some, >>_some}
use yosys_f4pga_plugins.Prelude.Dict.{lookup, lookup-put_other, member, beq_false}
use yosys_f4pga_plugins.Xdc.{
  Chunk, Cell, Module, primitive_parameters, trim, is_signal_port, traverse_connections,
  joined_value, set_on_connections, set_on_cells, process_port_parameter,
}
use yosys_f4pga_plugins.Xdc.Property.{State, Banks, read_property, pairs_of, read_pairs, execute}

-- A cell after a change of one parameter: nothing else is changed, and nothing at all where the type has
-- no such parameters.
pub record IsSameBut (parameter : List ℕ) (c c' : Cell) : Type 0 where
  pub type : c.type ≡ c'.type
  pub connections : c.connections ≡ c'.connections
  pub others :
      (q : List ℕ) → same_text q parameter ≡ false → lookup q c'.parameters ≡ lookup q c.parameters
  pub unsupported : lookup c.type primitive_parameters ≡ none → c ≡ c'

unfoldable pub AreSameBut : List ℕ → List Cell → List Cell → Type 0
AreSameBut parameter [] [] = Unit
AreSameBut parameter (c ∷ cells) (c' ∷ cells') =
    IsSameBut parameter c c' × AreSameBut parameter cells cells'
AreSameBut parameter _ _ = ⊥

module _ (scan : List ℕ → List ℕ × Option ℕ) (top : Module) where
  module _ (parameter port_name : List ℕ) where
    -- A cell whose other parameters are as they were.
    Kept : Cell → Cell → Type 0
    Kept c c' =
        (c.type ≡ c'.type)
        × (c.connections ≡ c'.connections)
        × ((q : List ℕ)
            → same_text q parameter ≡ false
            → lookup q c'.parameters ≡ lookup q c.parameters)

    set_on_connections-Kept :
        (supported : List (List ℕ)) (signals : List (Option Chunk)) (c : Cell) (value : List ℕ)
        (r : Cell × List ℕ)
        → set_on_connections scan top parameter port_name supported signals c value ≡ some r
        → Kept c r.0
    unfolding set_on_connections Kept
    set_on_connections-Kept supported [] c value r h =
        subst (Kept c) (injective h) (refl, refl, λ q n. refl)
      where
        injective : some (c, value) ≡ some r → c ≡ r.0
        injective h = cc
    set_on_connections-Kept supported (signal ∷ signals) c value r h =
        elim (Bool-cases (is_signal_port scan top signal port_name)) [
          | inr e ↦
              set_on_connections-Kept supported signals c value r (rw (set_on_connections, e) at h)
          | inl e ↦ elim (Bool-cases (member parameter supported)) [
            | inr f ↦ absurd (cc (rw f at (rw (set_on_connections, e) at h)))
            | inl f ↦
                let (t, s, o) =
                  set_on_connections-Kept supported signals _ _ r
                    (rw f at (rw (set_on_connections, e) at h)) in
                (
                  t,
                  s,
                  λ q n.
                      o q n
                      ∙ lookup-put_other parameter q (joined_value parameter c value) c.parameters
                          n,
                )
          ]
        ]

    set_on_cells-AreSameBut :
        (cells : List Cell) (value : List ℕ) (r : List Cell × List ℕ)
        → set_on_cells scan top parameter port_name cells value ≡ some r
        → AreSameBut parameter cells r.0
    unfolding set_on_cells AreSameBut Kept
    set_on_cells-AreSameBut [] value r h = subst (AreSameBut parameter []) (injective h) tt
      where
        injective : some ([], value) ≡ some r → [] ≡ r.0
        injective h = cc
    set_on_cells-AreSameBut (c ∷ cells) value r h =
        elim (Option-cases (lookup c.type primitive_parameters)) [
          | inl e ↦
              let (s, e1, h1) =
                >>=_some (set_on_cells scan top parameter port_name cells value) _ r
                  (rw (set_on_cells, e) at h) in
              subst (AreSameBut parameter (c ∷ cells)) (injective c s h1) (
                record {
                  type = refl;
                  connections = refl;
                  others = λ q n. refl;
                  unsupported = λ n. refl;
                },
                set_on_cells-AreSameBut cells value s e1,
              )
          | inr (supported, e) ↦
              let (k, e1, h1) =
                >>=_some
                  (set_on_connections scan top parameter port_name supported c.connections c value)
                  _ r (rw (set_on_cells, e) at h) in
              let (s, e2, h2) =
                >>=_some (set_on_cells scan top parameter port_name cells k.1) _ r h1 in
              let (t, g, o) = set_on_connections-Kept supported c.connections c value k e1 in
              subst (AreSameBut parameter (c ∷ cells)) (injective k.0 s h2) (
                record {
                  type = t;
                  connections = g;
                  others = o;
                  unsupported = λ n. absurd (cc (n, e));
                },
                set_on_cells-AreSameBut cells k.1 s e2,
              )
        ]
      where
        injective :
            (c' : Cell) (s : List Cell × List ℕ) → some (c' ∷ s.0, s.1) ≡ some r → c' ∷ s.0 ≡ r.0
        injective c' s h = cc

  -- If a parameter is set on the cells at a port, each cell keeps its type, its connections and its
  -- other parameters, and a cell of a type without such parameters is as it was.
  pub process_port_parameter-AreSameBut :
      (parameter value port_name : List ℕ) (rest : List (List ℕ)) (cells cells' : List Cell)
      → process_port_parameter scan top (parameter ∷ value ∷ port_name ∷ rest) cells ≡ some cells'
      → AreSameBut parameter cells cells'
  unfolding process_port_parameter
  process_port_parameter-AreSameBut parameter value port_name rest cells cells' h =
      let (_, e1, h1) = >>_some (check (not (same_text port_name []))) _ cells' h in
      let (bit, e2, h2) = >>=_some (scan port_name).1 _ cells' h1 in
      let (wire, e3, h3) = >>=_some (lookup (scan port_name).0 top.wires) _ cells' h2 in
      let (_, e4, h4) = >>_some (check (wire.port_input || wire.port_output)) _ cells' h3 in
      let (_, e5, h5) =
        >>_some (check (leb wire.start_offset bit && ltb bit (wire.start_offset + wire.width))) _
          cells' h4 in
      let (source, e6, h6) =
        >>=_some (traverse_connections scan top top.connections (scan port_name).0 bit port_name) _
          cells' h5 in
      let (r, e7, h7) = >>=_some (set_on_cells scan top parameter source cells value) _ cells' h6 in
      subst (AreSameBut parameter cells) (injective r h7)
        (set_on_cells-AreSameBut parameter source cells value r e7)
    where
      injective : (r : List Cell × List ℕ) → some r.0 ≡ some cells' → r.0 ≡ cells'
      injective r h = cc

  module _ (env : Banks) where
    -- Commands, one after the other.
    unfoldable pub execute_all : List (List (List ℕ)) → State → Option State
    unfolding execute
    execute_all [] s = some s
    execute_all (command ∷ commands) s =
        execute scan top env command s >>= λ s'. execute_all commands s'

    abbrev pub in_line : List (List ℕ × List ℕ) → List (List ℕ)
    in_line [] = []
    in_line ((property, value) ∷ pairs) = property ∷ value ∷ in_line pairs

    abbrev pub commands_of : List (List ℕ) → List (List ℕ × List ℕ) → List (List (List ℕ))
    commands_of args [] = []
    commands_of args ((property, value) ∷ pairs) =
        (property ∷ value ∷ args) ∷ commands_of args pairs

    pairs_of-in_line : (pairs : List (List ℕ × List ℕ)) → pairs_of (in_line pairs) ≡ some pairs
    unfolding pairs_of
    pairs_of-in_line [] = refl
    pairs_of-in_line ((p, v) ∷ pairs) = rw (pairs_of, pairs_of-in_line pairs) refl

    read_pairs-execute_all :
        (pairs : List (List ℕ × List ℕ)) (args : List (List ℕ)) (s : State)
        → All (λ (p : List ℕ × List ℕ). p.0 ≢ codes "-dict") pairs
        → read_pairs scan top env pairs args s ≡ execute_all (commands_of args pairs) s
    unfolding read_pairs execute_all execute
    read_pairs-execute_all [] args s h = refl
    read_pairs-execute_all ((p, v) ∷ pairs) args s h =
        rw (execute, beq_false p (codes "-dict") h.0)
          (elim (Option-cases (read_property scan top env (p ∷ v ∷ args) s)) [
            | inl e ↦ rw e refl
            | inr (next, e) ↦ rw e (read_pairs-execute_all pairs args next h.1)
          ])

    -- A dictionary whose words are properties and their values, none of them `-dict`, does what the
    -- commands for each property do, one after the other.
    pub execute-dict :
        (pairs : List (List ℕ × List ℕ)) (dict : List ℕ) (args : List (List ℕ)) (s : State)
        → words (trim dict) ≡ in_line pairs
        → All (λ (p : List ℕ × List ℕ). p.0 ≢ codes "-dict") pairs
        → execute scan top env (codes "-dict" ∷ dict ∷ args) s
          ≡ execute_all (commands_of args pairs) s
    unfolding execute same_text
    execute-dict pairs dict args s w h =
        rw w (rw (pairs_of-in_line pairs) (read_pairs-execute_all pairs args s h))
