-- ===== src/Core/ServiceRegistry.antt =====
-- core/service_registry.hpp: components are started in order and stopped in the opposite order. The
-- callbacks of a component belong to their callers: each takes the state of the program and returns
-- whether it came back without an exception, and the state. Log output is not modelled.
pub mod Laws
use teleno.Base.{Bool, Bytes, List, [], bytes_key, false, nat_key, not, true, ◌++◌, ◌==◌, ◌∷◌}

pub record Component (W : Type 0) : Type 0 where
  pub name : Bytes
  pub start : W → Bool × W
  pub stop : W → Bool × W
  pub started : Bool

pub data Outcome : Type 0 where
  returned : Outcome
  rethrown : Outcome
  unknown_component : Outcome

module _ {W : Type 0} where
  unfoldable pub add :
      Bytes → (W → Bool × W) → (W → Bool × W) → List (Component W) → List (Component W)
  add name start_fn stop_fn cs =
      cs ++ (record { name = name; start = start_fn; stop = stop_fn; started = false } ∷ [])

  -- An exception of `stop` is logged, and the component stays started.
  unfoldable pub stop_component : Component W → W → Component W × W
  stop_component c w = elim c.started [
    | false ↦ (c, w)
    | true ↦ let (fine, w') = c.stop w in (record c { started = not fine }, w')
  ]

  unfoldable pub stop_all : List (Component W) → W → List (Component W) × W
  unfolding stop_component
  stop_all [] w = ([], w)
  stop_all (c ∷ cs) w =
      let (cs', w') = stop_all cs w in let (c', w'') = stop_component c w' in (c' ∷ cs', w'')

  -- `start_component` on a component that stands between `before` and `after`: with an exception
  -- every component is stopped before it is thrown on.
  unfoldable pub start_component :
      List (Component W) → Component W → List (Component W) → W → Outcome × List (Component W) × W
  unfolding stop_all
  start_component before c after w =
      let (fine, w') = c.start w in
      elim fine [
        | true ↦ (returned, before ++ (record c { started = true } ∷ after), w')
        | false ↦ let (cs', w'') = stop_all (before ++ (c ∷ after)) w' in (rethrown, cs', w'')
      ]

  -- The loop of `start_all`, past the components `before`.
  unfoldable pub start_from :
      List (Component W) → List (Component W) → W → Outcome × List (Component W) × W
  unfolding stop_all
  start_from before [] w = (returned, before, w)
  start_from before (c ∷ cs) w = elim c.started [
    | true ↦ start_from (before ++ (c ∷ [])) cs w
    | false ↦
        let (fine, w') = c.start w in
        elim fine [
          | true ↦ start_from (before ++ (record c { started = true } ∷ [])) cs w'
          | false ↦ let (cs', w'') = stop_all (before ++ (c ∷ cs)) w' in (rethrown, cs', w'')
        ]
  ]

  unfoldable pub start_all : List (Component W) → W → Outcome × List (Component W) × W
  unfolding start_from
  start_all cs w = start_from [] cs w

  -- `std::find_if` from the component after `before` on.
  unfoldable pub start_named :
      Bytes → List (Component W) → List (Component W) → W → Outcome × List (Component W) × W
  unfolding start_component
  start_named name before [] w = (unknown_component, before, w)
  start_named name before (c ∷ cs) w = elim (c.name == name) [
    | false ↦ start_named name (before ++ (c ∷ [])) cs w
    | true ↦ elim c.started [
      | true ↦ (returned, before ++ (c ∷ cs), w)
      | false ↦ start_component before c cs w
    ]
  ]

  unfoldable pub start : Bytes → List (Component W) → W → Outcome × List (Component W) × W
  unfolding start_named
  start name cs w = start_named name [] cs w
