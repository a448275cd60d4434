-- ===== src/Core/Examples.antt =====
-- Two components, of which the second does not start. The state lists the names that were stopped.
use teleno.Base.{Bool, List, [], bytes_key, false, nat_key, refl, true, ℕ, ◌∷◌}
use teleno.Core.ServiceRegistry.{Component, start_all}
use teleno.Core.ServiceRegistry.Laws.{AllOrNone, start_all-AllOrNone}

abbrev component : ℕ → Bool → Bool → Component (List ℕ)
component n fine on = record {
  name = n ∷ [];
  start = λ w. (fine, w);
  stop = λ w. (true, n ∷ w);
  started = on;
}

abbrev services : List (Component (List ℕ))
services = component 1 true false ∷ component 2 false false ∷ []

start_all-AllOrNone_example : AllOrNone (start_all services [])
start_all-AllOrNone_example = start_all-AllOrNone services [] (λ w. refl, (λ w. refl, tt))

abbrev running : List (Component (List ℕ))
running = component 3 true true ∷ component 4 true true ∷ []
