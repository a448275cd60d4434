-- ===== src/P2p/ForkWatchdog.antt =====
-- p2p/fork_watchdog.hpp: the ids of the blocks under each pair of a signer and a parent, and the pairs
-- by the heights that they were met at. Its mutex is not modelled.
pub mod Flags
pub mod Counts
mod Examples
use teleno.Base.{
  Bool, Bytes, List, Option, [], bytes_key, if◌then◌else◌, leb, length, ltb, nat_key, none,
  pair_key, some, ℕ, ◌∷◌,
}
use teleno.StdMap
use teleno.StdMap.{Map}

-- `fork_key`, compared as a `std::tuple`.
abbrev pub ForkKey : Type 0
ForkKey = Bytes × Bytes

pub record Watchdog : Type 0 where
  pub forks : Map ForkKey (Map Bytes (Unit {0}))
  pub height_index : Map ℕ (Map ForkKey (Unit {0}))

abbrev pub max_forks_per_parent : ℕ
max_forks_per_parent = 3

abbrev pub new_watchdog : Watchdog
new_watchdog = record { forks = []; height_index = [] }

-- `operator[]`: what is stored, or an empty container.
unfoldable pub or_empty : {A : Type 0} → Option (List A) → List A
or_empty none = []
or_empty (some xs) = xs

unfoldable pub blocks_of : ForkKey → Watchdog → Map Bytes (Unit {0})
unfolding or_empty
blocks_of key w = or_empty (StdMap.lookup key w.forks)

unfoldable pub check : Bytes → Bytes → Bytes → ℕ → Watchdog → Bool × Watchdog
unfolding or_empty blocks_of
check block_id signer parent_id height w =
    let key : ForkKey = (signer, parent_id) in
    let blocks = StdMap.insert_or_assign block_id tt (blocks_of key w) in
    let keys = StdMap.insert_or_assign key tt (or_empty (StdMap.lookup height w.height_index)) in
    (
      ltb max_forks_per_parent (length blocks),
      record {
        forks = StdMap.insert_or_assign key blocks w.forks;
        height_index = StdMap.insert_or_assign height keys w.height_index;
      },
    )

unfoldable pub erase_keys :
    Map ForkKey (Unit {0}) → Map ForkKey (Map Bytes (Unit {0})) → Map ForkKey (Map Bytes (Unit {0}))
erase_keys [] forks = forks
erase_keys ((key, _) ∷ keys) forks = erase_keys keys (StdMap.erase key forks)

-- The loop from the lowest height on.
unfoldable pub purge :
    ℕ → Map ℕ (Map ForkKey (Unit {0})) → Map ForkKey (Map Bytes (Unit {0})) → Watchdog
unfolding erase_keys
purge height [] forks = record { forks = forks; height_index = [] }
purge height ((h, keys) ∷ index) forks =
    let rest = purge height index (erase_keys keys forks) in
    if leb h height then rest else record { forks = forks; height_index = (h, keys) ∷ index }

unfoldable pub purge_below : ℕ → Watchdog → Watchdog
unfolding purge
purge_below height w = purge height w.height_index w.forks

-- The calls of `p2p_node.cpp`: a block is checked when it is synchronised or gossiped, with its
-- signature in the place of its signer, and a new irreversible block purges.
pub record Seen : Type 0 where
  pub id : Bytes
  pub signature : Bytes
  pub previous : Bytes
  pub height : ℕ

unfoldable pub check_block : Seen → Watchdog → Bool × Watchdog
unfolding check
check_block b w = check b.id b.signature b.previous b.height w

unfoldable pub on_block_irreversible : ℕ → Watchdog → Watchdog
unfolding purge_below
on_block_irreversible height w = purge_below height w
