-- ===== src/P2p/Gorpc/Reader/Depth.antt =====
-- How deep `skip` calls itself.
use teleno.Base.{
  Bytes, [], ap, arith, bytes_key, err, length, nat_key, ok, refl, suc, zero, ℕ, ◌<◌, ◌∙◌, ◌∷◌, ◌≡◌,
}
use teleno.P2p.Gorpc.Reader.{
  out_of_fuel, skip, skip_at, skip_after, skip_items, is_one_byte, is_raw, is_array, read_size,
}
use teleno.P2p.Gorpc.Reader.Skip.{skip_items_step, skip_items_stop}

-- Arrays of one element, each in the other, around nil.
unfoldable pub nested : ℕ → Bytes
nested zero = 0xc0 ∷ []
nested (suc n) = 0x91 ∷ nested n

skip_at-nested_deep : (n : ℕ) → skip_at n (nested n) ≡ err out_of_fuel
unfolding skip_at skip_after nested is_one_byte is_raw is_array read_size
skip_at-nested_deep zero = refl
skip_at-nested_deep (suc n) =
    skip_items_stop (skip_at n) 0 (nested n) out_of_fuel (skip_at-nested_deep n)

skip_at-nested : (n fuel : ℕ) → n < fuel → skip_at fuel (nested n) ≡ ok []
unfolding skip_at skip_after nested is_one_byte is_raw is_array read_size
skip_at-nested n zero lt = absurd (omega arith)
skip_at-nested zero (suc fuel) lt = refl
skip_at-nested (suc n) (suc fuel) lt =
    skip_items_step (skip_at fuel) 0 (nested n) [] (skip_at-nested n fuel (omega arith))
    ∙ unfold skip_items in refl

length-nested : (n : ℕ) → length (nested n) ≡ suc n
unfolding nested
length-nested zero = refl
length-nested (suc n) = ap suc (length-nested n)

-- For every depth there is a message of one byte more that `skip` passes over, and that needs more
-- calls of `skip`, one in the other, than that depth: nothing bounds the recursion.
pub skip-nested :
    (n : ℕ)
    → (length (nested n) ≡ suc n)
      × (skip (nested n) ≡ ok [])
      × (skip_at n (nested n) ≡ err out_of_fuel)
unfolding skip
skip-nested n = (
  length-nested n,
  skip_at-nested n (suc (length (nested n))) (omega (arith, length-nested n)),
  skip_at-nested_deep n,
)
