-- ===== src/BlockStore/SkipList.antt =====
-- block_store/skip_list.hpp: which ancestors a block points to, and which pointer to follow.
-- Heights are `uint64_t`: no difference taken here leaves the range, as 2 ^ i divides the height.
pub mod Bounds
use teleno.Base.{
  List, Option, [], bytes_key, if◌then◌else◌, leb, ltb, nat_beq, nat_key, none, some, sub_ℕ, suc,
  zero, ℕ, ℤ, ◌%◌, ◌-◌, ◌/◌, ◌^◌, ◌∷◌, pos,
}

-- `std::countr_zero`, on 64 digits.
unfoldable pub trailing_zeros : ℕ → ℕ → ℕ
trailing_zeros zero n = 0
trailing_zeros (suc w) n =
    let rest = trailing_zeros w (n / 2) in if nat_beq (n % 2) 0 then suc rest else 0

unfoldable pub countr_zero : ℕ → ℕ
unfolding trailing_zeros
countr_zero n = trailing_zeros 64 n

-- for( int i = 0; i <= zeros; ++i ): the rounds that are left, and `i`.
unfoldable pub heights_from : ℕ → ℕ → ℕ → List ℕ
heights_from zero i height = []
heights_from (suc left) i height = (height - 2 ^ i) ∷ heights_from left (suc i) height

unfoldable pub get_previous_heights : ℕ → List ℕ
unfolding heights_from
get_previous_heights height =
    if nat_beq height 0 then [] else heights_from (suc (countr_zero height)) 0 height

pub record SkipIndex : Type 0 where
  pub index : ℤ
  pub height : ℕ

unfoldable pub index_from : ℕ → ℕ → ℕ → ℕ → ℤ → ℕ → SkipIndex
index_from zero i goal current last_idx last_h = record { index = last_idx; height = last_h }
index_from (suc left) i goal current last_idx last_h =
    let rest = index_from left (suc i) goal current (pos i) (current - 2 ^ i) in
    if ltb (current - 2 ^ i) goal then record { index = sub_ℕ i 1; height = last_h } else rest

-- `none` is the `std::invalid_argument` of a goal that is not below the current height.
unfoldable pub get_previous_height_index : ℕ → ℕ → Option SkipIndex
unfolding index_from
get_previous_height_index goal current =
    if leb current goal
    then none
    else some (index_from (suc (countr_zero current)) 0 goal current (pos 0) 0)
