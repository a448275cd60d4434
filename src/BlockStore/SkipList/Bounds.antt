-- ===== src/BlockStore/SkipList/Bounds.antt =====
-- The pointers of a block and the one that is followed: within the list, never past the goal, and
-- the longest jump of all that do not pass it.
use teleno.Base.{
  Bool-cases, [], ap, arith, bytes_key, get_elem?, get_elem?-lt, inl, inr, length, ltb, ltb→lt,
  nat_beq, nat_beq_iff, nat_key, pos, refl, some, some_inj, subst, suc, sym, zero, ℕ, ◌%◌, ◌+◌, ◌-◌,
  ◌/◌, ◌<◌, ◌^◌, ◌∙◌, ◌∷◌, ◌≡◌, ◌≤◌, ◌⊎◌,
}
use native.Mathlib.Nat.{pow-suc, add-zero, le_trans, pow-le-pow_right}
use teleno.BlockStore.SkipList.{
  SkipIndex, trailing_zeros, countr_zero, heights_from, get_previous_heights, index_from,
  get_previous_height_index,
}

pub pow_pos : (i : ℕ) → 1 ≤ 2 ^ i
pow_pos zero = omega arith
pow_pos (suc i) = rw (pow-suc 2 i) (omega (arith, pow_pos i))

pow_trailing_zeros-le : (w n : ℕ) → 1 ≤ n → 2 ^ trailing_zeros w n ≤ n
unfolding trailing_zeros
pow_trailing_zeros-le zero n h = omega arith
pow_trailing_zeros-le (suc w) n h = elim (Bool-cases (nat_beq (n % 2) 0)) [
  | inl even ↦
      rw (even, pow-suc)
        (omega (arith, pow_trailing_zeros-le w (n / 2), (nat_beq_iff (n % 2) 0).0 even))
  | inr odd ↦ rw odd (omega arith)
]

length-heights_from : (left i height : ℕ) → length (heights_from left i height) ≡ left
unfolding heights_from
length-heights_from zero i height = refl
length-heights_from (suc left) i height = ap suc (length-heights_from left (suc i) height)

get_elem?-heights_from :
    (left i height j : ℕ)
    → j < left
    → get_elem? (heights_from left i height) j ≡ some (height - 2 ^ (i + j))
unfolding heights_from
get_elem?-heights_from zero i height j h = elim h [ ]
get_elem?-heights_from (suc left) i height zero h = rw (add-zero i)
get_elem?-heights_from (suc left) i height (suc j) h =
    let e : suc i + j ≡ i + suc j = omega arith in
    rw (get_elem?-heights_from left (suc i) height j (omega arith), e)

-- The pointers of a block above height 0 are as many as the zeros that end its height, and one
-- more; pointer `j` is 2 ^ j blocks down, and 2 ^ j is at most the height.
pub record Pointers (height : ℕ) : Type 0 where
  pub count : length (get_previous_heights height) ≡ suc (countr_zero height)
  pub at :
      (j : ℕ)
      → j ≤ countr_zero height
      → get_elem? (get_previous_heights height) j ≡ some (height - 2 ^ j)
  pub within : 2 ^ countr_zero height ≤ height

get_previous_heights-pos :
    (height : ℕ)
    → 1 ≤ height
    → get_previous_heights height ≡ heights_from (suc (countr_zero height)) 0 height
unfolding get_previous_heights
get_previous_heights-pos height h = ground arith

-- A height from 1 on has one pointer more than zeros end it (at most 64 are counted); pointer `j`
-- stands 2 ^ j below, and none goes below height 0.
pub get_previous_heights-Pointers : (height : ℕ) → 1 ≤ height → Pointers height
unfolding countr_zero
get_previous_heights-Pointers height h = record {
  count =
      rw (get_previous_heights-pos height h)
        (length-heights_from (suc (countr_zero height)) 0 height);
  at = λ j lt.
      let e : 0 + j ≡ j = omega arith in
      rw (
        get_previous_heights-pos height h,
        get_elem?-heights_from (suc (countr_zero height)) 0 height j (omega arith),
        e,
      );
  within = pow_trailing_zeros-le 64 height h;
}

-- A pointer that leads from a block to an ancestor at or above the goal, with no longer pointer
-- that does.
pub record Jump (goal current : ℕ) (s : SkipIndex) : Type 0 where
  pub slot : ℕ
  pub index : s.index ≡ pos slot
  pub listed : slot ≤ countr_zero current
  pub target : s.height ≡ current - 2 ^ slot
  pub reach : goal ≤ s.height
  pub longest : (slot ≡ countr_zero current) ⊎ (current - 2 ^ suc slot < goal)

index_from-Jump :
    (left i j goal current h : ℕ)
    → suc j ≡ i
    → i + left ≡ suc (countr_zero current)
    → goal ≤ current - 2 ^ j
    → h ≡ current - 2 ^ j
    → Jump goal current (index_from left i goal current (pos j) h)
unfolding index_from
index_from-Jump zero i j goal current h e z g lh = record {
  slot = j;
  index = refl;
  listed = omega arith;
  target = lh;
  reach = omega arith;
  longest = inl (omega arith);
}
index_from-Jump (suc left) i j goal current h e z g lh =
    elim (Bool-cases (ltb (current - 2 ^ i) goal)) [
      | inl short ↦ rw short (record {
        slot = j;
        index = rw (← e) (ground arith);
        listed = omega arith;
        target = lh;
        reach = omega arith;
        longest = inr (rw e (ltb→lt _ _ short));
      })
      | inr on ↦ rw on (
          index_from-Jump left (suc i) i goal current (current - 2 ^ i) refl (omega arith)
            (ground arith) refl)
    ]

-- For a goal below the current height an index is returned, and it is that of the longest pointer
-- that does not pass the goal, with the height that this pointer reaches.
pub get_previous_height_index-Jump :
    (goal current : ℕ)
    → goal < current
    → (s : SkipIndex) × (get_previous_height_index goal current ≡ some s) × Jump goal current s
unfolding get_previous_height_index index_from
get_previous_height_index-Jump goal current h = (
  index_from (countr_zero current) 1 goal current (pos 0) (current - 1),
  ground arith,
  index_from-Jump (countr_zero current) 1 0 goal current (current - 1) refl (omega arith)
      (omega arith) refl,
)

skip_range-Jump :
    (goal current : ℕ) (s t : SkipIndex)
    → goal < current
    → Jump goal current s
    → s ≡ t
    → (t.height < current) × (goal ≤ t.height) × (goal < current)
skip_range-Jump goal current s t below j e =
    subst (λ x. (x.height < current) × (goal ≤ x.height) × (goal < current)) e
      (omega (arith, pow_pos j.slot), j.reach, below)

-- The next height is lower, at or above the goal, and the jump stays within the heights.
pub skip_range :
    (goal current : ℕ) (s : SkipIndex)
    → get_previous_height_index goal current ≡ some s
    → (s.height < current) × (goal ≤ s.height) × (goal < current)
unfolding get_previous_height_index
skip_range goal current s e = elim (Bool-cases (ltb goal current)) [
  | inl below ↦
      let (s', e', j) = get_previous_height_index-Jump goal current (ltb→lt goal current below) in
      skip_range-Jump goal current s' s (ltb→lt goal current below) j (some_inj s' s (sym e' ∙ e))
  | inr above ↦ ground arith
]

-- The jump does not pass height 0.
pub Jump-within :
    (goal current : ℕ) (s : SkipIndex) (j : Jump goal current s)
    → 1 ≤ current
    → 2 ^ j.slot ≤ current
unfolding countr_zero
Jump-within goal current s j h =
    le_trans (pow-le-pow_right {n = 2} (omega arith) j.listed) (pow_trailing_zeros-le 64 current h)

-- Slot `i` of the pointers is `2 ^ i` blocks down, which is at least 1 and at most the height.
pub slot_range :
    (height i h : ℕ)
    → 1 ≤ height
    → get_elem? (get_previous_heights height) i ≡ some h
    → (h ≡ height - 2 ^ i) × (1 ≤ 2 ^ i) × (2 ^ i ≤ height)
unfolding countr_zero
slot_range height i h above at =
    let p = get_previous_heights-Pointers height above in
    let le : i ≤ countr_zero height =
      omega (arith, p.count, get_elem?-lt (get_previous_heights height) i h at) in
    (
      some_inj h (height - 2 ^ i) (sym at ∙ p.at i le),
      pow_pos i,
      le_trans (pow-le-pow_right {n = 2} (omega arith) le) p.within,
    )

trailing_zeros-odd : (w n : ℕ) → n % 2 ≡ 1 → trailing_zeros (suc w) n ≡ 0
unfolding trailing_zeros
trailing_zeros-odd w n h = rw h

countr_zero-odd : (n : ℕ) → n % 2 ≡ 1 → countr_zero n ≡ 0
unfolding countr_zero
countr_zero-odd n h = trailing_zeros-odd 63 n h

-- An odd height has one pointer, to its parent.
pub get_previous_heights-odd :
    (height : ℕ) → height % 2 ≡ 1 → get_previous_heights height ≡ (height - 1) ∷ []
unfolding heights_from
get_previous_heights-odd zero h = absurd (omega arith)
get_previous_heights-odd (suc n) h =
    get_previous_heights-pos (suc n) (omega arith) ∙ rw (countr_zero-odd (suc n) h)
