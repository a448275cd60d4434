-- ===== src/StateDb/MergeIterator/NextObject.antt =====
-- state_db.cpp, `get_next_object`: the object behind a key.
use teleno.StateDb.MergeIterator.Start.{not_below, lower_bound-At}
use teleno.StateDb.MergeIterator.Steps.{ahead_of}
use teleno.Base.{
  Bool, Bool-cases, Bytes, List, List-cases, Option, Option-cases, [], ap, arith, bytes_beq_iff,
  bytes_key, bytes_less_total, false, fun_ext, inl, inr, is_some, less_asym, nat_key, none, not, ok,
  refl, some, subst, sym, true, ◌&&◌, ◌<?◌, ◌==◌, ◌∙◌, ◌∷◌, ◌≡◌,
}
use teleno.StateDb.Delta.{Delta, root, child, IsValid, find}
use teleno.StateDb.Node.{ObjectSpace}
use teleno.StateDb.MergeIterator.{
  Wrapper, begin, deref, current, key, valid, is_end, same, wrappers, merge_iterator, lower_bound,
  end_of, dirty_first, object_at, get_next_object, resolve_conflicts, remaining, next,
}
use teleno.StateDb.MergeIterator.First.{begin-some, begin-First, head_first, later_first}
use teleno.StateDb.MergeIterator.Resolve.{resolve_conflicts-clean}
use teleno.StateDb.MergeIterator.Laws.{IsNext, Descends, deref-cases, At-deref, next-At}

-- No wrapper of the list has an entry left.
abbrev AllEnded : List Wrapper → Type 0
AllEnded [] = Unit
AllEnded (w ∷ ws) = (w.itr ≡ []) × AllEnded ws

wrappers-AllEnded : (d : Delta) → AllEnded (wrappers (λ m. []) d)
unfolding wrappers
wrappers-AllEnded (root f) = (refl, tt)
wrappers-AllEnded (child f p) = (refl, wrappers-AllEnded p)

begin-wrappers : (d : Delta) → (w : Wrapper) × (begin (wrappers (λ m. []) d) ≡ some w)
unfolding wrappers
begin-wrappers (root f) = begin-some _ _
begin-wrappers (child f p) = begin-some _ _

begin-AllEnded : (ws : List Wrapper) (w : Wrapper) → AllEnded ws → begin ws ≡ some w → w.itr ≡ []
unfolding begin
begin-AllEnded [] w a h = absurd (ground arith)
begin-AllEnded (u ∷ us) w a h = elim (begin-First u w us h) [
  | head_first p o ↦ subst (λ (x : Wrapper). x.itr ≡ []) p a.0
  | later_first p o ↦ begin-AllEnded us w a.1 p
]

dirty_first-AllEnded : (ws : List Wrapper) → AllEnded ws → dirty_first ws ≡ none
unfolding dirty_first
dirty_first-AllEnded ws a = elim (Option-cases (begin ws)) [
  | inl e ↦ rw (dirty_first, e) refl
  | inr (w, e) ↦ ground (arith, e, begin-AllEnded ws w a e)
]

end_of-AllEnded : (d : Delta) → AllEnded (end_of d)
unfolding end_of merge_iterator
end_of-AllEnded d =
    let ws = wrappers (λ m. []) d in
    let a = wrappers-AllEnded d in
    subst AllEnded (sym (resolve_conflicts-clean (remaining ws) ws (dirty_first-AllEnded ws a))) a

is_end-AllEnded : (ws : List Wrapper) → AllEnded ws → is_end ws ≡ true
unfolding is_end valid
is_end-AllEnded [] a = refl
is_end-AllEnded (w ∷ ws) a = ground (arith, a.0, is_end-AllEnded ws a.1)

-- `it == end()` is that nothing is left to read.
same-ended :
    (ws es : List Wrapper) (w : Wrapper)
    → begin es ≡ some w
    → AllEnded es
    → same ws es ≡ not (is_some (deref ws))
unfolding same deref current valid
same-ended ws es w h a = elim (Option-cases (begin ws)) [
  | inl e ↦ ground (arith, e, h, is_end-AllEnded es a)
  | inr (u, e) ↦ elim (List-cases u.itr) [
    | inl gone ↦ ground (arith, e, h, gone, begin-AllEnded es w a h)
    | inr (x, m, at) ↦ ground (arith, e, h, at, begin-AllEnded es w a h)
  ]
]

same-end : (ws : List Wrapper) (d : Delta) → same ws (end_of d) ≡ not (is_some (deref ws))
unfolding end_of merge_iterator
same-end ws d = let (w, h) = begin-end_of d in same-ended ws (end_of d) w h (end_of-AllEnded d)
  where
    clean :
        (d : Delta)
        → resolve_conflicts (remaining (wrappers (λ m. []) d)) (wrappers (λ m. []) d)
          ≡ wrappers (λ m. []) d
    clean d =
        resolve_conflicts-clean (remaining (wrappers (λ m. []) d)) (wrappers (λ m. []) d)
          (dirty_first-AllEnded (wrappers (λ m. []) d) (wrappers-AllEnded d))

    begin-end_of : (d : Delta) → (w : Wrapper) × (begin (end_of d) ≡ some w)
    begin-end_of d = let (w, h) = begin-wrappers d in (w, ap begin (clean d) ∙ h)

IsNext-map :
    (p q : Bytes → Bool) (f : Bytes → Option Bytes) (e : Option (Bytes × Bytes))
    → ((j : Bytes) → p j ≡ q j)
    → IsNext p f e
    → IsNext q f e
IsNext-map p q f e same_keys = subst (λ r. IsNext r f e) (fun_ext same_keys)

passed : (b j : Bytes) → j ≡ b → (i : Bytes) → ahead_of (not_below b) j i ≡ (b <? i)
passed b j e i =
    subst (λ x. (not (i <? b) && x <? i) ≡ (b <? i)) (sym e) (ground (arith, less_asym b i))

behind :
    (b j u : Bytes) (d : Delta)
    → (j == b) ≡ false
    → IsNext (not_below b) (find d) (some (j, u))
    → IsNext (λ i. b <? i) (find d) (some (j, u))
behind b j u d other here = (
  ground (arith, other, here.0, bytes_less_total j b),
  here.1,
  λ i w above f. here.2 i w (ground (arith, above, less_asym b i)) f,
)

module _ (encode : ObjectSpace → Bytes → Bytes)
    (decode : Bytes → Option (ObjectSpace × Bytes)) where
  -- The three ways through `get_next_object`.
  at_end :
      (s : ObjectSpace) (k : Bytes) (d : Delta)
      → deref (lower_bound (encode s k) d) ≡ none
      → get_next_object encode decode s k d ≡ ok none
  unfolding get_next_object
  at_end s k d e =
      let at = same-end (lower_bound (encode s k) d) d in
      rw (get_next_object, at, e) (rw (at, e) refl)

  at_other :
      (s : ObjectSpace) (k j v : Bytes) (d : Delta)
      → deref (lower_bound (encode s k) d) ≡ some (j, v)
      → (j == encode s k) ≡ false
      → get_next_object encode decode s k d ≡ object_at encode decode s (some (j, v))
  unfolding get_next_object key
  at_other s k j v d e other =
      let at = same-end (lower_bound (encode s k) d) d in
      rw (get_next_object, at, e, other) (rw (at, e) refl)

  at_key :
      (s : ObjectSpace) (k j v : Bytes) (d : Delta) (rs : List Wrapper)
      → deref (lower_bound (encode s k) d) ≡ some (j, v)
      → (j == encode s k) ≡ true
      → next (lower_bound (encode s k) d) ≡ ok rs
      → get_next_object encode decode s k d ≡ object_at encode decode s (deref rs)
  unfolding get_next_object key object_at
  at_key s k j v d rs e here t =
      let at = same-end (lower_bound (encode s k) d) d in
      elim (Option-cases (deref rs)) [
        | inl over ↦ rw (get_next_object, at, e, here, t) (rw (same-end rs d, over) refl)
        | inr (x, more) ↦ rw (get_next_object, at, e, here, t) (rw (same-end rs d, more) refl)
      ]

  -- On a chain whose backends are sorted maps and whose revisions fall towards the root, what it
  -- returns is read from the entry of the least key above the one it was given that `find` reads a
  -- value of, with that value, or from the end if there is none.
  pub get_next_object-IsNext :
      (s : ObjectSpace) (k : Bytes) (d : Delta)
      → IsValid d
      → Descends d
      → (e : Option (Bytes × Bytes)) × IsNext (λ j. encode s k <? j) (find d) e
        × (get_next_object encode decode s k d ≡ object_at encode decode s e)
  unfolding object_at
  get_next_object-IsNext s k d v h =
      let b = encode s k in
      let it = lower_bound b d in
      let a = lower_bound-At b d v h in
      elim (deref-cases it) [
        | inl (_, e) ↦
            let over = subst (IsNext (not_below b) (find d)) e (At-deref (not_below b) d it a) in
            (none, λ j u above f. over j u (ground (arith, above, less_asym b j)) f, at_end s k d e)
        | inr ((j, u), entry, e) ↦
            let here = subst (IsNext (not_below b) (find d)) e (At-deref (not_below b) d it a) in
            elim (Bool-cases (j == b)) [
              | inr other ↦ (some (j, u), behind b j u d other here, at_other s k j u d e other)
              | inl same_key ↦
                  let (rs, t, a', _) = next-At (not_below b) d it a (j, u) entry in
                  (
                    deref rs,
                    IsNext-map _ _ (find d) (deref rs) (passed b j ((bytes_beq_iff j b).0 same_key))
                        (At-deref (ahead_of (not_below b) j) d rs a'),
                    at_key s k j u d rs e same_key t,
                  )
            ]
      ]
