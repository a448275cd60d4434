-- ===== src/StateDb/MergeIterator/Traversal.antt =====
-- The entries that `operator++` visits, up to the end, are those of the merged chain.
use teleno.Base.{
  Bool, Bool-cases, Bytes, List, Option-cases, Result, [], arith, beq-false_sym, bytes_beq_iff,
  bytes_key, bytes_less_total, err, if◌then◌else◌, inl, inr, nat_key, none, ok, refl, some, subst,
  suc, sym, true, zero, ℕ, ◌<?◌, ◌==◌, ◌∷◌, ◌≡◌, ◌≤◌,
}
use teleno.StdMap
use teleno.StdMap.{Above-trans, Map, IsSorted, Above}
use teleno.StateDb.Delta.{Delta, find, IsValid}
use teleno.StateDb.MergeIterator.{Error, Wrapper, remaining, begin_of, deref, next}
use teleno.StateDb.MergeIterator.Steps.{ahead_of}
use teleno.StateDb.MergeIterator.Laws.{At, Descends, IsNext, At-deref, next-At, deref-cases}
use teleno.StateDb.MergeIterator.Start.{begin_of-At, everywhere}

-- `for( ; it != end; ++it )`, on fuel.
unfoldable pub entries : ℕ → List Wrapper → List (Bytes × Bytes)
unfolding deref next
entries zero ws = []
entries (suc n) ws = elim (deref ws) [
  | none ↦ []
  | some e ↦ elim (next ws) [ err x ↦ [] | ok rs ↦ e ∷ entries n rs ]
]

entries-end : (n : ℕ) (ws : List Wrapper) → deref ws ≡ none → entries n ws ≡ []
unfolding entries
entries-end zero ws h = refl
entries-end (suc n) ws h = rw (entries, h) refl

entries-step :
    (n : ℕ) (ws rs : List Wrapper) (e : Bytes × Bytes)
    → deref ws ≡ some e
    → next ws ≡ ok rs
    → entries (suc n) ws ≡ e ∷ entries n rs
unfolding entries
entries-step n ws rs e h t = rw (entries, h, t) refl

-- The entries that are left: sorted, all ahead, and each key that is ahead with what is found of it.
pub record Visits (ahead : Bytes → Bool) (d : Delta) (es : Map Bytes Bytes) : Type 0 where
  pub sorted : IsSorted es
  pub reads : (j : Bytes) → StdMap.lookup j es ≡ (if ahead j then find d j else none)

Above-reads :
    (k : Bytes) (es : Map Bytes Bytes)
    → IsSorted es
    → ((j u : Bytes) → StdMap.lookup j es ≡ some u → (k <? j) ≡ true)
    → Above k es
unfolding StdMap.lookup
Above-reads k [] s h = tt
Above-reads k ((i, v) ∷ es) s h = (
  h i v (ground (arith, bytes_beq_iff i i)),
  Above-trans k i es (h i v (ground (arith, bytes_beq_iff i i))) s.0,
)

visit :
    (ahead : Bytes → Bool) (d : Delta) (k v : Bytes) (es : Map Bytes Bytes)
    → IsNext ahead (find d) (some (k, v))
    → Visits (ahead_of ahead k) d es
    → Visits ahead d ((k, v) ∷ es)
unfolding StdMap.lookup
visit ahead d k v es next_entry rest = record {
  sorted = (Above-reads k es rest.sorted (λ j u h. ground (arith, rest.reads j, h)), rest.sorted);
  reads = λ j. elim (Bool-cases (k == j)) [
    | inl same ↦
        let e = (bytes_beq_iff k j).0 same in
        rw same (
          subst (λ y. some v ≡ (if ahead y then find d y else none)) e
            (ground (arith, next_entry.0, next_entry.1)))
    | inr other ↦ elim (Option-cases (find d j)) [
      | inl absent ↦ ground (arith, other, rest.reads j, absent)
      | inr (u, held) ↦ ground (
        arith,
        other,
        rest.reads j,
        held,
        next_entry.2 j u,
        bytes_less_total j k,
        beq-false_sym k j other,
      )
    ]
  ];
}

none_left :
    (ahead : Bytes → Bool) (d : Delta) (n : ℕ) (ws : List Wrapper)
    → At ahead d ws
    → deref ws ≡ none
    → Visits ahead d (entries n ws)
unfolding StdMap.lookup
none_left ahead d n ws a e =
    let over = subst (IsNext ahead (find d)) e (At-deref ahead d ws a) in
    subst (Visits ahead d) (sym (entries-end n ws e)) (record {
      sorted = tt;
      reads = λ j. elim (Option-cases (find d j)) [
        | inl absent ↦ ground (arith, absent)
        | inr (u, held) ↦ ground (arith, over j u, held)
      ];
    })

pub entries-Visits :
    (ahead : Bytes → Bool) (d : Delta) (n : ℕ) (ws : List Wrapper)
    → At ahead d ws
    → remaining ws ≤ n
    → Visits ahead d (entries n ws)
entries-Visits ahead d zero ws a le = elim (deref-cases ws) [
  | inl (_, e) ↦ none_left ahead d zero ws a e
  | inr (x, entry, _) ↦
      let (rs, t, a', fewer) = next-At ahead d ws a x entry in absurd (omega (arith, fewer, le))
]
entries-Visits ahead d (suc n) ws a le = elim (deref-cases ws) [
  | inl (_, e) ↦ none_left ahead d (suc n) ws a e
  | inr (x, entry, e) ↦
      let (rs, t, a', fewer) = next-At ahead d ws a x entry in
      let here = subst (IsNext ahead (find d)) e (At-deref ahead d ws a) in
      let rest = entries-Visits (ahead_of ahead x.0) d n rs a' (omega (arith, fewer, le)) in
      subst (Visits ahead d) (sym (entries-step n ws rs x e t))
        (visit ahead d x.0 x.1 (entries n rs) here rest)
]

-- On a chain whose backends are sorted maps and whose revisions fall towards the root, the entries
-- from `begin` to `end` are sorted, each key once, and hold at each key what `find` reads there
-- through the whole chain.
pub entries-find :
    (d : Delta)
    → IsValid d
    → Descends d
    → Visits everywhere d (entries (remaining (begin_of d)) (begin_of d))
entries-find d v h =
    entries-Visits everywhere d (remaining (begin_of d)) (begin_of d) (begin_of-At d v h)
      (omega arith)

-- The same loop, for where it ends.
unfoldable pub run_to_end : ℕ → List Wrapper → Result Error (List Wrapper)
unfolding deref next
run_to_end zero ws = ok ws
run_to_end (suc n) ws = elim (deref ws) [
  | none ↦ ok ws
  | some e ↦ elim (next ws) [ err x ↦ err x | ok rs ↦ run_to_end n rs ]
]

abbrev pub Ends : Result Error (List Wrapper) → Type 0
Ends r = (rs : List Wrapper) × (r ≡ ok rs) × (deref rs ≡ none)

run_to_end-Ends :
    (ahead : Bytes → Bool) (d : Delta) (n : ℕ) (ws : List Wrapper)
    → At ahead d ws
    → remaining ws ≤ n
    → Ends (run_to_end n ws)
unfolding run_to_end
run_to_end-Ends ahead d zero ws a le = elim (deref-cases ws) [
  | inl (_, e) ↦ (ws, refl, e)
  | inr (x, entry, _) ↦
      let (rs, t, a', fewer) = next-At ahead d ws a x entry in absurd (omega (arith, fewer, le))
]
run_to_end-Ends ahead d (suc n) ws a le = elim (deref-cases ws) [
  | inl (_, e) ↦ rw (run_to_end, e) (ws, refl, e)
  | inr (x, entry, e) ↦
      let (rs, t, a', fewer) = next-At ahead d ws a x entry in
      rw (run_to_end, e, t)
        (run_to_end-Ends (ahead_of ahead x.0) d n rs a' (omega (arith, fewer, le)))
]

-- On such a chain, incrementing an iterator from `begin` on reaches the end in no more steps than
-- the backends have entries, and no increment throws.
pub begin_of-Ends :
    (d : Delta) → IsValid d → Descends d → Ends (run_to_end (remaining (begin_of d)) (begin_of d))
begin_of-Ends d v h =
    run_to_end-Ends everywhere d (remaining (begin_of d)) (begin_of d) (begin_of-At d v h)
      (omega arith)
