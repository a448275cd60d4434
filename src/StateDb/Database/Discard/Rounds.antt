-- ===== src/StateDb/Database/Discard/Rounds.antt =====
-- The loop of `discard_node` looks at no node twice, and at every node below the first.
use teleno.Base.{
  Bool, Bool-cases, Bytes, List, [], ap, arith, bytes_beq_iff, bytes_key, false, if◌then◌else◌, inl,
  inr, nat_key, refl, some, some_inj, subst, suc, sym, true, ◌++◌, ◌==◌, ◌∙◌, ◌∷◌, ◌≡◌, ◌≤◌, ◌⊎◌,
}
use teleno.StdMap.{Map, IsSorted, lookup}
use teleno.StateDb.Database.{Node}
use teleno.StateDb.Database.Discard.{contains, children}
use teleno.StateDb.Database.Discard.Queue.{
  contains-append, AllDistinct, AllDistinct-append, children-lookup, lookup-children,
  children-AllDistinct,
}

abbrev pub seen : Bytes → List Bytes → List Bytes → Bool
seen x queue done = if contains x queue then true else contains x done

-- Every node stands one revision above its parent, if its parent is in the index.
abbrev pub Layered : Map Bytes Node → Type 0
Layered index =
    (x : Bytes) (n p : Node)
    → lookup x index ≡ some n
    → lookup n.parent_id index ≡ some p
    → n.revision ≡ suc p.revision

-- The nodes from `start` on down, but for those of the whitelist and what is below them.
pub data Below (start : Bytes) (whitelist : List Bytes) (index : Map Bytes Node)
    : Bytes → Type 0 where
  first_node : Below start whitelist index start
  child_node :
      (x : Bytes) (n : Node)
      → lookup x index ≡ some n
      → contains x whitelist ≡ false
      → Below start whitelist index n.parent_id
      → Below start whitelist index x

module _ (start head : Bytes) (top : Node) (whitelist : List Bytes) (index : Map Bytes Node) where
  -- The queue between two rounds, and what was looked at.
  pub record Looked (queue done : List Bytes) : Type 0 where
    pub apart : (x : Bytes) → contains x queue ≡ true → contains x done ≡ false
    pub distinct : AllDistinct queue
    pub spared : contains head done ≡ false
    pub grown :
        (x : Bytes)
        → seen x queue done ≡ true
        → (n : Node) × (lookup x index ≡ some n)
          × (top.revision ≤ n.revision)
          × ((x ≡ start) ⊎ (contains n.parent_id done ≡ true))
    pub below : (x : Bytes) → seen x queue done ≡ true → Below start whitelist index x
    pub closed :
        (x : Bytes) (n : Node)
        → lookup x index ≡ some n
        → contains n.parent_id done ≡ true
        → contains x whitelist ≡ false
        → seen x queue done ≡ true
    pub started : seen start queue done ≡ true

module _ (start head : Bytes) (top : Node) (whitelist : List Bytes) (index : Map Bytes Node)
    (sorted : IsSorted index) (layered : Layered index)
    (at_start : lookup start index ≡ some top) where
  -- The parent of the first node is not looked at.
  parent_unseen :
      (id : Bytes) (queue done : List Bytes)
      → Looked start head top whitelist index (id ∷ queue) done
      → top.parent_id ≡ id
      → ⊥
  parent_unseen id queue done w e =
      let (p, at, above, from) = w.grown id (ground (arith, bytes_beq_iff id id)) in
      absurd (
        omega
          (arith, layered start top p at_start (subst (λ k. lookup k index ≡ some p) (sym e) at)))

  -- A child of the node that is looked at was not seen.
  child_unseen :
      (id c : Bytes) (queue done : List Bytes) (n : Node)
      → Looked start head top whitelist index (id ∷ queue) done
      → lookup c index ≡ some n
      → n.parent_id ≡ id
      → seen c (id ∷ queue) done ≡ false
  child_unseen id c queue done n w at up = elim (Bool-cases (seen c (id ∷ queue) done)) [
    | inr unseen_yet ↦ unseen_yet
    | inl already ↦
        let (m, at', above, from) = w.grown c already in
        let same : m ≡ n = some_inj m n (sym at' ∙ at) in
        elim from [
          | inl first ↦ absurd (
              parent_unseen id queue done w (
                ap (λ (x : Node). x.parent_id)
                  (some_inj top n (sym at_start ∙ ap (λ x. lookup x index) (sym first) ∙ at))
                ∙ up))
          | inr below ↦ absurd (
              ground (
                arith,
                w.apart id (ground (arith, bytes_beq_iff id id)),
                below,
                ap (λ (x : Node). contains x.parent_id done) same,
                ap (λ x. contains x done) up,
              ))
        ]
  ]

  pub initial : Looked start head top whitelist index (start ∷ []) []
  initial = record {
    apart = λ x e. refl;
    distinct = (refl, tt);
    spared = refl;
    grown = λ x e.
        let here : start ≡ x = (bytes_beq_iff start x).0 (ground (arith, e)) in
        (top, subst (λ k. lookup k index ≡ some top) here at_start, omega arith, inl (sym here));
    below = λ x e.
        subst (λ k. Below start whitelist index k) ((bytes_beq_iff start x).0 (ground (arith, e)))
          first_node;
    closed = λ x n e p w. absurd (ground arith);
    started = ground (arith, bytes_beq_iff start start);
  }

  next_seen :
      (id x : Bytes) (queue done : List Bytes)
      → seen x (queue ++ children id whitelist index) (id ∷ done)
        ≡ (if seen x (id ∷ queue) done then true else contains x (children id whitelist index))
  next_seen id x queue done = ground (arith, contains-append x queue (children id whitelist index))

  next_grown :
      (id : Bytes) (queue done : List Bytes)
      → Looked start head top whitelist index (id ∷ queue) done
      → (x : Bytes) → seen x (queue ++ children id whitelist index) (id ∷ done) ≡ true
      → (n : Node) × (lookup x index ≡ some n)
        × (top.revision ≤ n.revision)
        × ((x ≡ start) ⊎ (contains n.parent_id (id ∷ done) ≡ true))
  next_grown id queue done w x e = elim (Bool-cases (seen x (id ∷ queue) done)) [
    | inl old ↦
        let (n, at, above, from) = w.grown x old in
        (
          n,
          at,
          above,
          elim from [ inl first ↦ inl first | inr below ↦ inr (ground (arith, below)) ],
        )
    | inr new ↦
        let (n, at, up, free) =
          children-lookup id x whitelist index sorted
            (ground (arith, e, new, next_seen id x queue done)) in
        let (p, at_p, above, from) = w.grown id (ground (arith, bytes_beq_iff id id)) in
        (
          n,
          at,
          omega
              (arith, above, layered x n p at (subst (λ k. lookup k index ≡ some p) (sym up) at_p)),
          inr (ground (arith, bytes_beq_iff id n.parent_id, up)),
        )
  ]

  next-Below :
      (id : Bytes) (queue done : List Bytes)
      → Looked start head top whitelist index (id ∷ queue) done
      → (x : Bytes) → seen x (queue ++ children id whitelist index) (id ∷ done) ≡ true
      → Below start whitelist index x
  next-Below id queue done w x e = elim (Bool-cases (seen x (id ∷ queue) done)) [
    | inl old ↦ w.below x old
    | inr new ↦
        let (n, at, up, free) =
          children-lookup id x whitelist index sorted
            (ground (arith, e, new, next_seen id x queue done)) in
        child_node x n at free (
          subst (λ k. Below start whitelist index k) (sym up)
            (w.below id (ground (arith, bytes_beq_iff id id))))
  ]

  next_closed :
      (id : Bytes) (queue done : List Bytes)
      → Looked start head top whitelist index (id ∷ queue) done
      → (x : Bytes) (n : Node) → lookup x index ≡ some n
      → contains n.parent_id (id ∷ done) ≡ true
      → contains x whitelist ≡ false
      → seen x (queue ++ children id whitelist index) (id ∷ done) ≡ true
  next_closed id queue done w x n at from free = elim (Bool-cases (id == n.parent_id)) [
    | inl here ↦
        let found =
          lookup-children id x n whitelist index at (sym ((bytes_beq_iff id n.parent_id).0 here))
            free in
        ground (arith, next_seen id x queue done, found)
    | inr there ↦
        let old = w.closed x n at (ground (arith, from, there)) free in
        ground (arith, next_seen id x queue done, old)
  ]

  new_child :
      (id c : Bytes) (queue done : List Bytes)
      → Looked start head top whitelist index (id ∷ queue) done
      → contains c (children id whitelist index) ≡ true
      → seen c (id ∷ queue) done ≡ false
  new_child id c queue done w e =
      let (n, at, up, free) = children-lookup id c whitelist index sorted e in
      child_unseen id c queue done n w at up

  next_apart :
      (id : Bytes) (queue done : List Bytes)
      → Looked start head top whitelist index (id ∷ queue) done
      → (x : Bytes) → contains x (queue ++ children id whitelist index) ≡ true
      → contains x (id ∷ done) ≡ false
  next_apart id queue done w x e = elim (Bool-cases (contains x queue)) [
    | inl old ↦ ground (
      arith,
      w.apart x (ground (arith, old)),
      w.distinct.0,
      old,
      bytes_beq_iff id x,
      ap (λ k. contains k queue),
    )
    | inr other ↦
        let fresh =
          new_child id x queue done w
            (ground (arith, e, other, contains-append x queue (children id whitelist index))) in
        ground (arith, fresh)
  ]

  pub next-Looked :
      (id : Bytes) (queue done : List Bytes)
      → Looked start head top whitelist index (id ∷ queue) done
      → (id == head) ≡ false
      → Looked start head top whitelist index (queue ++ children id whitelist index) (id ∷ done)
  next-Looked id queue done w other = record {
    apart = next_apart id queue done w;
    distinct =
        AllDistinct-append queue (children id whitelist index) w.distinct.1
          (children-AllDistinct id whitelist index sorted)
          (λ c e. let fresh = new_child id c queue done w e in ground (arith, fresh));
    spared = ground (arith, other, w.spared);
    grown = next_grown id queue done w;
    below = next-Below id queue done w;
    closed = next_closed id queue done w;
    started = ground (arith, next_seen id start queue done, w.started);
  }
