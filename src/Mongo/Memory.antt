-- ===== src/Mongo/Memory.antt =====
-- A collection held in memory, which meets the laws: it fails only on a duplicate key and on an
-- update that the server refuses.
use mathlib.Core.List.{Perm}
use mathlib.Core.List.Perm
use msa_tuto_server.Base.{
  ℕ, ◌≡◌, refl, ap, Bool, true, false, ◌⊎◌, inl, inr, List, [], ◌∷◌, ◌++◌, Option, none, some, All,
  All-mono, any, filter, length, leb, if◌then◌else◌, Bool-cases, arith,
}
use msa_tuto_server.Http.{Result, ok, err, failure}
use msa_tuto_server.Mongo.{
  Update, is_conflicting, Split, Misses, FoundOne, Updated, Deleted, Saved, window, ComesFirst,
  IsSortedBy, Collection,
}

module _ {D : Type 0} (p : D → Bool) where
  first : (ds : List D) → Misses p ds ⊎ Split p ds
  unfolding Bool-cases
  first [] = inl tt
  first (d ∷ ds) = elim (Bool-cases (p d)) [
    | inl h ↦ inr (record { before = []; doc = d; after = ds; split = refl; holds = h })
    | inr h ↦ elim (first ds) [
      | inl m ↦ inl (h, m)
      | inr s ↦ inr (record {
        before = d ∷ s.before;
        doc = s.doc;
        after = s.after;
        split = ap (λ t. d ∷ t) s.split;
        holds = s.holds;
      })
    ]
  ]

module _ {D : Type 0} (key : D → ℕ) (desc : Bool) where
  before? : D → D → Bool
  before? d e = elim desc [ true ↦ leb (key e) (key d) | false ↦ leb (key d) (key e) ]

  insert : D → List D → List D
  insert d [] = d ∷ []
  insert d (e ∷ es) = let rest = insert d es in if before? d e then d ∷ e ∷ es else e ∷ rest

  pub sort : List D → List D
  sort [] = []
  sort (d ∷ ds) = insert d (sort ds)

  insert-perm : (d : D) (ds : List D) → Perm (insert d ds) (d ∷ ds)
  unfolding insert
  insert-perm d [] = Perm.refl _
  insert-perm d (e ∷ es) = elim (Bool-cases (before? d e)) [
    | inl h ↦ rw h (Perm.refl _)
    | inr h ↦ rw h (Perm.trans (Perm.cons e (insert-perm d es)) (Perm.swap d e es))
  ]

  pub sort-perm : (ds : List D) → Perm (sort ds) ds
  unfolding sort
  sort-perm [] = Perm.refl _
  sort-perm (d ∷ ds) = Perm.trans (insert-perm d (sort ds)) (Perm.cons d (sort-perm ds))

  insert-All : (P : D → Type 0) (d : D) (ds : List D) → P d → All P ds → All P (insert d ds)
  unfolding insert
  insert-All P d [] h k = (h, tt)
  insert-All P d (e ∷ es) h k = elim (Bool-cases (before? d e)) [
    | inl b ↦ rw b (h, k)
    | inr b ↦ rw b (k.0, insert-All P d es h k.1)
  ]

module _ {D : Type 0} (key : D → ℕ) where
  before?-true :
      (desc : Bool) (d e : D) → before? key desc d e ≡ true → ComesFirst desc (key d) (key e)
  unfolding before?
  before?-true true d e h = ground arith
  before?-true false d e h = ground arith

  before?-false :
      (desc : Bool) (d e : D) → before? key desc d e ≡ false → ComesFirst desc (key e) (key d)
  unfolding before?
  before?-false true d e h = ground arith
  before?-false false d e h = ground arith

  ComesFirst-trans :
      (desc : Bool) (a b c : ℕ) → ComesFirst desc a b → ComesFirst desc b c → ComesFirst desc a c
  ComesFirst-trans true a b c h k = omega arith
  ComesFirst-trans false a b c h k = omega arith

  insert-IsSortedBy :
      (desc : Bool) (d : D) (ds : List D)
      → IsSortedBy desc key ds
      → IsSortedBy desc key (insert key desc d ds)
  unfolding insert
  insert-IsSortedBy desc d [] h = (tt, tt)
  insert-IsSortedBy desc d (e ∷ es) h = elim (Bool-cases (before? key desc d e)) [
    | inl b ↦
        let first = before?-true desc d e b in
        rw b ((first, All-mono (λ x r. ComesFirst-trans desc _ _ (key x) first r) es h.0), h)
    | inr b ↦ rw b (
      insert-All key desc (λ x. ComesFirst desc (key e) (key x)) d es (before?-false desc d e b)
          h.0,
      insert-IsSortedBy desc d es h.1,
    )
  ]

  pub sort-IsSortedBy : (desc : Bool) (ds : List D) → IsSortedBy desc key (sort key desc ds)
  unfolding sort
  sort-IsSortedBy desc [] = tt
  sort-IsSortedBy desc (d ∷ ds) =
      insert-IsSortedBy desc d (sort key desc ds) (sort-IsSortedBy desc ds)

abbrev found_in :
    {D : Type 0} {p : D → Bool} {ds : List D} → Misses p ds ⊎ Split p ds → Result (Option D)
found_in (inl m) = ok none
found_in (inr s) = ok (some s.doc)

abbrev deleted_in :
    {D : Type 0} {p : D → Bool} {ds : List D} → Misses p ds ⊎ Split p ds → Result ℕ × List D
deleted_in {ds} (inl m) = (ok 0, ds)
deleted_in (inr s) = (ok 1, s.before ++ s.after)

abbrev updated_in :
    {D : Type 0} {p : D → Bool} {ds : List D} (u : Update D)
    → Bool
    → Misses p ds ⊎ Split p ds
    → Result (Option D) × List D
updated_in {ds} u true r = (err (failure "conflict"), ds)
updated_in {ds} u false (inl m) = (ok none, ds)
updated_in u false (inr s) = (ok (some (u.change s.doc)), s.before ++ u.change s.doc ∷ s.after)

abbrev saved_in : {D : Type 0} → D → List D → Bool → Result D × List D
saved_in d ds true = (err (failure "E11000 duplicate key"), ds)
saved_in d ds false = (ok d, ds ++ d ∷ [])

module _ {D : Type 0} where
  pub found_in_lem :
      (p : D → Bool) (ds : List D) (r : Misses p ds ⊎ Split p ds) → FoundOne p ds (found_in r)
  found_in_lem p ds (inl m) = FoundOne.missing m refl
  found_in_lem p ds (inr s) = FoundOne.found s refl

  pub deleted_in_lem :
      (p : D → Bool) (ds : List D) (r : Misses p ds ⊎ Split p ds) → Deleted p ds (deleted_in r)
  deleted_in_lem p ds (inl m) = Deleted.missing m refl
  deleted_in_lem p ds (inr s) = Deleted.deleted s refl

  pub updated_in_lem :
      (p : D → Bool) (u : Update D) (ds : List D) (b : Bool) (r : Misses p ds ⊎ Split p ds)
      → is_conflicting u ≡ b
      → Updated p u ds (updated_in u b r)
  updated_in_lem p u ds true r e = Updated.failed "conflict" refl
  updated_in_lem p u ds false (inl m) e = Updated.missing m refl
  updated_in_lem p u ds false (inr s) e = Updated.changed s e refl

  any-eq-false : (q : D → Bool) (ds : List D) → any q ds ≡ false → All (λ d. q d ≡ false) ds
  any-eq-false q [] h = tt
  any-eq-false q (d ∷ ds) h = (ground arith, any-eq-false q ds (ground arith))

  pub saved_in_lem :
      (clash : D → D → Bool) (d : D) (ds : List D) (b : Bool)
      → any (clash d) ds ≡ b
      → Saved clash d ds (saved_in d ds b)
  saved_in_lem clash d ds true e = Saved.failed "E11000 duplicate key" refl
  saved_in_lem clash d ds false e = Saved.added (any-eq-false (clash d) ds e) refl

-- The collection in memory with a given unique index.
unfoldable pub memory : {D : Type 0} (clash : D → D → Bool) → Collection D clash
unfolding first insert sort before? Bool-cases
memory clash = record {
  find_one = λ p ds. found_in (first p ds);
  find_one_law = λ p ds. found_in_lem p ds (first p ds);
  find_one_and_update = λ p u ds. updated_in u (is_conflicting u) (first p ds);
  update_law = λ p u ds. updated_in_lem p u ds (is_conflicting u) (first p ds) refl;
  delete_one = λ p ds. deleted_in (first p ds);
  delete_law = λ p ds. deleted_in_lem p ds (first p ds);
  save = λ d ds. saved_in d ds (any (clash d) ds);
  save_law = λ d ds. saved_in_lem clash d ds (any (clash d) ds) refl;
  sorted = λ p key desc ds. sort key desc (filter p ds);
  sorted_law =
      λ p key desc ds. (sort-perm key desc (filter p ds), sort-IsSortedBy key desc (filter p ds));
  find = λ p key desc s l ds. window s l (sort key desc (filter p ds));
  find_law = λ p key desc s l ds. (
    sort key desc (filter p ds),
    sort-perm key desc (filter p ds),
    sort-IsSortedBy key desc (filter p ds),
    refl,
  );
  count_documents = λ p ds. length (filter p ds);
  count_law = λ p ds. refl;
}
