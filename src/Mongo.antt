-- ===== src/Mongo.antt =====
-- A mongoose model over one MongoDB collection. The driver is not part of the repository, so its
-- operations are the fields of a record, with the documented behaviour that the services rely on as
-- laws over the collection's documents. Any operation may fail, and then it has changed nothing.
pub mod Laws
pub mod Memory
use msa_tuto_server.Base.{
  ℕ, zero, ◌≤◌, String, ◌≡◌, Bool, true, false, ◌⊎◌, List, [], ◌∷◌, ◌++◌, Option, none, some, All,
  any, take, drop, filter, includes, length,
}
use msa_tuto_server.Http.{Result, ok, err, failure}
use mathlib.Core.List.{Perm}

-- An update document: the paths under `$set` and under `$inc`, and its effect on a document.
pub record Update (D : Type 0) : Type 0 where
  pub set_paths : List String
  pub inc_paths : List String
  pub change : D → D

-- Two operators write one path.
abbrev pub is_conflicting : {D : Type 0} → Update D → Bool
is_conflicting u = any (includes u.inc_paths) u.set_paths

module _ {D : Type 0} (p : D → Bool) (ds : List D) where
  -- A document that meets the filter, and its place.
  pub record Split : Type 0 where
    pub before : List D
    pub doc : D
    pub after : List D
    pub split : ds ≡ before ++ doc ∷ after
    pub holds : p doc ≡ true

  abbrev pub Misses : Type 0
  Misses = All (λ d. p d ≡ false) ds

-- `findOne(filter)`: some document that meets the filter, or null if there is none.
pub data FoundOne {D : Type 0} (p : D → Bool) (ds : List D) (r : Result (Option D)) : Type 0 where
  failed : (m : String) → r ≡ err (failure m) → FoundOne p ds r
  missing : Misses p ds → r ≡ ok none → FoundOne p ds r
  found : (s : Split p ds) → r ≡ ok (some s.doc) → FoundOne p ds r

-- `findOneAndUpdate(filter, update, { new: true })`: one document is changed in place and returned.
-- An update whose operators conflict is refused by the server.
pub data Updated {D : Type 0} (p : D → Bool) (u : Update D) (ds : List D)
    (r : Result (Option D) × List D) : Type 0 where
  failed : (m : String) → r ≡ (err (failure m), ds) → Updated p u ds r
  missing : Misses p ds → r ≡ (ok none, ds) → Updated p u ds r
  changed :
      (s : Split p ds)
      → is_conflicting u ≡ false
      → r ≡ (ok (some (u.change s.doc)), s.before ++ u.change s.doc ∷ s.after)
      → Updated p u ds r

-- `deleteOne(filter)`, with its `deletedCount`.
pub data Deleted {D : Type 0} (p : D → Bool) (ds : List D) (r : Result ℕ × List D) : Type 0 where
  failed : (m : String) → r ≡ (err (failure m), ds) → Deleted p ds r
  missing : Misses p ds → r ≡ (ok 0, ds) → Deleted p ds r
  deleted : (s : Split p ds) → r ≡ (ok 1, s.before ++ s.after) → Deleted p ds r

-- `save()` of a new document: it is added unless a unique index has its key already.
pub data Saved {D : Type 0} (clash : D → D → Bool) (d : D) (ds : List D) (r : Result D × List D)
    : Type 0 where
  failed : (m : String) → r ≡ (err (failure m), ds) → Saved clash d ds r
  added : All (λ e. clash d e ≡ false) ds → r ≡ (ok d, ds ++ d ∷ []) → Saved clash d ds r

-- The part of a cursor that `skip(s).limit(l)` leaves; `limit(0)` is no limit.
abbrev pub window : {D : Type 0} → ℕ → ℕ → List D → List D
window s zero ds = drop s ds
window s l ds = take l (drop s ds)

-- Of two documents with these keys the first may come first, in an order that may be descending.
abbrev pub ComesFirst : Bool → ℕ → ℕ → Type 0
ComesFirst true k l = l ≤ k
ComesFirst false k l = k ≤ l

abbrev pub IsSortedBy : {D : Type 0} → Bool → (D → ℕ) → List D → Type 0
IsSortedBy desc key [] = Unit
IsSortedBy desc key (d ∷ ds) =
    All (λ e. ComesFirst desc (key d) (key e)) ds × IsSortedBy desc key ds

-- What holds of some order of the documents that meet the filter, sorted by the key.
abbrev pub Found : {D : Type 0} → (D → Bool) → (D → ℕ) → Bool → List D → (List D → Type 0) → Type 0
Found {D} p key desc ds Q =
    (order : List D) × Perm order (filter p ds) × IsSortedBy desc key order × Q order

-- `clash d e`: a unique index of the collection keeps `d` and `e` apart.
pub record Collection (D : Type 0) (clash : D → D → Bool) : Type 0 where
  pub find_one : (D → Bool) → List D → Result (Option D)
  pub find_one_law : (p : D → Bool) (ds : List D) → FoundOne p ds (find_one p ds)
  pub find_one_and_update : (D → Bool) → Update D → List D → Result (Option D) × List D
  pub update_law :
      (p : D → Bool) (u : Update D) (ds : List D) → Updated p u ds (find_one_and_update p u ds)
  pub delete_one : (D → Bool) → List D → Result ℕ × List D
  pub delete_law : (p : D → Bool) (ds : List D) → Deleted p ds (delete_one p ds)
  pub save : D → List D → Result D × List D
  pub save_law : (d : D) (ds : List D) → Saved clash d ds (save d ds)
  -- the documents that meet a filter, in the order of a sort key, largest first if the flag is set
  pub sorted : (D → Bool) → (D → ℕ) → Bool → List D → List D
  pub sorted_law :
      (p : D → Bool) (key : D → ℕ) (desc : Bool) (ds : List D)
      → Perm (sorted p key desc ds) (filter p ds) × IsSortedBy desc key (sorted p key desc ds)
  -- `find(filter).sort(key).skip(s).limit(l)`: documents of one key may stand in another order in
  -- another query
  pub find : (D → Bool) → (D → ℕ) → Bool → ℕ → ℕ → List D → List D
  pub find_law :
      (p : D → Bool) (key : D → ℕ) (desc : Bool) (s l : ℕ) (ds : List D)
      → Found p key desc ds (λ order. find p key desc s l ds ≡ window s l order)
  pub count_documents : (D → Bool) → List D → ℕ
  pub count_law : (p : D → Bool) (ds : List D) → count_documents p ds ≡ length (filter p ds)
