-- ===== src/Mongo/Laws.antt =====
-- What the writes of a collection keep, whichever document they hit.
use msa_tuto_server.Base.{
  ◌≡◌, sym, ◌∙◌, ap, Bool, true, List, [], ◌∷◌, ◌++◌, map, subst, All, All-append, All-split,
  All-replace,
}
use msa_tuto_server.Mongo.{Update, Collection, Updated, Deleted, Saved}

module _ {D : Type 0} {clash : D → D → Bool} (c : Collection D clash) where
  module _ (P : D → Type 0) where
    -- An update keeps what holds of every document if it holds of the changed one.
    pub update-All :
        (p : D → Bool) (u : Update D) (ds : List D)
        → ((d : D) → p d ≡ true → P d → P (u.change d))
        → All P ds
        → All P (c.find_one_and_update p u ds).1
    update-All p u ds keep h = elim (c.update_law p u ds) [
      | Updated.failed m e ↦ rw e h
      | Updated.missing m e ↦ rw e h
      | Updated.changed s g e ↦
          let h' : All P (s.before ++ s.doc ∷ s.after) = subst (All P) s.split h in
          rw e (
            All-replace P s.before s.after s.doc (u.change s.doc) h'
              (keep s.doc s.holds (All-split P s.before s.after s.doc h').1))
    ]

    pub save-All : (d : D) (ds : List D) → P d → All P ds → All P (c.save d ds).1
    save-All d ds p h = elim (c.save_law d ds) [
      | Saved.failed m e ↦ rw e h
      | Saved.added g e ↦ rw e (All-append P ds (d ∷ []) h (p, tt))
    ]

    pub delete-All : (p : D → Bool) (ds : List D) → All P ds → All P (c.delete_one p ds).1
    delete-All p ds h = elim (c.delete_law p ds) [
      | Deleted.failed m e ↦ rw e h
      | Deleted.missing m e ↦ rw e h
      | Deleted.deleted s e ↦
          let h' = All-split P s.before s.after s.doc (subst (All P) s.split h) in
          rw e (All-append P s.before s.after h'.0 h'.2)
    ]

  module _ {K : Type 0} (key : D → K) where
    map-replace :
        (xs ys : List D) (d e : D) → key e ≡ key d → map key (xs ++ e ∷ ys) ≡ map key (xs ++ d ∷ ys)
    map-replace [] ys d e h = ap (λ k. k ∷ map key ys) h
    map-replace (x ∷ xs) ys d e h = ap (λ l. key x ∷ l) (map-replace xs ys d e h)

    -- An update that keeps a key keeps the list of keys.
    pub update-map :
        (p : D → Bool) (u : Update D) (ds : List D)
        → ((d : D) → key (u.change d) ≡ key d)
        → map key (c.find_one_and_update p u ds).1 ≡ map key ds
    update-map p u ds same = elim (c.update_law p u ds) [
      | Updated.failed m e ↦ rw e
      | Updated.missing m e ↦ rw e
      | Updated.changed s g e ↦ rw e (
          map-replace s.before s.after s.doc (u.change s.doc) (same s.doc)
          ∙ ap (map key) (sym s.split))
    ]
