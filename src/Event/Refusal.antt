-- ===== src/Event/Refusal.antt =====
-- Updates that the server refuses.
use msa_tuto_server.Base.{ℕ, String, ◌≡◌, ◌≢◌, refl, sym, ◌∙◌, true, Option, arith, false≢true}
use msa_tuto_server.Http.{Result, ok, err, continue}
use msa_tuto_server.Mongo.{Collection, Updated, is_conflicting}
use msa_tuto_server.Event.Model.{Event, UpdateEventDto, Events, same_id}
use msa_tuto_server.Event.Query.{find_one}
use msa_tuto_server.Event.Write.{
  set_paths, update_document, by_version, commit_update, prepare_update, update,
}

-- What is refused: no result, and no change.
abbrev pub IsRefused : Events → Result Event × Events → Type 0
IsRefused ds r = ((e : Event) → r.0 ≢ ok e) × (r.1 ≡ ds)

module _ (c : Collection Event same_id) (date : String → ℕ) where
  conflicting :
      (dto : UpdateEventDto) (start end : ℕ) (by : Option String)
      → is_conflicting (update_document dto start end by) ≡ true
  unfolding update_document set_paths
  conflicting dto start end by = ground arith

  prepare_update-state :
      (id : String) (dto : UpdateEventDto) (version : ℕ) (ds : Events)
      → (prepare_update c date id dto version ds).1 ≡ ds
  unfolding prepare_update find_one
  prepare_update-state id dto version ds = ground arith

  commit_update-IsRefused :
      (id : String) (dto : UpdateEventDto) (by : Option String) (version : ℕ) (period : ℕ × ℕ)
      (ds : Events)
      → IsRefused ds (commit_update c id dto by version period ds)
  unfolding commit_update
  commit_update-IsRefused id dto by version period ds =
      elim (c.update_law (by_version id version) (update_document dto period.0 period.1 by) ds) [
        | Updated.failed m q ↦ rw q (λ e x. cc, refl)
        | Updated.missing m q ↦ rw q (λ e x. cc, refl)
        | Updated.changed s g q ↦ absurd (false≢true (sym g ∙ conflicting dto period.0 period.1 by))
      ]

  IsRefused-after :
      (id : String) (dto : UpdateEventDto) (by : Option String) (version : ℕ) (ds : Events)
      (r : Result (ℕ × ℕ) × Events)
      → r.1 ≡ ds
      → IsRefused ds (continue r (commit_update c id dto by version))
  IsRefused-after id dto by version ds (ok period, es) q =
      rw q (commit_update-IsRefused id dto by version period ds)
  IsRefused-after id dto by version ds (err x, es) q = (λ e y. cc, q)

  -- An update never succeeds and never changes the collection: its DTO carries a version, which the
  -- write sets and increments at once, and the server refuses that.
  pub update-IsRefused :
      (id : String) (dto : UpdateEventDto) (by : Option String) (version : ℕ) (ds : Events)
      → IsRefused ds (update c date id dto by version ds)
  unfolding update
  update-IsRefused id dto by version ds =
      IsRefused-after id dto by version ds (prepare_update c date id dto version ds)
        (prepare_update-state id dto version ds)
