-- ===== src/Event/Lookup.antt =====
-- What `findOne` of the event service finds.
use msa_tuto_server.Base.{String, ◌≡◌, refl, Bool}
use msa_tuto_server.Http.{not_found, failure, Result, ok, err}
use msa_tuto_server.Mongo.{Collection, Split, Misses, FoundOne}
use msa_tuto_server.Event.Model.{Event, Events, same_id}
use msa_tuto_server.Event.Query.{missing_event, by_id, find_one}

-- The outcomes of a look-up: the driver failed, there is no such event, or one was found.
pub data Looked (id : String) (include_deleted : Bool) (ds : Events) (r : Result Event × Events)
    : Type 0 where
  failed : (m : String) → r ≡ (err (failure m), ds) → Looked id include_deleted ds r
  missing :
      Misses (by_id id include_deleted) ds
      → r ≡ (err (not_found (missing_event id)), ds)
      → Looked id include_deleted ds r
  found :
      (s : Split (by_id id include_deleted) ds)
      → r ≡ (ok s.doc, ds)
      → Looked id include_deleted ds r

module _ (c : Collection Event same_id) (id : String) (include_deleted : Bool) (ds : Events) where
  pub find_one-Looked : Looked id include_deleted ds (find_one c id include_deleted ds)
  unfolding find_one
  find_one-Looked = elim (c.find_one_law (by_id id include_deleted) ds) [
    | FoundOne.failed m q ↦ rw q (Looked.failed m refl)
    | FoundOne.missing n q ↦ rw q (Looked.missing n refl)
    | FoundOne.found s q ↦ rw q (Looked.found s refl)
  ]
