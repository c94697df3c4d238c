-- ===== src/Store/Writes/Creation.antt =====
-- internal/k8s/store/store.go: `Create` leaves a monitor or nothing, on a server that keeps objects by their
-- names.
use youtube_stream_tracker.Model.{Monitor}
use youtube_stream_tracker.Store.Objects.{to_monitor, Object}
use youtube_stream_tracker.Store.Api.{
  is_not_found, done, ApiError, err, fails, Result, answered, Server,
}
use youtube_stream_tracker.Prelude.{String, ◌≡◌}

-- What Kubernetes documents of its writes: an object is created only where there was none of its name, and
-- keeps its name; a creation that is refused leaves the name as it was; what a status write answers is
-- what is read after it; and what was deleted is not found.
pub record KeepsObjects (api : Server) : Type 0 where
  pub created_new :
      (o o' : Object) (s s' : api.S)
      → api.create_object o s ≡ (answered o', s')
      → (api.get_object o.name s ≡ err is_not_found) × (o'.name ≡ o.name)
  pub refused_create :
      (o : Object) (x : ApiError) (s s' : api.S)
      → api.create_object o s ≡ (err x, s')
      → api.get_object o.name s' ≡ api.get_object o.name s
  pub written_status :
      (o o' : Object) (s s' : api.S)
      → api.update_status o s ≡ (answered o', s')
      → api.get_object o.name s' ≡ answered o'
  pub deleted_object :
      (id : String) (s s' : api.S)
      → api.delete_object id s ≡ (answered tt, s')
      → api.get_object id s' ≡ err is_not_found

module _ (api : Server) where
  open api use {
    S, get_object, create_object, update_status, delete_object, sets_phase, from_unstructured,
    to_unstructured, is_indexed,
  }

  -- All or nothing: the new monitor is the one that is read under the name, which was free; or what is read
  -- under the name is what was read before.
  abbrev pub IsAtomic : (id : String) → S → Result Monitor × S → Type 0
  IsAtomic id s (done m, s') =
      (get_object id s ≡ err is_not_found)
      × (o : Object) × (get_object id s' ≡ answered o)
      × (m ≡ to_monitor o)
  IsAtomic id s (fails x, s') = get_object id s' ≡ get_object id s
