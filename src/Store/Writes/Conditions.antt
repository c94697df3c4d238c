-- ===== src/Store/Writes/Conditions.antt =====
-- internal/k8s/store/store.go: under which conditions the writes are made, and what failures leave.
use youtube_stream_tracker.Model.{Monitor, MonitorStatus}
use youtube_stream_tracker.Store.Objects.{
  set_monitor, to_monitor, UpdateMonitorParams, set_phase, Object,
}
use youtube_stream_tracker.Store.Api.{
  rejected, refused, wrote, Attempt, Retry, failure, is_already_exists, is_not_found, is_conflict,
  err, Reply-cases, answered, done, Reply, Server,
}
use youtube_stream_tracker.Prelude.{ap, sym, ◌∙◌, arith, Bool-cases, inl, inr, true, String, ◌≡◌}
use youtube_stream_tracker.Store.Writes.{
  update_phase, write_status, settle, has_active_phase, wrote_object, update_monitor, write_monitor,
  has_phase, condition_result, update_status_with_condition,
}

-- A compare-and-set that succeeded: the object had the expected phase, and the server took it over
-- with the new phase.
pub record Swapped (api : Server) (id : String) (current next : MonitorStatus) (s s' : api.S)
    : Type 0 where
  pub live : Object
  pub stored : Object
  pub was_read : api.get_object id s ≡ answered live
  pub was_current : has_phase current live ≡ true
  pub was_written : api.update_status (set_phase next live) s ≡ (answered stored, s')

module _ (api : Server) where
  open api use {S, get_object, create_object, update_status, update_object, delete_object}

  condition_result-true :
      (r : Reply Object × S) (s' : S)
      → condition_result api r ≡ (done true, s')
      → (o : Object) × (r ≡ (answered o, s'))
  condition_result-true (answered o, s) s' h = (o, ground arith)
  condition_result-true (err is_conflict, s) s' h = absurd (ground arith)
  condition_result-true (err is_not_found, s) s' h = absurd (ground arith)
  condition_result-true (err is_already_exists, s) s' h = absurd (ground arith)
  condition_result-true (err failure, s) s' h = absurd (ground arith)

  -- Where `UpdateStatusWithCondition` says that it wrote, the live object had the expected phase, and
  -- the one write made was the server's acceptance of that very object with the new phase.
  pub update_status_with_condition-Swapped :
      (id : String) (current next : MonitorStatus) (s s' : S)
      → update_status_with_condition api id current next s ≡ (done true, s')
      → Swapped api id current next s s'
  unfolding update_status_with_condition
  update_status_with_condition-Swapped id current next s s' h =
      elim (Reply-cases (get_object id s)) [
        | inr (x, e) ↦ absurd (grind arith)
        | inl (live, e) ↦ elim (Bool-cases (has_phase current live)) [
          | inr n ↦ absurd (grind arith)
          | inl y ↦
              (let (o, w) =
                  condition_result-true (update_status (set_phase next live) s) s' (grind arith) in
                record { live = live; stored = o; was_read = e; was_current = y; was_written = w })
        ]
      ]

-- An update that succeeded: in the attempt that counts, the object was active, and the answer is what
-- the server stored for the changed object.
pub record Patched (api : Server) (id : String) (p : UpdateMonitorParams) (m : Monitor) (s' : api.S)
    : Type 0 where
  pub before : api.S
  pub live : Object
  pub stored : Object
  pub was_read : api.get_object id before ≡ answered live
  pub was_active : has_active_phase live ≡ true
  pub was_written : api.update_object (set_monitor p live) before ≡ (answered stored, s')
  pub is_answer : m ≡ to_monitor stored

module _ (api : Server) (retry : Retry api.S) where
  open api use {S, get_object, update_object}

  settle-done :
      {A : Type 0} (r : Attempt A × S) (a : A) (s' : S)
      → settle r ≡ (done a, s')
      → r ≡ (wrote a, s')
  settle-done (wrote b, s) a s' h = cc
  settle-done (refused x, s) a s' h = absurd (ground arith)
  settle-done (rejected is_conflict, s) a s' h = absurd (ground arith)
  settle-done (rejected is_not_found, s) a s' h = absurd (ground arith)
  settle-done (rejected is_already_exists, s) a s' h = absurd (ground arith)
  settle-done (rejected failure, s) a s' h = absurd (ground arith)

  wrote_object-wrote :
      {A : Type 0} (f : Object → A) (r : Reply Object × S) (a : A) (s' : S)
      → wrote_object f r ≡ (wrote a, s')
      → (o : Object) × (r ≡ (answered o, s')) × (a ≡ f o)
  wrote_object-wrote f (answered o, s) a s' h = (o, cc, cc)
  wrote_object-wrote f (err x, s) a s' h = absurd (ground arith)

  write_monitor-wrote :
      (id : String) (p : UpdateMonitorParams) (m : Monitor) (s s' : S)
      → write_monitor api id p s ≡ (wrote m, s')
      → Patched api id p m s'
  unfolding write_monitor
  write_monitor-wrote id p m s s' h = elim (Reply-cases (get_object id s)) [
    | inr (x, e) ↦ absurd (grind arith)
    | inl (live, e) ↦ elim (Bool-cases (has_active_phase live)) [
      | inr n ↦ absurd (grind arith)
      | inl y ↦
          (let (o, w, q) =
              wrote_object-wrote to_monitor (update_object (set_monitor p live) s) m s'
                (grind arith) in
            record {
              before = s;
              live = live;
              stored = o;
              was_read = e;
              was_active = y;
              was_written = w;
              is_answer = q;
            })
    ]
  ]

  -- However often the update is retried after conflicts: where `UpdateMonitor` returns a monitor, the
  -- object that the last attempt read from the server was active, the server accepted that object
  -- with the requested changes, and the monitor is what it stored.
  pub update_monitor-Patched :
      (id : String) (p : UpdateMonitorParams) (m : Monitor) (s s' : S)
      → update_monitor api retry id p s ≡ (done m, s')
      → Patched api id p m s'
  unfolding update_monitor
  update_monitor-Patched id p m s s' h =
      let (t, e) = retry.is_attempt (write_monitor api id p) s in
      write_monitor-wrote id p m t s'
        (sym e ∙ settle-done (retry.on_conflict (write_monitor api id p) s) m s' h)

-- A status write that succeeded: the object that the last attempt read, changed by `f`, was taken over.
pub record StatusWritten (api : Server) (id : String) (f : Object → Object) (s' : api.S)
    : Type 0 where
  pub before : api.S
  pub live : Object
  pub stored : Object
  pub was_read : api.get_object id before ≡ answered live
  pub was_written : api.update_status (f live) before ≡ (answered stored, s')

module _ (api : Server) (retry : Retry api.S) where
  open api use {S, get_object, update_status}

  write_status-StatusWritten :
      (id : String) (f : Object → Object) (s s' : S)
      → write_status api id f s ≡ (wrote tt, s')
      → StatusWritten api id f s'
  unfolding write_status
  write_status-StatusWritten id f s s' h = elim (Reply-cases (get_object id s)) [
    | inr (x, e) ↦ absurd (grind arith)
    | inl (live, e) ↦
        let (o, w, q) =
          wrote_object-wrote api retry (λ o. tt) (update_status (f live) s) tt s' (grind arith) in
        record { before = s; live = live; stored = o; was_read = e; was_written = w }
  ]

  -- Where `UpdateStatus` returns no error, the server has taken over the object that the last attempt read,
  -- with the new phase.
  pub update_phase-StatusWritten :
      (id : String) (status : MonitorStatus) (s : S)
      → (update_phase api retry id status s).0 ≡ done tt
      → StatusWritten api id (set_phase status) (update_phase api retry id status s).1
  unfolding update_phase
  update_phase-StatusWritten id status s h =
      let f = write_status api id (set_phase status) in
      let (t, e) = retry.is_attempt f s in
      write_status-StatusWritten id (set_phase status) t _ (
        sym e
        ∙ settle-done api retry (retry.on_conflict f s) tt _
            (ap (λ r. (r, (update_phase api retry id status s).1)) h))
