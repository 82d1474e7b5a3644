-- ===== src/A2a/Server/Saved.antt =====
-- The table of tasks of core/a2a_adapter/server.py beside the tasks in memory.
use s13code.Prelude.{
  String, ◌≡◌, refl, Bool, true, false, ◌||◌, ◌==◌, Option, none, some, List, [], ◌∷◌, ◌++◌, map,
  arith, eq_iff, if◌then◌else◌, elem,
}
use s13code.A2a.Server.{
  Task, working, canceled, is_terminal, Server, find_task, put_task, without, save, store_task,
  stamped, has_url, push, Submission, new_task, send, make_job, stream, unless_terminal, stream_on,
  wake, Handled, finish_task, handled_task, complete, stop_job, cancel_found, cancel, recover_task,
  recover, restart, Step, sends, streams, makes_job, streams_on, wakes, completes, cancels,
  restarts, step, drop_work, has_work, drop_id,
}

pub find-put :
    (nid : String) (t : Task) (ts : List Task)
    → find_task nid (put_task t ts) ≡ (if t.id == nid then some t else find_task nid ts)
unfolding put_task
find-put nid t [] = refl
find-put nid t (x ∷ ts) =
    ground (arith, find-put nid t ts, eq_iff x.id t.id, eq_iff t.id nid, eq_iff x.id nid)

pub find-save :
    (nid : String) (t : Task) (ts : List Task)
    → find_task nid (save t ts) ≡ (if t.id == nid then some t else find_task nid ts)
unfolding save
find-save nid t ts = go ts
  where
    go :
        (us : List Task)
        → find_task nid (without t.id us ++ t ∷ [])
          ≡ (if t.id == nid then some t else find_task nid us)
    go [] = refl
    go (x ∷ us) = ground (arith, go us, eq_iff x.id t.id, eq_iff t.id nid, eq_iff x.id nid)

-- The table shows the same task as the memory, for every identifier.
abbrev pub Saved : Server → Type 0
Saved s = (nid : String) → find_task nid s.rows ≡ find_task nid s.tasks

pub store_task-Saved : (t : Task) (s : Server) → Saved s → Saved (store_task t s)
unfolding store_task
store_task-Saved t s h nid = rw (find-save nid t s.rows, find-put nid t s.tasks, h nid)

if-Saved : (b : Bool) (x y : Server) → Saved x → Saved y → Saved (if b then x else y)
if-Saved true x y p q = p
if-Saved false x y p q = q

push-Saved : (t : Task) (s : Server) → Saved s → Saved (push t s)
push-Saved t s h = if-Saved (has_url t.callback_url) _ s h h

unless-Saved : (o : Option Task) (x y : Server) → Saved x → Saved y → Saved (unless_terminal o x y)
unless-Saved none x y p q = p
unless-Saved (some t) x y p q = if-Saved (is_terminal t.state) x y p q

send-Saved : (m : Submission) (s : Server) → Saved s → Saved (send m s)
unfolding send
send-Saved m s h =
    if-Saved m.slow
      (push (stamped working [] m.now (new_task m))
        (record (store_task (stamped working [] m.now (new_task m)) (store_task (new_task m) s)) {
          starting = m.id ∷ s.starting;
        }))
      (record (store_task (new_task m) s) { completing = (m.id, false) ∷ s.completing })
      (push-Saved (stamped working [] m.now (new_task m))
        (record (store_task (stamped working [] m.now (new_task m)) (store_task (new_task m) s)) {
          starting = m.id ∷ s.starting;
        })
        (λ nid.
          store_task-Saved (stamped working [] m.now (new_task m)) (store_task (new_task m) s)
            (store_task-Saved (new_task m) s h) nid))
      (λ nid. store_task-Saved (new_task m) s h nid)

finish-Saved :
    (o : Option Task) (r : Handled) (now : String) (s : Server)
    → Saved s
    → Saved (finish_task o r now s)
finish-Saved none r now s h = h
finish-Saved (some t) r now s h =
    push-Saved (handled_task r now t) (store_task (handled_task r now t) s)
      (store_task-Saved (handled_task r now t) s h)

stop_job-Saved : (nid : String) (s : Server) → Saved s → Saved (stop_job nid s)
stop_job-Saved nid s h =
    if-Saved (elem nid s.jobs)
      (record s { sleeping = drop_id nid s.sleeping; completing = drop_work nid true s.completing })
      s (λ n. h n) h

cancel_found-Saved :
    (o : Option Task) (nid now : String) (s : Server) → Saved s → Saved (cancel_found o nid now s)
cancel_found-Saved none nid now s h = h
cancel_found-Saved (some t) nid now s h =
    if-Saved (is_terminal t.state) s
      (push (stamped canceled t.artifacts now t)
        (stop_job nid (store_task (stamped canceled t.artifacts now t) s)))
      h
      (push-Saved (stamped canceled t.artifacts now t)
        (stop_job nid (store_task (stamped canceled t.artifacts now t) s))
        (stop_job-Saved nid (store_task (stamped canceled t.artifacts now t) s)
          (store_task-Saved (stamped canceled t.artifacts now t) s h)))

recover_task-Saved :
    (o : Option Task) (now : String) (s : Server) → Saved s → Saved (recover_task o now s)
recover_task-Saved none now s h = h
recover_task-Saved (some t) now s h =
    if-Saved (is_terminal t.state || elem t.id s.jobs) s _ h
      (λ nid. store_task-Saved (stamped working t.artifacts now t) s h nid)

recover-Saved :
    (now : String) (nids : List String) (s : Server) → Saved s → Saved (recover now nids s)
unfolding recover
recover-Saved now [] s h = h
recover-Saved now (nid ∷ nids) s h =
    recover-Saved now nids (recover_task (find_task nid s.tasks) now s)
      (recover_task-Saved (find_task nid s.tasks) now s h)

pub step-Saved : (s : Server) (x : Step) → Saved s → Saved (step s x)
unfolding step make_job stream stream_on wake complete cancel restart
step-Saved s (sends m) h = send-Saved m s h
step-Saved s (streams m) h = λ nid.
    store_task-Saved (stamped working [] m.now (new_task m)) (store_task (new_task m) s)
      (store_task-Saved (new_task m) s h) nid
step-Saved s (makes_job nid) h = if-Saved (elem nid s.starting) _ s (λ n. h n) h
step-Saved s (streams_on nid) h =
    if-Saved (elem nid s.streaming) _ s
      (unless-Saved (find_task nid s.tasks) _ _ (λ n. h n) (λ n. h n)) h
step-Saved s (wakes nid) h =
    if-Saved (elem nid s.sleeping) _ s
      (unless-Saved (find_task nid s.tasks) _ _ (λ n. h n) (λ n. h n)) h
step-Saved s (completes nid in_job r now) h =
    if-Saved (has_work nid in_job s.completing) _ s
      (finish-Saved (find_task nid s.tasks) r now
        (record s { completing = drop_work nid in_job s.completing }) (λ n. h n))
      h
step-Saved s (cancels nid now) h = cancel_found-Saved (find_task nid s.tasks) nid now s h
step-Saved s (restarts now) h = recover-Saved now (map (λ t. t.id) s.rows) _ (λ n. refl)
