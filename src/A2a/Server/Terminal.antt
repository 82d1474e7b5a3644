-- ===== src/A2a/Server/Terminal.antt =====
-- The ended tasks of core/a2a_adapter/server.py over a list of steps.
use s13code.Prelude.{
  String, ◌≡◌, refl, ◌∙◌, Bool, true, false, ◌||◌, ◌==◌, Option, none, some, List, [], ◌∷◌, map,
  arith, eq_iff, Bool-cases, inl, inr, elem, any,
}
use s13code.A2a.Server.{
  Task, working, canceled, is_terminal, Server, find_task, store_task, stamped, push, Submission,
  new_task, send, make_job, stream, stream_on, wake, Handled, answer, error, finish_task,
  handled_task, complete, stop_job, cancel_found, cancel, recover_task, recover, restart, Step,
  sends, streams, makes_job, streams_on, wakes, completes, cancels, restarts, step, steps, no_tasks,
  drop_work, has_work, works_on, drop_id,
}
use s13code.A2a.Server.Saved.{Saved, step-Saved}
use s13code.A2a.Server.Ended.{
  Ended, submits, find_task-id, store_task-Ended, push-Ended, if-Ended, idle-work, works-drop,
  unless-Ended,
}

send-Ended :
    (nid : String) (t : Task) (m : Submission) (s : Server)
    → (m.id == nid) ≡ false
    → Ended nid t s
    → Ended nid t (send m s)
unfolding send new_task store_task
send-Ended nid t m s ne h =
    if-Ended nid t m.slow
      (push (stamped working [] m.now (new_task m))
        (record (store_task (stamped working [] m.now (new_task m)) (store_task (new_task m) s)) {
          starting = m.id ∷ s.starting;
        }))
      (record (store_task (new_task m) s) { completing = (m.id, false) ∷ s.completing })
      (λ _.
        push-Ended nid t (stamped working [] m.now (new_task m))
          (record (store_task (stamped working [] m.now (new_task m)) (store_task (new_task m) s)) {
            starting = m.id ∷ s.starting;
          })
          (let q =
              store_task-Ended nid t (stamped working [] m.now (new_task m))
                (store_task (new_task m) s) ne once in
            record { there = q.there; over = q.over; idle = q.idle }))
      (λ _. record { there = once.there; over = once.over; idle = rw ne (once.idle) })
  where
    once : Ended nid t (store_task (new_task m) s)
    once = store_task-Ended nid t (new_task m) s ne h

stream-Ended :
    (nid : String) (t : Task) (m : Submission) (s : Server)
    → (m.id == nid) ≡ false
    → Ended nid t s
    → Ended nid t (stream m s)
unfolding stream new_task
stream-Ended nid t m s ne h =
    let once = store_task-Ended nid t (new_task m) s ne h in
    let q =
      store_task-Ended nid t (stamped working [] m.now (new_task m)) (store_task (new_task m) s) ne
        once in
    record { there = q.there; over = q.over; idle = q.idle }

handled-id : (r : Handled) (now : String) (u : Task) → (handled_task r now u).id ≡ u.id
handled-id (answer text) now u = refl
handled-id (error text) now u = refl

finish-Ended :
    (nid k : String) (t : Task) (o : Option Task) (r : Handled) (now : String) (s : Server)
    → ((u : Task) → o ≡ some u → (u.id == nid) ≡ false)
    → Ended nid t s
    → Ended nid t (finish_task o r now s)
finish-Ended nid k t none r now s ne h = h
finish-Ended nid k t (some u) r now s ne h =
    push-Ended nid t (handled_task r now u) (store_task (handled_task r now u) s)
      (store_task-Ended nid t (handled_task r now u) s (rw (handled-id r now u) (ne u refl)) h)

-- The task that another identifier finds is another task.
found_other :
    (nid k : String) (ts : List Task) (u : Task)
    → (k == nid) ≡ false
    → find_task k ts ≡ some u
    → (u.id == nid) ≡ false
found_other nid k ts u ne e = rw ((eq_iff u.id k).0 (find_task-id k ts u e)) ne

clash : {b : Bool} → b ≡ true → b ≡ false → ⊥
clash p q = absurd (ground arith)

complete-Ended :
    (nid k : String) (j : Bool) (t : Task) (r : Handled) (now : String) (s : Server)
    → Ended nid t s
    → Ended nid t (complete k j r now s)
unfolding complete
complete-Ended nid k j t r now s h =
    if-Ended nid t (has_work k j s.completing)
      (finish_task (find_task k s.tasks) r now
        (record s { completing = drop_work k j s.completing }))
      s
      (λ busy. elim (Bool-cases (k == nid)) [
        | inl e ↦ absurd (
            let idle = idle-work nid j s.completing h.idle in
            let same = (eq_iff k nid).0 e in clash (rw same at busy) idle)
        | inr e ↦
            finish-Ended nid k t (find_task k s.tasks) r now
              (record s { completing = drop_work k j s.completing })
              (λ u f. found_other nid k s.tasks u e f)
              (record {
                there = h.there;
                over = h.over;
                idle = works-drop nid k j s.completing h.idle;
              })
      ])
      (λ _. h)

stop_job-Ended :
    (nid k : String) (t : Task) (s : Server) → Ended nid t s → Ended nid t (stop_job k s)
stop_job-Ended nid k t s h =
    if-Ended nid t (elem k s.jobs)
      (record s { sleeping = drop_id k s.sleeping; completing = drop_work k true s.completing }) s
      (λ _. record {
        there = h.there;
        over = h.over;
        idle = works-drop nid k true s.completing h.idle;
      })
      (λ _. h)

cancel-Ended :
    (nid k now : String) (t : Task) (s : Server) → Ended nid t s → Ended nid t (cancel k now s)
unfolding cancel
cancel-Ended nid k now t s h = elim (Bool-cases (k == nid)) [
  | inl e ↦ rw ((eq_iff k nid).0 e, h.there, h.over) h
  | inr e ↦ go (find_task k s.tasks) refl e
]
  where
    go :
        (o : Option Task)
        → find_task k s.tasks ≡ o
        → (k == nid) ≡ false
        → Ended nid t (cancel_found o k now s)
    go none f ne = h
    go (some u) f ne =
        if-Ended nid t (is_terminal u.state) s
          (push (stamped canceled u.artifacts now u)
            (stop_job k (store_task (stamped canceled u.artifacts now u) s)))
          (λ _. h)
          (λ _.
            push-Ended nid t (stamped canceled u.artifacts now u)
              (stop_job k (store_task (stamped canceled u.artifacts now u) s))
              (stop_job-Ended nid k t (store_task (stamped canceled u.artifacts now u) s) (
                store_task-Ended nid t (stamped canceled u.artifacts now u) s
                  (found_other nid k s.tasks u ne f) h)))

recover-Ended :
    (nid now : String) (t : Task) (ks : List String) (s : Server)
    → Ended nid t s
    → Ended nid t (recover now ks s)
unfolding recover
recover-Ended nid now t [] s h = h
recover-Ended nid now t (k ∷ ks) s h =
    recover-Ended nid now t ks (recover_task (find_task k s.tasks) now s) one
  where
    go :
        (o : Option Task)
        → find_task k s.tasks ≡ o
        → (k == nid) ≡ false
        → Ended nid t (recover_task o now s)
    go none f ne = h
    go (some u) f ne =
        if-Ended nid t (is_terminal u.state || elem u.id s.jobs) s _ (λ _. h)
          (λ _.
            let q =
              store_task-Ended nid t (stamped working u.artifacts now u) s
                (found_other nid k s.tasks u ne f) h in
            record { there = q.there; over = q.over; idle = q.idle })

    one : Ended nid t (recover_task (find_task k s.tasks) now s)
    one = elim (Bool-cases (k == nid)) [
      | inl e ↦ rw ((eq_iff k nid).0 e, h.there, h.over) h
      | inr e ↦ go (find_task k s.tasks) refl e
    ]

step-Ended :
    (nid : String) (t : Task) (s : Server) (x : Step)
    → Saved s
    → submits nid x ≡ false
    → Ended nid t s
    → Ended nid t (step s x)
unfolding step make_job stream_on wake restart
step-Ended nid t s (sends m) k ne h = send-Ended nid t m s ne h
step-Ended nid t s (streams m) k ne h = stream-Ended nid t m s ne h
step-Ended nid t s (makes_job i) k ne h =
    if-Ended nid t (elem i s.starting) _ s
      (λ _. record { there = h.there; over = h.over; idle = h.idle }) (λ _. h)
step-Ended nid t s (streams_on i) k ne h =
    if-Ended nid t (elem i s.streaming) _ s
      (λ _.
        unless-Ended nid i t s (record s { streaming = drop_id i s.streaming })
          (record s { streaming = drop_id i s.streaming; completing = (i, false) ∷ s.completing }) h
          (record { there = h.there; over = h.over; idle = h.idle })
          (λ away. record { there = h.there; over = h.over; idle = rw away h.idle }))
      (λ _. h)
step-Ended nid t s (wakes i) k ne h =
    if-Ended nid t (elem i s.sleeping) _ s
      (λ _.
        unless-Ended nid i t s (record s { sleeping = drop_id i s.sleeping })
          (record s { sleeping = drop_id i s.sleeping; completing = (i, true) ∷ s.completing }) h
          (record { there = h.there; over = h.over; idle = h.idle })
          (λ away. record { there = h.there; over = h.over; idle = rw away h.idle }))
      (λ _. h)
step-Ended nid t s (completes i j r now) k ne h = complete-Ended nid i j t r now s h
step-Ended nid t s (cancels i now) k ne h = cancel-Ended nid i now t s h
step-Ended nid t s (restarts now) k ne h =
    recover-Ended nid now t (map (λ q. q.id) s.rows) _
      (record { there = k nid ∙ h.there; over = h.over; idle = refl })

-- From a server without tasks, after any steps in any order, restarts included, the table shows
-- for every identifier the task that the memory has.
pub steps-Saved :
    (xs : List Step) (nid : String)
    → find_task nid (steps no_tasks xs).rows ≡ find_task nid (steps no_tasks xs).tasks
unfolding steps
steps-Saved xs = go xs no_tasks (λ nid. refl)
  where
    go : (ys : List Step) (s : Server) → Saved s → Saved (steps s ys)
    go [] s h = h
    go (y ∷ ys) s h = go ys (step s y) (step-Saved s y h)

-- If the table shows the tasks in memory, a task has ended and no handler runs for it, then after
-- any steps that give its identifier to no new task, cancellations and restarts included, it is
-- still there unchanged.
pub steps-Ended :
    (xs : List Step) (s : Server) (nid : String) (t : Task)
    → Saved s
    → any (submits nid) xs ≡ false
    → find_task nid s.tasks ≡ some t
    → is_terminal t.state ≡ true
    → works_on nid s.completing ≡ false
    → find_task nid (steps s xs).tasks ≡ some t
unfolding steps
steps-Ended [] s nid t k ne f o w = f
steps-Ended (x ∷ xs) s nid t k ne f o w =
    let h = step-Ended nid t s x k (ground arith) (record { there = f; over = o; idle = w }) in
    steps-Ended xs (step s x) nid t (step-Saved s x k) (ground arith) h.there o h.idle
