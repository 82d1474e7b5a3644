-- ===== src/Runtime/Wired.antt =====
-- The edges, the waits and the end of a run in the patches of the deterministic planner of
-- runtime.py.
use s13code.Prelude.{
  String, Bool, true, false, ◌||◌, ◌==◌, Option, none, some, List, [], ◌∷◌, elem, filter, ◌≡◌, refl,
  subst, arith, eq_iff,
}
use s13code.Json.{Items, nil, cons, arr, get_or}
use s13code.Graph.Types.{TaskSpec, GraphPatch, task_succeeded, task_failed, Event, GraphSnapshot}
use s13code.Runtime.Pieces.{
  RunRequest, Edges, adds, finishes, node_ids, from, is_parent, answer_patch, at_node, listed,
  first_three, index_tasks, fetch_tasks, is_searched, is_fetched,
}
use s13code.Runtime.Plans.{
  first_frontier, index_all, fetch_all, researched, landed, after_recall, plan_ending,
  plan_research, plan_files, plan_birthday, plan,
}
use s13code.Runtime.Edges.{
  EdgesFrom, task_ids, when_of, AllIn-self, AllIn-filter, AllIn-nodes, AllIn-or_else, to-EdgesFrom,
  from-EdgesFrom, and_left, and_right, and_right_left,
}

-- The event is the outcome of the answer.
abbrev pub Answered : Event → Type 0
Answered event =
    (at_node "answer" event ≡ true)
    × ((event.kind == task_succeeded) || (event.kind == task_failed)) ≡ true

pub record Wired (graph : GraphSnapshot) (event : Event) (p : GraphPatch) : Type 0 where
  pub edges : EdgesFrom (node_ids graph.nodes) (task_ids p.add) p.connect
  pub no_cancel : p.cancel ≡ []
  pub no_wait : p.wait ≡ []
  pub no_resume : p.resume ≡ []
  pub finish : p.finish ≡ true → Answered event

module _ (graph : GraphSnapshot) (event : Event) where
  -- The node of the event, if it has one, is in the graph.
  abbrev pub InGraph : Type 0
  InGraph = (n : String) → event.node_id ≡ some n → elem n (node_ids graph.nodes) ≡ true

  unfinished : false ≡ true → Answered event
  unfinished e = absurd (ground arith)

  -- A patch that only adds.
  adding :
      (tasks : List TaskSpec) (edges : Edges) (reason : String)
      → EdgesFrom (node_ids graph.nodes) (task_ids tasks) edges
      → Wired graph event (adds tasks edges reason)
  adding tasks edges reason h = record {
    edges = h;
    no_cancel = refl;
    no_wait = refl;
    no_resume = refl;
    finish = unfinished;
  }

  finishing :
      (reason : String)
      → at_node "answer" event ≡ true
      → ((event.kind == task_succeeded) || (event.kind == task_failed)) ≡ true
      → Wired graph event (finishes reason)
  finishing reason h k = record {
    edges = tt;
    no_cancel = refl;
    no_wait = refl;
    no_resume = refl;
    finish = λ _. (h, k);
  }

  at_node-in :
      (x : String) → InGraph → at_node x event ≡ true → elem x (node_ids graph.nodes) ≡ true
  at_node-in x inside h = go event.node_id inside h
    where
      go :
          (o : Option String)
          → ((n : String) → o ≡ some n → elem n (node_ids graph.nodes) ≡ true)
          → (elim o as (λ _. Bool) [ none ↦ false | some n ↦ n == x ]) ≡ true
          → elem x (node_ids graph.nodes) ≡ true
      go none k e = absurd (ground arith)
      go (some n) k e =
          let q : n ≡ x = (eq_iff n x).0 e in
          subst (λ y. elem y (node_ids graph.nodes) ≡ true) q (k n refl)

  answer_patch-Wired :
      (request : RunRequest) (reason : String)
      → Wired graph event (answer_patch request graph reason)
  unfolding answer_patch
  answer_patch-Wired request reason =
      when_of (Wired graph event) _ _ _ (λ _. adding [] [] "" tt)
        λ _. adding _ _ _ (
          to-EdgesFrom (node_ids graph.nodes) "answer" (node_ids (filter is_parent graph.nodes)) (
            AllIn-nodes is_parent (node_ids graph.nodes) graph.nodes
              (AllIn-self (node_ids graph.nodes))))

  index_all-Wired :
      (request : RunRequest)
      → elem "list_directory" (node_ids graph.nodes) ≡ true
      → Wired graph event (index_all request graph event)
  unfolding index_all
  index_all-Wired request h = go (listed (get_or "paths" (arr nil) event.payload))
    where
      go :
          (paths : Items)
          → Wired graph event (elim paths as (λ _. GraphPatch) [
            | nil ↦ answer_patch request graph "the directory contained no matching files"
            | cons path rest ↦
                adds
                  (index_tasks 0 (cons path rest))
                  (from "list_directory" (index_tasks 0 (cons path rest)))
                  "directory outcome discovered concrete files; index them in parallel"
          ])
      go nil = answer_patch-Wired request "the directory contained no matching files"
      go (cons path rest) = adding _ _ _ (
          from-EdgesFrom (node_ids graph.nodes) "list_directory" (index_tasks 0 (cons path rest)) h)

  fetch_all-Wired :
      (request : RunRequest)
      → elem "search" (node_ids graph.nodes) ≡ true
      → Wired graph event (fetch_all request graph event)
  unfolding fetch_all
  fetch_all-Wired request h = go (first_three (listed (get_or "hits" (arr nil) event.payload)))
    where
      go :
          (hits : Items)
          → Wired graph event (elim hits as (λ _. GraphPatch) [
            | nil ↦ answer_patch request graph "search returned no URLs; explain the failure"
            | cons hit rest ↦
                adds
                  (fetch_tasks 0 (cons hit rest))
                  (from "search" (fetch_tasks 0 (cons hit rest)))
                  "search outcome discovered concrete pages; fetch them in parallel"
          ])
      go nil = answer_patch-Wired request "search returned no URLs; explain the failure"
      go (cons hit rest) =
          adding _ _ _
            (from-EdgesFrom (node_ids graph.nodes) "search" (fetch_tasks 0 (cons hit rest)) h)

  -- One task behind one node of the graph.
  next-Wired :
      (parent : String) (t : TaskSpec) (reason : String)
      → elem parent (node_ids graph.nodes) ≡ true
      → Wired graph event (adds (t ∷ []) ((parent, t.id) ∷ []) reason)
  next-Wired parent t reason h =
      adding (t ∷ []) ((parent, t.id) ∷ []) reason (h, ground (arith, eq_iff t.id t.id), tt)

  landed-Wired : (request : RunRequest) → Wired graph event (landed request graph)
  unfolding landed
  landed-Wired request =
      let ns = node_ids graph.nodes in
      when_of (Wired graph event) _ _ _
        (λ _. adding _ _ _ (
          to-EdgesFrom ns "distill" (researched graph) (
            AllIn-or_else ns _ _ (AllIn-filter is_searched ns ns (AllIn-self ns))
              (AllIn-filter is_fetched ns ns (AllIn-self ns)))))
        (λ _. answer_patch-Wired request _)

  after_recall-Wired :
      (request : RunRequest)
      → elem "recall" (node_ids graph.nodes) ≡ true
      → Wired graph event (after_recall request graph)
  unfolding after_recall
  after_recall-Wired request h =
      when_of (Wired graph event) _ _ _ (λ _. next-Wired "recall" _ _ h)
        (λ _. answer_patch-Wired request _)

  plan_ending-Wired : (request : RunRequest) → Wired graph event (plan_ending request graph event)
  unfolding plan_ending
  plan_ending-Wired request =
      when_of (Wired graph event) _ _ _ (λ _. answer_patch-Wired request _)
        λ _.
          when_of (Wired graph event) _ _ _ (λ e. finishing _ (ground arith) (ground arith))
            λ _.
              when_of (Wired graph event) _ _ _ (λ e. finishing _ (ground arith) (ground arith))
                λ _. adding [] [] "" tt

  plan_research-Wired :
      (request : RunRequest) → InGraph → Wired graph event (plan_research request graph event)
  unfolding plan_research
  plan_research-Wired request inside =
      when_of (Wired graph event) _ _ _
        (λ e. after_recall-Wired request (at_node-in "recall" inside e))
        λ _.
          when_of (Wired graph event) _ _ _ (λ _. answer_patch-Wired request _)
            λ _.
              when_of (Wired graph event) _ _ _ (λ _. landed-Wired request)
                λ _.
                  when_of (Wired graph event) _ _ _
                    (λ e. next-Wired "distill" _ _ (at_node-in "distill" inside (and_right _ _ e)))
                    λ _.
                      when_of (Wired graph event) _ _ _ (λ _. answer_patch-Wired request _)
                        λ _. plan_ending-Wired request

  plan_files-Wired :
      (request : RunRequest) → InGraph → Wired graph event (plan_files request graph event)
  unfolding plan_files
  plan_files-Wired request inside =
      when_of (Wired graph event) _ _ _ (λ _. answer_patch-Wired request _)
        λ _.
          when_of (Wired graph event) _ _ _
            (λ e.
              index_all-Wired request (at_node-in "list_directory" inside (and_right_left _ _ _ e)))
            λ _.
              when_of (Wired graph event) _ _ _ (λ _. answer_patch-Wired request _)
                λ _.
                  when_of (Wired graph event) _ _ _
                    (λ e.
                      fetch_all-Wired request (at_node-in "search" inside (and_right_left _ _ _ e)))
                    λ _. plan_research-Wired request inside

  plan_birthday-Wired :
      (request : RunRequest) → InGraph → Wired graph event (plan_birthday request graph event)
  unfolding plan_birthday
  plan_birthday-Wired request inside =
      when_of (Wired graph event) _ _ _
        (λ e. next-Wired "remember" _ _ (at_node-in "remember" inside (and_right_left _ _ _ e)))
        λ _.
          when_of (Wired graph event) _ _ _ (λ _. answer_patch-Wired request _)
            λ _.
              when_of (Wired graph event) _ _ _ (λ _. adding [] [] "" tt)
                λ _. plan_files-Wired request inside

-- If the node of the event, where it has one, is in the graph, then each edge of the
-- deterministic planner's patch goes from a node of the graph to a task that the patch adds, the
-- patch cancels, waits for and resumes nothing, and it finishes the run only for an event that is
-- the success or the failure of the answer.
pub plan-Wired :
    (request : RunRequest) (graph : GraphSnapshot) (event : Event)
    → ((n : String) → event.node_id ≡ some n → elem n (node_ids graph.nodes) ≡ true)
    → Wired graph event (plan request graph event)
unfolding plan first_frontier
plan-Wired request graph event inside =
    when_of (Wired graph event) _ _ _ (λ _. adding graph event _ [] _ tt)
      λ _.
        when_of (Wired graph event) _ _ _
          (λ e.
            next-Wired graph event "index_file" _ _
              (at_node-in graph event "index_file" inside (and_left _ _ e)))
          λ _. plan_birthday-Wired graph event request inside
