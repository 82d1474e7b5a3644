-- ===== src/Runtime/Answers.antt =====
-- The way of the deterministic planner of runtime.py to an answer, when the work of a run has
-- ended.
use s13code.Prelude.{String, Bool, true, false, not, ◌&&◌, ◌==◌, [], ◌∷◌, elem, ◌≡◌, ◌≢◌, ap, arith}
use s13code.Graph.Types.{
  TaskSpec, GraphPatch, run_started, task_succeeded, task_failed, Event, GraphSnapshot,
}
use s13code.Runtime.Pieces.{
  RunRequest, Edges, adds, node_ids, answer_patch, at_node, all_ended, is_other,
}
use s13code.Runtime.Plans.{
  landed, after_recall, plan_ending, plan_research, plan_files, plan_birthday, plan,
}
use s13code.Runtime.Edges.{when_of}

-- There is an answer node, or the patch adds a task.
pub data Progress (graph : GraphSnapshot) (p : GraphPatch) : Type 0 where
  answering : elem "answer" (node_ids graph.nodes) ≡ true → Progress graph p
  working : p.add ≢ [] → Progress graph p

module _ (graph : GraphSnapshot) where
  adds-Progress :
      (t : TaskSpec) (edges : Edges) (reason : String) → Progress graph (adds (t ∷ []) edges reason)
  adds-Progress t edges reason = working λ e. absurd (ground arith)

  answer_patch-Progress :
      (request : RunRequest) (reason : String) → Progress graph (answer_patch request graph reason)
  unfolding answer_patch
  answer_patch-Progress request reason =
      when_of (Progress graph) _ _ _ (λ e. answering e) (λ _. adds-Progress _ _ _)

  landed-Progress : (request : RunRequest) → Progress graph (landed request graph)
  unfolding landed
  landed-Progress request =
      when_of (Progress graph) _ _ _ (λ _. adds-Progress _ _ _)
        (λ _. answer_patch-Progress request _)

  after_recall-Progress : (request : RunRequest) → Progress graph (after_recall request graph)
  unfolding after_recall
  after_recall-Progress request =
      when_of (Progress graph) _ _ _ (λ _. adds-Progress _ _ _)
        (λ _. answer_patch-Progress request _)

  module _ (request : RunRequest) (event : Event) where
    plan_ending-Progress :
        (event.kind == task_failed) ≡ true
        → at_node "answer" event ≡ false
        → all_ended is_other graph ≡ true
        → Progress graph (plan_ending request graph event)
    unfolding plan_ending
    plan_ending-Progress f a w =
        when_of (Progress graph) _ _ _ (λ _. answer_patch-Progress request _)
          λ e. absurd (all_three _ _ _ f a w e)
      where
        all_three : (k a w : Bool) → k ≡ true → a ≡ false → w ≡ true → (k && not a && w) ≡ false → ⊥
        all_three k a w f g h e = ground arith

    plan_research-Progress :
        (event.kind == task_failed) ≡ true
        → at_node "answer" event ≡ false
        → all_ended is_other graph ≡ true
        → Progress graph (plan_research request graph event)
    unfolding plan_research
    plan_research-Progress f a w =
        when_of (Progress graph) _ _ _ (λ _. after_recall-Progress request)
          λ _.
            when_of (Progress graph) _ _ _ (λ _. answer_patch-Progress request _)
              λ _.
                when_of (Progress graph) _ _ _ (λ _. landed-Progress request)
                  λ _.
                    when_of (Progress graph) _ _ _ (λ _. adds-Progress _ _ _)
                      λ _.
                        when_of (Progress graph) _ _ _ (λ _. answer_patch-Progress request _)
                          λ _. plan_ending-Progress f a w

    plan_files-Progress :
        (event.kind == task_succeeded) ≡ false
        → Progress graph (plan_research request graph event)
        → Progress graph (plan_files request graph event)
    unfolding plan_files
    plan_files-Progress s rest =
        when_of (Progress graph) _ _ _ (λ _. answer_patch-Progress request _)
          λ _.
            when_of (Progress graph) _ _ _ (λ e. absurd (not_now _ _ _ s e))
              λ _.
                when_of (Progress graph) _ _ _ (λ _. answer_patch-Progress request _)
                  λ _. when_of (Progress graph) _ _ _ (λ e. absurd (not_now _ _ _ s e)) λ _. rest
      where
        not_now : (a b k : Bool) → k ≡ false → (a && (b && k)) ≡ true → ⊥
        not_now a b k s e = ground arith

-- If a task other than the answer has failed, there is a node besides the answer and all of these
-- have succeeded, failed or been cancelled, and the mode is not `birthday_reminder`, then the
-- graph has an answer node, or the deterministic planner's patch for the failure adds a task.
pub plan-Progress :
    (request : RunRequest) (graph : GraphSnapshot) (event : Event)
    → (request.mode == "birthday_reminder") ≡ false
    → event.kind ≡ task_failed
    → at_node "answer" event ≡ false
    → all_ended is_other graph ≡ true
    → Progress graph (plan request graph event)
unfolding plan plan_birthday
plan-Progress request graph event m k a w =
    let started : (event.kind == run_started) ≡ false = ap (λ x. x == run_started) k in
    let done : (event.kind == task_succeeded) ≡ false = ap (λ x. x == task_succeeded) k in
    let failing : (event.kind == task_failed) ≡ true = ap (λ x. x == task_failed) k in
    when_of (Progress graph) _ _ _ (λ e. absurd (ground arith))
      λ _.
        when_of (Progress graph) _ _ _ (λ e. absurd (ground arith))
          λ _.
            when_of (Progress graph) _ _ _ (λ e. absurd (ground arith))
              λ _.
                when_of (Progress graph) _ _ _ (λ e. absurd (ground arith))
                  λ _.
                    when_of (Progress graph) _ _ _ (λ e. absurd (ground arith))
                      λ _.
                        plan_files-Progress graph request event done
                          (plan_research-Progress graph request event failing a w)
