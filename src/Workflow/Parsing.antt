-- ===== src/Workflow/Parsing.antt =====
-- What the parser of packages/longhub-pack-schema/src/workflow-dsl.ts lets through.
use longhub_platform.Common.{
  ℕ, suc, ◌+◌, ◌≤◌, max, String, true, ◌&&◌, List, [], ◌∷◌, ◌≡◌, refl, sym, arith, Result, ok, leb,
  ◌=s◌,
}
use longhub_platform.Common.Results.{guard, bind-eq-ok, check-eq-ok, guard-eq-ok, ok_inj}
use longhub_platform.Skills.Plans.{are_distinct}
use longhub_platform.Workflow.{
  Step, Steps, BoundedWorkflow, ParseError, Seen, skill, confirm, branch, repeat, end, also,
  step_id, register, visit_list, visit_step, parse_workflow, has_steps, is_iterations, is_key,
  is_filled_up_to, invalid_loop, too_deep, invalid_branch, deepest, invalid_fields, is_workflow_id,
}

-- All the steps of a list, how deep they are nested, and their identifiers in front of others, the
-- last one first.
mutual
  pub size : Steps → ℕ
  size end = 0
  size (also t ts) = suc (size_step t + size ts)

  pub size_step : Step → ℕ
  size_step (skill id k input) = 0
  size_step (confirm id title summary) = 0
  size_step (branch id key v yes_steps no_steps) = size yes_steps + size no_steps
  size_step (repeat id n steps) = size steps

mutual
  pub nesting : Steps → ℕ
  nesting end = 0
  nesting (also t ts) = max (nesting_step t) (nesting ts)

  pub nesting_step : Step → ℕ
  nesting_step (skill id k input) = 0
  nesting_step (confirm id title summary) = 0
  nesting_step (branch id key v yes_steps no_steps) =
      suc (max (nesting yes_steps) (nesting no_steps))
  nesting_step (repeat id n steps) = suc (nesting steps)

mutual
  pub ids_onto : Steps → List String → List String
  ids_onto end ids = ids
  ids_onto (also t ts) ids = ids_onto ts (ids_of_step t (step_id t ∷ ids))

  pub ids_of_step : Step → List String → List String
  ids_of_step (skill id k input) ids = ids
  ids_of_step (confirm id title summary) ids = ids
  ids_of_step (branch id key v yes_steps no_steps) ids = ids_onto no_steps (ids_onto yes_steps ids)
  ids_of_step (repeat id n steps) ids = ids_onto steps ids

-- What a visit that came through has counted and remembered.
record IsVisited (seen seen' : Seen) (steps deep depth : ℕ) (ids : List String) : Type 0 where
  counted : seen'.total ≡ seen.total + steps
  bounded : seen.total ≤ 20 → seen'.total ≤ 20
  shallow : depth ≤ 3 → depth + deep ≤ 3
  remembered : seen'.ids ≡ ids
  distinct : are_distinct seen.ids ≡ true → are_distinct seen'.ids ≡ true

register-IsVisited :
    (id : String) (depth : ℕ) (seen seen' : Seen)
    → register id seen ≡ ok seen'
    → IsVisited seen seen' 1 0 depth (id ∷ seen.ids)
unfolding are_distinct
register-IsVisited id depth seen seen' h = record {
  counted = ground arith;
  bounded = λ l. ground arith;
  shallow = λ l. omega arith;
  remembered = ground arith;
  distinct = λ d. ground arith;
}

both-IsVisited :
    (s0 s1 s2 : Seen) (n m deep deep' depth : ℕ) (ids ids' : List String)
    → IsVisited s0 s1 n deep depth ids
    → IsVisited s1 s2 m deep' depth ids'
    → IsVisited s0 s2 (n + m) (max deep deep') depth ids'
both-IsVisited s0 s1 s2 n m deep deep' depth ids ids' a b = record {
  counted = let x = a.counted in let y = b.counted in omega arith;
  bounded = λ l. b.bounded (a.bounded l);
  shallow = λ l. let x = a.shallow l in let y = b.shallow l in omega arith;
  remembered = b.remembered;
  distinct = λ d. b.distinct (a.distinct d);
}

step-IsVisited :
    (s0 s1 s2 s3 : Seen) (n m deep deep' depth : ℕ) (ids ids' ids'' : List String)
    → IsVisited s0 s1 1 0 depth ids
    → IsVisited s1 s2 n deep depth ids'
    → IsVisited s2 s3 m deep' depth ids''
    → IsVisited s0 s3 (suc (n + m)) (max deep deep') depth ids''
step-IsVisited s0 s1 s2 s3 n m deep deep' depth ids ids' ids'' a b c = record {
  counted = let x = a.counted in let y = b.counted in let z = c.counted in omega arith;
  bounded = λ l. c.bounded (b.bounded (a.bounded l));
  shallow = λ l. let y = b.shallow l in let z = c.shallow l in omega arith;
  remembered = c.remembered;
  distinct = λ d. c.distinct (b.distinct (a.distinct d));
}

deeper-IsVisited :
    (s0 s1 : Seen) (n deep depth : ℕ) (ids : List String)
    → suc depth ≤ 3
    → IsVisited s0 s1 n deep (suc depth) ids
    → IsVisited s0 s1 n (suc deep) depth ids
deeper-IsVisited s0 s1 n deep depth ids h a = record {
  counted = a.counted;
  bounded = a.bounded;
  shallow = λ l. let x = a.shallow h in omega arith;
  remembered = a.remembered;
  distinct = a.distinct;
}

same-IsVisited : (seen : Seen) (depth : ℕ) → IsVisited seen seen 0 0 depth seen.ids
same-IsVisited seen depth = record {
  counted = omega arith;
  bounded = λ l. l;
  shallow = λ l. omega arith;
  remembered = refl;
  distinct = λ d. d;
}

room : (depth : ℕ) → guard (leb (suc depth) 3) too_deep ≡ ok tt → suc depth ≤ 3
room depth h = let e = guard-eq-ok (leb (suc depth) 3) too_deep h in ground arith

ok-IsVisited :
    (seen seen' : Seen) (depth : ℕ)
    → ◌≡◌ {A = Result ParseError Seen} (ok seen) (ok seen')
    → IsVisited seen seen' 0 0 depth seen.ids
ok-IsVisited seen seen' depth h = rw (sym (ok_inj seen seen' h)) (same-IsVisited seen depth)

mutual
  unfolding visit_list size nesting ids_onto

  visit_list-IsVisited :
      (ts : Steps) (depth : ℕ) (seen seen' : Seen)
      → visit_list ts depth seen ≡ ok seen'
      → IsVisited seen seen' (size ts) (nesting ts) depth (ids_onto ts seen.ids)
  visit_list-IsVisited end depth seen seen' h = ok-IsVisited seen seen' depth h
  visit_list-IsVisited (also t ts) depth seen seen' h =
      let (s1, e1, h1) = bind-eq-ok (register (step_id t) seen) _ h in
      let (s2, e2, h2) = bind-eq-ok (visit_step t depth s1) _ h1 in
      let a = register-IsVisited (step_id t) depth seen s1 e1 in
      let b = visit_step-IsVisited t depth s1 s2 e2 in
      let c = visit_list-IsVisited ts depth s2 seen' h2 in
      let b' : IsVisited s1 s2 (size_step t) (nesting_step t) depth
          (ids_of_step t (step_id t ∷ seen.ids)) =
        rw a.remembered at b in
      let c' : IsVisited s2 seen' (size ts) (nesting ts) depth
          (ids_onto ts (ids_of_step t (step_id t ∷ seen.ids))) =
        rw b'.remembered at c in
      step-IsVisited seen s1 s2 seen' (size_step t) (size ts) (nesting_step t) (nesting ts) depth _
        _ _ a b' c'

  visit_step-IsVisited :
      (t : Step) (depth : ℕ) (seen seen' : Seen)
      → visit_step t depth seen ≡ ok seen'
      → IsVisited seen seen' (size_step t) (nesting_step t) depth (ids_of_step t seen.ids)
  visit_step-IsVisited (skill id k input) depth seen seen' h =
      ok-IsVisited seen seen' depth (check-eq-ok _ (ok seen) h).1
  visit_step-IsVisited (confirm id title summary) depth seen seen' h =
      ok-IsVisited seen seen' depth (check-eq-ok _ (ok seen) h).1
  visit_step-IsVisited (branch id key v yes_steps no_steps) depth seen seen' h =
      let h1 = (check-eq-ok (guard (is_key key) invalid_branch) _ h).1 in
      let (deep, h2) = check-eq-ok (guard (leb (suc depth) 3) too_deep) _ h1 in
      let (s1, e1, h3) = bind-eq-ok (visit_list yes_steps (suc depth) seen) _ h2 in
      let a = visit_list-IsVisited yes_steps (suc depth) seen s1 e1 in
      let b = visit_list-IsVisited no_steps (suc depth) s1 seen' h3 in
      deeper-IsVisited seen seen' _ _ depth _ (room depth deep) (
        both-IsVisited seen s1 seen' (size yes_steps) (size no_steps) (nesting yes_steps)
          (nesting no_steps) (suc depth) _ _ a (rw a.remembered at b))
  visit_step-IsVisited (repeat id n steps) depth seen seen' h =
      let h1 = (check-eq-ok (guard (is_iterations n && has_steps steps) invalid_loop) _ h).1 in
      let (deep, h2) = check-eq-ok (guard (leb (suc depth) 3) too_deep) _ h1 in
      deeper-IsVisited seen seen' _ _ depth _ (room depth deep)
        (visit_list-IsVisited steps (suc depth) seen seen' h2)

nothing_seen : Seen
nothing_seen = record { ids = []; total = 0 }

visited-bounds :
    (seen : Seen) (n deep : ℕ) (ids : List String)
    → IsVisited nothing_seen seen n deep 1 ids
    → (n ≤ 20) × (deep ≤ 2) × (are_distinct ids ≡ true)
unfolding nothing_seen are_distinct
visited-bounds seen n deep ids a =
    let total : seen.total ≡ 0 + n = a.counted in
    let bound : seen.total ≤ 20 = a.bounded (omega arith) in
    let shallow : 1 + deep ≤ 3 = a.shallow (omega arith) in
    (omega arith, omega arith, rw a.remembered at (a.distinct refl))

parse_steps :
    (w v : BoundedWorkflow)
    → parse_workflow w ≡ ok v
    → (v ≡ w)
      × (has_steps w.steps ≡ true)
      × (seen : Seen) × (visit_list w.steps 1 nothing_seen ≡ ok seen)
unfolding parse_workflow nothing_seen
parse_steps w v h =
    let (fields, h1) =
      check-eq-ok
        (guard
          (w.schema_version =s "longhub/workflow/v1"
            && (is_workflow_id w.workflow_id && (is_filled_up_to 80 w.name && has_steps w.steps)))
          invalid_fields)
        _ h in
    let (_, h2) = check-eq-ok (guard (leb 1 deepest) too_deep) _ h1 in
    let (seen, e, h3) =
      bind-eq-ok (visit_list w.steps 1 (record { ids = []; total = 0 })) (λ x. ok w) h2 in
    let good : (w.schema_version =s "longhub/workflow/v1"
          && (is_workflow_id w.workflow_id && (is_filled_up_to 80 w.name && has_steps w.steps)))
        ≡ true =
      guard-eq-ok _ _ fields in
    (sym (ok_inj w v h3), ground arith, seen, e)

-- What the parser lets through is bounded: a workflow that is parsed comes out as it is, has a step
-- and has 20 steps at most, those inside branches and loops included, nests them in one another
-- twice at most, and no two of its steps have the same identifier.
pub parse_bounds :
    (w v : BoundedWorkflow)
    → parse_workflow w ≡ ok v
    → (v ≡ w)
      × (has_steps w.steps ≡ true)
      × (size w.steps ≤ 20)
      × (nesting w.steps ≤ 2)
      × (are_distinct (ids_onto w.steps []) ≡ true)
unfolding nothing_seen
parse_bounds w v h =
    let (same, some_step, seen, e) = parse_steps w v h in
    let (few, shallow, distinct) =
      visited-bounds seen (size w.steps) (nesting w.steps) (ids_onto w.steps [])
        (visit_list-IsVisited w.steps 1 nothing_seen seen e) in
    (same, some_step, few, shallow, distinct)
