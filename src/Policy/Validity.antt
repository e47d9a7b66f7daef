-- ===== src/Policy/Validity.antt =====
-- What `build` establishes: every snapshot that it returns is consistent.
use sentry_gate_ai.Prelude.{
  subst, String, ℕ, suc, ◌≤◌, ◌≡◌, true, List, [], ◌∷◌, some, arith, ◌==◌, eq_iff, Bool-cases, inl,
  inr, Option-cases,
}
use sentry_gate_ai.Prelude.Assoc.{Map, lookup, has, insert, lookup-insert}
use sentry_gate_ai.Contracts.{ok, Result-cases}
use sentry_gate_ai.Policy.{EnvironmentMode, Target, CommandSet, Snapshot}
use sentry_gate_ai.Policy.Document.{
  Document, AgentDocument, TargetDocument, max_parallel_tasks_limit,
}
use sentry_gate_ai.Policy.Build.{
  declared_mode, mode_of, build_environments, build_commands, build_allowed, build_agents,
  build_targets, build_lists, build, task_count,
}

abbrev pub ModesDeclared : Map EnvironmentMode → Type 0
ModesDeclared m =
    (name : String) (mode : EnvironmentMode) → lookup name m ≡ some mode → declared_mode mode ≡ true

abbrev pub CommandsWithin : CommandSet → CommandSet → Type 0
CommandsWithin catalogue cmds = (c : String) → has c cmds ≡ true → has c catalogue ≡ true

abbrev pub AgentsWithin : CommandSet → Map CommandSet → Type 0
AgentsWithin catalogue agents =
    (id : String) (cmds : CommandSet) → lookup id agents ≡ some cmds → CommandsWithin catalogue cmds

abbrev pub TargetsPlaced : Map EnvironmentMode → Map Target → Type 0
TargetsPlaced environments targets =
    (id : String) (t : Target)
    → lookup id targets ≡ some t
    → (has t.environment environments ≡ true) × (t.id ≡ id)

-- A consistent snapshot.
pub record IsValid (s : Snapshot) : Type 0 where
  pub tasks_lower : 1 ≤ s.max_parallel_tasks
  pub tasks_upper : s.max_parallel_tasks ≤ max_parallel_tasks_limit
  pub modes : ModesDeclared s.environments
  pub agents : AgentsWithin s.commands s.agents
  pub targets : TargetsPlaced s.environments s.targets

build_environments-ModesDeclared :
    (l : Map String) (done : Map EnvironmentMode) {m : Map EnvironmentMode}
    → ModesDeclared done
    → build_environments l done ≡ ok m
    → ModesDeclared m
unfolding build_environments
build_environments-ModesDeclared [] done h e = subst ModesDeclared (ground arith) h
build_environments-ModesDeclared ((name, mode) ∷ rest) done h e =
    build_environments-ModesDeclared rest (insert name (mode_of mode) done)
      (λ n m' p. ground (arith, lookup-insert name n (mode_of mode) done, h n m')) (ground arith)

build_allowed-within :
    (catalogue : CommandSet) (id : String) (l : List String) (done : CommandSet) {cmds : CommandSet}
    → CommandsWithin catalogue done
    → build_allowed catalogue id l done ≡ ok cmds
    → CommandsWithin catalogue cmds
unfolding build_allowed has
build_allowed-within catalogue id [] done h e = subst (CommandsWithin catalogue) (ground arith) h
build_allowed-within catalogue id (c ∷ rest) done h e =
    build_allowed-within catalogue id rest (insert c tt done)
      (λ n p. ground (arith, lookup-insert c n tt done, h n, eq_iff c n)) (ground arith)

build_agents-within :
    (catalogue : CommandSet) (i : ℕ) (l : List AgentDocument) (done : Map CommandSet)
    {m : Map CommandSet}
    → AgentsWithin catalogue done
    → build_agents catalogue i l done ≡ ok m
    → AgentsWithin catalogue m
unfolding build_agents lookup
build_agents-within catalogue i [] done h e = subst (AgentsWithin catalogue) (ground arith) h
build_agents-within catalogue i (a ∷ rest) done h e =
    elim (Result-cases (build_allowed catalogue a.id a.commands [])) [
      | inl (allowed, p) ↦
          build_agents-within catalogue (suc i) rest (insert a.id allowed done)
            (λ id cmds q. elim (Bool-cases (a.id == id)) [
              | inl same ↦
                  build_allowed-within catalogue a.id a.commands [] (λ c r. cc)
                    (ground (arith, p, lookup-insert a.id id allowed done))
              | inr other ↦ h id cmds (ground (arith, lookup-insert a.id id allowed done))
            ])
            (ground (arith, p))
      | inr (x, p) ↦ absurd (ground (arith, p))
    ]

build_targets-placed :
    (environments : Map EnvironmentMode) (i : ℕ) (l : List TargetDocument) (done : Map Target)
    {m : Map Target}
    → TargetsPlaced environments done
    → build_targets environments i l done ≡ ok m
    → TargetsPlaced environments m
unfolding build_targets
build_targets-placed environments i [] done h e =
    subst (TargetsPlaced environments) (ground arith) h
build_targets-placed environments i (t ∷ rest) done h e = elim (Option-cases t.protected) [
  | inl p ↦ absurd (ground (arith, p))
  | inr (b, p) ↦
      let entry : Target = record { id = t.id; environment = t.environment; protected = b } in
      build_targets-placed environments (suc i) rest (insert t.id entry done)
        (λ id t' q. ground (arith, lookup-insert t.id id entry done, h id t', eq_iff t.id id, p))
        (ground (arith, p))
]

-- The four loops behind a snapshot.
build_lists_parts :
    (doc : Document) (n : ℕ) (s : Snapshot)
    → build_lists doc n ≡ ok s
    → (build_environments doc.environments [] ≡ ok s.environments)
      × (build_commands doc.commands [] ≡ ok s.commands)
      × (build_agents s.commands 0 doc.agents [] ≡ ok s.agents)
      × (build_targets s.environments 0 doc.targets [] ≡ ok s.targets)
      × (s.max_parallel_tasks ≡ n)
unfolding build_lists
build_lists_parts doc n s e = ground arith

build_bounds :
    (doc : Document) (s : Snapshot)
    → build doc ≡ ok s
    → (n : ℕ) × (build_lists doc n ≡ ok s) × (1 ≤ n) × (n ≤ max_parallel_tasks_limit)
unfolding build
build_bounds doc s e = (task_count doc.max_parallel_tasks, ground arith, ground arith, ground arith)

-- Every snapshot that `build` returns has a task bound between 1 and the limit, only the three
-- modes, agents whose commands are all in the catalogue, and targets that stand under their own ID
-- in a declared environment.
pub build-IsValid : (doc : Document) (s : Snapshot) → build doc ≡ ok s → IsValid s
unfolding lookup
build-IsValid doc s e =
    let (n, lists, lower, upper) = build_bounds doc s e in
    let (environments, commands, agents, targets, tasks) = build_lists_parts doc n s lists in
    record {
      tasks_lower = omega arith;
      tasks_upper = omega arith;
      modes = build_environments-ModesDeclared doc.environments [] (λ name mode p. cc) environments;
      agents = build_agents-within s.commands 0 doc.agents [] (λ id cmds p. cc) agents;
      targets = build_targets-placed s.environments 0 doc.targets [] (λ id t p. cc) targets;
    }
