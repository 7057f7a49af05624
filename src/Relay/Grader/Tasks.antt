-- ===== src/Relay/Grader/Tasks.antt =====
-- services/relay/grader/tasks.go: the tasks of a lab, read and checked.
use rootenv.Common.{
  ℕ, suc, ◌≡◌, ◌↔◌, Option-cases, refl, ◌⊎◌, inl, inr, false, not, Option, none, some, List, [],
  ◌∷◌, Bytes, bytes_eq, bytes_beq, bytes_beq_iff, codes, ◌==◌, if◌then◌else◌, arith,
}

pub record Task : Type 0 where
  pub id : Bytes
  pub type : Bytes
  pub template : Bytes
  pub asset : Bytes

pub data LoadError : Type 0 where
  unread unparsed : LoadError
  missing_id : ℕ → LoadError
  missing_template : ℕ → Bytes → LoadError
  unsupported_type : ℕ → Bytes → Bytes → LoadError

unfoldable pub check_task : ℕ → Task → Option LoadError
check_task i t =
    if t.id == []
    then some (missing_id i)
    else if t.template == []
    then some (missing_template i t.id)
    else if not (t.type == codes "term")
    then some (unsupported_type i t.id t.type)
    else none

-- The loop of `LoadTasks`, from index `i`: the first error ends it.
unfoldable pub check_tasks : ℕ → List Task → Option LoadError
check_tasks i [] = none
check_tasks i (t ∷ ts) = elim (check_task i t) [ none ↦ check_tasks (suc i) ts | some e ↦ some e ]

-- `read_file` and `unmarshal` stand for `os.ReadFile` and `json.Unmarshal`, at `none` where they fail.
unfoldable pub load_tasks :
    (Bytes → Option Bytes) → (Bytes → Option (List Task)) → Bytes → LoadError ⊎ List Task
load_tasks read_file unmarshal path = elim (read_file path) [
  | none ↦ inl unread
  | some data' ↦ elim (unmarshal data') [
    | none ↦ inl unparsed
    | some tasks ↦ elim (check_tasks 0 tasks) [ none ↦ inr tasks | some e ↦ inl e ]
  ]
]

-- A task that can be graded.
abbrev pub IsGradeable : Task → Type 0
IsGradeable t =
    (bytes_beq t.id [] ≡ false) × (bytes_beq t.template [] ≡ false) × (t.type ≡ codes "term")

abbrev pub AreGradeable : List Task → Type 0
AreGradeable [] = Unit
AreGradeable (t ∷ ts) = IsGradeable t × AreGradeable ts

check_task-IsGradeable : (i : ℕ) (t : Task) → check_task i t ≡ none → IsGradeable t
unfolding check_task
check_task-IsGradeable i t h = ground (arith, bytes_beq_iff t.type (codes "term"))

check_task-none : (i : ℕ) (t : Task) → IsGradeable t → check_task i t ≡ none
unfolding check_task
check_task-none i t (a, b, c) = rw (a, b, (bytes_beq_iff t.type (codes "term")).1 c)

check_tasks-AreGradeable : (i : ℕ) (ts : List Task) → check_tasks i ts ≡ none → AreGradeable ts
unfolding check_tasks
check_tasks-AreGradeable i [] h = tt
check_tasks-AreGradeable i (t ∷ ts) h =
    ground (arith, check_task-IsGradeable i t, check_tasks-AreGradeable (suc i) ts)

check_tasks-none : (i : ℕ) (ts : List Task) → AreGradeable ts → check_tasks i ts ≡ none
unfolding check_tasks
check_tasks-none i [] h = refl
check_tasks-none i (t ∷ ts) (g, h) =
    rw (check_task-none i t g, check_tasks) (check_tasks-none (suc i) ts h)

-- Tasks are loaded exactly if the file can be read and parsed as a list of them, each of which has
-- an ID, a template and the type "term"; they are then the file's, in its order.
pub load_tasks_iff :
    (read_file : Bytes → Option Bytes) (unmarshal : Bytes → Option (List Task)) (path : Bytes)
    (ts : List Task)
    → (load_tasks read_file unmarshal path ≡ inr ts)
      ↔ ((d : Bytes) × (read_file path ≡ some d) × (unmarshal d ≡ some ts) × AreGradeable ts)
unfolding load_tasks
load_tasks_iff read_file unmarshal path ts = (
  λ h. elim (Option-cases (read_file path)) [
    | inl e ↦ absurd (ground (arith, e, h))
    | inr (d, e) ↦ elim (Option-cases (unmarshal d)) [
      | inl f ↦ absurd (ground (arith, e, f, h))
      | inr (ts', f) ↦ elim (Option-cases (check_tasks 0 ts')) [
        | inl g ↦ (
          d,
          e,
          ground (arith, e, f, g, h),
          ground (arith, e, f, g, h, check_tasks-AreGradeable 0 ts'),
        )
        | inr (x, g) ↦ absurd (ground (arith, e, f, g, h))
      ]
    ]
  ],
  λ (d, e, f, g). rw (e, load_tasks, f, check_tasks-none 0 ts g) refl,
)
