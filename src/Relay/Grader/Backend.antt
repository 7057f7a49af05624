-- ===== src/Relay/Grader/Backend.antt =====
-- services/relay/grader/backend.go: the grades of a lab's tasks, kept and reported.
pub mod Grades
pub mod Sessions
pub mod Texts
pub mod Told
use rootenv.Common.Dict
use rootenv.Common.Dict.{Dict, values}
use rootenv.Common.{
  ℕ, Bool, true, false, not, ◌&&◌, ◌||◌, Option, none, some, List, [], ◌∷◌, ◌++◌, map, Bytes,
  bytes_eq, nat_eq, ◌==◌, if◌then◌else◌, filter, any,
}
use rootenv.Relay.Grader.Lines.{AssetBuffer, empty_buffer, ingest, joined}
use rootenv.Relay.Grader.Tasks.{Task}

-- The package regexp: `Compile`, at `none` on an error, and `MatchString`.
pub record Regexp (R : Type 0) : Type 0 where
  pub compile : Bytes → Option R
  pub match_string : R → Bytes → Bool

-- A client is known by a number for its connection. `sent` holds the writes to clients, failed ones
-- included, oldest first.
pub record Backend (R : Type 0) : Type 0 where
  pub tasks : List Task
  pub regexes : Dict Bytes R
  pub assets : Dict Bytes AssetBuffer
  pub grades : Dict Bytes Bool
  pub clients : List ℕ
  pub sent : List (ℕ × Bytes)

module _ {R : Type 0} (re : Regexp R) where
  -- The loop of `init`: a template that does not compile leaves no entry.
  unfoldable pub compile_tasks : List Task → Dict Bytes R → Dict Bytes R
  compile_tasks [] d = d
  compile_tasks (t ∷ ts) d =
      compile_tasks ts (elim (re.compile t.template) [ none ↦ d | some r ↦ Dict.insert t.id r d ])

  unfoldable pub new_backend : List Task → Backend R
  new_backend tasks = record {
    tasks = tasks;
    regexes = compile_tasks tasks [];
    assets = [];
    grades = [];
    clients = [];
    sent = [];
  }

  -- Whether the lines of one asset, or of any for a task of the whole lab, match.
  unfoldable pub matches : Dict Bytes AssetBuffer → Bytes → AssetBuffer → Task → R → Bool
  matches assets asset buf t r =
      if t.asset == []
      then any (λ ab. re.match_string r (joined ab)) (values assets)
      else t.asset == asset && re.match_string r (joined buf)

  unfoldable pub passes : Dict Bytes R → Dict Bytes AssetBuffer → Bytes → AssetBuffer → Task → Bool
  passes regexes assets asset buf t = elim (Dict.lookup t.id regexes) [
    | none ↦ false
    | some r ↦ matches assets asset buf t r
  ]

-- One round of the loop of `Ingest`; the flag is `changed`.
unfoldable pub grade_task : (Task → Bool) → Task → Dict Bytes Bool × Bool → Dict Bytes Bool × Bool
grade_task passes t (grades, changed) =
    if Dict.get_or t.id false grades
    then (grades, changed)
    else if passes t
    then (Dict.insert t.id true grades, true)
    else (grades, changed)

unfoldable pub grade_tasks :
    (Task → Bool) → List Task → Dict Bytes Bool × Bool → Dict Bytes Bool × Bool
grade_tasks passes [] s = s
grade_tasks passes (t ∷ ts) s = grade_tasks passes ts (grade_task passes t s)

unfoldable pub report : List Task → Dict Bytes Bool → Dict Bytes Bool → Dict Bytes Bool
report [] grades out = out
report (t ∷ ts) grades out = report ts grades (Dict.insert t.id (Dict.get_or t.id false grades) out)

module _ {R : Type 0} where
  unfoldable pub grades_locked : Backend R → Dict Bytes Bool
  grades_locked b = report b.tasks b.grades []

  -- `marshal` stands for `json.Marshal`, and `accepts` says to which clients a write succeeds.
  unfoldable pub broadcast_locked :
      (Dict Bytes Bool → Option Bytes) → (ℕ → Bool) → Backend R → Backend R
  broadcast_locked marshal accepts b = elim (marshal (grades_locked b)) [
    | none ↦ b
    | some payload ↦ record b {
      clients = filter accepts b.clients;
      sent = b.sent ++ map (λ c. (c, payload)) b.clients;
    }
  ]

  -- `Ingest` behind the asset's own buffer: the tasks are graded on its new lines.
  unfoldable pub grade :
      Regexp R
      → (Dict Bytes Bool → Option Bytes)
      → (ℕ → Bool)
      → Bytes
      → AssetBuffer
      → Backend R
      → Backend R
  grade re marshal accepts asset buf b =
      let (grades, changed) =
        grade_tasks (passes re b.regexes b.assets asset buf) b.tasks (b.grades, false) in
      let graded = record b { grades = grades } in
      if changed then broadcast_locked marshal accepts graded else graded

  unfoldable pub ingest_chunk :
      Regexp R
      → (Dict Bytes Bool → Option Bytes)
      → (ℕ → Bool)
      → Bytes
      → Bytes
      → Backend R
      → Backend R
  ingest_chunk re marshal accepts asset chunk b =
      let (buf, complete) = ingest (Dict.get_or asset empty_buffer b.assets) chunk in
      let stored = record b { assets = Dict.insert asset buf b.assets } in
      if complete then grade re marshal accepts asset buf stored else stored

  -- `Serve` up to the end of its first lock: the payload is still to be written.
  unfoldable pub register :
      (Dict Bytes Bool → Option Bytes) → ℕ → Backend R → Backend R × Option Bytes
  register marshal conn b = (
    record b { clients = conn ∷ filter (λ c. not (c == conn)) b.clients },
    marshal (grades_locked b),
  )

  -- The deferred call of `Serve`.
  unfoldable pub deregister : ℕ → Backend R → Backend R
  deregister conn b = record b { clients = filter (λ c. not (c == conn)) b.clients }

  -- The write of `Serve`, outside of the lock.
  unfoldable pub write_snapshot : (ℕ → Bool) → ℕ → Bytes → Backend R → Backend R
  write_snapshot accepts conn payload b =
      let written = record b { sent = b.sent ++ (conn, payload) ∷ [] } in
      if accepts conn then written else deregister conn written
