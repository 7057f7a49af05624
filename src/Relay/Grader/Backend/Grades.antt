-- ===== src/Relay/Grader/Backend/Grades.antt =====
-- A task passes when its pattern matches for the first time, and stays passed.
use rootenv.Common.Dict
use rootenv.Common.Dict.{Dict, values, get_or-insert}
use rootenv.Common.{
  sym, ◌≢◌, ◌↔◌, ◌⊎◌, inl, inr, none, some, subst, Bool-cases, eq_of_beq, ne_of_beq, ℕ, ◌≡◌, refl,
  ap, ◌∙◌, Bool, true, false, ◌&&◌, ◌||◌, Option, List, [], ◌∷◌, Bytes, bytes_eq, bytes_beq_iff,
  ◌==◌, if◌then◌else◌, any, arith,
}
use rootenv.Relay.Grader.Lines.{AssetBuffer, empty_buffer, ingest, joined}
use rootenv.Relay.Grader.Tasks.{Task}
use rootenv.Relay.Grader.Backend.{
  Regexp, Backend, matches, passes, grade_task, grade_tasks, broadcast_locked, grade, ingest_chunk,
}

-- Whether a map grades a task as passed.
abbrev pub is_passed : Bytes → Dict Bytes Bool → Bool
is_passed i g = Dict.get_or i false g

-- Some task of the ID passes.
abbrev pub any_of : Bytes → (Task → Bool) → List Task → Bool
any_of i p ts = any (λ t. t.id == i && p t) ts

grade_task_lem :
    (p : Task → Bool) (t : Task) (g : Dict Bytes Bool) (c : Bool) (i : Bytes)
    → is_passed i (grade_task p t (g, c)).0 ≡ (is_passed i g || (t.id == i && p t))
unfolding grade_task
grade_task_lem p t g c i = ground (arith, bytes_beq_iff t.id i, get_or-insert i t.id false true g)

pub grade_tasks_lem :
    (p : Task → Bool) (ts : List Task) (s : Dict Bytes Bool × Bool) (i : Bytes)
    → is_passed i (grade_tasks p ts s).0 ≡ (is_passed i s.0 || any_of i p ts)
unfolding grade_tasks any
grade_tasks_lem p [] s i = ground arith
grade_tasks_lem p (t ∷ ts) (g, c) i =
    ground (arith, grade_tasks_lem p ts (grade_task p t (g, c)) i, grade_task_lem p t g c i)

changed_lem :
    (p : Task → Bool) (ts : List Task) (s : Dict Bytes Bool × Bool)
    → (grade_tasks p ts s).1 ≡ false
    → (s.1 ≡ false) × ((grade_tasks p ts s).0 ≡ s.0)
unfolding grade_tasks grade_task
changed_lem p [] s h = (h, refl)
changed_lem p (t ∷ ts) (g, c) h = ground (arith, changed_lem p ts (grade_task p t (g, c)))

some_is : {A : Type 0} {a b : A} → some a ≡ some b → a ≡ b
some_is e = cc

-- Some element of a list has a property.
abbrev pub Any : {A : Type 0} → (A → Type 0) → List A → Type 0
Any P [] = ⊥
Any P (x ∷ xs) = P x ⊎ Any P xs

any_iff :
    {A : Type 0} (p : A → Bool) (P : A → Type 0)
    → ((x : A) → (p x ≡ true) ↔ P x)
    → (xs : List A) → (any p xs ≡ true) ↔ Any P xs
unfolding any
any_iff p P h [] = ((λ e. absurd cc), (λ x. absurd x))
any_iff p P h (x ∷ xs) =
    let (to, from) = any_iff p P h xs in
    (
      (λ e. elim (Bool-cases (p x)) [
        | inl holds ↦ inl ((h x).0 holds)
        | inr fails ↦ inr (to (ground (arith, e, fails)))
      ]),
      (λ s. elim s [ inl y ↦ ground (arith, (h x).1 y) | inr y ↦ ground (arith, from y) ]),
    )

module _ {R : Type 0} (re : Regexp R) (regexes : Dict Bytes R) (assets : Dict Bytes AssetBuffer)
    (asset : Bytes) (buf : AssetBuffer) where
  -- The lines in a buffer match.
  abbrev IsMatch : R → AssetBuffer → Type 0
  IsMatch r ab = re.match_string r (joined ab) ≡ true

  -- A task of one asset looks at the lines of the chunk's asset where that is the task's; a task
  -- that names no asset looks at those of each.
  abbrev IsMatchFor : Task → R → Type 0
  IsMatchFor t r =
      ((t.asset ≡ []) × Any (IsMatch r) (values assets))
      ⊎ ((t.asset ≢ []) × (t.asset ≡ asset) × IsMatch r buf)

  -- The pattern of a task compiled, and matches.
  abbrev pub Passes : Task → Type 0
  Passes t = (r : R) × (Dict.lookup t.id regexes ≡ some r) × IsMatchFor t r

  matches_iff : (t : Task) (r : R) → (matches re assets asset buf t r ≡ true) ↔ IsMatchFor t r
  unfolding matches
  matches_iff t r =
      let (to, from) =
        any_iff (λ ab. re.match_string r (joined ab)) (IsMatch r) (λ ab. ((λ e. e), (λ e. e)))
          (values assets) in
      elim (Bool-cases (t.asset == [])) [
        | inl e ↦ (
          (λ m. inl (eq_of_beq t.asset [] e, to (ground (arith, m, e)))),
          (λ s. elim s [
            | inl (n, some_match) ↦ ground (arith, from some_match, e)
            | inr (n, same, m) ↦ absurd (n (eq_of_beq t.asset [] e))
          ]),
        )
        | inr e ↦ (
          (λ m. inr (
            ne_of_beq t.asset [] e,
            (ground (arith, m, e, bytes_beq_iff t.asset asset)),
            (ground (arith, m, e)),
          )),
          (λ s. elim s [
            | inl (n, some_match) ↦ absurd (ne_of_beq t.asset [] e n)
            | inr (n, same, m) ↦ ground (arith, e, m, same, bytes_beq_iff t.asset asset)
          ]),
        )
      ]

  passes_iff : (t : Task) → (passes re regexes assets asset buf t ≡ true) ↔ Passes t
  unfolding passes
  passes_iff t = found (Dict.lookup t.id regexes) refl
    where
      found :
          (l : Option R)
          → Dict.lookup t.id regexes ≡ l
          → (passes re regexes assets asset buf t ≡ true) ↔ Passes t
      found none e = ((λ p. absurd (ground (arith, e, p))), (λ (r, h, m). absurd cc))
      found (some r) e = (
        (λ p. (r, e, (matches_iff t r).0 (ground (arith, e, p)))),
        (λ (q, h, m).
            rw (e, passes) ((matches_iff t r).1 (subst (IsMatchFor t) (some_is (sym h ∙ e)) m))),
      )

-- What grading leaves alone, and the grades that it gives.
pub record Graded {R : Type 0} (g : Dict Bytes Bool) (b b' : Backend R) : Type 0 where
  pub grades : b'.grades ≡ g
  pub tasks : b'.tasks ≡ b.tasks
  pub regexes : b'.regexes ≡ b.regexes
  pub assets : b'.assets ≡ b.assets

module _ {R : Type 0} (marshal : Dict Bytes Bool → Option Bytes) (accepts : ℕ → Bool) where
  pub broadcast_locked-Graded :
      (b : Backend R) → Graded b.grades b (broadcast_locked marshal accepts b)
  unfolding broadcast_locked
  broadcast_locked-Graded b = record {
    grades = ground arith;
    tasks = ground arith;
    regexes = ground arith;
    assets = ground arith;
  }

  Graded-cond :
      (c : Bool) (g : Dict Bytes Bool) (b : Backend R)
      → Graded g b (
          if c
          then broadcast_locked marshal accepts (record b { grades = g })
          else record b { grades = g })
  Graded-cond true g b =
      let s = broadcast_locked-Graded (record b { grades = g }) in
      record { grades = s.grades; tasks = s.tasks; regexes = s.regexes; assets = s.assets }
  Graded-cond false g b = record { grades = refl; tasks = refl; regexes = refl; assets = refl }

module _ {R : Type 0} (re : Regexp R) (marshal : Dict Bytes Bool → Option Bytes)
    (accepts : ℕ → Bool) (asset : Bytes) where
  grade-Graded :
      (buf : AssetBuffer) (b : Backend R)
      → Graded
          (grade_tasks (passes re b.regexes b.assets asset buf) b.tasks (b.grades, false)).0
          b
          (grade re marshal accepts asset buf b)
  unfolding grade
  grade-Graded buf b =
      let r = grade_tasks (passes re b.regexes b.assets asset buf) b.tasks (b.grades, false) in
      Graded-cond marshal accepts r.1 r.0 b

  -- The grades behind a chunk whose ingestion gave `buf`.
  grades_on :
      (complete : Bool) (buf : AssetBuffer) (b : Backend R) (i : Bytes)
      → let b' = if complete then grade re marshal accepts asset buf b else b in
        (is_passed i b'.grades ≡ (
          is_passed i b.grades
          || (complete && any_of i (passes re b.regexes b.assets asset buf) b.tasks)))
        × (b'.assets ≡ b.assets)
        × (b'.tasks ≡ b.tasks)
        × (b'.regexes ≡ b.regexes)
  grades_on false buf b i = (ground arith, refl, refl, refl)
  grades_on true buf b i =
      let s = grade-Graded buf b in
      (
        ap (is_passed i) s.grades
            ∙ grade_tasks_lem (passes re b.regexes b.assets asset buf) b.tasks (b.grades, false) i,
        s.assets,
        s.tasks,
        s.regexes,
      )

  -- The grades, the buffers, the tasks and the patterns behind a chunk.
  pub ingest_chunk_lem :
      (chunk : Bytes) (b : Backend R) (i : Bytes)
      → let (buf, complete) = ingest (Dict.get_or asset empty_buffer b.assets) chunk in
        let assets = Dict.insert asset buf b.assets in
        let b' = ingest_chunk re marshal accepts asset chunk b in
        (is_passed i b'.grades ≡ (
          is_passed i b.grades
          || (complete && any_of i (passes re b.regexes assets asset buf) b.tasks)))
        × (b'.assets ≡ assets)
        × (b'.tasks ≡ b.tasks)
        × (b'.regexes ≡ b.regexes)
  unfolding ingest_chunk
  ingest_chunk_lem chunk b i =
      let r = ingest (Dict.get_or asset empty_buffer b.assets) chunk in
      grades_on r.1 r.0 (record b { assets = Dict.insert asset r.0 b.assets }) i

  any_of_iff :
      (assets : Dict Bytes AssetBuffer) (buf : AssetBuffer) (b : Backend R) (i : Bytes)
      → (any_of i (passes re b.regexes assets asset buf) b.tasks ≡ true)
        ↔ Any (λ t. (t.id ≡ i) × Passes re b.regexes assets asset buf t) b.tasks
  any_of_iff assets buf b i =
      any_iff (λ t. t.id == i && passes re b.regexes assets asset buf t)
        (λ t. (t.id ≡ i) × Passes re b.regexes assets asset buf t)
        (λ t.
          let (to, from) = passes_iff re b.regexes assets asset buf t in
          (
            (λ e. ((ground (arith, e, bytes_beq_iff t.id i)), to (ground (arith, e)))),
            (λ (e, h). ground (arith, e, from h, bytes_beq_iff t.id i)),
          ))
        b.tasks

  ors_iff :
      (p g c a : Bool) (X : Type 0)
      → p ≡ (g || (c && a))
      → (a ≡ true) ↔ X
      → (p ≡ true) ↔ ((g ≡ true) ⊎ ((c ≡ true) × X))
  ors_iff p true c a X e (to, from) = ((λ h. inl refl), (λ s. ground (arith, e)))
  ors_iff p false true a X e (to, from) = (
    (λ h. inr (refl, to (ground (arith, e, h)))),
    (λ s. elim s [ inl h ↦ absurd cc | inr (h, x) ↦ ground (arith, e, from x) ]),
  )
  ors_iff p false false a X e (to, from) = (
    (λ h. absurd (ground (arith, e, h))),
    (λ s. elim s [ inl h ↦ absurd cc | inr (h, x) ↦ absurd cc ]),
  )

  -- A chunk passes a task exactly if it was passed before, or the chunk completes a line and there is
  -- a task with that ID whose pattern compiled and matches recent lines: those of the chunk's asset
  -- where the task names that asset, or those of some asset where the task names none. Of the
  -- buffers, only that of the chunk's asset changes, and the tasks and their patterns stay.
  pub ingest_chunk_iff :
      (chunk : Bytes) (b : Backend R) (i : Bytes)
      → let (buf, complete) = ingest (Dict.get_or asset empty_buffer b.assets) chunk in
        let assets = Dict.insert asset buf b.assets in
        let b' = ingest_chunk re marshal accepts asset chunk b in
        ((is_passed i b'.grades ≡ true) ↔ (
          (is_passed i b.grades ≡ true)
          ⊎ ((complete ≡ true)
              × Any (λ t. (t.id ≡ i) × Passes re b.regexes assets asset buf t) b.tasks)))
        × (b'.assets ≡ assets)
        × (b'.tasks ≡ b.tasks)
        × (b'.regexes ≡ b.regexes)
  ingest_chunk_iff chunk b i =
      let r = ingest (Dict.get_or asset empty_buffer b.assets) chunk in
      let assets = Dict.insert asset r.0 b.assets in
      let (graded, assets_are, tasks_are, regexes_are) = ingest_chunk_lem chunk b i in
      (ors_iff _ _ _ _ _ graded (any_of_iff assets r.0 b i), assets_are, tasks_are, regexes_are)
