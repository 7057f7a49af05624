-- ===== src/Relay/Grader/Backend/Told.antt =====
-- What the grader's clients are told (services/relay/grader/backend.go).
use rootenv.Common.Dict
use rootenv.Common.Dict.{Dict, get_or-insert}
use rootenv.Common.{
  ℕ, ◌≡◌, refl, sym, subst, Bool, true, false, Option, none, some, Option-cases, inl, inr, List, [],
  ◌∷◌, ◌++◌, map, Bytes, bytes_eq, nat_eq, if◌then◌else◌, arith,
}
use rootenv.Relay.Grader.Backend.Grades.{
  is_passed, ingest_chunk_lem, grade_tasks_lem, broadcast_locked-Graded,
}
use rootenv.Relay.Grader.Backend.Sessions.{
  Event, chunk, join, snapshot, leave, System, step, run, initial, write_snapshot-same,
}
use rootenv.Relay.Grader.Backend.{
  Regexp, Backend, new_backend, grades_locked, broadcast_locked, grade, grade_tasks, passes,
  ingest_chunk, register, deregister, write_snapshot,
}
use rootenv.Relay.Grader.Lines.{AssetBuffer, empty_buffer, ingest}
use rootenv.Relay.Grader.Tasks.{Task}
use rootenv.Relay.Grader.Backend.Texts.{
  IsTrue, AllTrue, AnyTrue, AllTrue-Grows, AllTrue-append, AllTrue-map, AllTrue-insert,
  AllTrue-erase, lookup-AnyTrue, marshalled-AnyTrue,
}

module _ {R : Type 0} (re : Regexp R) (marshal : Dict Bytes Bool → Option Bytes) where
  -- What has been sent and what is still to be sent.
  abbrev TellsTrue : System R → Type 0
  TellsTrue s =
      AllTrue marshal s.backend.grades s.backend.sent × AllTrue marshal s.backend.grades s.pending

  broadcast-AllTrue :
      (accepts : ℕ → Bool) (b : Backend R)
      → AllTrue marshal b.grades b.sent
      → AllTrue marshal b.grades (broadcast_locked marshal accepts b).sent
  unfolding broadcast_locked
  broadcast-AllTrue accepts b h = go (marshal (grades_locked b)) refl (marshalled-AnyTrue marshal b)
    where
      go :
          (o : Option Bytes)
          → marshal (grades_locked b) ≡ o
          → AnyTrue marshal b.grades o
          → AllTrue marshal b.grades (broadcast_locked marshal accepts b).sent
      go none e t = rw (e, broadcast_locked) h
      go (some p) e t =
          rw (e, broadcast_locked)
            (AllTrue-append marshal b.grades b.sent (map (λ c. (c, p)) b.clients) h
              (AllTrue-map marshal b.grades p b.clients t))

  -- A backend that has sent only what is true of its own grades.
  abbrev IsHonest : Backend R → Type 0
  IsHonest b = AllTrue marshal b.grades b.sent

  cond-IsHonest :
      (accepts : ℕ → Bool) (changed : Bool) (g : Dict Bytes Bool) (b : Backend R)
      → AllTrue marshal g b.sent
      → IsHonest (
          if changed
          then broadcast_locked marshal accepts (record b { grades = g })
          else record b { grades = g })
  cond-IsHonest accepts true g b h =
      let graded = record b { grades = g } in
      subst (λ k. AllTrue marshal k (broadcast_locked marshal accepts graded).sent)
        (sym (broadcast_locked-Graded marshal accepts graded).grades)
        (broadcast-AllTrue accepts graded h)
  cond-IsHonest accepts false g b h = h

  grade-IsHonest :
      (accepts : ℕ → Bool) (asset : Bytes) (buf : AssetBuffer) (b : Backend R)
      → IsHonest b
      → IsHonest (grade re marshal accepts asset buf b)
  unfolding grade
  grade-IsHonest accepts asset buf b h =
      let p = passes re b.regexes b.assets asset buf in
      let r = grade_tasks p b.tasks (b.grades, false) in
      cond-IsHonest accepts r.1 r.0 b (
        AllTrue-Grows marshal b.grades r.0 b.sent
          (λ i past. ground (arith, past, grade_tasks_lem p b.tasks (b.grades, false) i)) h)

  complete-IsHonest :
      (accepts : ℕ → Bool) (asset : Bytes) (buf : AssetBuffer) (complete : Bool) (b : Backend R)
      → IsHonest b
      → IsHonest (if complete then grade re marshal accepts asset buf b else b)
  complete-IsHonest accepts asset buf true b h = grade-IsHonest accepts asset buf b h
  complete-IsHonest accepts asset buf false b h = h

  ingest_chunk-IsHonest :
      (accepts : ℕ → Bool) (asset data' : Bytes) (b : Backend R)
      → IsHonest b
      → IsHonest (ingest_chunk re marshal accepts asset data' b)
  unfolding ingest_chunk
  ingest_chunk-IsHonest accepts asset data' b h =
      let r = ingest (Dict.get_or asset empty_buffer b.assets) data' in
      complete-IsHonest accepts asset r.0 r.1 (record b { assets = Dict.insert asset r.0 b.assets })
        h

  ingest_chunk-Grows :
      (accepts : ℕ → Bool) (asset data' : Bytes) (b : Backend R) (i : Bytes)
      → is_passed i b.grades ≡ true
      → is_passed i (ingest_chunk re marshal accepts asset data' b).grades ≡ true
  ingest_chunk-Grows accepts asset data' b i past =
      ground (arith, past, ingest_chunk_lem re marshal accepts asset data' b i)

  write_snapshot-IsHonest :
      (accepts : ℕ → Bool) (conn : ℕ) (p : Bytes) (b : Backend R)
      → IsHonest b
      → IsTrue marshal b.grades p
      → IsHonest (write_snapshot accepts conn p b)
  unfolding write_snapshot deregister
  write_snapshot-IsHonest accepts conn p b h t = go (accepts conn)
    where
      sent' : AllTrue marshal b.grades (b.sent ++ (conn, p) ∷ [])
      sent' = AllTrue-append marshal b.grades b.sent ((conn, p) ∷ []) h (t, tt)

      written : Backend R
      written = record b { sent = b.sent ++ (conn, p) ∷ [] }

      go : (ok : Bool) → IsHonest (if ok then written else deregister conn written)
      go true = sent'
      go false = sent'

  step-TellsTrue : (s : System R) (e : Event) → TellsTrue s → TellsTrue (step re marshal s e)
  unfolding step register deregister
  step-TellsTrue s (chunk asset data' accepts) (sent, pending) = (
    ingest_chunk-IsHonest accepts asset data' s.backend sent,
    AllTrue-Grows marshal s.backend.grades
        (ingest_chunk re marshal accepts asset data' s.backend).grades s.pending
        (ingest_chunk-Grows accepts asset data' s.backend) pending,
  )
  step-TellsTrue s (join conn) (sent, pending) =
      (sent, go (marshal (grades_locked s.backend)) (marshalled-AnyTrue marshal s.backend))
    where
      go :
          (o : Option Bytes)
          → AnyTrue marshal s.backend.grades o
          → AllTrue marshal s.backend.grades
              (elim o [ none ↦ s.pending | some p ↦ Dict.insert conn p s.pending ])
      go none t = pending
      go (some p) t = AllTrue-insert marshal s.backend.grades conn p s.pending t pending
  step-TellsTrue s (snapshot conn accepts) (sent, pending) =
      elim (Option-cases (Dict.lookup conn s.pending)) [
        | inl e ↦ rw (e, step) (sent, pending)
        | inr (p, e) ↦
            let told =
              subst (AnyTrue marshal s.backend.grades) e
                (lookup-AnyTrue marshal s.backend.grades conn s.pending pending) in
            rw (e, step)
              (
                write_snapshot-IsHonest accepts conn p s.backend sent told,
                subst (λ g. AllTrue marshal g (Dict.erase conn s.pending))
                    (sym (write_snapshot-same re marshal accepts conn p s.backend).0)
                    (AllTrue-erase marshal s.backend.grades conn s.pending pending),
              )
      ]
  step-TellsTrue s (leave conn) (sent, pending) = (sent, pending)

  run-TellsTrue : (s : System R) (es : List Event) → TellsTrue s → TellsTrue (run re marshal s es)
  unfolding run
  run-TellsTrue s [] h = h
  run-TellsTrue s (e ∷ es) h = run-TellsTrue (step re marshal s e) es (step-TellsTrue s e h)

  -- Whatever chunks come in and whoever comes and goes, all that clients have been sent so far is the
  -- text of grades that pass no task but those that have passed by now.
  pub initial-AllTrue :
      (tasks : List Task) (es : List Event)
      → let b = (run re marshal (initial re marshal tasks) es).backend in
        AllTrue marshal b.grades b.sent
  unfolding initial new_backend
  initial-AllTrue tasks es = (run-TellsTrue (initial re marshal tasks) es (tt, tt)).0
