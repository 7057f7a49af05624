-- ===== src/Relay/Grader/Backend/Sessions.antt =====
-- The backend as its goroutines use it: chunks come in, clients come and go. `Serve` writes its
-- snapshot outside of the lock, as a step of its own.
use rootenv.Common.Dict
use rootenv.Common.Dict.{Dict, get_or-insert}
use rootenv.Common.{
  ℕ, ◌≡◌, refl, ap, sym, ◌∙◌, Bool, true, Option-cases, inl, inr, Option, none, some, List, [], ◌∷◌,
  ◌++◌, Bytes, bytes_eq, bytes_beq_iff, nat_eq, ◌==◌, if◌then◌else◌, arith,
}
use rootenv.Relay.Grader.Lines.{AssetBuffer, empty_buffer, ingest, ingest_all}
use rootenv.Relay.Grader.Tasks.{Task}
use rootenv.Relay.Grader.Backend.Grades.{is_passed, ingest_chunk_lem}
use rootenv.Relay.Grader.Backend.{
  Regexp, Backend, new_backend, ingest_chunk, register, deregister, write_snapshot,
}

pub data Event : Type 0 where
  -- a chunk of an asset, and the clients that a write reaches
  chunk : Bytes → Bytes → (ℕ → Bool) → Event
  join : ℕ → Event
  snapshot : ℕ → (ℕ → Bool) → Event
  leave : ℕ → Event

-- `pending` holds the payloads that `Serve` has still to write.
pub record System (R : Type 0) : Type 0 where
  pub backend : Backend R
  pub pending : Dict ℕ Bytes

module _ {R : Type 0} (re : Regexp R) (marshal : Dict Bytes Bool → Option Bytes) where
  unfoldable pub step : System R → Event → System R
  step s (chunk asset data' accepts) = record s {
    backend = ingest_chunk re marshal accepts asset data' s.backend;
  }
  step s (join conn) =
      let (b, payload) = register marshal conn s.backend in
      record {
        backend = b;
        pending = elim payload [ none ↦ s.pending | some p ↦ Dict.insert conn p s.pending ];
      }
  step s (snapshot conn accepts) = elim (Dict.lookup conn s.pending) [
    | none ↦ s
    | some p ↦ record {
      backend = write_snapshot accepts conn p s.backend;
      pending = Dict.erase conn s.pending;
    }
  ]
  step s (leave conn) = record s { backend = deregister conn s.backend }

  unfoldable pub run : System R → List Event → System R
  run s [] = s
  run s (e ∷ es) = run (step s e) es

  unfoldable pub initial : List Task → System R
  initial tasks = record { backend = new_backend re tasks; pending = [] }

-- The chunks of one asset, in their order.
unfoldable pub chunks_of : Bytes → List Event → List Bytes
chunks_of a [] = []
chunks_of a (chunk asset data' accepts ∷ es) =
    let rest = chunks_of a es in if asset == a then data' ∷ rest else rest
chunks_of a (join conn ∷ es) = chunks_of a es
chunks_of a (snapshot conn accepts ∷ es) = chunks_of a es
chunks_of a (leave conn ∷ es) = chunks_of a es

abbrev pub buffer_of : {R : Type 0} → Bytes → System R → AssetBuffer
buffer_of a s = Dict.get_or a empty_buffer s.backend.assets

chunks_of-cons :
    (a : Bytes) (e : Event) (es : List Event)
    → chunks_of a (e ∷ es) ≡ chunks_of a (e ∷ []) ++ chunks_of a es
unfolding chunks_of
chunks_of-cons a (chunk asset data' accepts) es = ground arith
chunks_of-cons a (join conn) es = refl
chunks_of-cons a (snapshot conn accepts) es = refl
chunks_of-cons a (leave conn) es = refl

ingest_all-append :
    (b : AssetBuffer) (cs ds : List Bytes)
    → ingest_all b (cs ++ ds) ≡ ingest_all (ingest_all b cs) ds
unfolding ingest_all
ingest_all-append b [] ds = refl
ingest_all-append b (c ∷ cs) ds = ingest_all-append (ingest b c).0 cs ds

module _ {R : Type 0} (re : Regexp R) (marshal : Dict Bytes Bool → Option Bytes) where
  pub write_snapshot-same :
      (accepts : ℕ → Bool) (conn : ℕ) (p : Bytes) (b : Backend R)
      → let b' = write_snapshot accepts conn p b in
        (b'.grades ≡ b.grades) × (b'.assets ≡ b.assets) × (b'.tasks ≡ b.tasks)
  unfolding write_snapshot deregister
  write_snapshot-same accepts conn p b = ground arith

  snapshot-same :
      (s : System R) (conn : ℕ) (accepts : ℕ → Bool)
      → let b' = (step re marshal s (snapshot conn accepts)).backend in
        (b'.grades ≡ s.backend.grades)
        × (b'.assets ≡ s.backend.assets)
        × (b'.tasks ≡ s.backend.tasks)
  unfolding step
  snapshot-same s conn accepts = elim (Option-cases (Dict.lookup conn s.pending)) [
    | inl e ↦ rw (e, step) (refl, refl, refl)
    | inr (p, e) ↦ rw (e, step) (write_snapshot-same accepts conn p s.backend)
  ]

  step-buffer :
      (s : System R) (e : Event) (a : Bytes)
      → buffer_of a (step re marshal s e) ≡ ingest_all (buffer_of a s) (chunks_of a (e ∷ []))
  unfolding step chunks_of ingest_all register deregister
  step-buffer s (chunk asset data' accepts) a = ground (
    arith,
    ingest_chunk_lem re marshal accepts asset data' s.backend a,
    bytes_beq_iff asset a,
    get_or-insert a asset empty_buffer (ingest (buffer_of asset s) data').0 s.backend.assets,
  )
  step-buffer s (join conn) a = refl
  step-buffer s (snapshot conn accepts) a =
      ap (Dict.get_or a empty_buffer) (snapshot-same s conn accepts).1
  step-buffer s (leave conn) a = refl

  run-buffer :
      (s : System R) (es : List Event) (a : Bytes)
      → buffer_of a (run re marshal s es) ≡ ingest_all (buffer_of a s) (chunks_of a es)
  unfolding run chunks_of ingest_all
  run-buffer s [] a = refl
  run-buffer s (e ∷ es) a =
      run-buffer (step re marshal s e) es a
      ∙ ap (λ b. ingest_all b (chunks_of a es)) (step-buffer s e a)
      ∙ sym (ingest_all-append (buffer_of a s) (chunks_of a (e ∷ [])) (chunks_of a es))
      ∙ ap (ingest_all (buffer_of a s)) (sym (chunks_of-cons a e es))

  step-sticky :
      (s : System R) (e : Event) (i : Bytes)
      → is_passed i s.backend.grades ≡ true
      → is_passed i (step re marshal s e).backend.grades ≡ true
  unfolding step register deregister
  step-sticky s (chunk asset data' accepts) i h =
      ground (arith, ingest_chunk_lem re marshal accepts asset data' s.backend i)
  step-sticky s (join conn) i h = h
  step-sticky s (snapshot conn accepts) i h = ap (is_passed i) (snapshot-same s conn accepts).0 ∙ h
  step-sticky s (leave conn) i h = h

  -- A passed task stays passed, whatever comes in and whoever comes and goes.
  pub run-sticky :
      (s : System R) (es : List Event) (i : Bytes)
      → is_passed i s.backend.grades ≡ true
      → is_passed i (run re marshal s es).backend.grades ≡ true
  unfolding run
  run-sticky s [] i h = h
  run-sticky s (e ∷ es) i h = run-sticky (step re marshal s e) es i (step-sticky s e i h)

  -- Whatever else happens in between, the lines kept of an asset are those that its own chunks
  -- give, one after the other.
  pub initial-buffer :
      (tasks : List Task) (es : List Event) (a : Bytes)
      → buffer_of a (run re marshal (initial re marshal tasks) es)
        ≡ ingest_all empty_buffer (chunks_of a es)
  unfolding initial new_backend Dict.get_or
  initial-buffer tasks es a = run-buffer (initial re marshal tasks) es a
