-- ===== src/Relay/Grader/Backend/Texts.antt =====
-- Texts of grades that the grader may send to its clients (services/relay/grader/backend.go).
use rootenv.Common.Dict
use rootenv.Common.Dict.{Dict, get_or-insert}
use rootenv.Common.{
  ℕ, ◌≡◌, refl, Bool, true, false, Option, none, some, inl, inr, ◌⊎◌, List, [], ◌∷◌, ◌++◌, map,
  Bytes, bytes_eq, bytes_beq_iff, nat_eq, ◌==◌, if◌then◌else◌, arith,
}
use rootenv.Relay.Grader.Backend.Grades.{is_passed}
use rootenv.Relay.Grader.Backend.{Backend, report, grades_locked}
use rootenv.Relay.Grader.Tasks.{Task}

report-passed :
    (ts : List Task) (g out : Dict Bytes Bool) (i : Bytes)
    → is_passed i (report ts g out) ≡ true
    → (is_passed i g ≡ true) ⊎ (is_passed i out ≡ true)
unfolding report
report-passed [] g out i h = inr h
report-passed (t ∷ ts) g out i h = ground (
  arith,
  report-passed ts g (Dict.insert t.id (Dict.get_or t.id false g) out) i h,
  get_or-insert i t.id false (Dict.get_or t.id false g) out,
  bytes_beq_iff t.id i,
)

report-past :
    (ts : List Task) (g : Dict Bytes Bool) (i : Bytes)
    → is_passed i (report ts g []) ≡ true
    → is_passed i g ≡ true
unfolding Dict.get_or
report-past ts g i h = elim (report-passed ts g [] i h) [ inl past ↦ past | inr e ↦ cc ]

module _ (marshal : Dict Bytes Bool → Option Bytes) where
  -- The text of grades that pass no task but those that have passed.
  abbrev pub IsTrue : Dict Bytes Bool → Bytes → Type 0
  IsTrue grades p =
      (out : Dict Bytes Bool) × (marshal out ≡ some p)
      × ((i : Bytes) → is_passed i out ≡ true → is_passed i grades ≡ true)

  -- Of texts with the client of each.
  abbrev pub AllTrue : Dict Bytes Bool → List (ℕ × Bytes) → Type 0
  AllTrue grades [] = Unit
  AllTrue grades ((conn, p) ∷ sent) = IsTrue grades p × AllTrue grades sent

  abbrev pub Grows : Dict Bytes Bool → Dict Bytes Bool → Type 0
  Grows g g' = (i : Bytes) → is_passed i g ≡ true → is_passed i g' ≡ true

  IsTrue-Grows : (g g' : Dict Bytes Bool) (p : Bytes) → Grows g g' → IsTrue g p → IsTrue g' p
  IsTrue-Grows g g' p grows (out, is, past) = (out, is, λ i h. grows i (past i h))

  pub AllTrue-Grows :
      (g g' : Dict Bytes Bool) (sent : List (ℕ × Bytes))
      → Grows g g'
      → AllTrue g sent
      → AllTrue g' sent
  AllTrue-Grows g g' [] grows h = tt
  AllTrue-Grows g g' ((conn, p) ∷ sent) grows (t, h) =
      (IsTrue-Grows g g' p grows t, AllTrue-Grows g g' sent grows h)

  pub AllTrue-append :
      (g : Dict Bytes Bool) (a b : List (ℕ × Bytes))
      → AllTrue g a
      → AllTrue g b
      → AllTrue g (a ++ b)
  AllTrue-append g [] b h k = k
  AllTrue-append g ((conn, p) ∷ a) b (t, h) k = (t, AllTrue-append g a b h k)

  pub AllTrue-map :
      (g : Dict Bytes Bool) (p : Bytes) (clients : List ℕ)
      → IsTrue g p
      → AllTrue g (map (λ c. (c, p)) clients)
  AllTrue-map g p [] t = tt
  AllTrue-map g p (c ∷ clients) t = (t, AllTrue-map g p clients t)

  AllTrue-if :
      (g : Dict Bytes Bool) (b : Bool) (xs ys : List (ℕ × Bytes))
      → AllTrue g xs
      → AllTrue g ys
      → AllTrue g (if b then xs else ys)
  AllTrue-if g true xs ys h k = h
  AllTrue-if g false xs ys h k = k

  pub AllTrue-insert :
      (g : Dict Bytes Bool) (conn : ℕ) (p : Bytes) (d : List (ℕ × Bytes))
      → IsTrue g p
      → AllTrue g d
      → AllTrue g (Dict.insert conn p d)
  unfolding Dict.insert
  AllTrue-insert g conn p [] t h = (t, tt)
  AllTrue-insert g conn p ((j, q) ∷ d) t (u, h) =
      AllTrue-if g (j == conn) ((conn, p) ∷ d) ((j, q) ∷ Dict.insert conn p d) (t, h)
        (u, AllTrue-insert g conn p d t h)

  pub AllTrue-erase :
      (g : Dict Bytes Bool) (conn : ℕ) (d : List (ℕ × Bytes))
      → AllTrue g d
      → AllTrue g (Dict.erase conn d)
  unfolding Dict.erase
  AllTrue-erase g conn [] h = tt
  AllTrue-erase g conn ((j, q) ∷ d) (u, h) =
      let rest = AllTrue-erase g conn d h in
      AllTrue-if g (j == conn) (Dict.erase conn d) ((j, q) ∷ Dict.erase conn d) rest (u, rest)

  abbrev pub AnyTrue : Dict Bytes Bool → Option Bytes → Type 0
  AnyTrue g none = Unit
  AnyTrue g (some p) = IsTrue g p

  AnyTrue-if :
      (g : Dict Bytes Bool) (b : Bool) (x y : Option Bytes)
      → AnyTrue g x
      → AnyTrue g y
      → AnyTrue g (if b then x else y)
  AnyTrue-if g true x y h k = h
  AnyTrue-if g false x y h k = k

  pub lookup-AnyTrue :
      (g : Dict Bytes Bool) (conn : ℕ) (d : List (ℕ × Bytes))
      → AllTrue g d
      → AnyTrue g (Dict.lookup conn d)
  unfolding Dict.lookup
  lookup-AnyTrue g conn [] h = tt
  lookup-AnyTrue g conn ((j, q) ∷ d) (u, h) =
      AnyTrue-if g (j == conn) (some q) (Dict.lookup conn d) u (lookup-AnyTrue g conn d h)

  -- The text of the grades as they are.
  pub marshalled-AnyTrue :
      {R : Type 0} (b : Backend R) → AnyTrue b.grades (marshal (grades_locked b))
  unfolding grades_locked
  marshalled-AnyTrue b = go (marshal (report b.tasks b.grades [])) refl
    where
      go : (o : Option Bytes) → marshal (report b.tasks b.grades []) ≡ o → AnyTrue b.grades o
      go none e = tt
      go (some p) e = (report b.tasks b.grades [], e, λ i h. report-past b.tasks b.grades i h)
