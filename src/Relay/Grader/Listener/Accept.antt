-- ===== src/Relay/Grader/Listener/Accept.antt =====
-- services/relay/grader/listener.go: `ServeInternalListener`, the loop that accepts the forwarders.
use rootenv.Common.{◌≡◌, refl, ap, Bool, true, false, List, [], ◌∷◌, ◌++◌, map}

-- What `Accept` gives: a connection, or an error, with the context cancelled or not. The listener is
-- closed when the context is cancelled.
pub data Accepted (C : Type 0) : Type 0 where
  connection : C → Accepted C
  accept_fails : Bool → Accepted C

-- `listening`, or returned without an error, or with one.
pub data Outcome : Type 0 where
  listening returned_nil returned_error : Outcome

abbrev pub outcome_of : Bool → Outcome
outcome_of true = returned_nil
outcome_of false = returned_error

module _ {C : Type 0} where
  -- The connections that are handled, each in a goroutine of its own, and how the loop ends.
  unfoldable pub serve_internal_listener : List (Accepted C) → List C × Outcome
  serve_internal_listener [] = ([], listening)
  serve_internal_listener (connection conn ∷ rest) =
      let (handled, o) = serve_internal_listener rest in (conn ∷ handled, o)
  serve_internal_listener (accept_fails true ∷ rest) = ([], returned_nil)
  serve_internal_listener (accept_fails false ∷ rest) = ([], returned_error)

  -- Every connection before the first error is handled, and none behind it: the loop returns at that,
  -- with the error unless the context is cancelled.
  pub serve_internal_listener-until :
      (before : List C) (cancelled : Bool) (after : List (Accepted C))
      → serve_internal_listener (map connection before ++ accept_fails cancelled ∷ after)
        ≡ (before, outcome_of cancelled)
  unfolding serve_internal_listener
  serve_internal_listener-until [] true after = refl
  serve_internal_listener-until [] false after = refl
  serve_internal_listener-until (conn ∷ before) cancelled after =
      ap (λ (r : List C × Outcome). (conn ∷ r.0, r.1))
        (serve_internal_listener-until before cancelled after)
