-- ===== src/Operator/Action.antt =====
-- A method of the reconciler: it calls the Kubernetes API, and stops at the first error. What a
-- call changed stays changed.
use rootenv.Common.{Option, none, some}
use rootenv.Operator.Cluster.{Write, done, already_exists}

-- `missing_image` is an unset image variable, `unresolved_image` an unreadable image file,
-- `no_endpoint` an unready API server, `panicked` a panic; `call_failed` is any other error.
pub data Error : Type 0 where
  call_failed missing_image unresolved_image no_endpoint panicked : Error

pub data Result (A : Type 0) : Type 0 where
  ok : A → Result A
  err : Error → Result A

abbrev pub Action : Type 0 → Type 0 → Type 0
Action S A = S → Result A × S

-- `client.IgnoreAlreadyExists`, or no such exception
abbrev pub written : Write → Result Unit
written done = ok tt
written _ = err call_failed

abbrev pub written_or_present : Write → Result Unit
written_or_present already_exists = ok tt
written_or_present w = written w

abbrev pub or_error : {A : Type 0} → Option A → Error → Result A
or_error none e = err e
or_error (some a) _ = ok a

module _ {S A : Type 0} where
  abbrev pub pure : A → Action S A
  pure a s = (ok a, s)

  abbrev pub give : Result A → Action S A
  give r s = (r, s)

module _ {S : Type 0} where
  -- A call, and what its answer means.
  abbrev pub call : {A B : Type 0} → (A → Result B) → (S → A × S) → Action S B
  call f m s = let (a, s') = m s in (f a, s')

  abbrev pub next : {A B : Type 0} → (A → Action S B) → Result A → Action S B
  next f (ok a) s = f a s
  next f (err e) s = (err e, s)

  infixl 5 ◌>>=◌ ◌>>◌
  abbrev pub ◌>>=◌ : {A B : Type 0} → Action S A → (A → Action S B) → Action S B
  ◌>>=◌ m f s = let (r, s') = m s in next f r s'

  abbrev pub ◌>>◌ : {A B : Type 0} → Action S A → Action S B → Action S B
  m >> k = m >>= λ _. k
