-- ===== src/Operator/Ensure/Makes.antt =====
-- What the objects of some keys come to: they are made, and no other changes.
use rootenv.Common.{
  ◌≡◌, ◌≢◌, sym, subst, ◌⊎◌, inl, inr, none, List, [], ◌∷◌, ◌++◌, arith, ◌==◌, Bool-cases,
  eq_of_beq, ne_of_beq,
}
use rootenv.Operator.Action.{Result, ok, written, written_or_present}
use rootenv.Operator.Cluster.{View, Creates, Sets, Same, SameBut, Write, done, already_exists}
use rootenv.Operator.Kube.{Kind, Key, Object, key_of, kind_of, key_eq}

abbrev pub IsIn : Key → List Key → Type 0
IsIn k [] = ⊥
IsIn k (j ∷ ks) = (k ≡ j) ⊎ IsIn k ks

-- Every object stays as it was, but for those of the keys, which come to be; where there was one,
-- only a network policy may change.
abbrev pub Makes : List Key → View → View → Type 0
Makes ks v v' =
    (k : Key)
    → (v' k ≡ v k) ⊎ (IsIn k ks × (v' k ≢ none) × ((v k ≡ none) ⊎ (k.kind ≡ Kind.network_policy)))

abbrev pub AllThere : List Key → View → Type 0
AllThere ks v = (k : Key) → IsIn k ks → v k ≢ none

pub IsIn-left : (k : Key) (ks js : List Key) → IsIn k ks → IsIn k (ks ++ js)
IsIn-left k [] js h = elim h [ ]
IsIn-left k (i ∷ ks) js (inl e) = inl e
IsIn-left k (i ∷ ks) js (inr h) = inr (IsIn-left k ks js h)

pub IsIn-right : (k : Key) (ks js : List Key) → IsIn k js → IsIn k (ks ++ js)
IsIn-right k [] js h = h
IsIn-right k (i ∷ ks) js h = inr (IsIn-right k ks js h)

pub IsIn-cases : (k : Key) (ks js : List Key) → IsIn k (ks ++ js) → IsIn k ks ⊎ IsIn k js
IsIn-cases k [] js h = inr h
IsIn-cases k (i ∷ ks) js (inl e) = inl (inl e)
IsIn-cases k (i ∷ ks) js (inr h) = elim (IsIn-cases k ks js h) [
  | inl a ↦ inl (inr a)
  | inr b ↦ inr b
]

pub Makes-Same : (ks : List Key) (v v' : View) → Same v v' → Makes ks v v'
Makes-Same ks v v' same k = inl (same k)

pub Makes-trans :
    (ks js : List Key) (u v w : View) → Makes ks u v → Makes js v w → Makes (ks ++ js) u w
Makes-trans ks js u v w first second k =
    ground (arith, first k, second k, IsIn-left k ks js, IsIn-right k ks js)

pub Makes-keeps : (ks : List Key) (v v' : View) (k : Key) → Makes ks v v' → v k ≢ none → v' k ≢ none
Makes-keeps ks v v' k makes h = ground (arith, makes k)

-- A change of one object alone: it comes to be, or stays as it was.
pub at_one :
    (i : Key) (v v' : View)
    → SameBut i v v'
    → (v' i ≡ v i) ⊎ ((v' i ≢ none) × ((v i ≡ none) ⊎ (i.kind ≡ Kind.network_policy)))
    → Makes (i ∷ []) v v'
at_one i v v' same h k = elim (Bool-cases (k == i)) [
  | inl e ↦
      subst
        (λ x.
          (v' x ≡ v x)
          ⊎ (IsIn x (i ∷ []) × (v' x ≢ none) × ((v x ≡ none) ⊎ (x.kind ≡ Kind.network_policy))))
        (sym (eq_of_beq k i e)) (ground (arith, h))
  | inr e ↦ inl (same k (ne_of_beq k i e))
]

-- After an answer that is taken for success, the object is there.
abbrev pub IsMaking : (Write → Result Unit) → Type 0
IsMaking f = (w : Write) → f w ≡ ok tt → (w ≡ done) ⊎ (w ≡ already_exists)

pub written-IsMaking : IsMaking written
written-IsMaking w h = ground arith

pub written_or_present-IsMaking : IsMaking written_or_present
written_or_present-IsMaking w h = ground arith

pub Creates-one :
    (o : Object) (w : Write) (v v' : View)
    → Creates o w v v'
    → (v' (key_of o) ≡ v (key_of o))
      ⊎ ((v' (key_of o) ≢ none)
          × ((v (key_of o) ≡ none) ⊎ (kind_of o.content ≡ Kind.network_policy)))
Creates-one o w v v' h = ground (arith, h)

pub Creates-there :
    (o : Object) (w : Write) (v v' : View)
    → Creates o w v v'
    → (w ≡ done) ⊎ (w ≡ already_exists)
    → v' (key_of o) ≢ none
Creates-there o w v v' h e = ground (arith, h)

pub Sets-one :
    (o : Object) (w : Write) (v v' : View)
    → Sets o w v v'
    → kind_of o.content ≡ Kind.network_policy
    → (v' (key_of o) ≡ v (key_of o))
      ⊎ ((v' (key_of o) ≢ none)
          × ((v (key_of o) ≡ none) ⊎ (kind_of o.content ≡ Kind.network_policy)))
Sets-one o w v v' h e = ground (arith, h, e)

pub Sets-there :
    (o : Object) (w : Write) (v v' : View)
    → Sets o w v v'
    → written w ≡ ok tt
    → v' (key_of o) ≢ none
Sets-there o w v v' h e = ground (arith, h)
