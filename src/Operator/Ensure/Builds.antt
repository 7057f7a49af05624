-- ===== src/Operator/Ensure/Builds.antt =====
-- What a method makes: the keys of the objects that are there after it, and that it alone may
-- change. A rule for each way the methods are put together.
use mathlib.Core.List.{append-nil}
use rootenv.Common.{◌≡◌, ◌≢◌, refl, sym, subst, inl, inr, none, List, [], ◌∷◌, ◌++◌, arith}
use rootenv.Operator.Action.{
  Result, ok, err, Action, next, pure, give, call, ◌>>=◌, ◌>>◌, written, written_or_present,
}
use rootenv.Operator.Cluster.{
  Cluster, IsLawful, View, Shows, Same, Read, found, not_found, read_failed, Write,
}
use rootenv.Operator.Ensure.{if_absent, unless_found, create_or_ignore, set, ensure}
use rootenv.Operator.Kube.{Kind, Key, Object, key_of, kind_of, key_eq}
use rootenv.Operator.Ensure.Makes.{
  Makes, AllThere, IsIn-left, IsIn-cases, Makes-Same, Makes-trans, Makes-keeps, at_one, IsMaking,
  written-IsMaking, written_or_present-IsMaking, Creates-one, Creates-there, Sets-one, Sets-there,
}

module _ (c : Cluster) (lawful : IsLawful c) where
  -- A method that changes no more than the objects of the keys, which are there after it where its
  -- result is one of those that count.
  pub record BuildsIf {A : Type 0} (P : A → Type 0) (m : Action c.State A) (ks : List Key)
      : Type 0 where
    pub makes : (s : c.State) → Makes ks (lawful.view s) (lawful.view (m s).1)
    pub there : (s : c.State) (a : A) → (m s).0 ≡ ok a → P a → AllThere ks (lawful.view (m s).1)

  abbrev pub Builds : {A : Type 0} → Action c.State A → List Key → Type 0
  Builds m ks = BuildsIf (λ _. Unit) m ks

  module _ {A B : Type 0} (P : B → Type 0) (f : A → Action c.State B) (ks js : List Key) where
    next-Makes :
        ((a : A) → BuildsIf P (f a) js)
        → (v : View) (r : Result A) (s : c.State) → Makes ks v (lawful.view s)
        → Makes (ks ++ js) v (lawful.view (next f r s).1)
    next-Makes h v (ok a) s makes k = Makes-trans ks js v _ _ makes ((h a).makes s) k
    next-Makes h v (err e) s makes k = ground (arith, makes k, IsIn-left k ks js)

    next-AllThere :
        ((a : A) → BuildsIf P (f a) js)
        → (r : Result A) (s : c.State) (b : B) → ((a : A) → r ≡ ok a → AllThere ks (lawful.view s))
        → (next f r s).0 ≡ ok b
        → P b
        → AllThere (ks ++ js) (lawful.view (next f r s).1)
    next-AllThere h (ok a) s b there e p k k_in = elim (IsIn-cases k ks js k_in) [
      | inl i ↦ Makes-keeps js _ _ k ((h a).makes s) (there a refl k i)
      | inr i ↦ (h a).there s b e p k i
    ]
    next-AllThere h (err x) s b there e p k k_in = absurd cc

    pub bind-BuildsIf :
        (m : Action c.State A)
        → Builds m ks
        → ((a : A) → BuildsIf P (f a) js)
        → BuildsIf P (m >>= f) (ks ++ js)
    bind-BuildsIf m first h = record {
      makes = λ s. next-Makes h (lawful.view s) (m s).0 (m s).1 (first.makes s);
      there = λ s b e. next-AllThere h (m s).0 (m s).1 b (λ a h'. first.there s a h' tt) e;
    }

  pub bind-Builds :
      {A B : Type 0} (f : A → Action c.State B) (ks js : List Key) (m : Action c.State A)
      → Builds m ks
      → ((a : A) → Builds (f a) js)
      → Builds (m >>= f) (ks ++ js)
  bind-Builds f ks js m first h = bind-BuildsIf (λ _. Unit) f ks js m first h

  pub then-Builds :
      {A B : Type 0} (m : Action c.State A) (m' : Action c.State B) (ks js : List Key)
      → Builds m ks
      → Builds m' js
      → Builds (m >> m') (ks ++ js)
  then-Builds m m' ks js first second = bind-Builds (λ _. m') ks js m first (λ _. second)

  pub Same-Builds :
      {A : Type 0} (m : Action c.State A)
      → ((s : c.State) → Same (lawful.view s) (lawful.view (m s).1))
      → Builds m []
  Same-Builds m same = record {
    makes = λ s. Makes-Same [] _ _ (same s);
    there = λ s a e p k h. elim h [ ];
  }

  pub give-Builds : {A : Type 0} (r : Result A) → Builds (give r) []
  give-Builds r = Same-Builds (give r) (λ s k. refl)

  pub result-Builds :
      {A B : Type 0} (f : A → B) (m : Action c.State A) (ks : List Key)
      → Builds m ks
      → Builds (m >>= λ a. pure (f a)) ks
  result-Builds f m ks h =
      subst (Builds (m >>= λ a. pure (f a))) (append-nil ks)
        (bind-Builds (λ a. pure (f a)) ks [] m h (λ a. give-Builds (ok (f a))))

  create-Builds :
      (f : Write → Result Unit) (o : Object)
      → IsMaking f
      → Builds (call f (c.create o)) (key_of o ∷ [])
  create-Builds f o making = record {
    makes = λ s.
        at_one (key_of o) _ _ (lawful.create_same o s)
          (Creates-one o _ _ _ (lawful.create_creates o s));
    there = λ s a e p k k_in. elim k_in [
      | inl i ↦
          subst (λ x. lawful.view (c.create o s).1 x ≢ none) (sym i)
            (Creates-there o _ _ _ (lawful.create_creates o s) (making _ e))
      | inr h ↦ elim h [ ]
    ];
  }

  pub set-Builds :
      (o : Object) → kind_of o.content ≡ Kind.network_policy → Builds (set c o) (key_of o ∷ [])
  unfolding set
  set-Builds o kind_is = record {
    makes = λ s.
        at_one (key_of o) _ _ (lawful.set_same o s)
          (Sets-one o _ _ _ (lawful.set_sets o s) kind_is);
    there = λ s a e p k k_in. elim k_in [
      | inl i ↦
          subst (λ x. lawful.view (c.create_or_update o s).1 x ≢ none) (sym i)
            (Sets-there o _ _ _ (lawful.set_sets o s) e)
      | inr h ↦ elim h [ ]
    ];
  }

  module _ (k : Key) (m : Action c.State Unit) (h : Builds m (k ∷ [])) where
    if_absent-Makes :
        (v : View) (r : Read Object) (s : c.State)
        → Same v (lawful.view s)
        → Makes (k ∷ []) v (lawful.view (if_absent m r s).1)
    if_absent-Makes v (found o) s same = Makes-Same (k ∷ []) v _ same
    if_absent-Makes v not_found s same =
        Makes-trans [] (k ∷ []) v _ _ (Makes-Same [] v _ same) (h.makes s)
    if_absent-Makes v read_failed s same = Makes-Same (k ∷ []) v _ same

    if_absent-AllThere :
        (r : Read Object) (s : c.State)
        → Shows k r (lawful.view s k)
        → (if_absent m r s).0 ≡ ok tt
        → AllThere (k ∷ []) (lawful.view (if_absent m r s).1)
    if_absent-AllThere (found o) s tells e j j_in = ground (arith, tells.1, j_in)
    if_absent-AllThere not_found s tells e j j_in = h.there s tt e tt j j_in
    if_absent-AllThere read_failed s tells e j j_in = absurd cc

    pub unless_found-Builds : Builds (unless_found c k m) (k ∷ [])
    unfolding unless_found
    unless_found-Builds = record {
      makes = λ s. if_absent-Makes _ _ _ (lawful.get_same k s);
      there = λ s a e p.
          if_absent-AllThere _ _
            (subst (Shows k (c.get k s).0) (sym (lawful.get_same k s k)) (lawful.get_shows k s)) e;
    }

  pub create_or_ignore-Builds : (o : Object) → Builds (create_or_ignore c o) (key_of o ∷ [])
  unfolding create_or_ignore
  create_or_ignore-Builds o = create-Builds written_or_present o written_or_present-IsMaking

  pub create-written-Builds : (o : Object) → Builds (call written (c.create o)) (key_of o ∷ [])
  create-written-Builds o = create-Builds written o written-IsMaking

  pub ensure-Builds : (o : Object) → Builds (ensure c o) (key_of o ∷ [])
  unfolding ensure
  ensure-Builds o =
      unless_found-Builds (key_of o) (create_or_ignore c o) (create_or_ignore-Builds o)
