-- ===== src/Controller/Upstream/Expiry.antt =====
-- `expires_at` reaches PocketBase at most once for an attempt, until its LabEnvironment is deleted.
use rootenv.Common.Dict
use rootenv.Common.Dict.{Dict, get_or-insert, get_or-erase}
use rootenv.Common.{
  ℕ, ◌+◌, ◌≤◌, ◌≡◌, ◌⊎◌, refl, Bool, true, false, ◌&&◌, inl, inr, Option, none, some, List, [], ◌∷◌,
  ◌++◌, Bytes, bytes_eq, bytes_beq, bytes_beq_iff, ◌==◌, if◌then◌else◌, arith,
}
use rootenv.Controller.Upstream.{
  LabEnv, Reconciler, Patch, Call, unstructured, tombstone, other, Event, added, updated, deleted,
  reconcile_lab_env, reconcile_delete, sync, mark_synced, patch_of, expiry, on_change, on_delete,
  handle, run,
}

abbrev pub written : Bytes → Reconciler → ℕ
written id r = if Dict.get_or id false r.expires_at_written then 1 else 0

abbrev carries : Bytes → Call → ℕ
carries id c =
    if c.id == id && c.accepted then elim c.patch.expires_at [ none ↦ 0 | some t ↦ 1 ] else 0

-- How many accepted calls for an attempt carry an `expires_at`.
unfoldable pub expiries : Bytes → List Call → ℕ
expiries id [] = 0
expiries id (c ∷ cs) = carries id c + expiries id cs

expiries-append :
    (id : Bytes) (a b : List Call) → expiries id (a ++ b) ≡ expiries id a + expiries id b
unfolding expiries
expiries-append id [] b = omega arith
expiries-append id (c ∷ a) b = omega (arith, expiries-append id a b)

unfoldable pub deletes : Bytes → Event → Bool
deletes id (added d) = false
deletes id (updated d) = false
deletes id (deleted (unstructured obj)) = obj.name == id
deletes id (deleted (tombstone (some obj))) = obj.name == id
deletes id (deleted (tombstone none)) = false
deletes id (deleted other) = false

module _ (format_time : Bytes → Option Bytes) (accept : Bytes → Patch → Bool) (id : Bytes) where
  mark_synced-written :
      (obj : LabEnv) (patch : Patch) (r : Reconciler)
      → (patch.expires_at ≡ none) ⊎ (Dict.get_or obj.name false r.expires_at_written ≡ false)
      → carries id (record { id = obj.name; patch = patch; accepted = true }) + written id r
        ≡ written id (mark_synced format_time accept obj patch r)
  unfolding mark_synced
  mark_synced-written obj patch r h =
      ground (
        arith,
        bytes_beq_iff obj.name id,
        get_or-insert id obj.name false true r.expires_at_written,
      )

  patch_of-fresh :
      (obj : LabEnv) (w : Bool)
      → ((patch_of format_time accept w obj).expires_at ≡ none) ⊎ (w ≡ false)
  unfolding patch_of expiry
  patch_of-fresh obj true = inl refl
  patch_of-fresh obj false = inr refl

  sync-written :
      (obj : LabEnv) (patch : Patch) (r : Reconciler)
      → (patch.expires_at ≡ none) ⊎ (Dict.get_or obj.name false r.expires_at_written ≡ false)
      → expiries id (sync format_time accept obj patch r).1 + written id r
        ≡ written id (sync format_time accept obj patch r).0
  unfolding sync expiries
  sync-written obj patch r h = ground (arith, mark_synced-written obj patch r h)

  reconcile_lab_env-written :
      (obj : LabEnv) (r : Reconciler)
      → let s = reconcile_lab_env format_time accept obj r in
        expiries id s.1 + written id r ≡ written id s.0
  unfolding reconcile_lab_env expiries
  reconcile_lab_env-written obj r =
      let w = Dict.get_or obj.name false r.expires_at_written in
      ground (arith, sync-written obj (patch_of format_time accept w obj) r (patch_of-fresh obj w))

  reconcile_delete-written :
      (obj : LabEnv) (r : Reconciler)
      → bytes_beq obj.name id ≡ false
      → let s = reconcile_delete format_time accept obj r in
        expiries id s.1 + written id r ≡ written id s.0
  unfolding reconcile_delete expiries
  reconcile_delete-written obj r h =
      ground (arith, get_or-erase id obj.name false r.expires_at_written)

  handle-written :
      (e : Event) (r : Reconciler)
      → deletes id e ≡ false
      → let s = handle format_time accept e r in expiries id s.1 + written id r ≡ written id s.0
  unfolding handle on_change on_delete deletes expiries
  handle-written (added (unstructured obj)) r h = reconcile_lab_env-written obj r
  handle-written (added (tombstone o)) r h = omega arith
  handle-written (added other) r h = omega arith
  handle-written (updated (unstructured obj)) r h = reconcile_lab_env-written obj r
  handle-written (updated (tombstone o)) r h = omega arith
  handle-written (updated other) r h = omega arith
  handle-written (deleted (unstructured obj)) r h = reconcile_delete-written obj r h
  handle-written (deleted (tombstone (some obj))) r h = reconcile_delete-written obj r h
  handle-written (deleted (tombstone none)) r h = omega arith
  handle-written (deleted other) r h = omega arith

abbrev pub KeepsAttempt : Bytes → List (Event × (Bytes → Patch → Bool)) → Type 0
KeepsAttempt id [] = Unit
KeepsAttempt id ((e, accept) ∷ es) = (deletes id e ≡ false) × KeepsAttempt id es

run-written :
    (format_time : Bytes → Option Bytes) (id : Bytes) (es : List (Event × (Bytes → Patch → Bool)))
    (r : Reconciler)
    → KeepsAttempt id es
    → let s = run format_time es r in expiries id s.1 + written id r ≡ written id s.0
unfolding run expiries
run-written format_time id [] r h = omega arith
run-written format_time id ((e, accept) ∷ es) r (k, h) =
    let s = handle format_time accept e r in
    omega (
      arith,
      handle-written format_time accept id e r k,
      run-written format_time id es s.0 h,
      expiries-append id s.1 (run format_time es s.0).1,
    )

-- While no event deletes an attempt's LabEnvironment, at most one accepted call for the attempt
-- carries an `expires_at`, and none where one had been accepted before; afterwards the
-- reconciler's mark says whether there was one.
pub run-expiries :
    (format_time : Bytes → Option Bytes) (id : Bytes) (es : List (Event × (Bytes → Patch → Bool)))
    (r : Reconciler)
    → KeepsAttempt id es
    → let (r', calls) = run format_time es r in
      (expiries id calls + written id r ≡ written id r') × (expiries id calls + written id r ≤ 1)
run-expiries format_time id es r h =
    let w = run-written format_time id es r h in (w, ground (arith, w))
