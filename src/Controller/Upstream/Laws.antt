-- ===== src/Controller/Upstream/Laws.antt =====
-- One delivery of a LabEnvironment.
use rootenv.Common.Dict
use rootenv.Common.Dict.{Dict, get_or-insert, get_or-erase}
use rootenv.Common.{
  ◌≡◌, refl, ◌∙◌, Bool, true, false, ◌||◌, Option, [], Bytes, bytes_eq, eq_self, ◌==◌, arith,
}
use rootenv.Controller.Upstream.{
  LabEnv, Reconciler, Patch, reconcile_lab_env, sync, mark_synced, patch_of,
}

abbrev pub is_synced : LabEnv → Reconciler → Bool
is_synced obj r = Dict.get_or obj.name [] r.last_rv == obj.resource_version

module _ (format_time : Bytes → Option Bytes) (accept : Bytes → Patch → Bool) (obj : LabEnv)
    (r : Reconciler) where
  sync-last_rv :
      (patch : Patch)
      → accept obj.name patch ≡ true
      → Dict.get_or obj.name [] (sync format_time accept obj patch r).0.last_rv
        ≡ obj.resource_version
  unfolding sync mark_synced
  sync-last_rv patch h =
      rw (h, sync)
        (get_or-insert obj.name obj.name [] obj.resource_version r.last_rv
          ∙ rw (eq_self obj.name) refl)

  resting :
      (s : Reconciler)
      → (is_synced obj s || obj.phase == []) ≡ true
      → reconcile_lab_env format_time accept obj s ≡ (s, [])
  unfolding reconcile_lab_env
  resting s h = ground arith

  settles :
      let patch =
        patch_of format_time accept (Dict.get_or obj.name false r.expires_at_written) obj in
      accept obj.name patch ≡ true
      → (is_synced obj (reconcile_lab_env format_time accept obj r).0 || obj.phase == []) ≡ true
  unfolding reconcile_lab_env
  settles h =
      let patch =
        patch_of format_time accept (Dict.get_or obj.name false r.expires_at_written) obj in
      ground (arith, sync-last_rv patch h, eq_self obj.resource_version)

  -- Where PocketBase accepts the patch of an object, that version of it is not sent again
  -- afterwards, and the reconciler stays as it is.
  pub reconcile_lab_env-again :
      let patch =
        patch_of format_time accept (Dict.get_or obj.name false r.expires_at_written) obj in
      let r' = (reconcile_lab_env format_time accept obj r).0 in
      accept obj.name patch ≡ true → reconcile_lab_env format_time accept obj r' ≡ (r', [])
  reconcile_lab_env-again h = resting (reconcile_lab_env format_time accept obj r).0 (settles h)
