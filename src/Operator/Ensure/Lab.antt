-- ===== src/Operator/Ensure/Lab.antt =====
-- What `ensurePod` and `ensureHeadlessService` make for an asset.
use rootenv.Common.{List, [], ◌∷◌, Bytes}
use rootenv.Operator.Action.{give}
use rootenv.Operator.Api.{Asset, LabEnvironment}
use rootenv.Operator.Cluster.{Cluster, IsLawful}
use rootenv.Operator.Ensure.Builds.{
  Builds, bind-Builds, then-Builds, give-Builds, unless_found-Builds, create_or_ignore-Builds,
  create-written-Builds,
}
use rootenv.Operator.Ensure.{quantities, ensure_pod, ensure_headless_service}
use rootenv.Operator.Host.{Host, load_lab_image_ref}
use rootenv.Operator.Kube.{Kind, Key}
use rootenv.Operator.Objects.Lab.{lab_pod, headless_service}

abbrev pub asset_keys : Bytes → Bytes → List Key
asset_keys ns name =
    record { kind = Kind.pod; namespace = ns; name = name }
    ∷ record { kind = Kind.service; namespace = ns; name = name }
    ∷ []

module _ (c : Cluster) (lawful : IsLawful c) (h : Host) (env : LabEnvironment) (ns : Bytes) where
  pub ensure_pod-Builds :
      (asset : Asset)
      → Builds c lawful
          (ensure_pod c h env ns asset)
          (record { kind = Kind.pod; namespace = ns; name = asset.name } ∷ [])
  unfolding ensure_pod
  ensure_pod-Builds asset = unless_found-Builds c lawful _ _ (
      bind-Builds c lawful _ [] _ (give (load_lab_image_ref h asset.image)) (give-Builds c lawful _)
        (λ image.
          then-Builds c lawful (give (quantities h asset)) _ [] _ (give-Builds c lawful _)
            (create-written-Builds c lawful (lab_pod env ns asset image))))

  pub ensure_headless_service-Builds :
      (name : Bytes)
      → Builds c lawful
          (ensure_headless_service c env ns name)
          (record { kind = Kind.service; namespace = ns; name = name } ∷ [])
  unfolding ensure_headless_service
  ensure_headless_service-Builds name =
      create_or_ignore-Builds c lawful (headless_service env ns name)
