-- ===== src/App/Queueing/Kept.antt =====
-- What queueDeploymentRef keeps: what the insertion and what the metadata of a release keep.
use mini_dock.Prelude.{ℕ, String, Option, none, some, List, Result, ok, err}
use mini_dock.Store.Tables.{Application, Deployment, ReleaseMetadata, Store}
use mini_dock.Store.Jobs.{queue_deployment}
use mini_dock.Store.Endings.{set_deployment_release_metadata}
use mini_dock.App.Queueing.{with_manifest, with_reference, queue_deployment_ref}

module _ (next_id : List ℕ → ℕ) (manifest : Application → String) (P : Store → Type 0)
    (metadata : (s : Store) (id : ℕ) (m : ReleaseMetadata)
      → P s
      → P (set_deployment_release_metadata s id m)) where
  with_manifest-keeps :
      (ref : String) (s : Store) (d : Deployment) (o : Option Application)
      → P s
      → P (with_manifest next_id manifest ref s d o).0
  with_manifest-keeps ref s d none p = p
  with_manifest-keeps ref s d (some app) p = metadata s d.id _ p

  with_reference-keeps :
      (id : ℕ) (ref : String) (r : Store × Result Deployment)
      → P r.0
      → P (with_reference next_id manifest id ref r).0
  with_reference-keeps id ref (s, err e) p = p
  with_reference-keeps id ref (s, ok d) p = with_manifest-keeps ref s d _ p

  pub queue_deployment_ref-keeps :
      (now id : ℕ) (action ref log : String) (s : Store)
      → P (queue_deployment next_id now s id action log).0
      → P (queue_deployment_ref next_id manifest now id action ref log s).0
  unfolding queue_deployment_ref
  queue_deployment_ref-keeps now id action ref log s p =
      with_reference-keeps id ref (queue_deployment next_id now s id action log) p
