-- ===== src/App/Retention/Spared.antt =====
-- internal/app/operations.go, runRetention: what it drops, against the table that it starts with.
use mathlib.Core.List.{Memᴰ}
use mathlib.Core.Path.{subst}
use mini_dock.Prelude.{
  ℕ, ◌-◌, ◌*◌, ◌≤◌, ◌≡◌, ◌⊎◌, refl, ap, sym, ◌∙◌, Bool, true, false, ◌&&◌, some, List, [], ◌∷◌, inl,
  inr, arith, ◌==◌, All, and-eq-true, Bool-cases,
}
use mini_dock.Prelude.Rows.{delete_where, count_where, find_where, sort_by}
use mini_dock.Prelude.Rows.Laws.{All-Memᴰ, All-Memᴰ_self, All-where_rows}
use mini_dock.Prelude.Rows.Order.{All-sort_by}
use mini_dock.Store.Tables.{second, Application, Deployment, Store}
use mini_dock.Store.Jobs.{AreDistinct, id_ge, has_id}
use mini_dock.Store.Jobs.Keyed.{find_of_Memᴰ}
use mini_dock.Store.Endings.{delete_deployments, deleted, one_of}
use mini_dock.Store.Lifecycle.Preserved.{AreDistinct-delete}
use mini_dock.Store.Releases.{deployments, retention_candidates}
use mini_dock.Store.Releases.Retention.{MayDrop, is_newer_success, All-retention_from}
use mini_dock.Store.Releases.Dropped.{newer_successes, retention_candidates-MayDrop}
use mini_dock.App.Retention.{
  Janitor, swept, swept_ids, retain_applications, run_retention, retention_days, retained_images,
}

count_where-delete_where :
    (p q : Deployment → Bool) (ds : List Deployment)
    → count_where p (delete_where q ds) ≤ count_where p ds
unfolding count_where delete_where
count_where-delete_where p q [] = omega arith
count_where-delete_where p q (d ∷ ds) = ground (arith, count_where-delete_where p q ds)

delete_where-Memᴰ :
    (p : Deployment → Bool) (ds : List Deployment) (d : Deployment)
    → Memᴰ d ds
    → p d ≡ false
    → Memᴰ d (delete_where p ds)
unfolding delete_where
delete_where-Memᴰ p [] d m h = elim m [ ]
delete_where-Memᴰ p (x ∷ ds) d (Memᴰ.head e) h =
    let stays : p x ≡ false = ap p (sym e) ∙ h in rw stays (Memᴰ.head e)
delete_where-Memᴰ p (x ∷ ds) d (Memᴰ.tail m) h =
    let rest = delete_where-Memᴰ p ds d m h in
    elim (Bool-cases (p x)) [ inl hit ↦ rw hit rest | inr miss ↦ rw miss (Memᴰ.tail rest) ]

-- The candidates are jobs of the table.
candidates_stand :
    (s : Store) (app before retain : ℕ)
    → All (λ (d : Deployment). Memᴰ d s.deployments) (retention_candidates s app before retain)
unfolding retention_candidates deployments
candidates_stand s app before retain =
    All-retention_from before retain (λ (d : Deployment). Memᴰ d s.deployments) 0 _
      (All-sort_by id_ge (λ (d : Deployment). Memᴰ d s.deployments) _
        (All-where_rows (λ (d : Deployment). Memᴰ d s.deployments)
          (λ (d : Deployment). d.application_id == app) s.deployments
          (All-Memᴰ_self s.deployments)))

named :
    {E : Type 0} (j : Janitor E) (app : Application) (ds : List Deployment) (e : E) (id : ℕ)
    → one_of (swept_ids j app ds e).1 id ≡ true
    → (d : Deployment) × Memᴰ d ds × (d.id ≡ id)
unfolding swept_ids
named j app [] e id h = absurd (ground arith)
named j app (d ∷ ds) e id h = elim (Bool-cases ((swept j app d e).1)) [
  | inr kept ↦
      let (c, m, same) = named j app ds (swept j app d e).0 id (rw kept at h) in
      (c, Memᴰ.tail m, same)
  | inl gone ↦ elim (Bool-cases (id == d.id)) [
    | inl hit ↦ (d, Memᴰ.head refl, ground arith)
    | inr miss ↦
        let (c, m, same) = named j app ds (swept j app d e).0 id (rw (gone, miss) at h) in
        (c, Memᴰ.tail m, same)
  ]
]

more_newer :
    (before retain n m : ℕ) (d : Deployment)
    → n ≤ m
    → MayDrop before retain n d
    → MayDrop before retain m d
more_newer before retain n m d le may = record {
  ended_job = may.ended_job;
  old = may.old;
  spared = λ success. omega (arith, may.spared success);
}

-- How far a table may have lost the jobs of another.
record IsSpared (before retain : ℕ) (s s' : Store) : Type 0 where
  distinct : AreDistinct s'.deployments
  fewer : (app : ℕ) (d : Deployment) → newer_successes app s' d ≤ newer_successes app s d
  kept :
      (d : Deployment)
      → Memᴰ d s.deployments
      → Memᴰ d s'.deployments ⊎ MayDrop before retain (newer_successes d.application_id s d) d

module _ {E : Type 0} (j : Janitor E) (before retain : ℕ) where
  -- A job that is deleted is a candidate.
  deleted-MayDrop :
      (app : Application) (s : Store) (e : E) (d : Deployment)
      → AreDistinct s.deployments
      → Memᴰ d s.deployments
      → deleted app.id (swept_ids j app (retention_candidates s app.id before retain) e).1 d ≡ true
      → MayDrop before retain (newer_successes d.application_id s d) d
  deleted-MayDrop app s e d distinct m h =
      let candidates = retention_candidates s app.id before retain in
      let (c, found, same) =
        named j app candidates e d.id (and-eq-true (d.application_id == app.id) _ h).1 in
      let stands = All-Memᴰ _ candidates c (candidates_stand s app.id before retain) found in
      let of_d : find_where (has_id d.id) s.deployments ≡ some d =
        find_of_Memᴰ d s.deployments distinct m in
      let of_c : find_where (has_id c.id) s.deployments ≡ some c =
        find_of_Memᴰ c s.deployments distinct stands in
      let one : c ≡ d =
        (let both : find_where (has_id d.id) s.deployments ≡ some c = rw same at of_c in cc) in
      let may = ((retention_candidates-MayDrop s app.id before retain distinct c stands).0 found) in
      let at_app : MayDrop before retain (newer_successes c.application_id s c) c =
        subst (λ i. MayDrop before retain (newer_successes i s c) c) (sym may.0) may.1 in
      subst (λ (x : Deployment). MayDrop before retain (newer_successes x.application_id s x) x) one
        at_app

  deleted-IsSpared :
      (s s' : Store) (app : ℕ) (ids : List ℕ)
      → ((d : Deployment)
          → Memᴰ d s'.deployments
          → deleted app ids d ≡ true
          → MayDrop before retain (newer_successes d.application_id s' d) d)
      → IsSpared before retain s s'
      → IsSpared before retain s (delete_deployments s' app ids)
  unfolding delete_deployments
  deleted-IsSpared s s' app [] may v = v
  deleted-IsSpared s s' app (i ∷ is) may v =
      let gone = deleted app (i ∷ is) in
      record {
        distinct = AreDistinct-delete gone s'.deployments v.distinct;
        fewer = λ a d. omega (
          arith,
          v.fewer a d,
          count_where-delete_where (λ e. e.application_id == a && is_newer_success d e) gone
              s'.deployments,
        );
        kept = λ d m. elim (v.kept d m) [
          | inr dropped ↦ inr dropped
          | inl stands ↦ elim (Bool-cases (gone d)) [
            | inl hit ↦
                inr (more_newer before retain _ _ d (v.fewer d.application_id d) (may d stands hit))
            | inr miss ↦ inl (delete_where-Memᴰ gone s'.deployments d stands miss)
          ]
        ];
      }

  applications-IsSpared :
      (s : Store) (apps : List Application) (s' : Store) (e : E)
      → IsSpared before retain s s'
      → IsSpared before retain s (retain_applications j before retain apps (s', e)).0
  applications-IsSpared s [] s' e v = v
  applications-IsSpared s (app ∷ apps) s' e v = applications-IsSpared s apps _ _ (
      deleted-IsSpared s s' app.id
        (swept_ids j app (retention_candidates s' app.id before retain) e).1
        (λ d m h. deleted-MayDrop app s' e d v.distinct m h) v)

-- Without two rows of one id: whatever removals of images and logs succeed, a job of the table is
-- still there after runRetention, or it had ended before the retention time, and, if it was
-- successful, at least as many successful jobs of its application as are to be retained were
-- newer.
pub run_retention-spares :
    {E : Type 0} (j : Janitor E) (now days images : ℕ) (s : Store) (e : E) (d : Deployment)
    → AreDistinct s.deployments
    → Memᴰ d s.deployments
    → Memᴰ d (run_retention j now days images (s, e)).0.deployments
      ⊎ MayDrop
          (now - retention_days days * (86_400 * second))
          (retained_images images)
          (newer_successes d.application_id s d)
          d
unfolding run_retention
run_retention-spares j now days images s e d distinct m =
    (applications-IsSpared j (now - retention_days days * (86_400 * second))
        (retained_images images) s
        (sort_by (λ (a : Application) b. j.name_le a.name b.name) s.applications) s e
        (record {
          distinct = distinct;
          fewer = λ app c. omega arith;
          kept = λ c stands. inl stands;
        })).kept
      d m
