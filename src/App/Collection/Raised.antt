-- ===== src/App/Collection/Raised.antt =====
-- internal/app/operations.go, runCollection: an alert from its call to the end of the collection.
use mini_dock.Prelude.{
  ℕ, ◌≡◌, refl, ◌∙◌, String, Bool, true, false, ◌&&◌, inl, inr, Option, none, some, List, [], ◌∷◌,
  ◌++◌, arith, any, Bool-cases, ◌=s=◌, =s=_refl, eq_iff,
}
use mini_dock.Prelude.Rows.{update_where}
use mini_dock.Store.Tables.{Alert, Application, Deployment, Store}
use mini_dock.Store.Alerts.{
  open_alert, is_open, not_in, same_reference, references_hold, upsert_alert, resolved_at_time,
}
use mini_dock.App.Collection.{
  Observer, Collected, DiskUsage, unknown_usage, usage, StatusAnswer, no_status, status, raise,
  raise_if, record_health, check_disk, check_deployment, check_status, check_probe,
  check_certificate,
}

any_append : (p : String → Bool) (xs ys : List String) → any p xs ≡ true → any p (xs ++ ys) ≡ true
any_append p [] ys h = absurd (ground arith)
any_append p (x ∷ xs) ys h = ground (arith, any_append p xs ys)

any_last :
    (p : String → Bool) (xs : List String) (y : String) → p y ≡ true → any p (xs ++ (y ∷ [])) ≡ true
any_last p [] y h = ground arith
any_last p (x ∷ xs) y h = ground (arith, any_last p xs y h)

pub same_reference_refl : (i : Option ℕ) → same_reference i i ≡ true
same_reference_refl none = refl
same_reference_refl (some i) = ground arith

-- The message is active in this collection, and open on the application.
pub record IsRaised (message : String) (application : Option ℕ) (c : Collected) : Type 0 where
  pub listed : any (λ m. message =s= m) c.messages ≡ true
  pub open_ : any (open_alert message application) c.store.alerts ≡ true

-- A step of the collection keeps what is raised, and the tables that alerts refer to.
pub record Extends (c c' : Collected) : Type 0 where
  pub keeps :
      (message : String) (application : Option ℕ)
      → IsRaised message application c
      → IsRaised message application c'
  pub applications : c'.store.applications ≡ c.store.applications
  pub deployments : c'.store.deployments ≡ c.store.deployments

pub Extends-refl : (c : Collected) → Extends c c
Extends-refl c = record { keeps = λ m a h. h; applications = refl; deployments = refl }

pub Extends-trans : (a b c : Collected) → Extends a b → Extends b c → Extends a c
Extends-trans a b c ab bc = record {
  keeps = λ m app h. bc.keeps m app (ab.keeps m app h);
  applications = bc.applications ∙ ab.applications;
  deployments = bc.deployments ∙ ab.deployments;
}

module _ (o : Observer) (severity message : String) (application deployment : Option ℕ) where
  upsert-open :
      (s : Store)
      → references_hold s application deployment ≡ true
      → any
          (open_alert message application)
          (upsert_alert o.next_id o.now s severity message application deployment).0.alerts
        ≡ true
  unfolding upsert_alert
  upsert-open s h =
      let known = =s=_refl message in let same = same_reference_refl application in ground arith

  upsert-keeps :
      (s : Store) (m : String) (app : Option ℕ)
      → any (open_alert m app) s.alerts ≡ true
      → any
          (open_alert m app)
          (upsert_alert o.next_id o.now s severity message application deployment).0.alerts
        ≡ true
  unfolding upsert_alert
  upsert-keeps s m app h = ground arith

  upsert-applications :
      (s : Store)
      → (upsert_alert o.next_id o.now s severity message application deployment).0.applications
        ≡ s.applications
  unfolding upsert_alert
  upsert-applications s = ground arith

  upsert-deployments :
      (s : Store)
      → (upsert_alert o.next_id o.now s severity message application deployment).0.deployments
        ≡ s.deployments
  unfolding upsert_alert
  upsert-deployments s = ground arith

  pub raise-IsRaised :
      (c : Collected)
      → references_hold c.store application deployment ≡ true
      → IsRaised message application (raise o severity message application deployment c)
  unfolding raise
  raise-IsRaised c h = record {
    listed = any_last (λ m. message =s= m) c.messages message (=s=_refl message);
    open_ = upsert-open c.store h;
  }

  raise-Extends : (c : Collected) → Extends c (raise o severity message application deployment c)
  unfolding raise
  raise-Extends c = record {
    keeps = λ m app h. record {
      listed = any_append (λ k. m =s= k) c.messages (message ∷ []) h.listed;
      open_ = upsert-keeps c.store m app h.open_;
    };
    applications = upsert-applications c.store;
    deployments = upsert-deployments c.store;
  }

  raise_if-Extends :
      (b : Bool) (c : Collected)
      → Extends c (raise_if b o severity message application deployment c)
  raise_if-Extends true c = raise-Extends c
  raise_if-Extends false c = Extends-refl c

  pub raise_if-IsRaised :
      (b : Bool) (c : Collected)
      → b ≡ true
      → references_hold c.store application deployment ≡ true
      → IsRaised message application (raise_if b o severity message application deployment c)
  raise_if-IsRaised true c e h = raise-IsRaised c h
  raise_if-IsRaised false c e h = absurd (ground arith)

module _ (o : Observer) where
  pub check_disk-Extends : (d : DiskUsage o.F) (c : Collected) → Extends c (check_disk o d c)
  check_disk-Extends (unknown_usage error) c = raise-Extends o _ _ none none c
  check_disk-Extends (usage used) c = raise_if-Extends o _ _ none none _ c

  module _ (app : Application) where
    pub check_deployment-Extends :
        (d : Option Deployment) (c : Collected) → Extends c (check_deployment o app d c)
    check_deployment-Extends none c = Extends-refl c
    check_deployment-Extends (some d) c = raise_if-Extends o _ _ (some app.id) (some d.id) _ c

    pub check_status-Extends :
        (a : StatusAnswer) (c : Collected) → Extends c (check_status o app a c)
    check_status-Extends (no_status error) c = raise_if-Extends o _ _ (some app.id) none _ c
    check_status-Extends (status s) c = raise_if-Extends o _ _ (some app.id) none _ c

    pub record_health-Extends :
        (d : Option Deployment) (c : Collected) → Extends c (record_health o app d c)
    unfolding record_health
    record_health-Extends d c = record {
      keeps = λ m a h. record { listed = h.listed; open_ = h.open_ };
      applications = refl;
      deployments = refl;
    }

    pub check_probe-Extends : (c : Collected) → Extends c (check_probe o app c)
    check_probe-Extends c = raise_if-Extends o _ _ (some app.id) none _ c

    pub check_certificate-Extends : (c : Collected) → Extends c (check_certificate o app c)
    check_certificate-Extends c = raise_if-Extends o _ _ (some app.id) none _ c

module _ (now : ℕ) (messages : List String) (message : String) (application : Option ℕ) where
  -- The last step resolves no alert whose message is listed.
  pub spared :
      (rows : List Alert)
      → any (λ m. message =s= m) messages ≡ true
      → any (open_alert message application) rows ≡ true
      → any
          (open_alert message application)
          (update_where (λ a. is_open a && not_in messages a) (resolved_at_time now) rows)
        ≡ true
  unfolding update_where
  spared [] listed h = absurd (ground arith)
  spared (a ∷ rows) listed h = elim (Bool-cases (open_alert message application a)) [
    | inl hit ↦
        let same : a.message ≡ message = (eq_iff a.message message).0 (ground arith) in
        let spare : not_in messages a ≡ false = rw (same, listed) refl in ground arith
    | inr miss ↦ ground (arith, spared rows listed)
  ]
