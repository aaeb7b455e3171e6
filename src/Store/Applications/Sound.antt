-- ===== src/Store/Applications/Sound.antt =====
-- internal/store/store.go: the invariant of the table of applications.
use mini_dock.Prelude.{
  ℕ, ◌≡◌, ◌≢◌, ◌<◌, refl, String, Bool, true, false, ◌&&◌, inl, inr, List, [], ◌∷◌, any, All,
  All-mono, All-and, arith, Bool-cases, ◌=s=◌, eq_iff,
}
use mini_dock.Prelude.Rows.{update_where}
use mini_dock.Prelude.Rows.Laws.{All-update_where}
use mini_dock.Store.Tables.{Application}
use mini_dock.Store.Lifecycle.{IsAbove}
use mini_dock.Store.Applications.{
  has_id, clashes, application_ids, create_application, automated, update_application_automation,
  under_domain, takes_domain, update_application_domain,
}

pub data ApplicationCall : Type 0 where
  create : (now : ℕ) → Application → ApplicationCall
  automate : (id : ℕ) (deploy_on_push require_confirmation auto_rollback : Bool) → ApplicationCall
  move : (id : ℕ) (domain : String) → ApplicationCall

abbrev pub application_call : (List ℕ → ℕ) → List Application → ApplicationCall → List Application
application_call next_id rows (create now a) = (create_application next_id now rows a).0
application_call next_id rows (automate id push confirmation rollback) =
    (update_application_automation rows id push confirmation rollback).0
application_call next_id rows (move id domain) = (update_application_domain rows id domain).0

abbrev pub application_calls :
    (List ℕ → ℕ) → List Application → List ApplicationCall → List Application
application_calls next_id rows [] = rows
application_calls next_id rows (c ∷ cs) =
    application_calls next_id (application_call next_id rows c) cs

-- The first application can be told from the second by name, domain and id.
abbrev pub Differs : Application → Application → Type 0
Differs a b = (clashes a b ≡ false) × (a.id ≢ b.id)

abbrev pub AllDiffer : List Application → Type 0
AllDiffer [] = Unit
AllDiffer (a ∷ rows) = All (Differs a) rows × AllDiffer rows

abbrev pub IsConfirmable : Application → Type 0
IsConfirmable a = (a.deploy_on_push && a.require_confirmation) ≡ false

pub record AreSound (rows : List Application) : Type 0 where
  pub confirmable : All IsConfirmable rows
  pub differ : AllDiffer rows

-- An update that keeps a test of two rows, whichever of them it takes.
module _ (R : Application → Application → Type 0) (p : Application → Bool)
    (f : Application → Application) where
  All-updated :
      (a : Application) (rows : List Application)
      → ((b : Application) → p b ≡ true → R a b → R a (f b))
      → All (R a) rows
      → All (R a) (update_where p f rows)
  unfolding update_where
  All-updated a [] keep h = tt
  All-updated a (b ∷ rows) keep h = elim (Bool-cases (p b)) [
    | inl hit ↦ rw hit (keep b hit h.0, All-updated a rows keep h.1)
    | inr miss ↦ rw miss (h.0, All-updated a rows keep h.1)
  ]

automated-AllDiffer :
    (id : ℕ) (push confirmation rollback : Bool) (rows : List Application)
    → AllDiffer rows
    → AllDiffer (update_where (has_id id) (automated push confirmation rollback) rows)
unfolding update_where
automated-AllDiffer id push confirmation rollback [] h = tt
automated-AllDiffer id push confirmation rollback (a ∷ rows) h =
    let f = automated push confirmation rollback in
    let kept : All (Differs a) (update_where (has_id id) f rows) =
      All-updated Differs (has_id id) f a rows (λ b t d. d) h.0 in
    let rest = automated-AllDiffer id push confirmation rollback rows h.1 in
    elim (Bool-cases (has_id id a)) [
      | inl hit ↦ rw hit ((All-mono (Differs a) (Differs (f a)) (λ b d. d) _ kept), rest)
      | inr miss ↦ rw miss (kept, rest)
    ]

moved_one :
    (id : ℕ) (domain : String) (a b : Application)
    → has_id id a ≡ true
    → takes_domain id domain b ≡ false
    → Differs a b
    → Differs (under_domain domain a) b × (has_id id b ≡ false)
moved_one id domain a b hit free d =
    let apart : has_id id b ≡ false = elim (Bool-cases (has_id id b)) [
      | inl same ↦ absurd (d.1 (ground arith))
      | inr ne ↦ ne
    ] in
    let names : (a.name =s= b.name) ≡ false = ground arith in
    let domains : (domain =s= b.domain) ≡ false =
      ground (arith, eq_iff domain b.domain, eq_iff b.domain domain) in
    ((rw (names, domains) refl, d.1), apart)

moved_first :
    (id : ℕ) (domain : String) (a : Application) (rows : List Application)
    → has_id id a ≡ true
    → All (λ b. takes_domain id domain b ≡ false) rows
    → All (Differs a) rows
    → All (Differs (under_domain domain a)) (update_where (has_id id) (under_domain domain) rows)
unfolding update_where
moved_first id domain a [] hit free h = tt
moved_first id domain a (b ∷ rows) hit free h =
    let (differs, apart) = moved_one id domain a b hit free.0 h.0 in
    rw apart (differs, moved_first id domain a rows hit free.1 h.1)

moved_other :
    (id : ℕ) (domain : String) (a b : Application)
    → has_id id a ≡ false
    → takes_domain id domain a ≡ false
    → Differs a b
    → Differs a (under_domain domain b)
moved_other id domain a b miss free d =
    let names : (a.name =s= b.name) ≡ false = ground arith in
    let domains : (a.domain =s= domain) ≡ false = ground arith in (rw (names, domains) refl, d.1)

-- A domain that no other application has.
moved-AllDiffer :
    (id : ℕ) (domain : String) (rows : List Application)
    → All (λ a. takes_domain id domain a ≡ false) rows
    → AllDiffer rows
    → AllDiffer (update_where (has_id id) (under_domain domain) rows)
unfolding update_where
moved-AllDiffer id domain [] free h = tt
moved-AllDiffer id domain (a ∷ rows) free h =
    let rest = moved-AllDiffer id domain rows free.1 h.1 in
    elim (Bool-cases (has_id id a)) [
      | inl hit ↦ rw hit (moved_first id domain a rows hit free.1 h.0, rest)
      | inr miss ↦ rw miss (
        All-updated Differs (has_id id) (under_domain domain) a rows
            (λ b t d. moved_other id domain a b miss free.0 d) h.0,
        rest,
      )
    ]

none_of_any {ℓ} :
    {A : Type ℓ} (p : A → Bool) (rows : List A) → any p rows ≡ false → All (λ a. p a ≡ false) rows
none_of_any p [] h = tt
none_of_any p (a ∷ rows) h = (ground arith, none_of_any p rows (ground arith))

All-updated_where :
    (id : ℕ) (f : Application → Application) (rows : List Application)
    → ((a : Application) → IsConfirmable a → IsConfirmable (f a))
    → All IsConfirmable rows
    → All IsConfirmable (update_where (has_id id) f rows)
All-updated_where id f rows keep h =
    All-update_where IsConfirmable (has_id id) f (λ a t c. keep a c) rows h

new_id :
    (n : ℕ) (rows : List Application)
    → All (λ k. k < n) (application_ids rows)
    → All (λ (a : Application). n ≢ a.id) rows
new_id n [] h = tt
new_id n (a ∷ rows) h = ((λ e. omega arith), new_id n rows h.1)

module _ (next_id : List ℕ → ℕ) (above : IsAbove next_id) where
  create-AreSound :
      (rows : List Application) (now : ℕ) (a : Application)
      → AreSound rows
      → AreSound (create_application next_id now rows a).0
  unfolding create_application
  create-AreSound rows now a v = elim (Bool-cases (a.deploy_on_push && a.require_confirmation)) [
    | inl both ↦ rw both v
    | inr fine ↦ elim (Bool-cases (any (clashes a) rows)) [
      | inl taken ↦ rw (fine, taken) v
      | inr free ↦
          let id = next_id (application_ids rows) in
          rw (fine, free)
            (record {
              confirmable = (fine, v.confirmable);
              differ = (
                All-and (λ b. clashes a b ≡ false) (λ b. id ≢ b.id) rows
                    (none_of_any (clashes a) rows free)
                    (new_id id rows (above (application_ids rows))),
                v.differ,
              );
            })
    ]
  ]

  automate-AreSound :
      (rows : List Application) (id : ℕ) (push confirmation rollback : Bool)
      → AreSound rows
      → AreSound (update_application_automation rows id push confirmation rollback).0
  unfolding update_application_automation
  automate-AreSound rows id push confirmation rollback v =
      elim (Bool-cases (push && confirmation)) [
        | inl both ↦ rw both v
        | inr fine ↦ elim (Bool-cases (any (has_id id) rows)) [
          | inr missing ↦ rw (fine, missing) v
          | inl known ↦
              rw (fine, known)
                (record {
                  confirmable =
                      All-updated_where id (automated push confirmation rollback) rows (λ a c. fine)
                        v.confirmable;
                  differ = automated-AllDiffer id push confirmation rollback rows v.differ;
                })
        ]
      ]

  move-AreSound :
      (rows : List Application) (id : ℕ) (domain : String)
      → AreSound rows
      → AreSound (update_application_domain rows id domain).0
  unfolding update_application_domain
  move-AreSound rows id domain v = elim (Bool-cases (any (has_id id) rows)) [
    | inr missing ↦ rw missing v
    | inl known ↦ elim (Bool-cases (any (takes_domain id domain) rows)) [
      | inl taken ↦ rw (known, taken) v
      | inr free ↦
          rw (known, free)
            (record {
              confirmable =
                  All-updated_where id (under_domain domain) rows (λ a c. c) v.confirmable;
              differ =
                  moved-AllDiffer id domain rows (none_of_any (takes_domain id domain) rows free)
                    v.differ;
            })
    ]
  ]

  call-AreSound :
      (rows : List Application) (c : ApplicationCall)
      → AreSound rows
      → AreSound (application_call next_id rows c)
  call-AreSound rows (create now a) v = create-AreSound rows now a v
  call-AreSound rows (automate id push confirmation rollback) v =
      automate-AreSound rows id push confirmation rollback v
  call-AreSound rows (move id domain) v = move-AreSound rows id domain v

  -- Whatever applications are created, and automations and domains changed: if no application both
  -- deploys on a push and asks for a confirmation, and no two have one name, domain or id, then so
  -- it is afterwards.
  pub application_calls-AreSound :
      (rows : List Application) (cs : List ApplicationCall)
      → AreSound rows
      → AreSound (application_calls next_id rows cs)
  application_calls-AreSound rows [] v = v
  application_calls-AreSound rows (c ∷ cs) v =
      application_calls-AreSound (application_call next_id rows c) cs (call-AreSound rows c v)
