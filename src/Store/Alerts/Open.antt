-- ===== src/Store/Alerts/Open.antt =====
-- internal/store/store.go: the open alerts over the calls that raise and resolve them.
use mini_dock.Prelude.{
  ℕ, ◌≡◌, refl, String, Bool, true, false, not, ◌&&◌, inl, inr, Option, List, [], ◌∷◌, arith, any,
  Bool-cases,
}
use mini_dock.Prelude.Rows.{update_where}
use mini_dock.Store.Tables.{Alert, Store}
use mini_dock.Store.Alerts.{
  open_alert, is_open, upsert_alert, resolved_at_time, resolve_alert, resolve_all_alerts_except,
}

-- No open alert has the message and the application of another one.
unfoldable pub deduplicated : List Alert → Bool
deduplicated [] = true
deduplicated (a ∷ rows) =
    not (is_open a && any (open_alert a.message a.application_id) rows) && deduplicated rows

pub data AlertCall : Type 0 where
  upsert : ℕ → String → String → Option ℕ → Option ℕ → AlertCall
  resolve : ℕ → Option ℕ → String → AlertCall
  resolve_except : ℕ → List String → AlertCall

abbrev pub alert_call : (List ℕ → ℕ) → (String → String → Bool) → Store → AlertCall → Store
alert_call next_id like s (upsert now severity message application deployment) =
    (upsert_alert next_id now s severity message application deployment).0
alert_call next_id like s (resolve now application message_prefix) =
    resolve_alert like now s application message_prefix
alert_call next_id like s (resolve_except now messages) = resolve_all_alerts_except now s messages

abbrev pub alert_calls : (List ℕ → ℕ) → (String → String → Bool) → Store → List AlertCall → Store
alert_calls next_id like s [] = s
alert_calls next_id like s (c ∷ cs) = alert_calls next_id like (alert_call next_id like s c) cs

module _ (now : ℕ) (p : Alert → Bool) where
  -- Resolving alerts opens none.
  closed-resolved :
      (message : String) (application : Option ℕ) (rows : List Alert)
      → any (open_alert message application) rows ≡ false
      → any (open_alert message application) (update_where p (resolved_at_time now) rows) ≡ false
  unfolding update_where
  closed-resolved message application [] h = refl
  closed-resolved message application (a ∷ rows) h = elim (Bool-cases (p a)) [
    | inl hit ↦ rw hit (closed-resolved message application rows (ground arith))
    | inr miss ↦ ground (arith, closed-resolved message application rows)
  ]

  deduplicated-resolved :
      (rows : List Alert)
      → deduplicated rows ≡ true
      → deduplicated (update_where p (resolved_at_time now) rows) ≡ true
  unfolding deduplicated update_where
  deduplicated-resolved [] h = refl
  deduplicated-resolved (a ∷ rows) h = elim (Bool-cases (p a)) [
    | inl hit ↦ rw hit (deduplicated-resolved rows (ground arith))
    | inr miss ↦
        ground (arith, deduplicated-resolved rows, closed-resolved a.message a.application_id rows)
  ]

module _ (next_id : List ℕ → ℕ) (like : String → String → Bool) where
  alert_call-deduplicated :
      (s : Store) (c : AlertCall)
      → deduplicated s.alerts ≡ true
      → deduplicated (alert_call next_id like s c).alerts ≡ true
  unfolding deduplicated upsert_alert
  alert_call-deduplicated s (upsert now severity message application deployment) h = ground arith
  alert_call-deduplicated s (resolve now application message_prefix) h =
      deduplicated-resolved now _ s.alerts h
  alert_call-deduplicated s (resolve_except now []) h = deduplicated-resolved now _ s.alerts h
  alert_call-deduplicated s (resolve_except now (m ∷ ms)) h = deduplicated-resolved now _ s.alerts h

  -- Whatever alerts are raised and resolved: if no two open alerts had the same message and the
  -- same application, no two have afterwards.
  pub alert_calls-deduplicated :
      (s : Store) (cs : List AlertCall)
      → deduplicated s.alerts ≡ true
      → deduplicated (alert_calls next_id like s cs).alerts ≡ true
  alert_calls-deduplicated s [] h = h
  alert_calls-deduplicated s (c ∷ cs) h =
      alert_calls-deduplicated (alert_call next_id like s c) cs (alert_call-deduplicated s c h)
