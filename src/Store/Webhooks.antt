-- ===== src/Store/Webhooks.antt =====
-- internal/store/store.go: the replay guard and the rate limit of webhook deliveries.
pub mod Limits
use mini_dock.Prelude.{
  ℕ, ◌+◌, ◌-◌, String, Bool, true, false, not, ◌&&◌, ◌||◌, Option, none, some, List, [], ◌∷◌, leb,
  ltb, ◌==◌, ◌=s=◌, if◌then◌else◌, any, Result, ok, err, invalid_argument,
}
use mini_dock.Prelude.Rows.{find_where}

pub record Delivery : Type 0 where
  pub provider : String
  pub delivery_hash : String
  pub received_at : ℕ

abbrev pub is_delivery : String → String → Delivery → Bool
is_delivery provider hash d = d.provider =s= provider && d.delivery_hash =s= hash

-- ClaimWebhookDelivery: ON CONFLICT DO NOTHING inserts only an unknown delivery.
unfoldable pub claim_webhook_delivery :
    ℕ → List Delivery → String → String → List Delivery × Result Bool
claim_webhook_delivery now ds provider hash =
    if any (is_delivery provider hash) ds
    then (ds, ok false)
    else (record { provider = provider; delivery_hash = hash; received_at = now } ∷ ds, ok true)

pub record RateLimit : Type 0 where
  pub scope : String
  pub window_started_at : ℕ
  pub requests : ℕ

abbrev pub of_scope : String → RateLimit → Bool
of_scope scope r = r.scope =s= scope

-- The ON CONFLICT clause: `window_started_at <= now - window` opens a new window. The comparison
-- is written as a sum, since the source's difference of times may be negative.
abbrev pub consume : ℕ → ℕ → RateLimit → RateLimit
consume now window r =
    if leb (r.window_started_at + window) now
    then record r { window_started_at = now; requests = 1 }
    else record r { requests = r.requests + 1 }

unfoldable pub put_request : ℕ → ℕ → String → List RateLimit → List RateLimit
put_request now window scope [] =
    record { scope = scope; window_started_at = now; requests = 1 } ∷ []
put_request now window scope (r ∷ rs) =
    if r.scope =s= scope then consume now window r ∷ rs else r ∷ put_request now window scope rs

abbrev pub requests_of : Option RateLimit → ℕ
requests_of none = 0
requests_of (some r) = r.requests

-- AllowWebhookRequest; the window is a length of time, and a limit or window of 0 stands for every
-- value that the source refuses.
unfoldable pub allow_webhook_request :
    ℕ → List RateLimit → String → ℕ → ℕ → List RateLimit × Result Bool
allow_webhook_request now rs scope limit window =
    if scope =s= "" || (ltb limit 1 || window == 0)
    then (rs, err invalid_argument)
    else (let rows = put_request now window scope rs in
        (rows, ok (leb (requests_of (find_where (of_scope scope) rows)) limit)))
