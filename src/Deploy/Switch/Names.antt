-- ===== src/Deploy/Switch/Names.antt =====
-- The names of an application's containers are different.
use text.Mathlib.TextLemmas.{append_cancel_left, length-append}
use Prim.Native.String.{count}
use mini_dock.Prelude.{ℕ, ◌+◌, ◌≡◌, ◌≢◌, refl, ap, String, false, arith, ◌=s=◌, eq_iff}
use mini_dock.Prelude.Decimal.{◌+s+◌}
use mini_dock.Store.Tables.{Application}
use mini_dock.Deploy.Containers.{primary, candidate, next, previous}

pub texts_differ : (a b : String) → (a =s= b) ≡ false → a ≢ b
texts_differ a b h = λ e. ground (arith, eq_iff a b)

-- A longer text is another one.
longer : (a b : String) (n : ℕ) → count b ≡ n + 1 → a +s+ b ≢ a
longer a b n size =
    λ e. let counted : count (a +s+ b) ≡ count a = ap count e in omega (arith, length-append a b)

pub candidate-ne-primary : (app : Application) → candidate app ≢ primary app
candidate-ne-primary app = longer (primary app) "-candidate" 9 refl

pub next-ne-primary : (app : Application) → next app ≢ primary app
next-ne-primary app = longer (primary app) "-next" 4 refl

pub next-ne-candidate : (app : Application) → next app ≢ candidate app
next-ne-candidate app = λ e.
    texts_differ "-next" "-candidate" refl (append_cancel_left (primary app) "-next" "-candidate" e)

pub previous-ne-primary : (app : Application) → previous app ≢ primary app
previous-ne-primary app = longer (primary app) "-previous" 8 refl

pub previous-ne-next : (app : Application) → previous app ≢ next app
previous-ne-next app = λ e.
    texts_differ "-previous" "-next" refl (append_cancel_left (primary app) "-previous" "-next" e)

pub previous-ne-candidate : (app : Application) → previous app ≢ candidate app
previous-ne-candidate app = λ e.
    texts_differ "-previous" "-candidate" refl
      (append_cancel_left (primary app) "-previous" "-candidate" e)
