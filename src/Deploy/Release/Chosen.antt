-- ===== src/Deploy/Release/Chosen.antt =====
-- The choice between the built-in adapters.
use mini_dock.Prelude.{
  ◌≡◌, refl, String, false, List, [], inl, inr, arith, ◌⊎◌, Bool-cases, ◌=s=◌, eq_iff,
}
use mini_dock.Store.Tables.{Application}
use mini_dock.Deploy.Failures.{Failure, selected, wanted_runtime, select_runtime}
use mini_dock.Deploy.Host.{DockerNetwork, Host}
use mini_dock.Deploy.Adapters.{
  Adapter, docker_adapter, adapters, adapter_named, available, adapter_for, adapter,
}
use mini_dock.Deploy.Source.{Workshop}
use mini_dock.Deploy.Failures.{Got, got, missed}

module _ {E : Type 0} (w : Workshop E) (h : Host E) (network : DockerNetwork)
    (app : Application) where
  -- Of the built-in adapters, only Docker's is ever chosen.
  pub chosen-docker :
      (apple : Adapter E)
      → let known = adapters [] (docker_adapter h network) apple in
        (adapter w app known ≡ got (docker_adapter h network))
        ⊎ ((f : Failure) × (adapter w app known ≡ missed f))
  unfolding select_runtime adapter_named
  chosen-docker apple = by_wanted (wanted_runtime app.runtime w.host_runtime)
    where
      built_in : List (String × Adapter E)
      built_in = adapters [] (docker_adapter h network) apple

      Chosen : Got (Adapter E) → Type 0
      Chosen chosen =
          (chosen ≡ got (docker_adapter h network)) ⊎ ((f : Failure) × (chosen ≡ missed f))

      by_name :
          (wanted : String)
          → (wanted =s= "apple") ≡ false
          → Chosen (adapter_for w app built_in (selected wanted))
      by_name wanted other = elim (Bool-cases ("docker" =s= wanted)) [
        | inl docker ↦ rw docker (inl refl)
        | inr none_ ↦ elim (Bool-cases ("apple" =s= wanted)) [
          | inl apple_ ↦ absurd (ground (arith, eq_iff "apple" wanted, eq_iff wanted "apple"))
          | inr unknown ↦ rw (none_, unknown) (inr (_, refl))
        ]
      ]

      by_wanted :
          (wanted : String)
          → Chosen (adapter_for w app built_in (select_runtime wanted (available w app built_in)))
      by_wanted wanted = elim (Bool-cases (wanted =s= "auto")) [
        | inl auto ↦ elim (Bool-cases (w.runtime_ready "docker")) [
          | inl ready ↦ rw (auto, ready) (inl refl)
          | inr down ↦ rw (auto, down) (inl refl)
        ]
        | inr named ↦ elim (Bool-cases (wanted =s= "apple")) [
          | inl apple_ ↦ rw (named, apple_) (inr (_, refl))
          | inr other ↦ elim (Bool-cases (available w app built_in wanted)) [
            | inl ready ↦ rw (named, other, ready) (by_name wanted other)
            | inr down ↦ rw (named, other, down) (inr (_, refl))
          ]
        ]
      ]
