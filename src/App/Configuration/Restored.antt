-- ===== src/App/Configuration/Restored.antt =====
-- The runtime configuration that a rollback starts with.
use mini_dock.Prelude.{
  ◌≡◌, refl, ap, ◌∙◌, String, Option, none, some, [], ◌∷◌, arith, ◌=s=◌, eq_iff, if◌then◌else◌,
  is_some,
}
use mini_dock.App.Configuration.{
  Values, delete_name, value_of, with_values, without_names, DeploymentConfiguration, Codec,
  restored, restored_configuration, rollback_configuration,
}

value-delete_name :
    (name : String) (m : Values) (other : String)
    → value_of other (delete_name name m) ≡ (if name =s= other then none else value_of other m)
unfolding delete_name value_of
value-delete_name name [] other = ground arith
value-delete_name name (v ∷ vs) other =
    ground
      (arith, value-delete_name name vs other, eq_iff v.0 name, eq_iff v.0 other, eq_iff name other)

value-without_names :
    (public runtime : Values) (name : String)
    → value_of name (without_names public runtime)
      ≡ (if is_some (value_of name public) then none else value_of name runtime)
unfolding without_names value_of
value-without_names [] runtime name = refl
value-without_names (v ∷ vs) runtime name = ground (
  arith,
  value-without_names vs (delete_name v.0 runtime) name,
  value-delete_name v.0 runtime name,
)

abbrev pub or_value : Option String → Option String → Option String
or_value none other = other
or_value (some value) other = some value

pub value-with_values :
    (recorded m : Values) (name : String)
    → value_of name (with_values recorded m) ≡ or_value (value_of name recorded) (value_of name m)
unfolding with_values value_of
value-with_values [] m name = refl
value-with_values (v ∷ vs) m name = ground (arith, value-with_values vs m name)

or_none : (o : Option String) → or_value o none ≡ o
or_none none = refl
or_none (some value) = refl

restoration_eq : {c d : DeploymentConfiguration} → restored c ≡ restored d → c ≡ d
restoration_eq e = cc

-- What a rollback's container is to get under a name: the recorded value, else no value if the name
-- is one of today's public ones, else today's secret.
abbrev pub expected_value : DeploymentConfiguration → Values → String → Option String
expected_value c recorded name =
    or_value (value_of name recorded)
      (if is_some (value_of name c.public_runtime) then none else value_of name c.runtime)

-- If rollbackConfiguration succeeds on a manifest whose recorded runtime configuration is
-- `recorded`, then a name has the recorded value, and a name that was not recorded has a value
-- only if it is none of today's public names, namely the one that it has today. The build
-- arguments and build secrets are today's.
pub rollback_configuration_lem :
    (k : Codec) (c c' : DeploymentConfiguration) (manifest name : String) (recorded : Values)
    → k.recorded_configuration manifest ≡ some (some recorded)
    → rollback_configuration k c manifest ≡ restored c'
    → (value_of name c'.runtime ≡ expected_value c recorded name)
      × (value_of name c'.public_runtime ≡ value_of name recorded)
      × (c'.build_args ≡ c.build_args)
      × (c'.build_secrets ≡ c.build_secrets)
unfolding rollback_configuration value_of
rollback_configuration_lem k c c' manifest name recorded read done_ =
    let same : restored_configuration k c recorded ≡ c' = restoration_eq (rw read at done_) in
    rw (← same) (
      value-with_values recorded (without_names c.public_runtime c.runtime) name
          ∙ ap (or_value (value_of name recorded))
              (value-without_names c.public_runtime c.runtime name),
      value-with_values recorded [] name ∙ or_none (value_of name recorded),
      refl,
      refl,
    )
