-- ===== src/Tests/Metadata.antt =====
-- The contracts of tables, at the samples.
use enterprise_databrick_fra.Prelude.{none, ok, err, ◌≡◌, ◌↔◌, refl, value_error}
use enterprise_databrick_fra.Metadata.Enums.{RecoveryMode}
use enterprise_databrick_fra.Metadata.Validators.{validate_semantics}
use enterprise_databrick_fra.Metadata.Coherent.{IsCoherent, validate_semantics_iff}
use enterprise_databrick_fra.Metadata.Construct.{model_validate}
use enterprise_databrick_fra.Metadata.Construct.Valid.{
  IsValid, ReplayCovers, model_validate_iff, model_validate-ReplayCovers,
}
use enterprise_databrick_fra.Tests.Run.{run_all}
use enterprise_databrick_fra.Tests.Samples.{orders, customers}

orders_accepted : model_validate orders ≡ ok orders
unfolding run_all
orders_accepted = refl

customers_accepted : model_validate customers ≡ ok customers
unfolding run_all
customers_accepted = refl

-- The ordering is demanded of a change feed.
orders_unordered :
    model_validate (record orders { ordering = none })
    ≡ err (value_error "change feeds require source ordering")
unfolding run_all
orders_unordered = refl

model_validate_iff_example : (model_validate orders ≡ ok orders) ↔ IsValid orders
model_validate_iff_example = model_validate_iff orders

model_validate-ReplayCovers_example : ReplayCovers orders RecoveryMode.replay_bronze
model_validate-ReplayCovers_example = model_validate-ReplayCovers orders orders_accepted

validate_semantics_iff_example : (validate_semantics orders ≡ ok orders) ↔ IsCoherent orders
validate_semantics_iff_example = validate_semantics_iff orders
