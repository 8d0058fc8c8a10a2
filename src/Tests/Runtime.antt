-- ===== src/Tests/Runtime.antt =====
-- Names, filters and the graphs of the built-in runtime, at the samples.
use enterprise_databrick_fra.Prelude.{
  String, ◌<>◌, true, false, none, some, Each, List, [], ◌∷◌, ◌++◌, ok, err, ◌≡◌, ◌≢◌, ◌↔◌, ◌⊎◌,
  refl, value_error, ◌==◌, string_eq, if◌then◌else◌, contains,
}
use enterprise_databrick_fra.Prelude.Text.{split_dots, is_identifier}
use enterprise_databrick_fra.Metadata.Models.{TableSpec, QualitySpec}
use enterprise_databrick_fra.Names.{qualify_relation, runtime_name}
use enterprise_databrick_fra.Names.Laws.{
  Qualified, qualify_relation_iff, split_dots-qualify_relation, qualify_relation-injective,
  runtime_name-identifier,
}
use enterprise_databrick_fra.Quality.{valid_expression, invalid_expression, rules_for_action}
use enterprise_databrick_fra.Quality.Partition.{
  Truth, holds, fails, unknown, text, all_hold, some_fails, evaluate, negate, Some,
  filters_complementary, filters_lose_null,
}
use enterprise_databrick_fra.Pipelines.{Call, Pipelines, AutoCdc, create_auto_cdc_flow}
use enterprise_databrick_fra.Patterns.Contracts.{RuntimeContext}
use enterprise_databrick_fra.Runtime.Handlers.{build_builtin_runtime}
use enterprise_databrick_fra.Runtime.Register.{register_p07, register_p01}
use enterprise_databrick_fra.Runtime.Deletes.{DeletesCovered, build_builtin_runtime-DeletesCovered}
use enterprise_databrick_fra.Runtime.Failures.{
  streaming, IsRefused, undisturbed, build_builtin_runtime_raises, unordered,
  register_p07-unordered,
}
use enterprise_databrick_fra.Tests.Run.{run_all}
use enterprise_databrick_fra.Metadata.Enums.{DqAction}
use enterprise_databrick_fra.Runtime.Snapshots.{register_p01_quality}
use enterprise_databrick_fra.Tests.Samples.{
  products, orders, customers, production, amount_rule, id_rule,
}

orders_qualified : qualify_relation "main" "bronze.orders" ≡ ok "main.bronze.orders"
unfolding run_all
orders_qualified = refl

dotted_name : runtime_name "sales.orders" "valid_stream" ≡ "sales_orders_valid_stream"
unfolding run_all
dotted_name = refl

badly_named : runtime_name "9.a" "s" ≡ "edp_9_a_s"
unfolding run_all
badly_named = refl

qualify_relation_iff_example :
    (qualify_relation "main" "bronze.orders" ≡ ok "main.bronze.orders")
    ↔ Qualified "main" "bronze.orders" "main.bronze.orders"
qualify_relation_iff_example = qualify_relation_iff "main" "bronze.orders" "main.bronze.orders"

split_dots-qualify_relation_example :
    split_dots "main.bronze.orders" ≡ "main" ∷ split_dots "bronze.orders"
split_dots-qualify_relation_example =
    split_dots-qualify_relation "main" "bronze.orders" "main.bronze.orders" orders_qualified

qualify_relation-injective_example :
    ◌≡◌ {A = String} "main" "main" × ◌≡◌ {A = String} "bronze.orders" "bronze.orders"
qualify_relation-injective_example =
    qualify_relation-injective "main" "main" "bronze.orders" "bronze.orders" "main.bronze.orders"
      orders_qualified orders_qualified

runtime_name-identifier_example : is_identifier (runtime_name "9.a" "s") ≡ true
runtime_name-identifier_example = runtime_name-identifier "9.a" "s"

-- A row whose amount is NULL.
abbrev unpaid : String → Truth
unpaid expression = if expression == "amount > 0" then unknown else holds

filters_complementary_example :
    (valid_expression (amount_rule ∷ id_rule ∷ [])
      ≡ some (text (all_hold amount_rule (id_rule ∷ []))))
    × (invalid_expression (amount_rule ∷ id_rule ∷ [])
        ≡ some (text (some_fails amount_rule (id_rule ∷ []))))
    × ((evaluate unpaid (all_hold amount_rule (id_rule ∷ [])) ≡ holds)
        ↔ Each (λ r. unpaid r.expression ≡ holds) (amount_rule ∷ id_rule ∷ []))
    × (evaluate unpaid (some_fails amount_rule (id_rule ∷ []))
        ≡ negate (evaluate unpaid (all_hold amount_rule (id_rule ∷ []))))
filters_complementary_example = filters_complementary unpaid amount_rule (id_rule ∷ [])

filters_lose_null_example :
    (valid_expression (amount_rule ∷ id_rule ∷ [])
      ≡ some (text (all_hold amount_rule (id_rule ∷ []))))
    × (invalid_expression (amount_rule ∷ id_rule ∷ [])
        ≡ some (text (some_fails amount_rule (id_rule ∷ []))))
    × (((evaluate unpaid (all_hold amount_rule (id_rule ∷ [])) ≢ holds)
          × (evaluate unpaid (some_fails amount_rule (id_rule ∷ [])) ≢ holds))
        ↔ (Some unpaid unknown (amount_rule ∷ id_rule ∷ [])
            × (¬ (Some unpaid fails (amount_rule ∷ id_rule ∷ [])))))
filters_lose_null_example = filters_lose_null unpaid amount_rule (id_rule ∷ [])

-- The calls for the orders.
abbrev orders_calls : List Call
orders_calls = (build_builtin_runtime orders production []).1

orders_built : build_builtin_runtime orders production [] ≡ (ok tt, orders_calls)
unfolding run_all
orders_built = refl

build_builtin_runtime-DeletesCovered_example : DeletesCovered orders orders_calls
build_builtin_runtime-DeletesCovered_example =
    build_builtin_runtime-DeletesCovered orders production refl refl orders_calls orders_built

-- A pipelines module that takes one call.
abbrev full : Pipelines
full [] call = ok tt
full (taken ∷ calls) call = err (value_error "full")

abbrev refusing : RuntimeContext
refusing = record production { pipelines = full }

abbrev products_calls : List Call
products_calls = (build_builtin_runtime products refusing []).1

not_streamed : contains streaming "P01" ≡ false
unfolding run_all
not_streamed = refl

products_refused : (build_builtin_runtime products refusing []).0 ≡ err (value_error "full")
unfolding run_all
products_refused = refl

build_builtin_runtime_raises_example :
    (products_calls ≡ [])
    ⊎ IsRefused full
        (build_builtin_runtime products refusing)
        (build_builtin_runtime products (undisturbed products refusing))
        []
        (value_error "full")
build_builtin_runtime_raises_example =
    build_builtin_runtime_raises products refusing [] (value_error "full") not_streamed
      products_refused

-- The customers with an ordering of their source.
abbrev sequenced : TableSpec
sequenced = record customers {
  ordering = some (record { columns = "updated_at" ∷ []; authoritative = true });
}

abbrev sequenced_calls : List Call
sequenced_calls = (register_p07 sequenced production []).1

sequenced_built : register_p07 sequenced production [] ≡ (ok tt, sequenced_calls)
unfolding run_all
sequenced_built = refl

register_p07-unordered_example :
    (before : List Call) × (flow : AutoCdc) × (sequenced_calls
      ≡ before ++ create_auto_cdc_flow flow ∷ [])
    × (register_p07 (unordered sequenced production) production [] ≡ (
      err (value_error ("crm.customers" <> ": authoritative source ordering is required")),
      before,
    ))
register_p07-unordered_example =
    register_p07-unordered sequenced production [] sequenced_calls sequenced_built

-- The quality of the products without quarantine.
abbrev unquarantined : QualitySpec
unquarantined = record { rules = id_rule ∷ []; quarantine_table = none }

same_warnings :
    rules_for_action products.quality.rules DqAction.warn
    ≡ rules_for_action unquarantined.rules DqAction.warn
unfolding run_all
same_warnings = refl

same_failures :
    rules_for_action products.quality.rules DqAction.fail
    ≡ rules_for_action unquarantined.rules DqAction.fail
unfolding run_all
same_failures = refl

products_built : (register_p01 products production []).0 ≡ ok tt
unfolding run_all
products_built = refl

register_p01_quality_example :
    register_p01 products production []
    ≡ register_p01 (record products { quality = unquarantined }) production []
register_p01_quality_example =
    register_p01_quality products unquarantined production [] same_warnings same_failures
