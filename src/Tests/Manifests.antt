-- ===== src/Tests/Manifests.antt =====
-- A manifest, amounts of money and a builder.
use quant_forge_quant_resear.Common.Int
use quant_forge_quant_resear.Common.{
  ℕ, String, Bool, false, Option, none, some, List, [], ◌∷◌, ◌++◌, ◌*◌, ◌+◌, ◌≡◌, refl, arith,
  str_eq, if◌then◌else◌,
}
use quant_forge_quant_resear.Common.Int.{ℤ, pos}
use quant_forge_quant_resear.StringUtils
use quant_forge_quant_resear.StringUtils.{codes}
use quant_forge_quant_resear.StringUtils.Decimal
use quant_forge_quant_resear.StringUtils.Decimal.{print_nat}
use quant_forge_quant_resear.Result.{ok, throw, runtime_error, length_error}
use quant_forge_quant_resear.Money.Parse.{parse_microdollars}
use quant_forge_quant_resear.Money.Parse.Exact.{
  parse_microdollars-short, micros_of, parse_microdollars-exact,
}
use quant_forge_quant_resear.Manifest
use quant_forge_quant_resear.Manifest.{Object, Document, PluginManifest, parse_json}
use quant_forge_quant_resear.Manifest.Accepted.{IsAccepted, parse_json-IsAccepted}
use quant_forge_quant_resear.Forge.{new_builder, validate}
use quant_forge_quant_resear.Forge.Built.{With, chained, validate-chained}
use quant_forge_quant_resear.Tests.Fixed.{fixed}

-- The longest string of libstdc++
abbrev longest : ℕ
longest = 9223372036854775807

-- the amount that manifest.schema.json gives as an example
parse_microdollars-short_example :
    parse_microdollars longest (codes "150" ++ (b'.' ∷ codes "00")) ≡ throw length_error
parse_microdollars-short_example =
    parse_microdollars-short longest (codes "150") (codes "00") (omega arith) (omega arith)
      (omega arith)

parse_microdollars-exact_example :
    parse_microdollars longest (print_nat 150 ++ (b'.' ∷ (micros_of 250000 ++ codes "9")))
    ≡ ok (pos (150 * 1000000 + 250000))
parse_microdollars-exact_example =
    parse_microdollars-exact longest 150 250000 (codes "9") (omega arith) (omega arith)

validate-chained_example :
    validate (
      chained
        (With.data_provider tt ∷ With.http_client_factory 7 ∷ With.plugin_names ("a" ∷ []) ∷ [])
        (new_builder {Provider = Unit} {Client = ℕ} {Renderer = String} {Manager = Bool}))
    ≡ throw (runtime_error "Data provider is required")
validate-chained_example =
    validate-chained
      (With.data_provider tt ∷ With.http_client_factory 7 ∷ With.plugin_names ("a" ∷ []) ∷ [])

abbrev texts : List (String × String)
texts =
    ("name", "a")
    ∷ ("kind", "native")
    ∷ ("entry", "a.so")
    ∷ ("description", "")
    ∷ ("author", "")
    ∷ ("version", "1")
    ∷ ("initial_capital", "150.000000")
    ∷ ("backtest_start_datetime", "2024-01-01")
    ∷ ("backtest_end_datetime", "2024-02-01")
    ∷ ("commission_type", "flat")
    ∷ ("slippage_model", "none")
    ∷ ("default_currency", "USD")
    ∷ ("timezone", "America/New_York")
    ∷ ("optimization_mode", "none")
    ∷ ("position_sizing_method", "fixed_dollar")
    ∷ ("symbol", "A")
    ∷ ("timespan_unit", "day")
    ∷ []

unfoldable under : String → List (String × String) → Option String
under key [] = none
under key ((name, text) ∷ rest) = if str_eq name key then some text else under key rest

-- every number is 1 and every switch is off
abbrev values : Object ℤ
values = record {
  get_string = λ key. under key texts;
  get_bool = λ key. some false;
  get_int64 = λ key. some (pos 1);
  get_double = λ key. some (pos 1000000);
}

abbrev document : Document ℤ
document = record {
  doc = values;
  host = values;
  symbols = some (some values ∷ []);
  strategy_params = some "{}";
}

parsed : (m : PluginManifest ℤ) × (parse_json longest document ≡ ok m)
unfolding under parse_json Manifest.parse_symbols Manifest.parse_symbol Manifest.raw_symbols
    Manifest.parse_host_params Manifest.strategy_text Manifest.parse_value Manifest.to_int
    parse_microdollars StringUtils.behind StringUtils.before StringUtils.erase_front
    StringUtils.is_space Decimal.scan Int.◌+ℤ◌ Int.◌*ℤ◌ fixed
parsed = (_, refl)

parse_json-IsAccepted_example : IsAccepted parsed.0
parse_json-IsAccepted_example = parse_json-IsAccepted longest document parsed.0 parsed.1
