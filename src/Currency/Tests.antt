-- ===== src/Currency/Tests.antt =====
-- Two sources of whole numbers, the first of which is silent, and the theorems at work on them.
use mogtrade_engine.Base.{
  ℕ, ◌≡◌, ◌≢◌, ◌<◌, refl, false, none, some, String, List, [], ◌∷◌, length, arith, string_eq,
}
use mogtrade_engine.Base.Dict.{Dict, insert, lookup}
use mogtrade_engine.Currency.Converter.{
  ExchangeRateSource, CurrencyConverter, Rated, rated, out_of_range, lookup_cache,
  get_rates_from_sources, remembered, try_sources, ask, keyed, pull_each,
  get_default_exchange_rates,
}
use mogtrade_engine.Currency.Turns.{Turn, get_rates_from_sources-Turn, get_rates_from_sources_below}

abbrev silent : ExchangeRateSource ℕ
silent = record { pull_bulk = λ base currencies. none; pull = λ base currency. none }

abbrev bank : ExchangeRateSource ℕ
bank = record {
  pull_bulk = λ base currencies. some (("XAF", 600) ∷ []);
  pull = λ base currency. none;
}

abbrev both_sources : List (ExchangeRateSource ℕ)
both_sources = silent ∷ bank ∷ []

abbrev converter : CurrencyConverter ℕ
converter = record {
  cache = record { opened = false; contents = none; modified_at = 0 };
  ttl_seconds = 300;
  default_base = "USD";
  source_index = 0;
}

cache_misses : lookup_cache converter 9 ≡ none
unfolding lookup_cache
cache_misses = refl

get_rates_from_sources-Turn_example :
    (r : Rated (Dict String ℕ × ℕ)) × Turn both_sources "USD"
      ("XAF" ∷ [])
      0
      0
      (length both_sources)
      r
    × (get_rates_from_sources both_sources 9 "USD" ("XAF" ∷ []) converter ≡ remembered converter r)
get_rates_from_sources-Turn_example =
    get_rates_from_sources-Turn both_sources 9 "USD" ("XAF" ∷ []) converter cache_misses
      (omega arith)

turn_in_range :
    ((get_rates_from_sources both_sources 9 "USD" ("XAF" ∷ []) converter).1.source_index
      < length both_sources)
    × ((get_rates_from_sources both_sources 9 "USD" ("XAF" ∷ []) converter).0 ≢ out_of_range)
turn_in_range =
    get_rates_from_sources_below both_sources 9 "USD" ("XAF" ∷ []) converter (omega arith)

-- The second source serves, and a currency that it does not know has the rate zero.
served :
    (get_default_exchange_rates 0 both_sources 9 ("XAF" ∷ "EUR" ∷ []) converter).0
    ≡ rated (600 ∷ 0 ∷ [])
unfolding get_default_exchange_rates get_rates_from_sources lookup_cache try_sources ask pull_each
    keyed insert lookup
served = refl
