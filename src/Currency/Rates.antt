-- ===== src/Currency/Rates.antt =====
-- infra/sources/currency-converter.go and app/helpers/finance.go: the rates that the callers get. The
-- division by a float32, and the test that a rate is positive, are parameters.
use mogtrade_engine.Base.{
  ℕ, ◌≡◌, ◌∙◌, refl, Bool, String, List, [], ◌∷◌, map, length, arith, string_eq,
}
use mogtrade_engine.Base.Dict.{Dict}
use mogtrade_engine.Currency.Converter.{
  ExchangeRateSource, CurrencyConverter, Rated, rated, no_sources, all_sources_failed, out_of_range,
  rates_of, listed, get_rates_from_sources, get_default_exchange_rates, inverted,
}

module _ {R Amount : Type 0} (zero_rate : R) (positive : R → Bool) (one_over : R → Amount)
    (zero_amount : Amount) where
  abbrev all_inverted :
      Rated (List R) × CurrencyConverter R → Rated (List Amount) × CurrencyConverter R
  all_inverted (rated rates, c) = (rated (map (inverted positive one_over zero_amount) rates), c)
  all_inverted (no_sources, c) = (no_sources, c)
  all_inverted (all_sources_failed, c) = (all_sources_failed, c)
  all_inverted (out_of_range, c) = (out_of_range, c)

  -- GetDefaultExchangeRateDecimalFor
  unfoldable pub get_default_exchange_rate_decimal_for :
      List (ExchangeRateSource R)
      → ℕ
      → List String
      → CurrencyConverter R
      → Rated (List Amount) × CurrencyConverter R
  get_default_exchange_rate_decimal_for sources now currencies c =
      all_inverted (get_default_exchange_rates zero_rate sources now currencies c)

  abbrev the_first : Rated (List Amount) × CurrencyConverter R → Rated Amount × CurrencyConverter R
  the_first (rated [], c) = (out_of_range, c)
  the_first (rated (x ∷ xs), c) = (rated x, c)
  the_first (no_sources, c) = (no_sources, c)
  the_first (all_sources_failed, c) = (all_sources_failed, c)
  the_first (out_of_range, c) = (out_of_range, c)

  -- GetDefaultExchangeRateFor
  unfoldable pub get_default_exchange_rate_for :
      List (ExchangeRateSource R)
      → ℕ
      → String
      → CurrencyConverter R
      → Rated Amount × CurrencyConverter R
  get_default_exchange_rate_for sources now currency c =
      the_first (get_default_exchange_rate_decimal_for sources now (currency ∷ []) c)

  length-map : {X Y : Type 0} (f : X → Y) (xs : List X) → length (map f xs) ≡ length xs
  length-map f [] = refl
  length-map f (x ∷ xs) = omega (arith, length-map f xs)

  length-listed :
      (base : String) (symbols : List String) (r : Rated (Dict String R) × CurrencyConverter R)
      (amounts : List Amount)
      → (all_inverted (listed zero_rate base symbols r)).0 ≡ rated amounts
      → length amounts ≡ length symbols
  length-listed base symbols (rated rates, c) amounts h =
      let same : map (inverted positive one_over zero_amount)
            (rates_of zero_rate base symbols rates)
          ≡ amounts =
        ground arith in
      rw (← same) (length-map _ (rates_of zero_rate base symbols rates) ∙ length-map _ symbols)
  length-listed base symbols (no_sources, c) amounts h = absurd (ground arith)
  length-listed base symbols (all_sources_failed, c) amounts h = absurd (ground arith)
  length-listed base symbols (out_of_range, c) amounts h = absurd (ground arith)

  -- There is one rate for each currency that was asked for, so that the callers' indices are in
  -- range.
  pub length-get_default_exchange_rate_decimal_for :
      (sources : List (ExchangeRateSource R)) (now : ℕ) (currencies : List String)
      (c : CurrencyConverter R) (amounts : List Amount)
      → (get_default_exchange_rate_decimal_for sources now currencies c).0 ≡ rated amounts
      → length amounts ≡ length currencies
  unfolding get_default_exchange_rate_decimal_for get_default_exchange_rates
  length-get_default_exchange_rate_decimal_for sources now currencies c amounts h =
      length-listed c.default_base currencies
        (get_rates_from_sources sources now c.default_base currencies c) amounts h
