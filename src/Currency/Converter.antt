-- ===== src/Currency/Converter.antt =====
-- infra/sources/currency-converter.go. What a source answers during a call is a function of what it
-- is asked; a rate is a float32, a parameter with its zero. The cache is a file: its state is what
-- reading it, its instant and json.Unmarshal give. Logging and the making of the file are left out.
use mogtrade_engine.Base.{
  ℕ, suc, zero, ◌+◌, ◌%◌, leb, ◌==◌, Bool, Option, none, some, String, append_text, List, [], ◌∷◌,
  map, length, get_elem?, if◌then◌else◌, string_eq, ◌is◌,
}
use mogtrade_engine.Base.Dict.{Dict, lookup, insert}

-- A source as the program sees it; `none` is an error.
pub record ExchangeRateSource (R : Type 0) : Type 0 where
  pub pull_bulk : String → List String → Option (Dict String R)
  pub pull : String → String → Option R

-- The file's rates, `none` where it cannot be read or holds no JSON of rates.
pub record CacheFile (R : Type 0) : Type 0 where
  pub opened : Bool
  pub contents : Option (Dict String R)
  pub modified_at : ℕ

pub record CurrencyConverter (R : Type 0) : Type 0 where
  pub cache : CacheFile R
  pub ttl_seconds : ℕ
  pub default_base : String
  pub source_index : ℕ

-- What is returned: the value, or one of the errors; an index out of range is a panic.
pub data Rated (X : Type 0) : Type 0 where
  rated : X → Rated X
  no_sources : Rated X
  all_sources_failed : Rated X
  out_of_range : Rated X

-- The key of a rate, BASE-DEST.
abbrev pub rate_key : String → String → String
rate_key base currency = append_text base (append_text "-" currency)

abbrev pub is_fresh : ℕ → ℕ → ℕ → Bool
is_fresh now modified ttl = leb now (modified + ttl)

module _ {R : Type 0} where
  abbrev pub non_empty : Dict String R → Option (Dict String R)
  non_empty [] = none
  non_empty (r ∷ rates) = some (r ∷ rates)

  abbrev pub read_rates : Option (Dict String R) → Option (Dict String R)
  read_rates none = none
  read_rates (some rates) = non_empty rates

  -- The rates of the file, if it is there, not empty and young enough.
  unfoldable pub lookup_cache : CurrencyConverter R → ℕ → Option (Dict String R)
  lookup_cache c now =
      if c.cache.opened
      then (if is_fresh now c.cache.modified_at c.ttl_seconds
          then read_rates c.cache.contents
          else none)
      else none

  -- Not called by the program.
  unfoldable pub populate_cache : Dict String R → ℕ → CurrencyConverter R → CurrencyConverter R
  populate_cache rates now c = record c {
    cache = record c.cache { contents = some rates; modified_at = now };
  }

  -- Rates under their keys.
  unfoldable pub keyed : String → Dict String R → Dict String R
  keyed base [] = []
  keyed base ((currency, rate) ∷ rates) = insert (rate_key base currency) rate (keyed base rates)

  -- The loop of single pulls, with the number of those that succeed.
  unfoldable pub pull_each :
      ExchangeRateSource R → String → List String → Dict String R → ℕ → Dict String R × ℕ
  pull_each source base [] rates n = (rates, n)
  pull_each source base (currency ∷ currencies) rates n = elim (source.pull base currency) [
    | none ↦ pull_each source base currencies rates n
    | some rate ↦
        pull_each source base currencies (insert (rate_key base currency) rate rates) (n + 1)
  ]

  abbrev pub counted : Dict String R × ℕ → Option (Dict String R)
  counted (rates, n) = if n == 0 then none else some rates

  abbrev pub bulk_or_single :
      ExchangeRateSource R → String → List String → Option (Dict String R) → Option (Dict String R)
  bulk_or_single source base currencies none = counted (pull_each source base currencies [] 0)
  bulk_or_single source base currencies (some rates) = some (keyed base rates)

  -- What one source gives: its bulk answer where that is not empty, else what it gives singly.
  unfoldable pub ask : ExchangeRateSource R → String → List String → Option (Dict String R)
  ask source base currencies =
      bulk_or_single source base currencies (read_rates (source.pull_bulk base currencies))

  -- The loop over the attempts that are left, from the source at `start`. With the rates comes the
  -- index of the source to begin with next time.
  unfoldable pub try_sources :
      List (ExchangeRateSource R) → String → List String → ℕ → ℕ → ℕ → Rated (Dict String R × ℕ)
  try_sources sources base currencies start zero attempt = all_sources_failed
  try_sources sources base currencies start (suc left) attempt =
      let rest = try_sources sources base currencies start left (attempt + 1) in
      let index = (start + attempt) % length sources in
      elim (get_elem? sources index) [
        | none ↦ out_of_range
        | some source ↦ elim (ask source base currencies) [
          | none ↦ rest
          | some rates ↦ rated (rates, (index + 1) % length sources)
        ]
      ]

  abbrev pub remembered :
      CurrencyConverter R → Rated (Dict String R × ℕ) → Rated (Dict String R) × CurrencyConverter R
  remembered c (rated (rates, next)) = (rated rates, record c { source_index = next })
  remembered c no_sources = (no_sources, c)
  remembered c all_sources_failed = (all_sources_failed, c)
  remembered c out_of_range = (out_of_range, c)

  -- The cache is looked at first, for any base.
  unfoldable pub get_rates_from_sources :
      List (ExchangeRateSource R)
      → ℕ
      → String
      → List String
      → CurrencyConverter R
      → Rated (Dict String R) × CurrencyConverter R
  get_rates_from_sources sources now base currencies c = elim (lookup_cache c now) [
    | some rates ↦ (rated rates, c)
    | none ↦
        if length sources == 0
        then (no_sources, c)
        else remembered c (try_sources sources base currencies c.source_index (length sources) 0)
  ]

  abbrev pub or_zero_rate : R → Option R → R
  or_zero_rate zero_rate none = zero_rate
  or_zero_rate zero_rate (some r) = r

  abbrev pub rates_of : R → String → List String → Dict String R → List R
  rates_of zero_rate base symbols rates =
      map (λ symbol. or_zero_rate zero_rate (lookup (rate_key base symbol) rates)) symbols

  abbrev pub listed :
      R
      → String
      → List String
      → Rated (Dict String R) × CurrencyConverter R
      → Rated (List R) × CurrencyConverter R
  listed zero_rate base symbols (rated rates, c) =
      (rated (rates_of zero_rate base symbols rates), c)
  listed zero_rate base symbols (no_sources, c) = (no_sources, c)
  listed zero_rate base symbols (all_sources_failed, c) = (all_sources_failed, c)
  listed zero_rate base symbols (out_of_range, c) = (out_of_range, c)

  unfoldable pub get_default_exchange_rates :
      R
      → List (ExchangeRateSource R)
      → ℕ
      → List String
      → CurrencyConverter R
      → Rated (List R) × CurrencyConverter R
  get_default_exchange_rates zero_rate sources now symbols c =
      listed zero_rate c.default_base symbols
        (get_rates_from_sources sources now c.default_base symbols c)

  -- The two branches of the source do the same.
  unfoldable pub get_exchange_rates :
      R
      → List (ExchangeRateSource R)
      → ℕ
      → String
      → List String
      → CurrencyConverter R
      → Rated (List R) × CurrencyConverter R
  get_exchange_rates zero_rate sources now base symbols c =
      if base is c.default_base
      then listed zero_rate base symbols (get_rates_from_sources sources now base symbols c)
      else listed zero_rate base symbols (get_rates_from_sources sources now base symbols c)

  -- helpers.GetDefaultExchangeRateDecimalFor: one over each rate, and zero for one that is not
  -- positive.
  abbrev pub inverted : {Amount : Type 0} → (R → Bool) → (R → Amount) → Amount → R → Amount
  inverted positive one_over zero_amount rate = if positive rate then one_over rate else zero_amount
