-- ===== src/Currency/Turns.antt =====
-- infra/sources/currency-converter.go: the sources are asked in turn.
use mogtrade_engine.Base.{
  ℕ, false, suc, zero, ◌+◌, ◌%◌, ◌≤◌, ◌<◌, ◌==◌, ◌≡◌, ◌≢◌, refl, inl, inr, Option-cases, Bool-cases,
  Option, none, some, String, List, [], ◌∷◌, length, get_elem?, arith,
}
use mogtrade_engine.Base.Dict.{Dict}
use mogtrade_engine.Currency.Converter.{
  ExchangeRateSource, CurrencyConverter, Rated, rated, all_sources_failed, out_of_range, ask,
  lookup_cache, try_sources, remembered, get_rates_from_sources,
}

mod_below : (a n : ℕ) → 0 < n → a % n < n
mod_below a n h = grind arith

module _ {R : Type 0} (sources : List (ExchangeRateSource R)) (base : String)
    (currencies : List String) (start : ℕ) where
  -- The source of an attempt is there, and this is what it gives.
  pub record Gives (attempt : ℕ) (answer : Option (Dict String R)) : Type 0 where
    pub source : ExchangeRateSource R
    pub at : get_elem? sources ((start + attempt) % length sources) ≡ some source
    pub gives : ask source base currencies ≡ answer

  -- The attempts from one number on, up to another, give nothing.
  abbrev pub Silent : ℕ → ℕ → Type 0
  Silent from to = (j : ℕ) → from ≤ j → j < to → Gives j none

  -- How the attempts end.
  pub data Turn (from to : ℕ) : Rated (Dict String R × ℕ) → Type 0 where
    served :
        (k : ℕ) (rates : Dict String R)
        → from ≤ k
        → k < to
        → Silent from k
        → Gives k (some rates)
        → Turn from to (rated (rates, ((start + k) % length sources + 1) % length sources))
    all_silent : Silent from to → Turn from to all_sources_failed

  within :
      (i : ℕ) (xs : List (ExchangeRateSource R))
      → i < length xs
      → (x : ExchangeRateSource R) × (get_elem? xs i ≡ some x)
  within i [] h = absurd (omega arith)
  within zero (x ∷ xs) h = (x, refl)
  within (suc i) (x ∷ xs) h = within i xs (omega arith)

  also : (from to : ℕ) → Gives from none → Silent (from + 1) to → Silent from to
  also from to here rest j low high = elim (Bool-cases (from == j)) [
    | inl equal ↦ let same : from ≡ j = ground arith in rw (← same) here
    | inr other ↦ rest j (ground arith) high
  ]

  one_more :
      (from to : ℕ) (r : Rated (Dict String R × ℕ))
      → from < to
      → Gives from none
      → Turn (from + 1) to r
      → Turn from to r
  one_more from to r h here (served k rates low high silent gives) =
      served k rates (omega arith) high (also from k here silent) gives
  one_more from to r h here (all_silent silent) = all_silent (also from to here silent)

  try_sources-Turn :
      (left attempt : ℕ)
      → 0 < length sources
      → attempt + left ≡ length sources
      → Turn attempt (length sources) (try_sources sources base currencies start left attempt)
  unfolding try_sources
  try_sources-Turn zero attempt some_source total = all_silent (λ j low high. absurd (omega arith))
  try_sources-Turn (suc left) attempt some_source total =
      let (source, at) =
        within ((start + attempt) % length sources) sources
          (mod_below (start + attempt) (length sources) some_source) in
      elim (Option-cases (ask source base currencies)) [
        | inl nothing ↦
            rw (at, nothing, try_sources)
              (one_more attempt (length sources) _ (omega arith)
                (record { source = source; at = at; gives = nothing })
                (try_sources-Turn left (attempt + 1) some_source (omega arith)))
        | inr (rates, given) ↦
            rw (at, given, try_sources)
              (served attempt rates (omega arith) (omega arith) (λ j low high. absurd (omega arith))
                (record { source = source; at = at; gives = given }))
      ]

module _ {R : Type 0} where
  -- When the cache has nothing and there are sources, they are asked one after another from the one
  -- whose turn it is, each once: the answer is that of the first that gives something, in bulk or
  -- singly, and the turn goes to the one after it; when none gives anything, all were asked, the
  -- answer is an error, and the turn stays where it was.
  pub get_rates_from_sources-Turn :
      (sources : List (ExchangeRateSource R)) (now : ℕ) (base : String) (currencies : List String)
      (c : CurrencyConverter R)
      → lookup_cache c now ≡ none
      → 0 < length sources
      → (r : Rated (Dict String R × ℕ)) × Turn sources base currencies c.source_index 0
          (length sources)
          r
        × (get_rates_from_sources sources now base currencies c ≡ remembered c r)
  unfolding get_rates_from_sources
  get_rates_from_sources-Turn sources now base currencies c missed some_source =
      let present : (length sources == 0) ≡ false = ground arith in
      (
        try_sources sources base currencies c.source_index (length sources) 0,
        try_sources-Turn sources base currencies c.source_index (length sources) 0 some_source
            (omega arith),
        rw (missed, get_rates_from_sources) (rw present refl),
      )

  Turn-below :
      (sources : List (ExchangeRateSource R)) (base : String) (currencies : List String)
      (start from to : ℕ) (c : CurrencyConverter R) (r : Rated (Dict String R × ℕ))
      → 0 < length sources
      → c.source_index < length sources
      → Turn sources base currencies start from to r
      → ((remembered c r).1.source_index < length sources) × ((remembered c r).0 ≢ out_of_range)
  Turn-below sources base currencies start from to c r some_source h
        (served k rates low high silent gives) =
      (
        mod_below ((start + k) % length sources + 1) (length sources) some_source,
        λ e. ground (arith, e),
      )
  Turn-below sources base currencies start from to c r some_source h (all_silent silent) =
      (h, λ e. ground (arith, e))

  -- The index of the next source stays below the number of sources, so that no call ends in an
  -- index out of range.
  pub get_rates_from_sources_below :
      (sources : List (ExchangeRateSource R)) (now : ℕ) (base : String) (currencies : List String)
      (c : CurrencyConverter R)
      → c.source_index < length sources
      → let r = get_rates_from_sources sources now base currencies c in
        (r.1.source_index < length sources) × (r.0 ≢ out_of_range)
  unfolding get_rates_from_sources
  get_rates_from_sources_below sources now base currencies c h =
      elim (Option-cases (lookup_cache c now)) [
        | inr (rates, hit) ↦ rw (hit, get_rates_from_sources) (h, λ e. ground (arith, e))
        | inl missed ↦
            let some_source : 0 < length sources = omega arith in
            let (r, turn, same) =
              get_rates_from_sources-Turn sources now base currencies c missed some_source in
            rw same (
              Turn-below sources base currencies c.source_index 0 (length sources) c r some_source h
                turn)
      ]
