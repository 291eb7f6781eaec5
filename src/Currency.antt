-- ===== src/Currency.antt =====
-- infra/sources/currency-converter.go and app/helpers/finance.go: the exchange rates of a list of
-- currencies, from the sources in turn.
pub mod Converter
pub mod Turns
pub mod Rates
pub mod Tests
