-- ===== src/Database/TextOrder.antt =====
-- The order of the texts in a database, `a < b` of columns of text. It is the collation of the
-- database, which is not in the repository: a parameter with the laws of a total order.
-- `by_codes` is the collation "C".
use Prim.Native.Char.{code}
use Prim.Native.String.{[] as end, ◌∷◌ as next}
use text.Mathlib.TextEquality.{Char-path}
use mogtrade_engine.Base.{◌≡◌, refl, Bool, true, false, ◌&&◌, ◌||◌, String, arith, ltb, ◌==◌}

pub record TextOrder : Type 0 where
  pub before : String → String → Bool
  pub before_irrefl : (a : String) → before a a ≡ false
  pub before_trans : (a b c : String) → before a b ≡ true → before b c ≡ true → before a c ≡ true
  pub before_connected : (a b : String) → before a b ≡ false → before b a ≡ false → a ≡ b

unfoldable pub before_code : String → String → Bool
before_code end end = false
before_code end (next c s) = true
before_code (next c s) end = false
before_code (next c s) (next d t) =
    let rest = before_code s t in ltb (code c) (code d) || (code c == code d) && rest

pub before_code_irrefl : (a : String) → before_code a a ≡ false
unfolding before_code
before_code_irrefl end = refl
before_code_irrefl (next c s) = ground (arith, before_code_irrefl s)

pub before_code_trans :
    (a b c : String) → before_code a b ≡ true → before_code b c ≡ true → before_code a c ≡ true
unfolding before_code
before_code_trans end end end h k = absurd (ground arith)
before_code_trans end (next y t) end h k = absurd (ground arith)
before_code_trans end b (next z u) h k = refl
before_code_trans (next x s) end c h k = absurd (ground arith)
before_code_trans (next x s) (next y t) end h k = absurd (ground arith)
before_code_trans (next x s) (next y t) (next z u) h k = ground (arith, before_code_trans s t u)

pub before_code_connected :
    (a b : String) → before_code a b ≡ false → before_code b a ≡ false → a ≡ b
unfolding before_code
before_code_connected end end h k = refl
before_code_connected end (next d t) h k = absurd (ground arith)
before_code_connected (next c s) end h k = absurd (ground arith)
before_code_connected (next c s) (next d t) h k =
    let same : code c ≡ code d = ground arith in
    let rest : s ≡ t = before_code_connected s t (ground arith) (ground arith) in
    λ i. next (Char-path c d same i) (rest i)

abbrev pub by_codes : TextOrder
by_codes = record {
  before = before_code;
  before_irrefl = before_code_irrefl;
  before_trans = before_code_trans;
  before_connected = before_code_connected;
}
