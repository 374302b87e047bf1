-- ===== src/Watchdog/Select/Order.antt =====
-- The order of texts by which run ids are compared (select.ts, `>` on strings) is strict.
use tribe.Base.{codes, ℕ, String, ◌≡◌, refl, true, false, List, [], ◌∷◌, arith}
use tribe.Watchdog.Select.{lex_lt, str_lt}

lex_lt_irrefl : (xs : List ℕ) → lex_lt xs xs ≡ false
lex_lt_irrefl [] = refl
lex_lt_irrefl (x ∷ xs) = ground (arith, lex_lt_irrefl xs)

lex_lt_trans : (xs ys zs : List ℕ) → lex_lt xs ys ≡ true → lex_lt ys zs ≡ true → lex_lt xs zs ≡ true
lex_lt_trans xs [] zs h k = cc
lex_lt_trans xs (y ∷ ys) [] h k = cc
lex_lt_trans [] (y ∷ ys) (z ∷ zs) h k = refl
lex_lt_trans (x ∷ xs) (y ∷ ys) (z ∷ zs) h k = ground (arith, lex_lt_trans xs ys zs)

pub str_lt_irrefl : (s : String) → str_lt s s ≡ false
unfolding str_lt
str_lt_irrefl s = lex_lt_irrefl (codes s)

-- Nothing below `s` is above what lies over `s`.
pub str_lt_trans : (s t u : String) → str_lt s t ≡ true → str_lt t u ≡ true → str_lt s u ≡ true
unfolding str_lt
str_lt_trans s t u = lex_lt_trans (codes s) (codes t) (codes u)

-- What is not above `s` is not above anything over `s`.
pub str_lt-raise : (s t u : String) → str_lt s t ≡ true → str_lt s u ≡ false → str_lt t u ≡ false
str_lt-raise s t u h k = ground (arith, str_lt_trans s t u)
