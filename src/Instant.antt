-- ===== src/Instant.antt =====
-- Instants, and their text in the store: every time column of schema.sql holds
-- time.Time.Format(time.RFC3339Nano), and SQL compares those texts byte by byte.
pub mod Order
use specification_enhancemen.Prelude.{
  ℕ, zero, suc, ◌+◌, ◌/◌, ◌%◌, Bool, true, false, List, [], ◌∷◌, ◌++◌, ltb, eqb, if◌then◌else◌,
}

-- Nanoseconds since the first instant of year 1; the years are below 10000.
abbrev pub Instant : Type 0
Instant = ℕ

abbrev pub second : ℕ
second = 1000000000

-- k decimal digits of n, the most significant first.
fixed : ℕ → ℕ → List ℕ → List ℕ
fixed zero n acc = acc
fixed (suc k) n acc = fixed k (n / 10) ((b'0' + n % 10) ∷ acc)

-- The same without trailing zeros.
trimmed : ℕ → ℕ → List ℕ
unfolding fixed
trimmed zero n = []
trimmed (suc k) n = elim (eqb (n % 10) 0) [ true ↦ trimmed k (n / 10) | false ↦ fixed (suc k) n [] ]

-- What RFC3339Nano writes behind the seconds, in UTC.
fraction_text : ℕ → List ℕ
unfolding trimmed
fraction_text n = if eqb n 0 then b'Z' ∷ [] else b'.' ∷ (trimmed 9 n ++ b'Z' ∷ [])

lex_lt : List ℕ → List ℕ → Bool
lex_lt [] [] = false
lex_lt [] (y ∷ ys) = true
lex_lt (x ∷ xs) [] = false
lex_lt (x ∷ xs) (y ∷ ys) =
    let rest = lex_lt xs ys in if ltb x y then true else if ltb y x then false else rest

-- `a < b` of SQL between two time columns. The part up to the seconds has a fixed width and no
-- leading blanks, so there the order of the texts is that of the numbers.
unfoldable pub text_lt : Instant → Instant → Bool
unfolding lex_lt fraction_text
text_lt a b =
    if ltb (a / second) (b / second)
    then true
    else if ltb (b / second) (a / second)
    then false
    else lex_lt (fraction_text (a % second)) (fraction_text (b % second))
