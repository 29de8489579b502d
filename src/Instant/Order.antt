-- ===== src/Instant/Order.antt =====
-- How the order of the stored texts relates to the order of the instants.
use specification_enhancemen.Prelude.{
  ℕ, ◌+◌, ◌*◌, ◌/◌, ◌%◌, ◌≤◌, ◌<◌, ◌≡◌, refl, true, false, arith, ltb, ltb→lt, lt→ltb, Bool-cases,
  inl, inr, ◌⊎◌,
}
use specification_enhancemen.Instant.{Instant, second, text_lt}

pub text_lt-seconds : (a b : Instant) → a / second < b / second → text_lt a b ≡ true
unfolding text_lt
text_lt-seconds a b h = rw (lt→ltb _ _ h) refl

pub text_lt-earlier : (a b : Instant) → b / second < a / second → text_lt a b ≡ false
unfolding text_lt
text_lt-earlier a b h = ground arith

-- Between instants a second or more apart the texts are ordered as the instants are.
pub text_lt_of_gap : (a b : Instant) → a + second ≤ b → text_lt a b ≡ true
text_lt_of_gap a b h = text_lt-seconds a b (omega arith)

-- A text comes before another one only if its instant is less than a second too late.
pub text_lt-slack : (a b : Instant) → text_lt a b ≡ true → a < b + second
text_lt-slack a b h = elim (Bool-cases (ltb a (b + second))) [
  | inl near ↦ ltb→lt _ _ near
  | inr far ↦ ground (arith, text_lt-earlier a b)
]

-- The texts of a whole second and of a later instant in that second are in the wrong order.
pub text_lt-inverted : (s f : ℕ) → 0 < f → f < second → text_lt (s * second + f) (s * second) ≡ true
unfolding text_lt
text_lt-inverted s f pos small =
    let a : (s * second + f) / second ≡ s = omega arith in
    let b : s * second / second ≡ s = omega arith in
    let c : (s * second + f) % second ≡ f = omega arith in
    let d : s * second % second ≡ 0 = omega arith in rw (a, b, c, d) (ground arith)

-- The same instant, or one in a later second: a stored time that is over at the first is then over at
-- the second too.
abbrev pub IsFrom : Instant → Instant → Type 0
IsFrom now later = (later ≡ now) ⊎ (now / second < later / second)

pub text_lt-IsFrom :
    (now later t : Instant) → IsFrom now later → text_lt later t ≡ true → text_lt now t ≡ true
text_lt-IsFrom now later t (inl same) live = rw (← same) live
text_lt-IsFrom now later t (inr next) live = elim (Bool-cases (ltb (t / second) (later / second))) [
  | inl gone ↦ ground (arith, text_lt-earlier later t)
  | inr still ↦ text_lt-seconds now t (ground (arith, still))
]
