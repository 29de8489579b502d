-- ===== src/Fleet/Etags/Rounds.antt =====
-- clientHasETag of transport/http/deployment.go: its loop ends.
use Prim.Native.Char.{Char, code}
use specification_enhancemen.Prelude.{
  ℕ, zero, suc, ◌+◌, ◌<◌, ◌≤◌, String, Bool, false, not, Option, none, some, ◌≡◌, refl, arith,
  Bool-cases, Option-cases, inl, inr, ◌⊎◌,
}
use specification_enhancemen.Transport.Renewal.{trim_left}
use specification_enhancemen.Fleet.Fetching.{count_chars}
use specification_enhancemen.Fleet.Etags.{
  TagChar, backslash, quote, plain, tag_char, put_front, scan_tag, after_comma, after_char,
  after_weak, is_separator, is_gap, Round, stop, next, tag_round, round, match_tags,
}

trim_left_le : (p : ℕ → Bool) (s : String) → count_chars (trim_left p s) ≤ count_chars s
unfolding trim_left count_chars
trim_left_le p String.[] = omega arith
trim_left_le p (String.◌∷◌ c s) = ground (arith, trim_left_le p s)

after_char_lt :
    (n : ℕ) (s rest : String) → after_char n s ≡ some rest → count_chars rest < count_chars s
unfolding after_char count_chars
after_char_lt n String.[] rest e = absurd (ground arith)
after_char_lt n (String.◌∷◌ c s) rest e = ground arith

after_comma_lt : (s rest : String) → after_comma s ≡ some rest → count_chars rest < count_chars s
unfolding after_comma count_chars
after_comma_lt String.[] rest e = absurd (ground arith)
after_comma_lt (String.◌∷◌ c s) rest e = ground (arith, after_comma_lt s rest)

after_weak_lt : (s rest : String) → after_weak s ≡ some rest → count_chars rest < count_chars s
unfolding after_weak
after_weak_lt s rest e = elim (Option-cases (after_char 87 s)) [
  | inl miss ↦ absurd (ground arith)
  | inr (t, hit) ↦
      let first = after_char_lt 87 s t hit in
      let second = after_char_lt 47 t rest (ground arith) in omega arith
]

put_front-some :
    (c : Char) (o : Option (String × String)) (tag rest : String)
    → put_front c o ≡ some (tag, rest)
    → (tag' : String) × (o ≡ some (tag', rest))
put_front-some c none tag rest e = absurd (ground arith)
put_front-some c (some (tag', rest')) tag rest e = (tag', ground arith)

TagChar-cases : (k : TagChar) → (k ≡ backslash) ⊎ ((k ≡ quote) ⊎ (k ≡ plain))
TagChar-cases backslash = inl refl
TagChar-cases quote = inr (inl refl)
TagChar-cases plain = inr (inr refl)

scan_tag_lt :
    (escaped : Bool) (s tag rest : String)
    → scan_tag escaped s ≡ some (tag, rest)
    → count_chars rest < count_chars s
unfolding scan_tag count_chars
scan_tag_lt escaped String.[] tag rest e = absurd (ground arith)
scan_tag_lt escaped (String.◌∷◌ c s) tag rest e = elim (TagChar-cases (tag_char (code c))) [
  | inl b ↦
      let (tag', g) =
        put_front-some c (scan_tag (not escaped) s) tag rest (rw (b, scan_tag) at e) in
      let ih = scan_tag_lt (not escaped) s tag' rest g in omega arith
  | inr (inr p) ↦
      let (tag', g) = put_front-some c (scan_tag false s) tag rest (rw (p, scan_tag) at e) in
      let ih = scan_tag_lt false s tag' rest g in omega arith
  | inr (inl q) ↦ elim (Bool-cases escaped) [
    | inl t ↦
        let (tag', g) = put_front-some c (scan_tag false s) tag rest (rw (q, t, scan_tag) at e) in
        let ih = scan_tag_lt false s tag' rest g in omega arith
    | inr f ↦
        let here : some (String.◌∷◌ c "", s) ≡ some (tag, rest) = rw (q, f, scan_tag) at e in
        ground arith
  ]
]

tag_round_lt :
    (mark current s rest : String)
    → tag_round mark current s ≡ next rest
    → count_chars rest < count_chars s
unfolding tag_round
tag_round_lt mark current s rest e = elim (Option-cases (after_char 34 s)) [
  | inl miss ↦ elim (Option-cases (after_comma s)) [
    | inl none_left ↦ absurd (ground arith)
    | inr (t, hit) ↦ after_comma_lt s rest (ground arith)
  ]
  | inr (inner, hit) ↦ elim (Option-cases (scan_tag false inner)) [
    | inl open_end ↦ absurd (ground arith)
    | inr ((tag, t), scanned) ↦
        let first = after_char_lt 34 s inner hit in
        let second = scan_tag_lt false inner tag t scanned in
        let same : t ≡ rest = ground arith in rw (← same) (omega arith)
  ]
]

round_lt :
    (current s rest : String) → round current s ≡ next rest → count_chars rest < count_chars s
unfolding round
round_lt current s rest e =
    let r = trim_left is_separator s in
    let trimmed = trim_left_le is_separator s in
    elim (Option-cases (after_char 42 r)) [
      | inr (t, star) ↦ absurd (ground arith)
      | inl miss ↦ elim (Option-cases (after_weak r)) [
        | inl strong ↦ let shorter = tag_round_lt "" current r rest (ground arith) in omega arith
        | inr (t, weak) ↦
            let first = after_weak_lt r t weak in
            let second = trim_left_le is_gap t in
            let shorter = tag_round_lt "W/" current (trim_left is_gap t) rest (ground arith) in
            omega arith
      ]
    ]

Round-cases : (r : Round) → ((b : Bool) × (r ≡ stop b)) ⊎ ((s : String) × (r ≡ next s))
Round-cases (stop b) = inl (b, refl)
Round-cases (next s) = inr (s, refl)

-- More rounds than characters are enough for an answer, and it is the same for each such number.
match_tags_enough :
    (n m : ℕ) (current s : String)
    → count_chars s < n
    → count_chars s < m
    → (answer : Bool) × (match_tags n current s ≡ some answer)
      × (match_tags m current s ≡ some answer)
unfolding match_tags
match_tags_enough zero m current s hn hm = absurd (omega arith)
match_tags_enough (suc n) zero current s hn hm = absurd (omega arith)
match_tags_enough (suc n) (suc m) current s hn hm = elim (Round-cases (round current s)) [
  | inl (b, e) ↦ (b, rw (e, match_tags) refl, rw (e, match_tags) refl)
  | inr (rest, e) ↦
      let shorter = round_lt current s rest e in
      let (b, f, g) = match_tags_enough n m current rest (omega arith) (omega arith) in
      (b, rw (e, match_tags) f, rw (e, match_tags) g)
]

-- The loop over a header ends after at most one round more than it has characters: given that many
-- rounds it has an answer, and any further ones leave it as it is.
pub match_tags_ends :
    (n : ℕ) (current s : String)
    → (answer : Bool) × (match_tags (suc (count_chars s)) current s ≡ some answer)
      × (match_tags (suc (count_chars s) + n) current s ≡ some answer)
match_tags_ends n current s =
    match_tags_enough (suc (count_chars s)) (suc (count_chars s) + n) current s (omega arith)
      (omega arith)
