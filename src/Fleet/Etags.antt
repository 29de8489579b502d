-- ===== src/Fleet/Etags.antt =====
-- completed/sup_desired_state_via_manifest_api/pkg/wfm/adapter/transport/http/deployment.go:
-- clientHasETag, which reads the If-None-Match headers.
pub mod Rounds
use Prim.Native.Char.{Char, code}
use specification_enhancemen.Prelude.{
  ℕ, zero, suc, String, ◌<>◌, ◌==◌, Bool, true, false, ◌||◌, not, Option, none, some, List, [], ◌∷◌,
  if◌then◌else◌, eqb,
}
use specification_enhancemen.Transport.Renewal.{trim_left, trim_space}
use specification_enhancemen.Fleet.Fetching.{count_chars}

-- What the loop tells apart in a quoted tag
pub data TagChar : Type 0 where
  backslash quote plain : TagChar

unfoldable pub tag_char : ℕ → TagChar
tag_char c = if eqb c 92 then backslash else if eqb c 34 then quote else plain

abbrev pub put_front : Char → Option (String × String) → Option (String × String)
put_front c none = none
put_front c (some (tag, rest)) = some (String.◌∷◌ c tag, rest)

-- The loop over a quoted tag, behind its opening quote: the tag up to its closing quote, and what is
-- left behind it; none where the closing quote is missing.
unfoldable pub scan_tag : Bool → String → Option (String × String)
unfolding tag_char
scan_tag escaped String.[] = none
scan_tag escaped (String.◌∷◌ c s) = elim (tag_char (code c)) [
  | backslash ↦ put_front c (scan_tag (not escaped) s)
  | plain ↦ put_front c (scan_tag false s)
  | quote ↦ elim escaped [
    | true ↦ put_front c (scan_tag false s)
    | false ↦ some (String.◌∷◌ c "", s)
  ]
]

-- The text behind the first comma
unfoldable pub after_comma : String → Option String
after_comma String.[] = none
after_comma (String.◌∷◌ c s) = if eqb (code c) 44 then some s else after_comma s

-- The text behind this character, where it starts with it
unfoldable pub after_char : ℕ → String → Option String
after_char n String.[] = none
after_char n (String.◌∷◌ c s) = if eqb (code c) n then some s else none

-- The text behind "W/", where it starts with that
unfoldable pub after_weak : String → Option String
unfolding after_char
after_weak s = elim (after_char 87 s) [ none ↦ none | some rest ↦ after_char 47 rest ]

-- strings.TrimLeft of " \t," and of " \t"
abbrev pub is_separator : ℕ → Bool
is_separator c = eqb c 32 || eqb c 9 || eqb c 44

abbrev pub is_gap : ℕ → Bool
is_gap c = eqb c 32 || eqb c 9

-- A round of the loop: stop with this answer, or go on with what is left
pub data Round : Type 0 where
  stop : Bool → Round
  next : String → Round

-- A round from the tag on, behind its weakness mark
unfoldable pub tag_round : String → String → String → Round
unfolding scan_tag after_comma after_char
tag_round mark current s = elim (after_char 34 s) [
  | none ↦ elim (after_comma s) [ none ↦ stop false | some rest ↦ next rest ]
  | some inner ↦ elim (scan_tag false inner) [
    | none ↦ stop false
    | some (tag, rest) ↦ if (mark <> "\"" <> tag) == current then stop true else next rest
  ]
]

unfoldable pub round : String → String → Round
unfolding tag_round after_weak trim_left
round current remaining =
    let s = trim_left is_separator remaining in
    if s == "" then stop false else elim (after_char 42 s) [
      | some _ ↦ stop true
      | none ↦ elim (after_weak s) [
        | none ↦ tag_round "" current s
        | some rest ↦ tag_round "W/" current (trim_left is_gap rest)
      ]
    ]

-- The loop over what is left of a header, for at most so many rounds; none if it has not ended by then
unfoldable pub match_tags : ℕ → String → String → Option Bool
unfolding round
match_tags zero current remaining = none
match_tags (suc n) current remaining = elim (round current remaining) [
  | stop answer ↦ some answer
  | next rest ↦ match_tags n current rest
]

-- clientHasETag; a header has at most one round more than characters, so that each loop ends and none does not
-- occur.
unfoldable pub client_has_etag : List String → String → Bool
unfolding match_tags
client_has_etag values current = if current == "" then false else any_value values
  where
    any_value : List String → Bool
    any_value [] = false
    any_value (v ∷ vs) =
        elim (match_tags (suc (count_chars (trim_space v))) current (trim_space v)) [
          | none ↦ false
          | some answer ↦ answer || any_value vs
        ]
