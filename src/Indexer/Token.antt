-- ===== src/Indexer/Token.antt =====
-- internal/indexer/token.go: links that only the source that issued them can resolve.
use torrnado.Common.{
  ℕ, ◌≤◌, ◌<◌, ◌≡◌, ◌≢◌, refl, ap, ◌∙◌, Bool, true, false, ◌&&◌, ◌||◌, not, Option, none, some, [],
  ◌∷◌, ◌++◌, arith, ◌==◌, ltb, leb, if◌then◌else◌, ◌⊎◌, inl, inr, ◌↔◌, length, All, Option-cases,
}
use torrnado.Common.Text.{Text, cut, every}

abbrev pub token_sep : ℕ
token_sep = 58

unfoldable pub token : Text → Text → Text
token source id = source ++ token_sep ∷ id

-- The bytes of a source's name, and those of its ids.
abbrev pub is_source_byte : ℕ → Bool
is_source_byte c = (leb 97 c && leb c 122) || (leb 48 c && leb c 57)

abbrev pub is_id_byte : ℕ → Bool
is_id_byte c =
    (leb 97 c && leb c 122)
    || (leb 65 c && leb c 90)
    || (leb 48 c && leb c 57)
    || c == 46
    || c == 95
    || c == 45

abbrev pub is_empty : Text → Bool
is_empty [] = true
is_empty (c ∷ s) = false

unfoldable pub checked_token : Text → Text → Option (Text × Text)
unfolding every
checked_token name rest =
    if is_empty name || is_empty rest
    then none
    else if ltb 32 (length name) || ltb 128 (length rest)
    then none
    else if not (every is_source_byte name)
    then none
    else if not (every is_id_byte rest)
    then none
    else some (name, rest)

unfoldable pub checked_cut : Option (Text × Text) → Option (Text × Text)
unfolding checked_token
checked_cut none = none
checked_cut (some (name, rest)) = checked_token name rest

unfoldable pub parse_token : Text → Option (Text × Text)
unfolding checked_cut cut
parse_token s = checked_cut (cut token_sep s)

-- What a source may be called, and what it may use as an id.
abbrev IsSourceByte : ℕ → Type 0
IsSourceByte c = ((97 ≤ c) × (c ≤ 122)) ⊎ ((48 ≤ c) × (c ≤ 57))

abbrev IsIdByte : ℕ → Type 0
IsIdByte c =
    ((97 ≤ c) × (c ≤ 122))
    ⊎ ((65 ≤ c) × (c ≤ 90))
    ⊎ ((48 ≤ c) × (c ≤ 57))
    ⊎ (c ≡ 46)
    ⊎ (c ≡ 95)
    ⊎ (c ≡ 45)

abbrev pub IsSource : Text → Type 0
IsSource s = (0 < length s) × (length s ≤ 32) × All IsSourceByte s

abbrev pub IsId : Text → Type 0
IsId s = (0 < length s) × (length s ≤ 128) × All IsIdByte s

source_bytes_of : (s : Text) → every is_source_byte s ≡ true → All IsSourceByte s
unfolding every
source_bytes_of [] h = tt
source_bytes_of (c ∷ s) h = ground (arith, source_bytes_of s)

every-source_bytes : (s : Text) → All IsSourceByte s → every is_source_byte s ≡ true
unfolding every
every-source_bytes [] h = refl
every-source_bytes (c ∷ s) (p, h) = ground (arith, every-source_bytes s h)

id_bytes_of : (s : Text) → every is_id_byte s ≡ true → All IsIdByte s
unfolding every
id_bytes_of [] h = tt
id_bytes_of (c ∷ s) h = ground (arith, id_bytes_of s)

every-id_bytes : (s : Text) → All IsIdByte s → every is_id_byte s ≡ true
unfolding every
every-id_bytes [] h = refl
every-id_bytes (c ∷ s) (p, h) = ground (arith, every-id_bytes s h)

-- A source's name has no separator, so the first one ends it.
cut-token :
    (name id : Text) → All IsSourceByte name → cut token_sep (token name id) ≡ some (name, id)
unfolding cut token
cut-token [] id h = refl
cut-token (c ∷ name) id (p, h) = ground (arith, cut-token name id h)

cut-scheme :
    (scheme rest : Text)
    → All (λ b. b ≢ token_sep) scheme
    → cut token_sep (scheme ++ token_sep ∷ rest) ≡ some (scheme, rest)
unfolding cut
cut-scheme [] rest h = refl
cut-scheme (c ∷ scheme) rest (p, h) = ground (arith, cut-scheme scheme rest h)

cut_sound :
    (s : Text) {name rest : Text} → cut token_sep s ≡ some (name, rest) → s ≡ token name rest
unfolding cut token
cut_sound [] h = cc
cut_sound (c ∷ s) {name} {rest} h = elim (Option-cases (cut token_sep s)) [
  | inl e ↦ ground arith
  | inr ((a, b), e) ↦ let tail = cut_sound s e in ground arith
]

checked_token_sound :
    (name rest : Text) {source id : Text}
    → checked_token name rest ≡ some (source, id)
    → (name ≡ source) × (rest ≡ id) × IsSource name × IsId rest
unfolding checked_token
checked_token_sound name rest {source} {id} h =
    ground (arith, source_bytes_of name, id_bytes_of rest)

checked_token_complete :
    (name rest : Text) → IsSource name → IsId rest → checked_token name rest ≡ some (name, rest)
unfolding checked_token
checked_token_complete name rest (a, b, c) (d, e, f) =
    ground (arith, every-source_bytes name c, every-id_bytes rest f)

parse_token_sound :
    (s : Text) (source id : Text)
    → parse_token s ≡ some (source, id)
    → (s ≡ token source id) × IsSource source × IsId id
unfolding parse_token
parse_token_sound s source id h = elim (Option-cases (cut token_sep s)) [
  | inl e ↦ let never : checked_cut none ≡ some (source, id) = rw (e) at h in cc (never)
  | inr ((a, b), e) ↦
      let (p, q, good, fine) = checked_token_sound a b (rw e at h) in
      (rw (← p, ← q) (cut_sound s e), rw (← p) good, rw (← q) fine)
]

parse_token-token :
    (source id : Text)
    → IsSource source
    → IsId id
    → parse_token (token source id) ≡ some (source, id)
unfolding parse_token
parse_token-token source id (a, b, c) fine =
    rw (cut-token source id c) (checked_token_complete source id (a, b, c) fine)

-- A text is a token of a source and an id exactly when it is what `Token` builds of the two, the
-- source is of 1 to 32 lower-case letters and digits, and the id of 1 to 128 letters, digits, dots,
-- underscores and dashes.
pub parse_token_iff :
    (s source id : Text)
    → (parse_token s ≡ some (source, id)) ↔ ((s ≡ token source id) × IsSource source × IsId id)
parse_token_iff s source id = (
  parse_token_sound s source id,
  λ (e, good, fine). ap parse_token e ∙ parse_token-token source id good fine,
)

-- A URI of any scheme that goes on with a slash or a question mark after its first colon, as a
-- magnet link and a URL do, is not a token.
pub uri_is_no_token :
    (scheme rest : Text) (c : ℕ)
    → All (λ b. b ≢ token_sep) scheme
    → (c ≡ 47) ⊎ (c ≡ 63)
    → parse_token (scheme ++ token_sep ∷ c ∷ rest) ≡ none
unfolding parse_token checked_token every
uri_is_no_token scheme rest c h s = rw (cut-scheme scheme (c ∷ rest) h) (ground arith)
