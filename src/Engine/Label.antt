-- ===== src/Engine/Label.antt =====
-- internal/engine/label.go. A label is the list of its code points (a label that is not valid UTF-8
-- is not modelled).
pub mod Normal
use torrnado.Common.{ℕ, ◌+◌, Bool, false, ◌&&◌, ◌||◌, [], ◌∷◌, ◌==◌, ltb, leb, if◌then◌else◌}
use torrnado.Common.Text.{Text, text_eq}
use torrnado.Engine.Library.{Float64, TorrentLib}
use torrnado.Engine.State.{Engine, TorrentId, Result, ok, err, label_too_long, label_control}
use torrnado.Engine.Session.{announce}
use torrnado.Engine.Ops.{with_tracked, put}

abbrev pub max_label_len : ℕ
max_label_len = 64

-- `unicode.IsSpace`
unfoldable pub is_space : ℕ → Bool
is_space r =
    (leb 9 r && leb r 13)
    || r == 32
    || r == 0x85
    || r == 0xa0
    || r == 0x1680
    || (leb 0x2000 r && leb r 0x200a)
    || r == 0x2028
    || r == 0x2029
    || r == 0x202f
    || r == 0x205f
    || r == 0x3000

-- `unicode.IsControl`: the category Cc.
unfoldable pub is_control : ℕ → Bool
is_control r = ltb r 32 || (leb 127 r && ltb r 160)

-- The bytes of a code point in UTF-8.
unfoldable pub utf8_len : ℕ → ℕ
utf8_len r = if ltb r 0x80 then 1 else if ltb r 0x800 then 2 else if ltb r 0x10000 then 3 else 4

-- `len` of a string
unfoldable pub byte_len : Text → ℕ
byte_len [] = 0
byte_len (r ∷ s) = utf8_len r + byte_len s

unfoldable pub trim_left : Text → Text
trim_left [] = []
trim_left (r ∷ s) = let rest = trim_left s in if is_space r then rest else r ∷ s

unfoldable pub trim_right : Text → Text
trim_right [] = []
trim_right (r ∷ s) =
    let rest = trim_right s in if text_eq rest [] && is_space r then [] else r ∷ rest

-- `strings.TrimSpace`
unfoldable pub trim_space : Text → Text
unfolding trim_left trim_right is_space
trim_space s = trim_right (trim_left s)

unfoldable pub has_control : Text → Bool
has_control [] = false
has_control (r ∷ s) = is_control r || has_control s

-- `normalizeLabel` after the spaces were trimmed
unfoldable pub accept : Text → Result Text
unfolding has_control is_control byte_len utf8_len
accept label =
    if text_eq label []
    then ok []
    else if ltb max_label_len (byte_len label)
    then err (label_too_long (byte_len label))
    else if has_control label
    then err label_control
    else ok label

unfoldable pub normalize_label : Text → Result Text
unfolding accept trim_space
normalize_label s = accept (trim_space s)

module _ ⦃fl : Float64⦄ ⦃lib : TorrentLib⦄ where
  -- `SetLabel` after the label was normalized
  unfoldable pub set_normalized : TorrentId → Result Text → Engine → Result (Unit {0}) × Engine
  set_normalized id (err x) e = (err x, e)
  set_normalized id (ok label) e =
      with_tracked id e λ tr. (ok tt, announce (put id (record tr { label = label }) e))

  unfoldable pub set_label : TorrentId → Text → Engine → Result (Unit {0}) × Engine
  unfolding set_normalized
  set_label id s e = set_normalized id (normalize_label s) e
