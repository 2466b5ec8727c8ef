-- ===== src/Tui/Update/Carries.antt =====
-- What every handler of internal/tui's update.go carries on: the cursor stays in the list, the marks
-- on what is shown, the torrents as they are, and the number of the search never falls.
use torrnado.Common.{
  ℕ, ◌-◌, ◌<◌, ◌≤◌, ◌≡◌, refl, ◌∙◌, ◌⊎◌, inl, inr, Bool, true, false, Option, none, some, List, [],
  ◌∷◌, arith, Bool-cases, leb, ◌==◌, if◌then◌else◌, length, All,
}
use torrnado.Common.Text.{text_eq, mem_text}
use torrnado.Engine.Library.{Float64}
use torrnado.Engine.State.{TorrentSnapshot}
use torrnado.Indexer.Result.{Strings}
use torrnado.Tui.Model.{Model, Cmd, Next}
use torrnado.Tui.Visible.{visible_torrents, shown, clamp_cursor, cursor_torrent}
use torrnado.Tui.Targets.{is_marked, detail_of, sync_detail}

module _ ⦃fl : Float64⦄ ⦃str : Strings⦄ where
  abbrev pub rows : Model → ℕ
  rows m = length (visible_torrents m)

  -- The cursor is on a row, or the first; the picker's is on a theme.
  abbrev pub IsSafe : Model → Type 0
  IsSafe m =
      ((m.cursor ≡ 0) ⊎ (m.cursor < rows m))
      × (m.theme_picker ≡ true → m.theme_cursor < length m.theme_names)

  -- Torrents with one id are one.
  abbrev pub HasKeys : List TorrentSnapshot → Type 0
  HasKeys ts = All (λ t. All (λ u. text_eq t.id u.id ≡ true → u ≡ t) ts) ts

  -- Every torrent that is marked is shown.
  abbrev pub MarksShown : Model → Type 0
  MarksShown m = All (λ t. is_marked m.selected t ≡ true → shown m t ≡ true) m.torrents

  abbrev pub Carries : Model → Model → Type 0
  Carries m m' =
      (IsSafe m → IsSafe m')
      × (HasKeys m.torrents → MarksShown m → MarksShown m')
      × (m.find_seq ≤ m'.find_seq)
      × (m'.torrents ≡ m.torrents)

  -- A result: only an unsafe model panics.
  abbrev pub Steps : Model → Next → Type 0
  Steps m none = IsSafe m → ⊥
  Steps m (some (m', cmds)) = Carries m m'

  pub Carries-refl : (m : Model) → Carries m m
  Carries-refl m = (λ h. h, λ k h. h, omega arith, refl)

  pub Carries-trans : (a b c : Model) → Carries a b → Carries b c → Carries a c
  Carries-trans a b c (s, k, n, t) (s', k', n', t') =
      (λ h. s' (s h), λ u h. k' (rw t u) (k u h), omega arith, t' ∙ t)

  -- Nothing is marked, so nothing marked is hidden.
  pub unmarked :
      (m : Model) (ts : List TorrentSnapshot)
      → m.selected ≡ []
      → All (λ t. is_marked m.selected t ≡ true → shown m t ≡ true) ts
  unfolding is_marked mem_text
  unmarked m [] e = tt
  unmarked m (t ∷ ts) e = (rw e (λ h. cc), unmarked m ts e)

  -- The cursor follows a change of what is shown.
  pub clamped :
      (n : ℕ) (m : Model)
      → n ≡ rows m
      → let m' = clamp_cursor n m in (m'.cursor ≡ 0) ⊎ (m'.cursor < rows m')
  unfolding clamp_cursor visible_torrents shown
  clamped n m e = elim (Bool-cases (n == 0)) [
    | inl z ↦ rw z (inl refl)
    | inr z ↦ elim (Bool-cases (leb n m.cursor)) [
      | inl b ↦ rw (z, b) (inr (ground arith))
      | inr b ↦ rw (z, b) (inr (ground arith))
    ]
  ]

  abbrev pub clamped_at : ℕ → ℕ → ℕ
  clamped_at n c = if n == 0 then 0 else if leb n c then n - 1 else c

  -- Only the cursor changes.
  pub clamp_cursor_lem :
      (n : ℕ) (m : Model) → clamp_cursor n m ≡ record m { cursor = clamped_at n m.cursor }
  unfolding clamp_cursor
  clamp_cursor_lem n m = elim (Bool-cases (n == 0)) [
    | inl z ↦ rw z refl
    | inr z ↦ elim (Bool-cases (leb n m.cursor)) [ inl b ↦ rw (z, b) refl | inr b ↦ rw (z, b) refl ]
  ]

  -- All but what is shown, the marks and the cursor stays as it is.
  abbrev pub SameRest : Model → Model → Type 0
  SameRest m m' =
      (m'.torrents ≡ m.torrents)
      × (m'.theme_picker ≡ m.theme_picker)
      × (m'.theme_cursor ≡ m.theme_cursor)
      × (m'.theme_names ≡ m.theme_names)
      × (m'.find_seq ≡ m.find_seq)

  -- The marks go, or what is shown stays.
  abbrev pub MarksKept : Model → Model → Type 0
  MarksKept m m' =
      (m'.selected ≡ [])
      ⊎ ((m'.selected ≡ m.selected)
          × (m'.filter ≡ m.filter)
          × (m'.label_filter ≡ m.label_filter)
          × (m'.search_query ≡ m.search_query))

  marks_kept : (m m' : Model) → SameRest m m' → MarksKept m m' → MarksShown m → MarksShown m'
  unfolding shown
  marks_kept m m' s (inl e) h = unmarked m' m'.torrents e
  marks_kept m m' (t, p, c, n, q) (inr (s, f, l, r)) h = rw (t, s, f, l, r) h

  pub Carries-reclamped :
      (m m' : Model) → SameRest m m' → MarksKept m m' → Carries m (clamp_cursor (rows m') m')
  unfolding shown visible_torrents
  Carries-reclamped m m' (t, p, c, n, q) k =
      let e = clamp_cursor_lem (rows m') m' in
      let marks : HasKeys m.torrents → MarksShown m → MarksShown (clamp_cursor (rows m') m') =
        λ u h. rw e (marks_kept m m' (t, p, c, n, q) k h) in
      let seq : m.find_seq ≤ (clamp_cursor (rows m') m').find_seq = rw e (omega arith) in
      let ts : (clamp_cursor (rows m') m').torrents ≡ m.torrents = rw e t in
      let picker : IsSafe m
          → (clamp_cursor (rows m') m').theme_picker ≡ true
          → (clamp_cursor (rows m') m').theme_cursor
            < length (clamp_cursor (rows m') m').theme_names =
        λ h. rw e (rw (p, c, n) h.1) in
      (λ h. (clamped (rows m') m' refl, picker h), marks, seq, ts)

  -- `syncDetail` shows the torrent under the cursor and changes nothing else of this.
  pub detail_of-Carries :
      (o : Option TorrentSnapshot) (m m' : Model) → Carries m m' → Carries m (detail_of o m').0
  unfolding detail_of shown visible_torrents
  detail_of-Carries none m m' c = c
  detail_of-Carries (some t) m m' c = elim (Bool-cases (text_eq t.id m'.detail_id)) [
    | inl b ↦ rw b c
    | inr b ↦ rw b c
  ]

  pub sync_detail-Carries : (m m' : Model) → Carries m m' → Carries m (sync_detail m').0
  unfolding sync_detail
  sync_detail-Carries m m' c = detail_of-Carries (cursor_torrent m') m m' c

  -- Both branches of a test.
  pub Carries-if :
      (m : Model) (b : Bool) (x y : Model × List Cmd)
      → (b ≡ true → Carries m x.0)
      → (b ≡ false → Carries m y.0)
      → Carries m (if b then x else y).0
  Carries-if m true x y p q = p refl
  Carries-if m false x y p q = q refl

  pub Carries-if_model :
      (m : Model) (b : Bool) (x y : Model)
      → (b ≡ true → Carries m x)
      → (b ≡ false → Carries m y)
      → Carries m (if b then x else y)
  Carries-if_model m true x y p q = p refl
  Carries-if_model m false x y p q = q refl

  pub Steps-if :
      (m : Model) (b : Bool) (x y : Next)
      → (b ≡ true → Steps m x)
      → (b ≡ false → Steps m y)
      → Steps m (if b then x else y)
  Steps-if m true x y p q = p refl
  Steps-if m false x y p q = q refl
