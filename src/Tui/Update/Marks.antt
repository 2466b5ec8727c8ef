-- ===== src/Tui/Update/Marks.antt =====
-- The marks of internal/tui's update.go: marking a row keeps every mark on what is shown, and panics
-- only where the cursor is past the end.
use mathlib.Core.Option.{some-injective}
use torrnado.Common.{
  ℕ, zero, suc, ◌+◌, ◌<◌, ◌≡◌, refl, ◌⊎◌, inl, inr, Bool, true, not, Option, none, some, List, [],
  ◌∷◌, arith, Bool-cases, ltb, get_elem?, filter, All,
}
use mathlib.Core.Path.{subst}
use torrnado.Common.Text.{Text, text_eq, mem_text}
use torrnado.Common.Sort.{sort_stable, All-sort_stable}
use torrnado.Engine.Library.{Float64}
use torrnado.Engine.State.{TorrentId, TorrentSnapshot}
use torrnado.Indexer.Result.{Strings}
use torrnado.Tui.Model.{Model}
use torrnado.Tui.Visible.{visible_torrents, shown, before}
use torrnado.Tui.Targets.{is_marked}
use torrnado.Tui.Keys.{toggle_mark, cursor_down, mark}
use torrnado.Tui.Update.Carries.{
  rows, HasKeys, Carries, Steps, Carries-refl, Carries-if_model, sync_detail-Carries, Carries-trans,
}
use torrnado.Tui.Update.Handlers.{get_elem?-lt}

module _ ⦃fl : Float64⦄ ⦃str : Strings⦄ where
  pub cursor_down-Carries : (m : Model) → Carries m (cursor_down (rows m) m)
  unfolding cursor_down visible_torrents shown
  cursor_down-Carries m =
      Carries-if_model m (ltb (m.cursor + 1) (rows m)) (record m { cursor = m.cursor + 1 }) m
        (λ b. (λ h. (inr (ground arith), h.1), λ k h. h, omega arith, refl)) (λ b. Carries-refl m)

  -- Marks, one by one.
  mem_text-filter :
      (s : Text) (p : Text → Bool) (ids : List Text)
      → mem_text s (filter p ids) ≡ true
      → mem_text s ids ≡ true
  unfolding mem_text
  mem_text-filter s p [] h = h
  mem_text-filter s p (i ∷ ids) h = ground (arith, mem_text-filter s p ids)

  mem_text-cons :
      (id : TorrentId) (ids : List TorrentId) (s : Text)
      → mem_text s (id ∷ ids) ≡ true
      → (mem_text s ids ≡ true) ⊎ (text_eq id s ≡ true)
  unfolding mem_text
  mem_text-cons id ids s h = elim (Bool-cases (text_eq id s)) [
    | inl b ↦ inr b
    | inr b ↦ inl (rw b at h)
  ]

  toggle_mark_lem :
      (id : TorrentId) (ids : List TorrentId) (t : TorrentSnapshot)
      → is_marked (toggle_mark id ids) t ≡ true
      → (is_marked ids t ≡ true) ⊎ (text_eq id t.id ≡ true)
  unfolding toggle_mark is_marked
  toggle_mark_lem id ids t = elim (Bool-cases (mem_text id ids)) [
    | inl b ↦ rw b (λ h. inl (mem_text-filter t.id (λ j. not (text_eq j id)) ids h))
    | inr b ↦ rw b (mem_text-cons id ids t.id)
  ]

  All-filter_both {ℓ κ} :
      {A : Type ℓ} (P : A → Type κ) (p : A → Bool) (xs : List A)
      → All P xs
      → All (λ t. P t × (p t ≡ true)) (filter p xs)
  All-filter_both P p [] h = tt
  All-filter_both P p (x ∷ xs) (q, h) = elim (Bool-cases (p x)) [
    | inl b ↦ rw b ((q, b), All-filter_both P p xs h)
    | inr b ↦ rw b (All-filter_both P p xs h)
  ]

  All-get_elem? {ℓ κ} :
      {A : Type ℓ} (P : A → Type κ) (xs : List A) (i : ℕ) {a : A}
      → All P xs
      → get_elem? xs i ≡ some a
      → P a
  All-get_elem? P [] i h e = cc
  All-get_elem? P (x ∷ xs) zero (q, h) e = subst P (some-injective _ _ e) q
  All-get_elem? P (x ∷ xs) (suc i) (q, h) e = All-get_elem? P xs i h e

  All-filter_self {ℓ} :
      {A : Type ℓ} (p : A → Bool) (xs : List A) → All (λ t. p t ≡ true) (filter p xs)
  All-filter_self p [] = tt
  All-filter_self p (x ∷ xs) = elim (Bool-cases (p x)) [
    | inl b ↦ rw b (b, All-filter_self p xs)
    | inr b ↦ rw b (All-filter_self p xs)
  ]

  -- A row of the list is a torrent that is shown, and the only one with its id.
  abbrev OneShown : Model → TorrentSnapshot → Type 0
  OneShown m t = All (λ v. text_eq t.id v.id ≡ true → v ≡ t) m.torrents × (shown m t ≡ true)

  row_shown :
      (m : Model) (i : ℕ) (t : TorrentSnapshot)
      → HasKeys m.torrents
      → get_elem? (visible_torrents m) i ≡ some t
      → OneShown m t
  unfolding visible_torrents
  row_shown m i t k e =
      All-get_elem? (OneShown m)
        (sort_stable (before m.sort_by m.sort_desc) (filter (shown m) m.torrents)) i
        (All-sort_stable (OneShown m) (before m.sort_by m.sort_desc) (filter (shown m) m.torrents) (
          All-filter_both (λ u. All (λ v. text_eq u.id v.id ≡ true → v ≡ u) m.torrents) (shown m)
            m.torrents k))
        e

  toggled :
      (m : Model) (t : TorrentSnapshot) (ts : List TorrentSnapshot)
      → All (λ v. text_eq t.id v.id ≡ true → v ≡ t) ts
      → shown m t ≡ true
      → All (λ v. is_marked m.selected v ≡ true → shown m v ≡ true) ts
      → All (λ v. is_marked (toggle_mark t.id m.selected) v ≡ true → shown m v ≡ true) ts
  toggled m t [] one s h = tt
  toggled m t (v ∷ ts) (e, one) s (q, h) = (
    λ marked. elim (toggle_mark_lem t.id m.selected v marked) [
      | inl before ↦ q before
      | inr same ↦ rw (e same) s
    ],
    toggled m t ts one s h,
  )

  marked-Carries :
      (m : Model) (t : TorrentSnapshot)
      → get_elem? (visible_torrents m) m.cursor ≡ some t
      → Carries m (record m { selected = toggle_mark t.id m.selected })
  unfolding shown visible_torrents
  marked-Carries m t g = (
    λ h. h,
    λ k h. let (one, s) = row_shown m m.cursor t k g in toggled m t m.torrents one s h,
    omega arith,
    refl,
  )

  pub mark-Steps :
      (m : Model) (n : ℕ) (o : Option TorrentSnapshot)
      → n ≡ rows m
      → 0 < n
      → get_elem? (visible_torrents m) m.cursor ≡ o
      → Steps m (mark o m)
  unfolding mark visible_torrents shown
  mark-Steps m n none e pos g = λ h.
      let found =
        get_elem?-lt (visible_torrents m) m.cursor
          (elim h.0 [ inl z ↦ omega arith | inr lt ↦ lt ]) in
      ground (arith, g, found.1)
  mark-Steps m n (some t) e pos g =
      let m' = record m { selected = toggle_mark t.id m.selected } in
      sync_detail-Carries m (cursor_down (rows m') m') (
        Carries-trans m m' (cursor_down (rows m') m') (marked-Carries m t g)
          (cursor_down-Carries m'))

  pub row_is_shown :
      (m : Model) (i : ℕ) (t : TorrentSnapshot)
      → get_elem? (visible_torrents m) i ≡ some t
      → shown m t ≡ true
  unfolding visible_torrents
  row_is_shown m i t e =
      All-get_elem? (λ u. shown m u ≡ true)
        (sort_stable (before m.sort_by m.sort_desc) (filter (shown m) m.torrents)) i
        (All-sort_stable (λ u. shown m u ≡ true) (before m.sort_by m.sort_desc)
          (filter (shown m) m.torrents) (All-filter_self (shown m) m.torrents))
        e
