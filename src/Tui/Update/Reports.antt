-- ===== src/Tui/Update/Reports.antt =====
-- What a report of the daemon does to what is shown: a torrent just added comes into view.
use mathlib.Core.Path.{subst}
use torrnado.Common.{
  ℕ, ◌≡◌, refl, ap, ◌∙◌, inl, inr, Bool, true, false, ◌&&◌, ◌||◌, Option, none, some, List, [], ◌∷◌,
  arith, Bool-cases, if◌then◌else◌, All,
}
use torrnado.Common.Text.{Text, text_eq}
use torrnado.Engine.Library.{Float64}
use torrnado.Engine.State.{TorrentSnapshot}
use torrnado.Indexer.Result.{Strings}
use torrnado.Tui.Model.{Model, StatusFilter, set_status}
use torrnado.Tui.Visible.{shown, matches, has_label, has_name, clamp_cursor, cursor_torrent}
use torrnado.Tui.Sidebar.{
  drop_vanished_label_filter, reveal_just_added, reveal_some, reveal, cleared, cleared_names,
  revealed, follow_sidebar, hidden_by, names_label, labels_in_use,
}
use torrnado.Tui.Targets.{sync_detail, detail_of}
use torrnado.Tui.Update.{take_event, say_cleared}
use torrnado.Tui.Update.Carries.{rows, clamp_cursor_lem}

module _ ⦃fl : Float64⦄ ⦃str : Strings⦄ where
  -- What is shown depends on these alone.
  abbrev pub SameFilters : Model → Model → Type 0
  SameFilters m m' =
      (m'.filter ≡ m.filter)
      × (m'.label_filter ≡ m.label_filter)
      × (m'.search_query ≡ m.search_query)
      × (m'.torrents ≡ m.torrents)
      × (m'.selected ≡ m.selected)

  detail_of-SameFilters : (o : Option TorrentSnapshot) (m : Model) → SameFilters m (detail_of o m).0
  unfolding detail_of
  detail_of-SameFilters none m = (refl, refl, refl, refl, refl)
  detail_of-SameFilters (some t) m = elim (Bool-cases (text_eq t.id m.detail_id)) [
    | inl b ↦ rw b (refl, refl, refl, refl, refl)
    | inr b ↦ rw b (refl, refl, refl, refl, refl)
  ]

  say_cleared-SameFilters : (m : Model) (cs : List Text) → SameFilters m (say_cleared (m, cs)).0
  unfolding say_cleared set_status
  say_cleared-SameFilters m [] = (refl, refl, refl, refl, refl)
  say_cleared-SameFilters m (c ∷ cs) = (refl, refl, refl, refl, refl)

  follow_sidebar-SameFilters : (m : Model) (cs : List Text) → SameFilters m (follow_sidebar m cs).0
  unfolding follow_sidebar
  follow_sidebar-SameFilters m [] = (refl, refl, refl, refl, refl)
  follow_sidebar-SameFilters m (c ∷ cs) = (refl, refl, refl, refl, refl)

  -- The cursor and the detail pane follow.
  pub synced-SameFilters : (n : ℕ) (m : Model) → SameFilters m (sync_detail (clamp_cursor n m)).0
  unfolding sync_detail
  synced-SameFilters n m =
      let (f, l, q, t, s) =
        detail_of-SameFilters (cursor_torrent (clamp_cursor n m)) (clamp_cursor n m) in
      let e = clamp_cursor_lem n m in
      (
        f ∙ ap (λ (x : Model). x.filter) e,
        l ∙ ap (λ (x : Model). x.label_filter) e,
        q ∙ ap (λ (x : Model). x.search_query) e,
        t ∙ ap (λ (x : Model). x.torrents) e,
        s ∙ ap (λ (x : Model). x.selected) e,
      )

  pub shown-same : (m m' : Model) (t : TorrentSnapshot) → SameFilters m m' → shown m' t ≡ shown m t
  unfolding shown
  shown-same m m' t (f, l, q, ts, s) = rw (f, l, q) refl

  -- A filter that hides nothing of these passes them all, and one that hides something is cleared.
  hidden_by-All :
      (p : TorrentSnapshot → Bool) (ts : List TorrentSnapshot)
      → hidden_by p ts ≡ false
      → All (λ t. p t ≡ true) ts
  unfolding hidden_by
  hidden_by-All p [] h = tt
  hidden_by-All p (t ∷ ts) h = (ground arith, hidden_by-All p ts (ground arith))

  All-always :
      (p : TorrentSnapshot → Bool) (ts : List TorrentSnapshot)
      → ((t : TorrentSnapshot) → p t ≡ true)
      → All (λ t. p t ≡ true) ts
  All-always p [] h = tt
  All-always p (t ∷ ts) h = (h t, All-always p ts h)

  cleared_matches :
      (f : StatusFilter) (ts : List TorrentSnapshot)
      → All (λ t. matches (if hidden_by (matches f) ts then StatusFilter.all else f) t ≡ true) ts
  unfolding matches
  cleared_matches f ts = elim (Bool-cases (hidden_by (matches f) ts)) [
    | inl b ↦ rw b (All-always (matches StatusFilter.all) ts (λ t. refl))
    | inr b ↦ rw b (hidden_by-All (matches f) ts b)
  ]

  cleared_label :
      (l : Text) (ts : List TorrentSnapshot)
      → All (λ t. has_label (if hidden_by (has_label l) ts then [] else l) t ≡ true) ts
  unfolding has_label text_eq
  cleared_label l ts = elim (Bool-cases (hidden_by (has_label l) ts)) [
    | inl b ↦ rw b (All-always (has_label []) ts (λ t. refl))
    | inr b ↦ rw b (hidden_by-All (has_label l) ts b)
  ]

  -- `strings.TrimSpace` and `strings.ToLower` leave nothing of nothing.
  cleared_name :
      str.lower (str.trim []) ≡ []
      → (q : Text) (ts : List TorrentSnapshot)
      → All (λ t. has_name (if hidden_by (has_name q) ts then [] else q) t ≡ true) ts
  unfolding has_name text_eq
  cleared_name e q ts = elim (Bool-cases (hidden_by (has_name q) ts)) [
    | inl b ↦ rw b (All-always (has_name []) ts (λ t. rw e refl))
    | inr b ↦ rw b (hidden_by-All (has_name q) ts b)
  ]

  All-and :
      (p q r : TorrentSnapshot → Bool) (ts : List TorrentSnapshot)
      → All (λ t. p t ≡ true) ts
      → All (λ t. q t ≡ true) ts
      → All (λ t. r t ≡ true) ts
      → All (λ t. (p t && q t && r t) ≡ true) ts
  All-and p q r [] a b c = tt
  All-and p q r (t ∷ ts) (a, as') (b, bs) (c, cs) = (rw (a, b, c) refl, All-and p q r ts as' bs cs)

  shown-All :
      (m m' : Model) (ts : List TorrentSnapshot)
      → SameFilters m m'
      → All (λ t. shown m t ≡ true) ts
      → All (λ t. shown m' t ≡ true) ts
  shown-All m m' [] s h = tt
  shown-All m m' (t ∷ ts) s (q, h) = (shown-same m m' t s ∙ q, shown-All m m' ts s h)

  reveal_some-shown :
      str.lower (str.trim []) ≡ []
      → (ts : List TorrentSnapshot) (m : Model) → All (λ t. shown (reveal_some ts m).0 t ≡ true) ts
  unfolding reveal_some reveal shown
  reveal_some-shown e [] m = tt
  reveal_some-shown e (t ∷ ts) m =
      let us = t ∷ ts in
      shown-All (cleared us m) (follow_sidebar (cleared us m) (cleared_names us m)).0 us
        (follow_sidebar-SameFilters (cleared us m) (cleared_names us m))
        (All-and _ _ _ us (cleared_matches m.filter us) (cleared_label m.label_filter us)
          (cleared_name e m.search_query us))

  drop_vanished_keeps :
      (m : Model)
      → ((drop_vanished_label_filter m).pending_reveal ≡ m.pending_reveal)
        × ((drop_vanished_label_filter m).torrents ≡ m.torrents)
  unfolding drop_vanished_label_filter
  drop_vanished_keeps m =
      elim (Bool-cases
        (text_eq m.label_filter [] || names_label m.label_filter (labels_in_use m))) [
          | inl b ↦ rw b (refl, refl)
          | inr b ↦ rw b (refl, refl)
        ]

  SameFilters-trans : (a b c : Model) → SameFilters a b → SameFilters b c → SameFilters a c
  SameFilters-trans a b c (f, l, q, t, s) (f', l', q', t', s') =
      (f' ∙ f, l' ∙ l, q' ∙ q, t' ∙ t, s' ∙ s)

  -- After a report of the daemon every torrent just added that it has is shown: whatever status, label
  -- or search hid one was cleared.
  pub added_is_shown :
      str.lower (str.trim []) ≡ []
      → (m : Model)
      → All (λ t. shown (take_event m).0 t ≡ true) (revealed m.pending_reveal m.torrents)
  unfolding take_event reveal_just_added
  added_is_shown e m =
      let d = drop_vanished_label_filter m in
      let (p, ts) = drop_vanished_keeps m in
      let us = revealed d.pending_reveal d.torrents in
      let r = reveal_some us d in
      let s = (say_cleared (r.0, r.1)).0 in
      let found : All (λ t. shown (take_event m).0 t ≡ true) us =
        shown-All r.0 (take_event m).0 us
          (SameFilters-trans r.0 s (take_event m).0 (say_cleared-SameFilters r.0 r.1)
            (synced-SameFilters (rows s) s))
          (reveal_some-shown e us d) in
      let same : us ≡ revealed m.pending_reveal m.torrents = rw (p, ts) refl in
      subst (All (λ t. shown (take_event m).0 t ≡ true)) same found
