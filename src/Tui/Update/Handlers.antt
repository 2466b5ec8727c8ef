-- ===== src/Tui/Update/Handlers.antt =====
-- The handlers of internal/tui, one by one: each carries the invariants on, and none panics where
-- they hold.
use torrnado.Common.{
  ℕ, zero, suc, ◌%◌, ◌<◌, ◌≡◌, refl, ◌⊎◌, inl, inr, Bool, true, ◌&&◌, none, some, List, [], ◌∷◌,
  arith, Bool-cases, ◌==◌, if◌then◌else◌, length, get_elem?,
}
use torrnado.Common.Text.{Text, text_eq, text_eq_iff}
use torrnado.Engine.Library.{Float64}
use torrnado.Engine.State.{TorrentSnapshot}
use torrnado.Indexer.Result.{Strings}
use torrnado.Tui.Model.{Model, Cmd, Next, StatusFilter}
use torrnado.Tui.Visible.{visible_torrents, shown, clamp_cursor}
use torrnado.Tui.Sidebar.{SidebarEntry, sidebar_entries, filter_eq, apply_entry, is_label}
use torrnado.Tui.Targets.{
  select_sidebar, select_at, select_entry, sync_detail, remove_all, on_targets,
}
use torrnado.Tui.Update.Carries.{
  rows, Carries, Steps, Carries-refl, Carries-trans, unmarked, Carries-reclamped,
  sync_detail-Carries,
}

pub get_elem?-lt {ℓ} :
    {A : Type ℓ} (xs : List A) (i : ℕ) → i < length xs → (a : A) × (get_elem? xs i ≡ some a)
get_elem?-lt [] i h = elim h [ ]
get_elem?-lt (x ∷ xs) zero h = (x, refl)
get_elem?-lt (x ∷ xs) (suc i) h = get_elem?-lt xs i (omega arith)

filter_eq-eq : (f g : StatusFilter) → filter_eq f g ≡ true → f ≡ g
unfolding filter_eq
filter_eq-eq StatusFilter.all g h = ground arith
filter_eq-eq StatusFilter.downloading g h = ground arith
filter_eq-eq StatusFilter.seeding g h = ground arith
filter_eq-eq StatusFilter.completed g h = ground arith
filter_eq-eq StatusFilter.stopped g h = ground arith

module _ ⦃fl : Float64⦄ ⦃str : Strings⦄ where
  pub Steps-trans : (m m' : Model) (r : Next) → Carries m m' → Steps m' r → Steps m r
  Steps-trans m m' none c h = λ s. h (c.0 s)
  Steps-trans m m' (some (m'', cmds)) c h = Carries-trans m m' m'' c h

  -- A filter and a label are chosen: the marks stay only where neither changes.
  choose :
      (f : StatusFilter) (l : Text) (m : Model)
      → ((if filter_eq f m.filter && text_eq l m.label_filter then m.selected else []) ≡ [])
        ⊎ (((if filter_eq f m.filter && text_eq l m.label_filter then m.selected else [])
              ≡ m.selected)
            × (f ≡ m.filter)
            × (l ≡ m.label_filter))
  choose f l m = elim (Bool-cases (filter_eq f m.filter && text_eq l m.label_filter)) [
    | inl b ↦ inr (
      rw b refl,
      filter_eq-eq f m.filter (ground arith),
      (text_eq_iff l m.label_filter).0 (ground arith),
    )
    | inr b ↦ inl (rw b refl)
  ]

  abbrev chosen_model : ℕ → StatusFilter → Text → Model → Model
  chosen_model i f l m = record m {
    label_filter = l;
    filter = f;
    selected = if filter_eq f m.filter && text_eq l m.label_filter then m.selected else [];
    sidebar_cursor = i;
  }

  chosen-Carries :
      (i : ℕ) (f : StatusFilter) (l : Text) (m : Model)
      → Carries m
          (sync_detail (clamp_cursor (rows (chosen_model i f l m)) (chosen_model i f l m))).0
  chosen-Carries i f l m = elim (choose f l m) [
    | inl gone ↦
        sync_detail-Carries m _
          (Carries-reclamped m (chosen_model i f l m) (refl, refl, refl, refl, refl) (inl gone))
    | inr (same, e, d) ↦ sync_detail-Carries m _ (
        Carries-reclamped m (chosen_model i f l m) (refl, refl, refl, refl, refl)
          (inr (same, e, d, refl)))
  ]

  select_entry-Carries : (i : ℕ) (e : SidebarEntry) (m : Model) → Carries m (select_entry i e m).0
  unfolding select_entry apply_entry
  select_entry-Carries i e m = elim (Bool-cases (is_label e)) [
    | inl b ↦ rw b (chosen-Carries i StatusFilter.all e.label m)
    | inr b ↦ rw b (chosen-Carries i e.status [] m)
  ]

  pub select_sidebar-Steps : (i : ℕ) (m : Model) → Steps m (select_sidebar i m)
  unfolding select_sidebar select_at
  select_sidebar-Steps i m = elim (Bool-cases (length (sidebar_entries m) == 0)) [
    | inl z ↦ rw z (Carries-refl m)
    | inr z ↦
        let found =
          get_elem?-lt (sidebar_entries m) (i % length (sidebar_entries m)) (ground arith) in
        rw (z, found.1) (select_entry-Carries (i % length (sidebar_entries m)) found.0 m)
  ]

  pub remove_all-Carries :
      (ts : List TorrentSnapshot) (b : Bool) (m : Model) → Carries m (remove_all ts b m).0
  unfolding remove_all visible_torrents shown
  remove_all-Carries [] b m = Carries-refl m
  remove_all-Carries (t ∷ ts) b m =
      (λ h. h, λ k h. unmarked (record m { selected = [] }) m.torrents refl, omega arith, refl)

  pub on_targets-Carries :
      (f : List TorrentSnapshot → Cmd) (ts : List TorrentSnapshot) (m : Model)
      → Carries m (on_targets f ts m).0
  unfolding on_targets
  on_targets-Carries f [] m = Carries-refl m
  on_targets-Carries f (t ∷ ts) m = Carries-refl m
