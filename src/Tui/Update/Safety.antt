-- ===== src/Tui/Update/Safety.antt =====
-- The state machine of internal/tui as a whole: no message panics, the cursor stays in the list, what
-- the keys act on is shown, and an abandoned search stays abandoned.
use mathlib.Core.Path.{subst}
use mathlib.Core.Option.{some-injective}
use torrnado.Common.{
  ℕ, ◌≤◌, ◌≡◌, refl, ap, inl, Bool, false, Option, none, some, List, [], ◌∷◌, arith, ◌==◌,
}
use torrnado.Common.Text.{Text}
use torrnado.Engine.Library.{Float64}
use torrnado.Indexer.Result.{Strings, Result}
use torrnado.Tui.Model.{World, Model, Msg, Cmd, Next, KeyMap, Theme, set_status}
use torrnado.Tui.Visible.{visible_torrents, shown}
use torrnado.Tui.Find.{apply_find_results, close_find}
use torrnado.Tui.Themes.{apply_theme}
use torrnado.Tui.Update.{take_event, update, update_all, go_on, new}
use torrnado.Tui.Update.Carries.{IsSafe, Carries, Steps, Carries-refl}
use torrnado.Tui.Update.Overlays.{
  clear_status-Carries, apply_find_results-Carries, check_theme_file-Carries,
}
use torrnado.Tui.Update.Files.{take_detail-Carries}
use torrnado.Tui.Update.Events.{take_event-IsSafe, take_event-find_seq}
use torrnado.Tui.Update.Inputs.{handle_mouse-Steps}
use torrnado.Tui.Update.Presses.{handle_key-Steps}

module _ ⦃fl : Float64⦄ where
  -- Not a report of the daemon.
  abbrev pub IsOwn : Msg → Type 0
  IsOwn (Msg.engine_event ts vpn) = ⊥
  IsOwn _ = Unit

  module _ ⦃str : Strings⦄ where
    pub own-Steps : (w : World) (msg : Msg) (m : Model) → IsOwn msg → Steps m (update w msg m)
    unfolding update set_status visible_torrents shown
    own-Steps w (Msg.window_size width height) m o = Carries-refl m
    own-Steps w (Msg.engine_event ts vpn) m o = absurd o
    own-Steps w Msg.engine_closed m o = Carries-refl m
    own-Steps w (Msg.torrents_added text ids) m o = Carries-refl m
    own-Steps w (Msg.find_results seq rs ws err) m o = apply_find_results-Carries seq rs ws err m
    own-Steps w (Msg.status_msg msg) m o = Carries-refl m
    own-Steps w (Msg.status_expired seq) m o = clear_status-Carries seq m
    own-Steps w Msg.theme_check m o = check_theme_file-Carries w m
    own-Steps w (Msg.detail_loaded answer) m o = take_detail-Carries answer m
    own-Steps w (Msg.key msg) m o = handle_key-Steps w msg m
    own-Steps w (Msg.mouse msg) m o = handle_mouse-Steps msg m

    -- A handler that steps from a safe model ends in one.
    abbrev Returns : Next → Type 0
    Returns r = (m' : Model) × (cmds : List Cmd) × (r ≡ some (m', cmds)) × IsSafe m'

    Steps-Returns : (m : Model) (r : Next) → Steps m r → IsSafe m → Returns r
    Steps-Returns m none s h = absurd (s h)
    Steps-Returns m (some (m', cmds)) s h = (m', cmds, refl, s.0 h)

    pub Steps-Carries :
        (m : Model) (r : Next) {m' : Model} {cmds : List Cmd}
        → Steps m r
        → r ≡ some (m', cmds)
        → Carries m m'
    Steps-Carries m none s e = cc
    Steps-Carries m (some (n, cs)) s e =
        subst (λ (x : Model × List Cmd). Carries m x.0) (some-injective _ _ e) s

    update-Returns : (w : World) (msg : Msg) (m : Model) → IsSafe m → Returns (update w msg m)
    unfolding update
    update-Returns w (Msg.engine_event ts vpn) m h =
        let m' = record m { torrents = ts; vpn_required = vpn } in
        ((take_event m').0, (take_event m').1, refl, take_event-IsSafe m' h.1)
    update-Returns w msg m h = Steps-Returns m (update w msg m) (own-Steps w msg m tt) h

    update-find_seq :
        (w : World) (msg : Msg) (m : Model) {m' : Model} {cmds : List Cmd}
        → update w msg m ≡ some (m', cmds)
        → m.find_seq ≤ m'.find_seq
    unfolding update
    update-find_seq w (Msg.engine_event ts vpn) m {m'} {cmds} e =
        let same : take_event (record m { torrents = ts; vpn_required = vpn }) ≡ (m', cmds) =
          some-injective _ _ e in
        let kept = take_event-find_seq (record m { torrents = ts; vpn_required = vpn }) in
        rw (← ap (λ (x : Model × List Cmd). x.0.find_seq) same) (omega (arith, kept))
    update-find_seq w msg m e = (Steps-Carries m (update w msg m) (own-Steps w msg m tt) e).2

    pub update_all_returns :
        (msgs : List (World × Msg)) (m : Model)
        → IsSafe m
        → (m' : Model) × (update_all msgs m ≡ some m') × IsSafe m'
    unfolding update_all
    update_all_returns [] m h = (m, refl, h)
    update_all_returns ((w, msg) ∷ msgs) m h =
        let (m', cmds, e, h') = update-Returns w msg m h in rw e (update_all_returns msgs m' h')

    -- From the model that `New` makes no history of messages panics: it ends in a model whose cursor
    -- is on a row of the list, or on the first where there is none, and whose theme picker, if it is
    -- open, has its cursor on a theme.
    pub session_returns :
        (w : World) (keys : KeyMap) (theme : Theme) (themes_dir : Text) (has_finder : Bool)
        (find_sources : List Text) (msgs : List (World × Msg))
        → (m : Model) × (update_all msgs (new w keys theme themes_dir has_finder find_sources)
            ≡ some m)
          × IsSafe m
    unfolding new apply_theme
    session_returns w keys theme themes_dir has_finder find_sources msgs =
        update_all_returns msgs (new w keys theme themes_dir has_finder find_sources)
          (inl refl, λ p. cc)

    -- A session that goes on did not panic before.
    pub go_on-some :
        (rest : Model → Option Model) (r : Next) {m' : Model}
        → go_on rest r ≡ some m'
        → (q : Model × List Cmd) × (r ≡ some q) × (rest q.0 ≡ some m')
    unfolding go_on
    go_on-some rest none e = cc
    go_on-some rest (some q) e = (q, refl, e)

    update_all-find_seq :
        (msgs : List (World × Msg)) (m : Model) {m' : Model}
        → update_all msgs m ≡ some m'
        → m.find_seq ≤ m'.find_seq
    unfolding update_all
    update_all-find_seq [] m e =
        rw (← ap (λ (x : Model). x.find_seq) (some-injective _ _ e)) (omega arith)
    update_all-find_seq ((w, msg) ∷ msgs) m e =
        let (r, stepped, rest) = go_on-some (update_all msgs) (update w msg m) e in
        let later = update_all-find_seq msgs r.0 rest in
        omega (arith, update-find_seq w msg m stepped)

    -- A search that was abandoned stays so: once the find overlay is closed, whatever messages
    -- follow, the reply to a search that was made before changes nothing.
    pub abandoned_search :
        (m : Model) (msgs : List (World × Msg)) {m' : Model}
        → update_all msgs (close_find m) ≡ some m'
        → (w : World) (seq : ℕ) (results : List Result) (warnings : List Text)
          (failure : Option Text)
        → seq ≤ m.find_seq
        → update w (Msg.find_results seq results warnings failure) m' ≡ some (m', [])
    unfolding update apply_find_results close_find
    abandoned_search m msgs {m'} ran w seq results warnings failure old =
        let newer = update_all-find_seq msgs (close_find m) ran in
        let stale : (seq == m'.find_seq) ≡ false = ground arith in rw stale refl
