-- ===== src/Tui/Update/Shown.antt =====
-- What the keys of internal/tui act on: torrents that are shown, until a report of the daemon hides
-- one that is marked.
use mathlib.Core.Path.{subst}
use mathlib.Core.Option.{some-injective}
use torrnado.Common.{
  ◌≡◌, refl, inl, inr, true, Option, none, some, List, [], ◌∷◌, Bool-cases, get_elem?, filter, All,
}
use torrnado.Engine.Library.{Float64}
use torrnado.Engine.State.{TorrentId, TorrentSnapshot}
use torrnado.Indexer.Result.{Strings}
use torrnado.Tui.Model.{World, Model, Msg}
use torrnado.Tui.Visible.{visible_torrents, shown}
use torrnado.Tui.Targets.{targets, marked_or, at_cursor, is_marked}
use torrnado.Tui.Update.{update, update_all}
use torrnado.Tui.Update.Carries.{HasKeys, MarksShown}
use torrnado.Tui.Update.Marks.{row_is_shown}
use torrnado.Tui.Update.Safety.{IsOwn, own-Steps, Steps-Carries, go_on-some}

module _ ⦃fl : Float64⦄ ⦃str : Strings⦄ where
  update_all-MarksShown :
      (msgs : List (World × Msg)) (m : Model) {m' : Model}
      → All (λ wm. IsOwn wm.1) msgs
      → update_all msgs m ≡ some m'
      → HasKeys m.torrents
      → MarksShown m
      → MarksShown m'
  unfolding update_all
  update_all-MarksShown [] m o e k h = subst MarksShown (some-injective _ _ e) h
  update_all-MarksShown ((w, msg) ∷ msgs) m (o, os) e k h =
      let (r, stepped, rest) = go_on-some (update_all msgs) (update w msg m) e in
      let c = Steps-Carries m (update w msg m) (own-Steps w msg m o) stepped in
      update_all-MarksShown msgs r.0 os rest (rw c.3 k) (c.1 k h)

  marked_shown :
      (m : Model) (ts : List TorrentSnapshot)
      → All (λ t. is_marked m.selected t ≡ true → shown m t ≡ true) ts
      → All (λ t. shown m t ≡ true) (filter (is_marked m.selected) ts)
  marked_shown m [] h = tt
  marked_shown m (t ∷ ts) (q, h) = elim (Bool-cases (is_marked m.selected t)) [
    | inl b ↦ rw b (q b, marked_shown m ts h)
    | inr b ↦ rw b (marked_shown m ts h)
  ]

  at_cursor-shown :
      (m : Model) (o : Option TorrentSnapshot)
      → get_elem? (visible_torrents m) m.cursor ≡ o
      → All (λ t. shown m t ≡ true) (at_cursor o)
  unfolding at_cursor
  at_cursor-shown m none e = tt
  at_cursor-shown m (some t) e = (row_is_shown m m.cursor t e, tt)

  targets_shown :
      (m : Model) (ids : List TorrentId)
      → ids ≡ m.selected
      → MarksShown m
      → All
          (λ t. shown m t ≡ true)
          (marked_or ids m.torrents (get_elem? (visible_torrents m) m.cursor))
  unfolding marked_or
  targets_shown m [] e h = at_cursor-shown m (get_elem? (visible_torrents m) m.cursor) refl
  targets_shown m (id ∷ ids) e h = rw e (marked_shown m m.torrents h)

  -- Whatever messages but reports of the daemon a client handles, from a model in which every torrent
  -- that is marked is shown, and torrents with one id are one: what the keys then act on is shown.
  pub keys_act_on_shown :
      (m : Model) (msgs : List (World × Msg)) {m' : Model}
      → HasKeys m.torrents
      → MarksShown m
      → All (λ wm. IsOwn wm.1) msgs
      → update_all msgs m ≡ some m'
      → All (λ t. shown m' t ≡ true) (targets m' (visible_torrents m'))
  unfolding targets
  keys_act_on_shown m msgs {m'} k h o e =
      targets_shown m' m'.selected refl (update_all-MarksShown msgs m o e k h)
