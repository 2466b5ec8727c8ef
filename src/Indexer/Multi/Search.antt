-- ===== src/Indexer/Multi/Search.antt =====
-- What a search over several sources answers.
use torrnado.Common.{
  ◌+◌, ◌≤◌, ◌<◌, ◌≡◌, ◌≢◌, refl, sym, ap, ◌∙◌, Option, none, some, List, [], ◌∷◌, ◌++◌, arith, ◌==◌,
  if◌then◌else◌, ◌⊎◌, inl, inr, ◌↔◌, length, take, filter, Any, Bool-cases,
}
use torrnado.Common.Text.{Text, text_eq}
use torrnado.Common.Sort.{
  sort_stable, by_greater, IsDescending, sort_stable-IsDescending, filter-sort_stable_any,
}
use torrnado.Indexer.Result.{Strings, Result, Reply, Source, seeder_key}
use torrnado.Indexer.Multi.{Gathered, gather, gather_answer, dedupe, found, search_all}
use torrnado.Indexer.Multi.Distinct.{has_hash, filter-dedupe}

-- Some source answers the query.
abbrev pub Answers : Text → List Source → Type 0
Answers query = Any (λ s. (s.search query).err ≡ none)

-- The results of the sources that answer, in the sources' order.
abbrev pub answered_results : Reply → Option Text → List Result
answered_results a none = a.results
answered_results a (some err) = []

abbrev pub answered : Text → List Source → List Result
answered query [] = []
answered query (s ∷ ss) =
    answered_results (s.search query) (s.search query).err ++ answered query ss

merged-gather_answer :
    (names : List Text) (a : Reply) (o : Option Text) (g : Gathered)
    → (gather_answer names a o g).merged ≡ answered_results a o ++ g.merged
unfolding gather_answer
merged-gather_answer names a none g = refl
merged-gather_answer names a (some err) g = refl

pub merged-gather : (query : Text) (ss : List Source) → (gather query ss).merged ≡ answered query ss
unfolding gather
merged-gather query [] = refl
merged-gather query (s ∷ ss) =
    merged-gather_answer s.sources (s.search query) (s.search query).err (gather query ss)
    ∙ ap (λ rs. answered_results (s.search query) (s.search query).err ++ rs)
        (merged-gather query ss)

failed-gather_answer :
    (names : List Text) (a : Reply) (o : Option Text) (g : Gathered)
    → ((gather_answer names a o g).failed ≡ g.failed) × (o ≡ none)
      ⊎ ((gather_answer names a o g).failed ≡ g.failed + 1) × (o ≢ none)
unfolding gather_answer
failed-gather_answer names a none g = inl (refl, refl)
failed-gather_answer names a (some err) g = inr (refl, λ e. cc)

failed-le-length : (query : Text) (ss : List Source) → (gather query ss).failed ≤ length ss
unfolding gather
failed-le-length query [] = omega arith
failed-le-length query (s ∷ ss) =
    let ih = failed-le-length query ss in
    elim (failed-gather_answer s.sources (s.search query) (s.search query).err (gather query ss)) [
      | inl (e, o) ↦ omega arith
      | inr (e, o) ↦ omega arith
    ]

-- Fewer sources fail than there are exactly when one answers.
pub failed-lt-length_iff :
    (query : Text) (ss : List Source) → ((gather query ss).failed < length ss) ↔ Answers query ss
unfolding gather
failed-lt-length_iff query [] = (λ h. absurd (omega arith), λ h. absurd h)
failed-lt-length_iff query (s ∷ ss) =
    let (there, back) = failed-lt-length_iff query ss in
    let le = failed-le-length query ss in
    elim (failed-gather_answer s.sources (s.search query) (s.search query).err (gather query ss)) [
      | inl (e, o) ↦ (λ h. inl o, λ h. omega arith)
      | inr (e, o) ↦ (
        λ h. inr (there (omega arith)),
        λ h. elim h [ inl a ↦ absurd (o a) | inr a ↦ let lt = back a in omega arith ],
      )
    ]

module _ ⦃str : Strings⦄ where
  found-results :
      (warnings : List Text) (o : Option (List Result)) (reply : Reply)
      → found warnings o ≡ some reply
      → (rs : List Result) × (o ≡ some rs)
        × (reply.results ≡ sort_stable (by_greater seeder_key) rs)
        × (reply.err ≡ none)
        × (reply.warnings ≡ warnings)
  found-results warnings none reply e = cc
  found-results warnings (some rs) reply e = (rs, refl, ground arith, ground arith, ground arith)

  sort-take_one : (rs : List Result) → sort_stable (by_greater seeder_key) (take 1 rs) ≡ take 1 rs
  unfolding sort_stable
  sort-take_one [] = refl
  sort-take_one (r ∷ rs) = refl

  -- A search that returns reports no error exactly if some source answered.
  pub search_fails_iff :
      (ss : List Source) (query : Text) (reply : Reply)
      → search_all ss query ≡ some reply
      → (reply.err ≡ none) ↔ Answers query ss
  unfolding search_all
  search_fails_iff ss query reply e =
      let (there, back) = failed-lt-length_iff query ss in
      let le = failed-le-length query ss in
      elim (Bool-cases ((gather query ss).failed == length ss)) [
        | inl b ↦
            let whole = rw b at e in
            (λ h. ground arith, λ a. absurd (let lt = back a in ground arith))
        | inr b ↦
            let (rs, p, q, r, w) =
              found-results (gather query ss).warnings (dedupe (gather query ss).merged) reply
                (rw b at e) in
            (λ h. there (ground arith), λ a. r)
      ]

  filter-sorted_dedupe :
      (h : Text) (all rs : List Result)
      → dedupe all ≡ some rs
      → filter (has_hash h) (sort_stable (by_greater seeder_key) rs) ≡ (
          if text_eq h []
          then sort_stable (by_greater seeder_key) (filter (has_hash h) all)
          else take 1 (filter (has_hash h) all))
  filter-sorted_dedupe h all rs e =
      filter-sort_stable_any seeder_key (has_hash h) rs
      ∙ ap (sort_stable (by_greater seeder_key)) (filter-dedupe h all rs e)
      ∙ elim (Bool-cases (text_eq h [])) [
        | inl b ↦ rw b
        | inr b ↦ rw b (sort-take_one (filter (has_hash h) all))
      ]

  -- A search that does not fail.
  answering :
      (ss : List Source) (query : Text) (reply : Reply)
      → search_all ss query ≡ some reply
      → reply.err ≡ none
      → (rs : List Result) × (dedupe (answered query ss) ≡ some rs)
        × (reply.results ≡ sort_stable (by_greater seeder_key) rs)
  unfolding search_all
  answering ss query reply e ok = elim (Bool-cases ((gather query ss).failed == length ss)) [
    | inl b ↦ let whole = rw b at e in ground arith
    | inr b ↦
        let (rs, p, q, r, w) =
          found-results (gather query ss).warnings (dedupe (gather query ss).merged) reply
            (rw b at e) in
        (rs, ap dedupe (sym (merged-gather query ss)) ∙ p, q)
  ]

  -- What a search that succeeds returns, over the results of the sources that answered: the results
  -- with the most seeders stand first; of the results whose links are magnets with one hash it has
  -- exactly the first; and those whose links have no hash are all there, in the order in which
  -- sorting alone leaves them.
  pub search_best_first :
      (ss : List Source) (query : Text) (reply : Reply) (h : Text)
      → search_all ss query ≡ some reply
      → reply.err ≡ none
      → IsDescending seeder_key reply.results
        × (filter (has_hash h) reply.results ≡ (
            if text_eq h []
            then sort_stable (by_greater seeder_key) (filter (has_hash h) (answered query ss))
            else take 1 (filter (has_hash h) (answered query ss))))
  search_best_first ss query reply h e ok =
      let (rs, d, p) = answering ss query reply e ok in
      rw p (sort_stable-IsDescending seeder_key rs, filter-sorted_dedupe h (answered query ss) rs d)
