-- ===== src/Indexer/Multi/Panic.antt =====
-- Where a search over several sources returns at all: the offset that `infoHash` finds in a lowered
-- link is used in the link itself.
use torrnado.Common.{
  ℕ, zero, suc, ◌+◌, ◌*◌, ◌≤◌, ◌<◌, ◌≡◌, refl, ap, ◌∙◌, true, false, Option, none, some, List, [],
  ◌∷◌, ◌++◌, map, arith, ◌==◌, if◌then◌else◌, inl, inr, length, drop, All, Bool-cases, Option-cases,
}
use torrnado.Common.Text.{Text, codes, text_eq, has_prefix, index, until, join, every}
use torrnado.Common.Sort.{sort_stable, by_greater}
use torrnado.Indexer.Result.{Strings, Result, Reply, Source, seeder_key}
use torrnado.Indexer.Multi.{
  gather, marker, ends_hash, info_hash, dedupe, dedupe_from, dedupe_step, dedupe_hash, search_all,
}
use torrnado.Indexer.Result.{StringsLaws, is_ascii, ascii_lower}
use torrnado.Indexer.Multi.Search.{answered, answered_results, merged-gather, failed-lt-length_iff}

length-has_prefix : (s p : Text) → has_prefix s p ≡ true → length p ≤ length s
unfolding has_prefix
length-has_prefix s [] h = omega arith
length-has_prefix [] (d ∷ p) h = cc
length-has_prefix (c ∷ s) (d ∷ p) h = ground (arith, length-has_prefix s p)

index_bound : (s p : Text) (i : ℕ) → index s p ≡ some i → i + length p ≤ length s
unfolding index
index_bound [] p i h = cc
index_bound (c ∷ s) p i h = elim (Bool-cases (has_prefix (c ∷ s) p)) [
  | inl b ↦ let le = length-has_prefix (c ∷ s) p b in ground arith
  | inr b ↦ elim (Option-cases (index s p)) [
    | inl e ↦ ground arith
    | inr (j, e) ↦ let le = index_bound s p j e in ground arith
  ]
]

length-map : (f : ℕ → ℕ) (s : Text) → length (map f s) ≡ length s
length-map f [] = refl
length-map f (c ∷ s) = ap suc (length-map f s)

module _ ⦃str : Strings⦄ (laws : StringsLaws str) where
  info_hash-ascii :
      (link : Text) → every is_ascii link ≡ true → (h : Text) × (info_hash link ≡ some h)
  unfolding info_hash
  info_hash-ascii link a = elim (Option-cases (index (str.lower link) marker)) [
    | inl e ↦ ([], rw e)
    | inr (i, e) ↦
        let le = index_bound (str.lower link) marker i e in
        let len : length (str.lower link) ≡ length link =
          rw (laws.lower_ascii link a) (length-map ascii_lower link) in
        (str.lower (until ends_hash (drop (i + length marker) link)), rw e (ground arith))
  ]

  dedupe_step-ascii :
      (r : Result) (seen : List Text) (rest : List Text → Option (List Result)) (h : Text)
      → ((seen' : List Text) → (out : List Result) × (rest seen' ≡ some out))
      → (out : List Result) × (dedupe_step r seen rest (some h) ≡ some out)
  unfolding dedupe_step
  dedupe_step-ascii r seen rest h later = elim (Bool-cases (dedupe_hash h seen)) [
    | inl b ↦ rw b (later seen)
    | inr b ↦ let (out, e) = later (if text_eq h [] then seen else h ∷ seen) in (r ∷ out, rw (b, e))
  ]

  dedupe_from-ascii :
      (seen : List Text) (rs : List Result)
      → All (λ r. every is_ascii r.link ≡ true) rs
      → (out : List Result) × (dedupe_from seen rs ≡ some out)
  unfolding dedupe_from
  dedupe_from-ascii seen [] a = ([], refl)
  dedupe_from-ascii seen (r ∷ rs) (p, a) =
      let (h, e) = info_hash-ascii r.link p in
      rw e (
        dedupe_step-ascii r seen (λ seen'. dedupe_from seen' rs) h
          λ seen'. dedupe_from-ascii seen' rs a)

  -- A search whose results have links in ASCII only, as URIs are, returns.
  pub search_returns :
      (ss : List Source) (query : Text)
      → All (λ r. every is_ascii r.link ≡ true) (answered query ss)
      → (reply : Reply) × (search_all ss query ≡ some reply)
  unfolding search_all dedupe
  search_returns ss query a = elim (Bool-cases ((gather query ss).failed == length ss)) [
    | inl b ↦ (
      record {
        results = [];
        warnings = [];
        err = some (codes "every indexer failed: " ++ join (codes "; ") (gather query ss).warnings);
      },
      rw b,
    )
    | inr b ↦
        let (out, e) = dedupe_from-ascii [] (answered query ss) a in
        (
          record {
            results = sort_stable (by_greater seeder_key) out;
            warnings = (gather query ss).warnings;
            err = none;
          },
          rw (b, merged-gather query ss, e),
        )
  ]

-- The letter U+023A, `n` times, and its lower case.
abbrev pub strokes : ℕ → Text
strokes zero = []
strokes (suc n) = 200 ∷ 186 ∷ strokes n

lowered_strokes : ℕ → Text
lowered_strokes zero = []
lowered_strokes (suc n) = 226 ∷ 177 ∷ 165 ∷ lowered_strokes n

length-strokes : (n : ℕ) (s : Text) → length (strokes n ++ s) ≡ 2 * n + length s
length-strokes zero s = omega arith
length-strokes (suc n) s = omega (arith, length-strokes n s)

index-lowered_strokes :
    (n : ℕ) (s : Text) → index (lowered_strokes n ++ (marker ++ s)) marker ≡ some (3 * n)
unfolding index lowered_strokes has_prefix
index-lowered_strokes zero s = refl
index-lowered_strokes (suc n) s = ground (arith, index-lowered_strokes n s)

length-marked : (n : ℕ) (s : Text) → length (strokes n ++ (marker ++ s)) ≡ 2 * n + 12 + length s
length-marked n s = length-strokes n (marker ++ s) ∙ omega arith

module _ ⦃str : Strings⦄ (laws : StringsLaws str) where
  lower-strokes :
      (n : ℕ) (s : Text)
      → every is_ascii s ≡ true
      → str.lower (strokes n ++ (marker ++ s)) ≡ lowered_strokes n ++ (marker ++ map ascii_lower s)
  unfolding lowered_strokes every
  lower-strokes zero s a = laws.lower_ascii (marker ++ s) a
  lower-strokes (suc n) s a =
      laws.lower_stroke _ ∙ ap (λ s. 226 ∷ 177 ∷ 165 ∷ s) (lower-strokes n s a)

  info_hash-strokes :
      (n : ℕ) (s : Text)
      → every is_ascii s ≡ true
      → length s < n
      → info_hash (strokes n ++ (marker ++ s)) ≡ none
  unfolding info_hash
  info_hash-strokes n s a short =
      rw (lower-strokes n s a, index-lowered_strokes n (map ascii_lower s))
        (ground (arith, length-marked n s))

  dedupe-strokes :
      (r : Result) (rs : List Result) (n : ℕ) (t : Text)
      → every is_ascii t ≡ true
      → length t < n
      → r.link ≡ strokes n ++ (marker ++ t)
      → dedupe (r ∷ rs) ≡ none
  unfolding dedupe dedupe_from dedupe_step
  dedupe-strokes r rs n t a short e = rw (ap info_hash e ∙ info_hash-strokes n t a short)

  answered-first :
      (s : Source) (ss : List Source) (query : Text) (r : Result) (rs : List Result)
      → (s.search query).err ≡ none
      → (s.search query).results ≡ r ∷ rs
      → answered query (s ∷ ss) ≡ r ∷ rs ++ answered query ss
  answered-first s ss query r rs ok e =
      ap (λ o. answered_results (s.search query) o ++ answered query ss) ok
      ∙ ap (λ l. l ++ answered query ss) e

  -- A search panics where the source that is asked first answers, and its first result has a link that
  -- is the letter U+023A a number of times, the marker of the hash, and fewer ASCII characters than
  -- there were letters: each letter grows by a byte as it is lowered, and so the offset found in the
  -- lowered link lies past the end of the link.
  pub search_panics :
      (s : Source) (ss : List Source) (query : Text) (r : Result) (rs : List Result) (n : ℕ)
      (t : Text)
      → (s.search query).err ≡ none
      → (s.search query).results ≡ r ∷ rs
      → every is_ascii t ≡ true
      → length t < n
      → r.link ≡ strokes n ++ (marker ++ t)
      → search_all (s ∷ ss) query ≡ none
  unfolding search_all
  search_panics s ss query r rs n t ok e a short link =
      let lt = (failed-lt-length_iff query (s ∷ ss)).1 (inl ok) in
      let some_answer : ((gather query (s ∷ ss)).failed == length (s ∷ ss)) ≡ false =
        ground arith in
      let panics =
        ap dedupe (merged-gather query (s ∷ ss) ∙ answered-first s ss query r rs ok e)
        ∙ dedupe-strokes r (rs ++ answered query ss) n t a short link in
      rw (some_answer, panics)
