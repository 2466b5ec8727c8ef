-- ===== src/Indexer/Multi/Distinct.antt =====
-- `dedupe` keeps the first result of every torrent, and every result that names none.
use torrnado.Common.{
  ◌≡◌, refl, Bool, false, Option, none, some, List, [], ◌∷◌, arith, if◌then◌else◌, inl, inr, take,
  filter, Bool-cases, Option-cases,
}
use torrnado.Common.Text.{Text, text_eq, text_eq_iff, mem_text}
use torrnado.Indexer.Result.{Strings, Result}
use torrnado.Indexer.Multi.{info_hash, dedupe, dedupe_from, dedupe_step, dedupe_hash}

module _ ⦃str : Strings⦄ where
  -- Whether the link is a magnet with this hash; the empty hash stands for other links.
  abbrev pub is_hash : Text → Option Text → Bool
  is_hash h none = false
  is_hash h (some k) = text_eq k h

  abbrev pub has_hash : Text → Result → Bool
  has_hash h r = is_hash h (info_hash r.link)

  abbrev pub firsts : Text → List Text → List Result → List Result
  firsts h seen rs =
      if text_eq h []
      then filter (has_hash h) rs
      else if mem_text h seen
      then []
      else take 1 (filter (has_hash h) rs)

  -- One round keeps to the description if the later ones do.
  filter-step :
      (h : Text) (r : Result) (rs : List Result) (seen : List Text)
      (rest : List Text → Option (List Result)) (o : Option Text) (out : List Result)
      → info_hash r.link ≡ o
      → ((seen' : List Text) (out' : List Result)
          → rest seen' ≡ some out'
          → filter (has_hash h) out' ≡ firsts h seen' rs)
      → dedupe_step r seen rest o ≡ some out
      → filter (has_hash h) out ≡ firsts h seen (r ∷ rs)
  unfolding dedupe_step dedupe_hash mem_text
  filter-step h r rs seen rest none out e ih d = cc
  filter-step h r rs seen rest (some k) out e ih d = elim (Bool-cases (dedupe_hash k seen)) [
    | inl dup ↦
        rw e (ground (arith, text_eq_iff k h, text_eq_iff k [], text_eq_iff h [], ih seen out))
    | inr new ↦ elim (Option-cases (rest (if text_eq k [] then seen else k ∷ seen))) [
      | inl z ↦ ground arith
      | inr (out', z) ↦ rw e (
          ground (
            arith,
            text_eq_iff k h,
            text_eq_iff k [],
            text_eq_iff h [],
            ih (if text_eq k [] then seen else k ∷ seen) out',
          ))
    ]
  ]

  filter-dedupe_from :
      (h : Text) (seen : List Text) (rs out : List Result)
      → dedupe_from seen rs ≡ some out
      → filter (has_hash h) out ≡ firsts h seen rs
  unfolding dedupe_from
  filter-dedupe_from h seen [] out e = ground (arith, e)
  filter-dedupe_from h seen (r ∷ rs) out e =
      filter-step h r rs seen (λ seen'. dedupe_from seen' rs) (info_hash r.link) out refl
        (λ seen' out' e'. filter-dedupe_from h seen' rs out' e') e

  pub filter-dedupe :
      (h : Text) (rs out : List Result)
      → dedupe rs ≡ some out
      → filter (has_hash h) out
        ≡ (if text_eq h [] then filter (has_hash h) rs else take 1 (filter (has_hash h) rs))
  unfolding dedupe mem_text
  filter-dedupe h rs out e = filter-dedupe_from h [] rs out e
