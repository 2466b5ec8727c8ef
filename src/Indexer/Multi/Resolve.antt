-- ===== src/Indexer/Multi/Resolve.antt =====
-- Which source resolves a token.
use torrnado.Common.{
  ◌≡◌, refl, true, Option, none, some, List, [], ◌∷◌, arith, inl, inr, Any, Bool-cases,
}
use torrnado.Common.Text.{Text, mem_text}
use torrnado.Indexer.Result.{Source, Resolved}
use torrnado.Indexer.Token.{token, parse_token, parse_token_iff}
use torrnado.Indexer.Multi.{
  new_multi, resolved, resolution, resolve_with, resolve_among, resolve_in, resolve_parsed,
  resolve_token,
}

-- The source goes by the name, and makes the link of the id.
abbrev pub Resolves : Text → Text → Text → Source → Type 0
Resolves source id l s =
    (mem_text source s.sources ≡ true)
    × ((resolve : Text → Resolved) × (s.resolve ≡ some resolve) × (resolve id ≡ Resolved.link l))

resolution_link : (r : Resolved) (l : Text) → resolution r ≡ resolved l → r ≡ Resolved.link l
unfolding resolution
resolution_link (Resolved.link m) l h = cc
resolution_link (Resolved.failed m) l h = cc

resolve_with-link :
    (source id l : Text) (o : Option (Text → Resolved))
    → resolve_with source id o ≡ resolved l
    → (resolve : Text → Resolved) × (o ≡ some resolve) × (resolve id ≡ Resolved.link l)
unfolding resolve_with
resolve_with-link source id l none h = cc
resolve_with-link source id l (some resolve) h = (resolve, refl, resolution_link (resolve id) l h)

resolve_among-link :
    (source id l : Text) (ss : List Source)
    → resolve_among source id ss ≡ resolved l
    → Any (Resolves source id l) ss
unfolding resolve_among
resolve_among-link source id l [] h = cc
resolve_among-link source id l (s ∷ ss) h = elim (Bool-cases (mem_text source s.sources)) [
  | inl b ↦ inl (b, resolve_with-link source id l s.resolve (rw b at h))
  | inr b ↦ inr (resolve_among-link source id l ss (rw b at h))
]

resolve_in-link :
    (t source id l : Text) (ss : List Source)
    → resolve_in t source id (new_multi ss) ≡ resolved l
    → Any (Resolves source id l) ss
unfolding resolve_in new_multi
resolve_in-link t source id l [] h = cc
resolve_in-link t source id l (s ∷ []) h = elim (Bool-cases (mem_text source s.sources)) [
  | inl b ↦ inl (b, resolve_with-link source id l s.resolve (rw b at h))
  | inr b ↦ ground arith
]
resolve_in-link t source id l (s ∷ u ∷ ss) h = resolve_among-link source id l (s ∷ u ∷ ss) h

resolve_parsed-link :
    (t l : Text) (ss : List Source) (o : Option (Text × Text))
    → parse_token t ≡ o
    → resolve_parsed t (new_multi ss) o ≡ resolved l
    → (source : Text) × (id : Text) × (t ≡ token source id) × Any (Resolves source id l) ss
unfolding resolve_parsed
resolve_parsed-link t l ss none e h = cc
resolve_parsed-link t l ss (some (source, id)) e h =
    (source, id, ((parse_token_iff t source id).0 e).0, resolve_in-link t source id l ss h)

-- A link that comes of a token was made by one of the sources, which goes by the name that the token
-- starts with, of the id that it ends with.
pub resolve_token-link :
    (ss : List Source) (t l : Text)
    → resolve_token (new_multi ss) t ≡ resolved l
    → (source : Text) × (id : Text) × (t ≡ token source id) × Any (Resolves source id l) ss
unfolding resolve_token
resolve_token-link ss t l h = resolve_parsed-link t l ss (parse_token t) refl h
