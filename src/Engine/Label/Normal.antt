-- ===== src/Engine/Label/Normal.antt =====
-- What `normalizeLabel` accepts.
use torrnado.Common.{
  ◌≤◌, ◌≡◌, refl, sym, ap, ◌∙◌, Bool, true, false, ◌&&◌, not, [], ◌∷◌, arith, ltb, inl, inr,
  Bool-cases,
}
use mathlib.Core.Path.{subst}
use torrnado.Common.Text.{Text, text_eq}
use torrnado.Engine.State.{ok}
use torrnado.Engine.State.{ok}
use torrnado.Engine.Label.{
  is_space, byte_len, trim_left, trim_right, trim_space, accept, has_control, normalize_label,
  max_label_len,
}

-- The text begins with no space.
starts_solid : Text → Bool
starts_solid [] = true
starts_solid (r ∷ s) = not (is_space r)

trim_left_solid : (s : Text) → starts_solid (trim_left s) ≡ true
unfolding trim_left starts_solid
trim_left_solid [] = refl
trim_left_solid (r ∷ s) = elim (Bool-cases (is_space r)) [
  | inl p ↦ rw p (trim_left_solid s)
  | inr p ↦ rw (p, p) refl
]

trim_left_same : (s : Text) → starts_solid s ≡ true → trim_left s ≡ s
unfolding trim_left starts_solid
trim_left_same [] h = refl
trim_left_same (r ∷ s) h = elim (Bool-cases (is_space r)) [
  | inl p ↦ let h' = rw p at h in cc
  | inr p ↦ rw p refl
]

trim_right_solid : (s : Text) → starts_solid s ≡ true → starts_solid (trim_right s) ≡ true
unfolding trim_right starts_solid
trim_right_solid [] h = refl
trim_right_solid (r ∷ s) h = elim (Bool-cases (text_eq (trim_right s) [] && is_space r)) [
  | inl p ↦ rw p refl
  | inr p ↦ rw p h
]

trim_right_same : (s : Text) → trim_right (trim_right s) ≡ trim_right s
unfolding trim_right
trim_right_same [] = refl
trim_right_same (r ∷ s) = elim (Bool-cases (text_eq (trim_right s) [] && is_space r)) [
  | inl p ↦ rw p refl
  | inr p ↦ rw p (rw (trim_right_same s, p) refl)
]

pub trim_space_same : (s : Text) → trim_space (trim_space s) ≡ trim_space s
unfolding trim_space
trim_space_same s =
    rw
      (trim_left_same (trim_right (trim_left s))
        (trim_right_solid (trim_left s) (trim_left_solid s)))
      (trim_right_same (trim_left s))

ok-injective : (a b : Text) → ok a ≡ ok b → a ≡ b
ok-injective a b h = cc

accept_same :
    (label l : Text)
    → accept label ≡ ok l
    → (label ≡ l) × (byte_len l ≤ max_label_len) × (has_control l ≡ false)
unfolding accept text_eq
accept_same [] l h = let e = ok-injective [] l h in rw⁻¹ e (refl, omega arith, refl)
accept_same (r ∷ s) l h = elim (Bool-cases (ltb max_label_len (byte_len (r ∷ s)))) [
  | inl p ↦ let h' = rw p at h in cc
  | inr p ↦ elim (Bool-cases (has_control (r ∷ s))) [
    | inl q ↦ let h' = rw (p, q) at h in cc
    | inr q ↦ let e = ok-injective (r ∷ s) l (rw (p, q) at h) in rw⁻¹ e (refl, ground arith, q)
  ]
]

-- A label that is accepted is at most 64 bytes long, has no control character in it, and is a normal
-- form: normalizing it again changes nothing.
pub normalize_label_normal :
    (s l : Text)
    → normalize_label s ≡ ok l
    → (byte_len l ≤ max_label_len) × (has_control l ≡ false) × (normalize_label l ≡ ok l)
unfolding normalize_label
normalize_label_normal s l h =
    let (same, len, clean) = accept_same (trim_space s) l h in
    (
      len,
      clean,
      subst (λ t. accept t ≡ ok l) (sym (ap trim_space (sym same) ∙ trim_space_same s)) h,
    )
