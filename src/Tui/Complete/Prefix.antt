-- ===== src/Tui/Complete/Prefix.antt =====
-- The common prefix of internal/tui/complete.go is the longest.
use torrnado.Common.{
  ℕ, zero, suc, ◌≡◌, refl, ap, inl, inr, true, false, List, [], ◌∷◌, arith, Bool-cases, length, All,
}
use torrnado.Common.Text.{Text, has_prefix}
use torrnado.Tui.Prompt.{drop_last_byte}
use torrnado.Tui.Complete.{shorten, common_with, longest_common_prefix}

has_prefix_refl : (s : Text) → has_prefix s s ≡ true
unfolding has_prefix
has_prefix_refl [] = refl
has_prefix_refl (c ∷ s) = ground (arith, has_prefix_refl s)

has_prefix_trans :
    (s p q : Text) → has_prefix s p ≡ true → has_prefix p q ≡ true → has_prefix s q ≡ true
unfolding has_prefix
has_prefix_trans s p [] h k = refl
has_prefix_trans s [] (c ∷ q) h k = cc
has_prefix_trans [] (d ∷ p) (c ∷ q) h k = cc
has_prefix_trans (e ∷ s) (d ∷ p) (c ∷ q) h k = ground (arith, has_prefix_trans s p q)

has_prefix-drop_last_byte : (s : Text) → has_prefix s (drop_last_byte s) ≡ true
unfolding has_prefix drop_last_byte
has_prefix-drop_last_byte [] = refl
has_prefix-drop_last_byte (c ∷ []) = refl
has_prefix-drop_last_byte (c ∷ d ∷ s) = ground (arith, has_prefix-drop_last_byte (d ∷ s))

-- A prefix of a text, other than the text, is one of all but its last byte.
prefix_of_dropped :
    (n c p : Text)
    → has_prefix n c ≡ false
    → has_prefix n p ≡ true
    → has_prefix c p ≡ true
    → has_prefix (drop_last_byte c) p ≡ true
unfolding has_prefix drop_last_byte
prefix_of_dropped n c [] h k l = refl
prefix_of_dropped n [] (x ∷ p) h k l = cc
prefix_of_dropped [] (a ∷ c) (x ∷ p) h k l = cc
prefix_of_dropped (b ∷ n) (a ∷ []) (x ∷ p) h k l = ground arith
prefix_of_dropped (b ∷ n) (a ∷ a' ∷ c) (x ∷ p) h k l =
    ground (arith, prefix_of_dropped n (a' ∷ c) p)

length-drop_last_byte : (k : ℕ) (c : Text) → length c ≡ suc k → length (drop_last_byte c) ≡ k
unfolding drop_last_byte
length-drop_last_byte k [] e = absurd (omega arith)
length-drop_last_byte k (c ∷ []) e = omega arith
length-drop_last_byte zero (c ∷ d ∷ s) e = absurd (omega arith)
length-drop_last_byte (suc k) (c ∷ d ∷ s) e = ap suc (length-drop_last_byte k (d ∷ s) (omega arith))

-- What is left of `c` is a prefix of `n` and of `c`, and the longest.
shorten_lem :
    (k : ℕ) (n c p : Text)
    → length c ≡ k
    → has_prefix n p ≡ true
    → has_prefix c p ≡ true
    → (has_prefix n (shorten k n c) ≡ true)
      × (has_prefix c (shorten k n c) ≡ true)
      × (has_prefix (shorten k n c) p ≡ true)
unfolding shorten has_prefix
shorten_lem zero n [] p e h l = (refl, refl, l)
shorten_lem zero n (x ∷ c) p e h l = absurd (omega arith)
shorten_lem (suc k) n c p e h l = elim (Bool-cases (has_prefix n c)) [
  | inl b ↦ rw b (b, has_prefix_refl c, l)
  | inr b ↦
      let (x, y, z) =
        shorten_lem k n (drop_last_byte c) p (length-drop_last_byte k c e) h
          (prefix_of_dropped n c p b h l) in
      rw b (x, has_prefix_trans c (drop_last_byte c) _ (has_prefix-drop_last_byte c) y, z)
]

All-has_prefix :
    (q r : Text) (ns : List Text)
    → has_prefix q r ≡ true
    → All (λ n. has_prefix n q ≡ true) ns
    → All (λ n. has_prefix n r ≡ true) ns
All-has_prefix q r [] h k = tt
All-has_prefix q r (n ∷ ns) h (a, k) = (has_prefix_trans n q r a h, All-has_prefix q r ns h k)

common_with_lem :
    (c : Text) (ns : List Text) (p : Text)
    → has_prefix c p ≡ true
    → All (λ n. has_prefix n p ≡ true) ns
    → (has_prefix c (common_with c ns) ≡ true)
      × All (λ n. has_prefix n (common_with c ns) ≡ true) ns
      × (has_prefix (common_with c ns) p ≡ true)
unfolding common_with
common_with_lem c [] p h k = (has_prefix_refl c, tt, h)
common_with_lem c (n ∷ ns) p h (a, k) =
    let (x, y, z) = shorten_lem (length c) n c p refl a h in
    let s = shorten (length c) n c in
    let (u, v, w) = common_with_lem s ns p z k in
    (has_prefix_trans c s _ y u, (has_prefix_trans n s _ x u, v), w)

-- What several names have in common is a prefix of each, and whatever is a prefix of each is a prefix
-- of it.
pub longest_common_prefix_lem :
    (n : Text) (ns : List Text) (p : Text)
    → All (λ x. has_prefix x p ≡ true) (n ∷ ns)
    → All (λ x. has_prefix x (longest_common_prefix (n ∷ ns)) ≡ true) (n ∷ ns)
      × (has_prefix (longest_common_prefix (n ∷ ns)) p ≡ true)
unfolding longest_common_prefix
longest_common_prefix_lem n ns p (h, k) = let (u, v, w) = common_with_lem n ns p h k in ((u, v), w)
