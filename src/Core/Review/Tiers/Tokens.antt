-- ===== src/Core/Review/Tiers/Tokens.antt =====
-- The tokens of a text partition it, and equal texts are the same.
use nisaba.Prelude.{
  ℕ, ◌≡◌, refl, ap, ◌∙◌, ◌==◌, true, Bool-cases, inl, inr, List, [], ◌∷◌, Text, arith,
}
use mathlib.Core.Path.{ap₂}
use nisaba.Core.Review.Tiers.{same_text, push_token, split_lines, split_words, joins, concat}

pub same_text-eq : (a b : Text) → same_text a b ≡ true → a ≡ b
same_text-eq [] [] h = refl
same_text-eq [] (y ∷ b) h = absurd (ground arith)
same_text-eq (x ∷ a) [] h = absurd (ground arith)
same_text-eq (x ∷ a) (y ∷ b) h =
    let e : x ≡ y = ground arith in ap₂ ◌∷◌ e (same_text-eq a b (ground arith))

concat-push_token : (c : ℕ) (ts : List Text) → concat (push_token c ts) ≡ c ∷ concat ts
concat-push_token c [] = refl
concat-push_token c (t ∷ ts) = refl

pub concat-split_lines : (t : Text) → concat (split_lines t) ≡ t
unfolding split_lines
concat-split_lines [] = refl
concat-split_lines (c ∷ cs) = elim (Bool-cases (c == 10)) [
  | inl e ↦ rw e (ap (λ z. c ∷ z) (concat-split_lines cs))
  | inr e ↦ rw e (concat-push_token c (split_lines cs) ∙ ap (λ z. c ∷ z) (concat-split_lines cs))
]

pub concat-split_words : (t : Text) → concat (split_words t) ≡ t
unfolding split_words
concat-split_words [] = refl
concat-split_words (c ∷ cs) = elim (Bool-cases (joins c cs)) [
  | inl e ↦ rw e (concat-push_token c (split_words cs) ∙ ap (λ z. c ∷ z) (concat-split_words cs))
  | inr e ↦ rw e (ap (λ z. c ∷ z) (concat-split_words cs))
]
