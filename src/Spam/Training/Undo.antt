-- ===== src/Spam/Training/Undo.antt =====
-- Learning is done once for a message and a class, and unlearning takes it back.
use elec_postal.Base.{
  ℕ, ◌≡◌, refl, ap, true, none, List, [], ◌∷◌, Bool-cases, Option-cases, inl, inr,
}
use elec_postal.Text.{Text}
use elec_postal.Spam.Store.{MemStore, is_learned}
use elec_postal.Spam.Store.Marks.{
  IsSame, mark_learned-known, mark_learned-new, is_learned-marked, undo-IsSame,
}
use elec_postal.Spam.Training.{
  validate_class, after_mark, learn_tokens, learn, unlearn_tokens, unlearn,
}

module _ {I : Type 0} (tokenize : I → List ℕ) (digest : List ℕ → Text) where
  learn_tokens-again :
      (hashes : List ℕ) (class : Text) (m : MemStore)
      → learn_tokens tokenize digest hashes class (learn_tokens tokenize digest hashes class m)
        ≡ learn_tokens tokenize digest hashes class m
  unfolding learn_tokens after_mark
  learn_tokens-again [] class m = refl
  learn_tokens-again (h ∷ hashes) class m =
      let d = digest (h ∷ hashes) in
      elim (Option-cases (is_learned m d)) [
        | inl e ↦
            rw (mark_learned-new class d m e, learn_tokens, after_mark)
              (rw (mark_learned-known class d class _ (is_learned-marked (h ∷ hashes) class d m))
                refl)
        | inr (old, e) ↦
            rw (mark_learned-known class d old m e, learn_tokens)
              (rw (mark_learned-known class d old m e) refl)
      ]

  undo_tokens :
      (hashes : List ℕ) (class : Text) (m : MemStore)
      → is_learned m (digest hashes) ≡ none
      → IsSame
          (unlearn_tokens tokenize digest hashes class
            (learn_tokens tokenize digest hashes class m))
          m
  unfolding unlearn_tokens learn_tokens
  undo_tokens [] class m h = record {
    tokens = λ k. refl;
    spam = refl;
    ham = refl;
    learned = λ d. refl;
  }
  undo_tokens (h ∷ hashes) class m new =
      rw
        (
          mark_learned-new class (digest (h ∷ hashes)) m new,
          unlearn_tokens,
          learn_tokens,
          after_mark,
        )
        (undo-IsSame (h ∷ hashes) class (digest (h ∷ hashes)) m new)

  -- Learning a message a second time in the same class is a no-op: the store and the answer are
  -- those of the first time, for a class that is refused as well.
  pub learn_twice :
      (input : I) (class : Text) (m : MemStore)
      → learn tokenize digest input class (learn tokenize digest input class m).1
        ≡ learn tokenize digest input class m
  unfolding learn
  learn_twice input class m = elim (Bool-cases (validate_class class)) [
    | inl e ↦ rw (e, learn) (ap (λ x. (true, x)) (learn_tokens-again (tokenize input) class m))
    | inr e ↦ rw (e, learn) refl
  ]

  -- Learning a message that is not marked and then unlearning it from the same class leaves the
  -- store as it was: all counts, both totals and all marks.
  pub unlearn-learn :
      (input : I) (class : Text) (m : MemStore)
      → is_learned m (digest (tokenize input)) ≡ none
      → IsSame (unlearn tokenize digest input class (learn tokenize digest input class m).1).1 m
  unfolding unlearn learn
  unlearn-learn input class m new = elim (Bool-cases (validate_class class)) [
    | inl e ↦ rw (e, unlearn, learn) (undo_tokens (tokenize input) class m new)
    | inr e ↦
        rw (e, unlearn, learn)
          (record { tokens = λ k. refl; spam = refl; ham = refl; learned = λ d. refl })
  ]
