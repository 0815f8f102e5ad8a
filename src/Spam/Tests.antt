-- ===== src/Spam/Tests.antt =====
-- The theorems on training at a concrete message, whose tokens include one twice.
use elec_postal.Base.{ℕ, ◌≡◌, refl, List, [], ◌∷◌}
use elec_postal.Text.{Text, codes, text_eq}
use elec_postal.Spam.Store.{MemStore, new_mem_store, incr, mark_learned, is_learned}
use elec_postal.Spam.Store.Marks.{IsSame}
use elec_postal.Spam.Training.{validate_class, learn, unlearn}
use elec_postal.Spam.Training.Undo.{learn_twice, unlearn-learn}

-- a message is the list of its tokens
abbrev tokenize : List ℕ → List ℕ
tokenize message = message

abbrev digest : List ℕ → Text
digest hashes = hashes

abbrev before : MemStore
before = record new_mem_store {
  tokens = (7, record { spam = 2; ham = 0 }) ∷ [];
  spam = 2;
  learned = (9 ∷ [], codes "spam") ∷ [];
}

abbrev message : List ℕ
message = 7 ∷ 8 ∷ 7 ∷ []

after : (learn tokenize digest message (codes "spam") before).1 ≡ record {
  tokens = (7, record { spam = 4; ham = 0 }) ∷ (8, record { spam = 1; ham = 0 }) ∷ [];
  spam = 3;
  ham = 0;
  learned = (message, codes "spam") ∷ (9 ∷ [], codes "spam") ∷ [];
}
unfolding learn validate_class text_eq mark_learned incr
after = refl

learn_twice_example :
    learn tokenize digest message
      (codes "spam")
      (learn tokenize digest message (codes "spam") before).1
    ≡ learn tokenize digest message (codes "spam") before
learn_twice_example = learn_twice tokenize digest message (codes "spam") before

unlearn-learn_example :
    IsSame
      (unlearn tokenize digest message
        (codes "spam")
        (learn tokenize digest message (codes "spam") before).1).1
      before
unfolding is_learned text_eq
unlearn-learn_example = unlearn-learn tokenize digest message (codes "spam") before refl
