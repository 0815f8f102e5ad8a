-- ===== src/Spam/Training.antt =====
-- `Learn` and `Unlearn` of internal/spam/scorer.go, on the store in memory. `Tokenize` and `Digest`
-- are parameters.
pub mod Undo
use elec_postal.Base.{ℕ, Bool, true, false, not, ◌&&◌, List, [], ◌∷◌, if◌then◌else◌}
use elec_postal.Text.{Text, codes, text_eq}
use elec_postal.Text.Number.{pos, negsuc}
use elec_postal.Spam.Store.{MemStore, incr, mark_learned, delete_learned}

unfoldable pub validate_class : Text → Bool
validate_class class = not (not (text_eq class (codes "spam")) && not (text_eq class (codes "ham")))

module _ {I : Type 0} (tokenize : I → List ℕ) (digest : List ℕ → Text) where
  after_mark : List ℕ → Text → Bool × MemStore → MemStore
  after_mark hashes class (true, m) = incr hashes class (pos 1) m
  after_mark hashes class (false, m) = m

  learn_tokens : List ℕ → Text → MemStore → MemStore
  unfolding after_mark
  learn_tokens [] class m = m
  learn_tokens (h ∷ hashes) class m =
      after_mark (h ∷ hashes) class (mark_learned (digest (h ∷ hashes)) class m)

  -- The Boolean says that there was no error.
  unfoldable pub learn : I → Text → MemStore → Bool × MemStore
  unfolding learn_tokens validate_class
  learn input class m =
      if validate_class class then (true, learn_tokens (tokenize input) class m) else (false, m)

  unlearn_tokens : List ℕ → Text → MemStore → MemStore
  unlearn_tokens [] class m = m
  unlearn_tokens (h ∷ hashes) class m =
      delete_learned (digest (h ∷ hashes)) (incr (h ∷ hashes) class (negsuc 0) m)

  unfoldable pub unlearn : I → Text → MemStore → Bool × MemStore
  unfolding unlearn_tokens validate_class
  unlearn input class m =
      if validate_class class then (true, unlearn_tokens (tokenize input) class m) else (false, m)
