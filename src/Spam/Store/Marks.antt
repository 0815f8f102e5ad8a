-- ===== src/Spam/Store/Marks.antt =====
-- What the operations of `memStore` in internal/spam/store.go do to one another.
use elec_postal.Base.{
  ℕ, ◌+◌, ◌-◌, ◌≡◌, refl, sym, ap, ◌∙◌, Bool, true, false, none, some, List, ◌∷◌, arith, Bool-cases,
  inl, inr, if◌then◌else◌,
}
use elec_postal.Text.{Text, text_eq, text_eq_iff, text_eq_refl}
use elec_postal.Text.Number.{pos, negsuc}
use elec_postal.Spam.Store.{
  MemStore, counts_of, incr, is_ham, is_learned, learned_class, mark_learned, delete_learned,
}
use elec_postal.Spam.Store.Counts.{incr_tokens-inverse, learned_class-without_digest}

-- The stores count and know the same.
pub record IsSame (m m' : MemStore) : Type 0 where
  pub tokens : (h : ℕ) → counts_of m.tokens h ≡ counts_of m'.tokens h
  pub spam : m.spam ≡ m'.spam
  pub ham : m.ham ≡ m'.ham
  pub learned : (digest : Text) → is_learned m digest ≡ is_learned m' digest

pub mark_learned-known :
    (class d old : Text) (m : MemStore)
    → is_learned m d ≡ some old
    → mark_learned d class m ≡ (false, m)
unfolding mark_learned
mark_learned-known class d old m e = rw (e, mark_learned) refl

pub mark_learned-new :
    (class d : Text) (m : MemStore)
    → is_learned m d ≡ none
    → mark_learned d class m ≡ (true, record m { learned = (d, class) ∷ m.learned })
unfolding mark_learned
mark_learned-new class d m e = rw (e, mark_learned) refl

pub is_learned-marked :
    (hashes : List ℕ) (class d : Text) (m : MemStore)
    → is_learned (incr hashes class (pos 1) (record m { learned = (d, class) ∷ m.learned })) d
      ≡ some class
unfolding is_learned learned_class incr
is_learned-marked hashes class d m = ground (arith, text_eq_refl d)

total-inverse :
    (c : Bool) (n : ℕ) → (if c then (if c then n + 1 else n) - 1 else (if c then n + 1 else n)) ≡ n
total-inverse c n = ground arith

total-inverse' :
    (c : Bool) (n : ℕ) → (if c then (if c then n else n + 1) else (if c then n else n + 1) - 1) ≡ n
total-inverse' c n = ground arith

forgotten :
    (d class digest : Text) (l : List (Text × Text))
    → learned_class l digest ≡ none
    → (if text_eq digest d then none else learned_class ((digest, class) ∷ l) d) ≡ learned_class l d
unfolding learned_class
forgotten d class digest l new = elim (Bool-cases (text_eq digest d)) [
  | inl e ↦
      let same : digest ≡ d = (text_eq_iff digest d).0 e in
      rw e (sym (ap (learned_class l) (sym same) ∙ new))
  | inr e ↦ rw e refl
]

-- Taking back a message that was marked and counted leaves a store as it was.
pub undo-IsSame :
    (hashes : List ℕ) (class digest : Text) (m : MemStore)
    → is_learned m digest ≡ none
    → IsSame
        (delete_learned digest (
          incr hashes class
            (negsuc 0)
            (incr hashes class (pos 1) (record m { learned = (digest, class) ∷ m.learned }))))
        m
unfolding delete_learned incr is_learned
undo-IsSame hashes class digest m new = record {
  tokens = incr_tokens-inverse (is_ham class) hashes m.tokens;
  spam = total-inverse' (is_ham class) m.spam;
  ham = total-inverse (is_ham class) m.ham;
  learned = λ d.
      learned_class-without_digest digest d ((digest, class) ∷ m.learned)
      ∙ forgotten d class digest m.learned new;
}
