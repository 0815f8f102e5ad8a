-- ===== src/Spam/Store/Counts.antt =====
-- How `Incr` of internal/spam/store.go changes what the store counts.
use elec_postal.Base.{
  ℕ, zero, suc, ◌+◌, ◌-◌, ◌≡◌, refl, ap, ◌∙◌, Bool, true, false, none, List, [], ◌∷◌, ◌==◌, arith,
  Bool-cases, ==_iff, inl, inr, if◌then◌else◌,
}
use elec_postal.Text.{Text, text_eq, text_eq_iff}
use elec_postal.Text.Number.{ℤ, pos, negsuc}
use elec_postal.Spam.Store.{
  TokenCounts, counts_of, set_counts, adjust_counts, incr_tokens, learned_class, without_digest,
}

counts_of-set_counts :
    (h k : ℕ) (tc : TokenCounts) (tokens : List (ℕ × TokenCounts))
    → counts_of (set_counts h tc tokens) k ≡ (if h == k then tc else counts_of tokens k)
unfolding counts_of set_counts
counts_of-set_counts h k tc [] = refl
counts_of-set_counts h k tc ((j, old) ∷ tokens) = ground (arith, counts_of-set_counts h k tc tokens)

-- how often a number stands in a list
pub occurrences : ℕ → List ℕ → ℕ
occurrences k [] = 0
occurrences k (h ∷ hashes) = let n = occurrences k hashes in if h == k then suc n else n

pub iterate : {A : Type 0} → ℕ → (A → A) → A → A
iterate zero f x = x
iterate (suc n) f x = iterate n f (f x)

iterate-head :
    {A : Type 0} (c : Bool) (n h k : ℕ) (f : A → A) (at : ℕ → A)
    → (c ≡ true → h ≡ k)
    → iterate n f (if c then f (at h) else at k) ≡ iterate (if c then suc n else n) f (at k)
unfolding iterate
iterate-head true n h k f at same = ap (λ j. iterate n f (f (at j))) (same refl)
iterate-head false n h k f at same = refl

-- `Incr` changes the counts of a token once for each time that its hash is given.
pub counts_of-incr_tokens :
    (ham : Bool) (delta : ℤ) (hashes : List ℕ) (tokens : List (ℕ × TokenCounts)) (k : ℕ)
    → counts_of (incr_tokens ham delta hashes tokens) k
      ≡ iterate (occurrences k hashes) (adjust_counts ham delta) (counts_of tokens k)
unfolding incr_tokens occurrences iterate
counts_of-incr_tokens ham delta [] tokens k = refl
counts_of-incr_tokens ham delta (h ∷ hashes) tokens k =
    let f = adjust_counts ham delta in
    counts_of-incr_tokens ham delta hashes (set_counts h (f (counts_of tokens h)) tokens) k
    ∙ (ap (iterate (occurrences k hashes) f)
          (counts_of-set_counts h k (f (counts_of tokens h)) tokens)
        ∙ iterate-head (h == k) (occurrences k hashes) h k f (counts_of tokens) (==_iff h k).0)

iterate-inner : {A : Type 0} (n : ℕ) (f : A → A) (x : A) → iterate n f (f x) ≡ f (iterate n f x)
unfolding iterate
iterate-inner zero f x = refl
iterate-inner (suc n) f x = iterate-inner n f (f x)

iterate-inverse :
    {A : Type 0} (n : ℕ) (f g : A → A) (x : A)
    → ((y : A) → g (f y) ≡ y)
    → iterate n g (iterate n f x) ≡ x
unfolding iterate
iterate-inverse zero f g x inverse = refl
iterate-inverse (suc n) f g x inverse =
    ap (λ y. iterate n g (g y)) (iterate-inner n f x)
    ∙ (ap (iterate n g) (inverse (iterate n f x)) ∙ iterate-inverse n f g x inverse)

adjust_counts-inverse :
    (ham : Bool) (tc : TokenCounts)
    → adjust_counts ham (negsuc 0) (adjust_counts ham (pos 1) tc) ≡ tc
adjust_counts-inverse true tc =
    let e : tc.ham + 1 - 1 ≡ tc.ham = omega arith in ap (λ n. record tc { ham = n }) e
adjust_counts-inverse false tc =
    let e : tc.spam + 1 - 1 ≡ tc.spam = omega arith in ap (λ n. record tc { spam = n }) e

-- Taking back what was added leaves every count as it was.
pub incr_tokens-inverse :
    (ham : Bool) (hashes : List ℕ) (tokens : List (ℕ × TokenCounts)) (k : ℕ)
    → counts_of (incr_tokens ham (negsuc 0) hashes (incr_tokens ham (pos 1) hashes tokens)) k
      ≡ counts_of tokens k
incr_tokens-inverse ham hashes tokens k =
    counts_of-incr_tokens ham (negsuc 0) hashes (incr_tokens ham (pos 1) hashes tokens) k
    ∙ (ap (iterate (occurrences k hashes) (adjust_counts ham (negsuc 0)))
          (counts_of-incr_tokens ham (pos 1) hashes tokens k)
        ∙ iterate-inverse (occurrences k hashes) (adjust_counts ham (pos 1))
            (adjust_counts ham (negsuc 0)) (counts_of tokens k) (adjust_counts-inverse ham))

-- the marker of a digest is gone, and no other
pub learned_class-without_digest :
    (digest d : Text) (l : List (Text × Text))
    → learned_class (without_digest digest l) d
      ≡ (if text_eq digest d then none else learned_class l d)
unfolding learned_class without_digest
learned_class-without_digest digest d [] = ground arith
learned_class-without_digest digest d ((k, class) ∷ l) =
    let ih = learned_class-without_digest digest d l in
    elim (Bool-cases (text_eq k digest)) [
      | inl e ↦ let same : k ≡ digest = (text_eq_iff k digest).0 e in ground (arith, e, same, ih)
      | inr e ↦ ground (arith, e, ih, text_eq_iff k d, text_eq_iff digest d, text_eq_iff k digest)
    ]
