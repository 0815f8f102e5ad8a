-- ===== src/Spam/Store.antt =====
-- `memStore` of internal/spam/store.go. Counts are floating-point numbers there; training changes
-- them by 1 and -1 and never below 0, so they are the natural numbers here.
pub mod Counts
pub mod Marks
use elec_postal.Base.{
  ℕ, suc, ◌+◌, ◌-◌, Bool, true, false, Option, none, some, List, [], ◌∷◌, ◌==◌, if◌then◌else◌,
}
use elec_postal.Text.{Text, codes, text_eq}
use elec_postal.Text.Number.{ℤ, pos, negsuc}

pub record TokenCounts : Type 0 where
  pub spam : ℕ
  pub ham : ℕ

-- The maps are association lists.
pub record MemStore : Type 0 where
  pub tokens : List (ℕ × TokenCounts)
  pub spam : ℕ
  pub ham : ℕ
  pub learned : List (Text × Text)

abbrev pub new_mem_store : MemStore
new_mem_store = record { tokens = []; spam = 0; ham = 0; learned = [] }

pub counts_of : List (ℕ × TokenCounts) → ℕ → TokenCounts
counts_of [] h = record { spam = 0; ham = 0 }
counts_of ((k, tc) ∷ tokens) h = if k == h then tc else counts_of tokens h

unfoldable pub get_counts : MemStore → List ℕ → List TokenCounts
get_counts m [] = []
get_counts m (h ∷ hashes) = counts_of m.tokens h ∷ get_counts m hashes

-- `max(0, n + delta)`
abbrev pub adjust : ℤ → ℕ → ℕ
adjust (pos d) n = n + d
adjust (negsuc d) n = n - suc d

abbrev pub is_ham : Text → Bool
is_ham class = text_eq class (codes "ham")

abbrev pub adjust_counts : Bool → ℤ → TokenCounts → TokenCounts
adjust_counts true delta tc = record tc { ham = adjust delta tc.ham }
adjust_counts false delta tc = record tc { spam = adjust delta tc.spam }

pub set_counts : ℕ → TokenCounts → List (ℕ × TokenCounts) → List (ℕ × TokenCounts)
set_counts h tc [] = (h, tc) ∷ []
set_counts h tc ((k, old) ∷ tokens) =
    let rest = set_counts h tc tokens in if k == h then (k, tc) ∷ tokens else (k, old) ∷ rest

-- the loop of `Incr`
pub incr_tokens : Bool → ℤ → List ℕ → List (ℕ × TokenCounts) → List (ℕ × TokenCounts)
unfolding counts_of set_counts
incr_tokens ham delta [] tokens = tokens
incr_tokens ham delta (h ∷ hashes) tokens =
    incr_tokens ham delta hashes
      (set_counts h (adjust_counts ham delta (counts_of tokens h)) tokens)

unfoldable pub incr : List ℕ → Text → ℤ → MemStore → MemStore
unfolding incr_tokens
incr hashes class delta m =
    let ham = is_ham class in
    record m {
      tokens = incr_tokens ham delta hashes m.tokens;
      ham = if ham then adjust delta m.ham else m.ham;
      spam = if ham then m.spam else adjust delta m.spam;
    }

pub learned_class : List (Text × Text) → Text → Option Text
learned_class [] digest = none
learned_class ((d, class) ∷ l) digest =
    if text_eq d digest then some class else learned_class l digest

unfoldable pub is_learned : MemStore → Text → Option Text
unfolding learned_class
is_learned m digest = learned_class m.learned digest

abbrev marked_as : MemStore → Text → Text → Option Text → Bool × MemStore
marked_as m digest class none = (true, record m { learned = (digest, class) ∷ m.learned })
marked_as m digest class (some old) = (false, m)

unfoldable pub mark_learned : Text → Text → MemStore → Bool × MemStore
unfolding is_learned
mark_learned digest class m = marked_as m digest class (is_learned m digest)

pub without_digest : Text → List (Text × Text) → List (Text × Text)
without_digest digest [] = []
without_digest digest ((d, class) ∷ l) =
    let rest = without_digest digest l in if text_eq d digest then rest else (d, class) ∷ rest

unfoldable pub delete_learned : Text → MemStore → MemStore
unfolding without_digest
delete_learned digest m = record m { learned = without_digest digest m.learned }
