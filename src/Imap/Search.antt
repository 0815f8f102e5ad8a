-- ===== src/Imap/Search.antt =====
-- SEARCH and the commands that act on numbers agree: internal/imap/server.go.
use elec_postal.Base.{
  ℕ, ◌+◌, ◌%◌, ◌^◌, ◌<◌, ◌≡◌, refl, Bool, false, ◌||◌, List, [], ◌∷◌, arith, All, length, ◌==◌,
  ==_iff, if◌then◌else◌,
}
use elec_postal.Text.{Text}
use elec_postal.Imap.{Message, Criteria, matches_criteria, number, search_from, ids_from}

-- the numbers of the messages from an index
abbrev pub numbers : Bool → ℕ → List Message → List ℕ
numbers by_uid i [] = []
numbers by_uid i (x ∷ xs) = number by_uid i x ∷ numbers by_uid (i + 1) xs

abbrev pub IsIncreasing : List ℕ → Type 0
IsIncreasing [] = Unit {0}
IsIncreasing (n ∷ ns) = All (λ m. n < m) ns × IsIncreasing ns

-- the messages that match, without their numbers
abbrev pub matching : Criteria → List Message → List Text
matching c [] = []
matching c (x ∷ xs) =
    let rest = matching c xs in if matches_criteria x c then x.email_id ∷ rest else rest

abbrev pub listed_in : ℕ → List ℕ → Bool
listed_in n [] = false
listed_in n (m ∷ ms) = n == m || listed_in n ms

search_from-above :
    (by_uid : Bool) (c : Criteria) (n i : ℕ) (xs : List Message)
    → All (λ m. n < m) (numbers by_uid i xs)
    → listed_in n (search_from by_uid c i xs) ≡ false
unfolding search_from
search_from-above by_uid c n i [] h = refl
search_from-above by_uid c n i (x ∷ xs) (h, hs) =
    ground (arith, h, search_from-above by_uid c n (i + 1) xs hs, ==_iff n (number by_uid i x))

-- a number above another is not that one
pass_over :
    (n : ℕ) (ns found : List ℕ) (contains : ℕ → Bool) (hit : Bool)
    → All (λ m. n < m) ns
    → All (λ m. contains m ≡ listed_in m (if hit then n ∷ found else found)) ns
    → All (λ m. contains m ≡ listed_in m found) ns
pass_over n [] found contains hit h k = tt
pass_over n (m ∷ ns) found contains hit (h, hs) (k, ks) =
    (ground (arith, h, k, ==_iff m n), pass_over n ns found contains hit hs ks)

ids_from-matching :
    (by_uid : Bool) (c : Criteria) (contains : ℕ → Bool) (i : ℕ) (xs : List Message)
    → IsIncreasing (numbers by_uid i xs)
    → All (λ n. contains n ≡ listed_in n (search_from by_uid c i xs)) (numbers by_uid i xs)
    → ids_from by_uid contains i xs ≡ matching c xs
unfolding ids_from search_from
ids_from-matching by_uid c contains i [] up h = refl
ids_from-matching by_uid c contains i (x ∷ xs) (above, up) (h, hs) =
    let n = number by_uid i x in
    let found = search_from by_uid c (i + 1) xs in
    let rest =
      ids_from-matching by_uid c contains (i + 1) xs up
        (pass_over n (numbers by_uid (i + 1) xs) found contains (matches_criteria x c) above hs) in
    ground (arith, h, rest, search_from-above by_uid c n (i + 1) xs above, ==_iff n n)

-- Where the numbers of a listing increase, a set of just the numbers that SEARCH returned selects,
-- for STORE, COPY and MOVE, exactly the messages that match the criteria, in order.
pub ids_from-search_from :
    (by_uid : Bool) (c : Criteria) (contains : ℕ → Bool) (xs : List Message)
    → IsIncreasing (numbers by_uid 0 xs)
    → ((n : ℕ) → contains n ≡ listed_in n (search_from by_uid c 0 xs))
    → ids_from by_uid contains 0 xs ≡ matching c xs
ids_from-search_from by_uid c contains xs up h =
    ids_from-matching by_uid c contains 0 xs up (All-every (numbers by_uid 0 xs))
  where
    All-every : (ns : List ℕ) → All (λ n. contains n ≡ listed_in n (search_from by_uid c 0 xs)) ns
    All-every [] = tt
    All-every (n ∷ ns) = (h n, All-every ns)

numbers-above :
    (n i : ℕ) (xs : List Message)
    → n < i + 1
    → i + length xs < 2 ^ 32
    → All (λ m. n < m) (numbers false i xs)
unfolding number
numbers-above n i [] h few = tt
numbers-above n i (x ∷ xs) h few =
    (omega (arith, h, few), numbers-above n (i + 1) xs (omega (arith, h)) (omega (arith, few)))

-- The sequence numbers of fewer than 2 ^ 32 messages increase.
pub numbers-IsIncreasing :
    (i : ℕ) (xs : List Message) → i + length xs < 2 ^ 32 → IsIncreasing (numbers false i xs)
unfolding number
numbers-IsIncreasing i [] few = tt
numbers-IsIncreasing i (x ∷ xs) few = (
  numbers-above ((i + 1) % 2 ^ 32) (i + 1) xs (omega (arith, few)) (omega (arith, few)),
  numbers-IsIncreasing (i + 1) xs (omega (arith, few)),
)
