-- ===== src/MailStore/Flags/Laws.antt =====
-- What `mergeFlags` of internal/service/protocol_store.go computes.
use elec_postal.Base.{
  ◌≡◌, inl, inr, refl, Bool, true, false, not, ◌&&◌, ◌||◌, List, [], ◌∷◌, arith, Bool-cases, All,
  if◌then◌else◌,
}
use elec_postal.Text.{Text, codes, text_eq, text_eq_iff, member}
use elec_postal.MailStore.Flags.{
  text_lt, insert_flag, insert_flags, delete_flag, delete_flags, merge_flags,
}

text_lt_trans : (a b c : Text) → text_lt a b ≡ true → text_lt b c ≡ true → text_lt a c ≡ true
unfolding text_lt
text_lt_trans a [] c h k = absurd (cc h)
text_lt_trans a (y ∷ b) [] h k = absurd (cc k)
text_lt_trans [] (y ∷ b) (z ∷ c) h k = refl
text_lt_trans (x ∷ a) (y ∷ b) (z ∷ c) h k = ground (arith, text_lt_trans a b c)

text_lt_total : (a b : Text) → text_eq a b ≡ false → text_lt a b ≡ false → text_lt b a ≡ true
unfolding text_lt text_eq
text_lt_total [] [] e h = absurd (cc e)
text_lt_total [] (y ∷ b) e h = absurd (cc h)
text_lt_total (x ∷ a) [] e h = refl
text_lt_total (x ∷ a) (y ∷ b) e h = ground (arith, text_lt_total a b)

-- Strictly increasing, so without repetition.
abbrev pub IsSorted : List Text → Type 0
IsSorted [] = Unit {0}
IsSorted (x ∷ xs) = All (λ y. text_lt x y ≡ true) xs × IsSorted xs

insert_flag-above :
    (x y : Text) (ys : List Text)
    → text_lt y x ≡ true
    → All (λ z. text_lt y z ≡ true) ys
    → All (λ z. text_lt y z ≡ true) (insert_flag x ys)
unfolding insert_flag
insert_flag-above x y [] h hs = (h, tt)
insert_flag-above x y (z ∷ zs) h (hz, hs) = elim (Bool-cases (text_eq x z)) [
  | inl e ↦ rw e (hz, hs)
  | inr e ↦ elim (Bool-cases (text_lt x z)) [
    | inl l ↦ rw (e, l) (h, (hz, hs))
    | inr l ↦ rw (e, l) (hz, insert_flag-above x y zs h hs)
  ]
]

above_trans :
    (x z : Text) (zs : List Text)
    → text_lt x z ≡ true
    → All (λ y. text_lt z y ≡ true) zs
    → All (λ y. text_lt x y ≡ true) zs
above_trans x z [] h hs = tt
above_trans x z (y ∷ ys) h (hy, hs) = (text_lt_trans x z y h hy, above_trans x z ys h hs)

insert_flag-IsSorted : (x : Text) (ys : List Text) → IsSorted ys → IsSorted (insert_flag x ys)
unfolding insert_flag
insert_flag-IsSorted x [] h = (tt, tt)
insert_flag-IsSorted x (z ∷ zs) (hz, hs) = elim (Bool-cases (text_eq x z)) [
  | inl e ↦ rw e (hz, hs)
  | inr e ↦ elim (Bool-cases (text_lt x z)) [
    | inl l ↦ rw (e, l) ((l, above_trans x z zs l hz), (hz, hs))
    | inr l ↦
        rw (e, l)
          (insert_flag-above x z zs (text_lt_total x z e l) hz, insert_flag-IsSorted x zs hs)
  ]
]

delete_flag-above :
    (x y : Text) (ys : List Text)
    → All (λ z. text_lt y z ≡ true) ys
    → All (λ z. text_lt y z ≡ true) (delete_flag x ys)
unfolding delete_flag
delete_flag-above x y [] hs = tt
delete_flag-above x y (z ∷ zs) (hz, hs) = elim (Bool-cases (text_eq x z)) [
  | inl e ↦ rw e (delete_flag-above x y zs hs)
  | inr e ↦ rw e (hz, delete_flag-above x y zs hs)
]

delete_flag-IsSorted : (x : Text) (ys : List Text) → IsSorted ys → IsSorted (delete_flag x ys)
unfolding delete_flag
delete_flag-IsSorted x [] h = tt
delete_flag-IsSorted x (z ∷ zs) (hz, hs) = elim (Bool-cases (text_eq x z)) [
  | inl e ↦ rw e (delete_flag-IsSorted x zs hs)
  | inr e ↦ rw e (delete_flag-above x z zs hz, delete_flag-IsSorted x zs hs)
]

insert_flags-IsSorted : (xs ys : List Text) → IsSorted ys → IsSorted (insert_flags xs ys)
unfolding insert_flags
insert_flags-IsSorted [] ys h = h
insert_flags-IsSorted (x ∷ xs) ys h =
    insert_flags-IsSorted xs (insert_flag x ys) (insert_flag-IsSorted x ys h)

delete_flags-IsSorted : (xs ys : List Text) → IsSorted ys → IsSorted (delete_flags xs ys)
unfolding delete_flags
delete_flags-IsSorted [] ys h = h
delete_flags-IsSorted (x ∷ xs) ys h =
    delete_flags-IsSorted xs (delete_flag x ys) (delete_flag-IsSorted x ys h)

member-insert_flag :
    (f x : Text) (ys : List Text) → member f (insert_flag x ys) ≡ (text_eq f x || member f ys)
unfolding insert_flag member
member-insert_flag f x [] = refl
member-insert_flag f x (y ∷ ys) = ground (arith, member-insert_flag f x ys, text_eq_iff x y)

member-delete_flag :
    (f x : Text) (ys : List Text) → member f (delete_flag x ys) ≡ (not (text_eq f x) && member f ys)
unfolding delete_flag member
member-delete_flag f x [] = ground arith
member-delete_flag f x (y ∷ ys) =
    ground (arith, member-delete_flag f x ys, text_eq_iff x y, text_eq_iff f x, text_eq_iff f y)

member-insert_flags :
    (f : Text) (xs ys : List Text) → member f (insert_flags xs ys) ≡ (member f xs || member f ys)
unfolding insert_flags member
member-insert_flags f [] ys = refl
member-insert_flags f (x ∷ xs) ys =
    ground (arith, member-insert_flags f xs (insert_flag x ys), member-insert_flag f x ys)

member-delete_flags :
    (f : Text) (xs ys : List Text)
    → member f (delete_flags xs ys) ≡ (not (member f xs) && member f ys)
unfolding delete_flags member
member-delete_flags f [] ys = refl
member-delete_flags f (x ∷ xs) ys =
    ground (arith, member-delete_flags f xs (delete_flag x ys), member-delete_flag f x ys)

if-IsSorted :
    (b : Bool) (xs ys : List Text) → IsSorted xs → IsSorted ys → IsSorted (if b then xs else ys)
if-IsSorted true xs ys hx hy = hx
if-IsSorted false xs ys hx hy = hy

-- The flags after a merge, as a set.
abbrev pub merged : List Text → List Text → Text → Text → Bool
merged current requested mode f =
    if text_eq mode (codes "replace")
    then member f requested
    else if text_eq mode (codes "add")
    then member f requested || member f current
    else if text_eq mode (codes "remove")
    then not (member f requested) && member f current
    else member f current

-- mergeFlags returns the flags of the union, the difference, the request or, for another mode, the
-- old flags, in increasing order and each once.
pub merge_flags_lem :
    (current requested : List Text) (mode : Text)
    → ((f : Text) → member f (merge_flags current requested mode) ≡ merged current requested mode f)
      × IsSorted (merge_flags current requested mode)
unfolding merge_flags member
merge_flags_lem current requested mode =
    let set = insert_flags current [] in
    let sorted = insert_flags-IsSorted current [] tt in
    (
      λ f. ground (
        arith,
        member-insert_flags f requested [],
        member-insert_flags f requested set,
        member-delete_flags f requested set,
        member-insert_flags f current [],
      ),
      if-IsSorted (text_eq mode (codes "replace")) _ _ (insert_flags-IsSorted requested [] tt) (
          if-IsSorted (text_eq mode (codes "add")) _ _ (insert_flags-IsSorted requested set sorted)
            (if-IsSorted (text_eq mode (codes "remove")) _ _
              (delete_flags-IsSorted requested set sorted) sorted)),
    )
