-- ===== src/MailStore/Keywords/Laws.antt =====
-- What a change of keywords does to the tags of messages: internal/service/keywords.go.
use elec_postal.Base.{
  ◌≡◌, inl, inr, refl, ◌∙◌, Bool, true, false, not, ◌&&◌, ◌||◌, Option, none, some, List, [], ◌∷◌,
  ◌++◌, map, arith, All, All-impl, Bool-cases, if◌then◌else◌,
}
use elec_postal.Text.{Text, codes, text_eq, text_eq_iff, text_eq_refl, to_lower, member}
use elec_postal.MailStore.Keywords.{
  Label, Mapping, Tags, names_label, find_label, label_ids, carries, attach_members, drop_mappings,
  released, attach_found, attach_keywords, detach_keywords, release_keywords, set_protocol_keywords,
}

carries-attach_members :
    (id : Text) (members : List Text) (ms : List Mapping) (e l : Text)
    → carries (attach_members id members ms) e l
      ≡ (carries ms e l || (member e members && text_eq l id))
unfolding attach_members carries member
carries-attach_members id [] ms e l = ground arith
carries-attach_members id (m ∷ members) ms e l = ground (
  arith,
  carries-attach_members id members (if carries ms m id then ms else (m, id) ∷ ms) e l,
  text_eq_iff e m,
  text_eq_iff m e,
  text_eq_iff l id,
  text_eq_iff id l,
)

carries-drop_mappings :
    (members ids : List Text) (ms : List Mapping) (e l : Text)
    → carries (drop_mappings members ids ms) e l
      ≡ (carries ms e l && not (member e members && member l ids))
unfolding drop_mappings carries
carries-drop_mappings members ids [] e l = refl
carries-drop_mappings members ids ((x, y) ∷ ms) e l =
    ground (arith, carries-drop_mappings members ids ms e l, text_eq_iff x e, text_eq_iff y l)

find_label-append :
    (account lower : Text) (ls more : List Label) (l : Label)
    → find_label account lower ls ≡ some l
    → find_label account lower (ls ++ more) ≡ some l
unfolding find_label
find_label-append account lower [] more l h = absurd (cc h)
find_label-append account lower (x ∷ ls) more l h =
    ground (arith, find_label-append account lower ls more l, h)

find_label-new :
    (account lower : Text) (ls : List Label) (l : Label)
    → find_label account lower ls ≡ none
    → names_label account lower l ≡ true
    → find_label account lower (ls ++ l ∷ []) ≡ some l
unfolding find_label
find_label-new account lower [] l h named = ground (arith, named)
find_label-new account lower (x ∷ ls) l h named =
    ground (arith, find_label-new account lower ls l, h, named)

-- the labels that a remove of these names concerns
abbrev pub concerns : Text → List Text → Label → Bool
concerns account names l =
    not l.is_deleted
    && (text_eq l.owner account && member (to_lower l.label_name) (map to_lower names))

label_ids-concerns :
    (account : Text) (names all : List Text) (ls : List Label)
    → ((x : Text)
        → member x (label_ids account (map to_lower names) ls) ≡ true
        → member x all ≡ true)
    → All (λ l. concerns account names l ≡ true → member l.label_id all ≡ true) ls
unfolding label_ids member
label_ids-concerns account names all [] h = tt
label_ids-concerns account names all (l ∷ ls) h = (
  λ c. h l.label_id (ground (arith, c, text_eq_refl l.label_id)),
  label_ids-concerns account names all ls (λ x k. h x (ground (arith, k))),
)

module _ (label_key : Text → Text) (account : Text) (members : List Text) where
  -- A label carries this name in lower case, and the message carries the label.
  abbrev pub IsTagged : Tags → Text → Text → Type 0
  IsTagged t lower e =
      (l : Label) × (find_label account lower t.labels ≡ some l)
      × (carries t.mappings e l.label_id ≡ true)

  attach_found-keeps :
      (t : Tags) (name : Text) (o : Option Label) (lower e : Text)
      → IsTagged t lower e
      → IsTagged (attach_found label_key account members t name o) lower e
  attach_found-keeps t name (some x) lower e (l, found, has) = (
    l,
    found,
    ground (arith, has, carries-attach_members x.label_id members t.mappings e l.label_id),
  )
  attach_found-keeps t name none lower e (l, found, has) = (
    l,
    find_label-append account lower t.labels _ l found,
    ground (arith, has, carries-attach_members (label_key name) members t.mappings e l.label_id),
  )

  attach_found-tags :
      (t : Tags) (name : Text) (o : Option Label) (e : Text)
      → find_label account (to_lower name) t.labels ≡ o
      → member e members ≡ true
      → IsTagged (attach_found label_key account members t name o) (to_lower name) e
  attach_found-tags t name (some x) e found here = (
    x,
    found,
    ground (
      arith,
      here,
      carries-attach_members x.label_id members t.mappings e x.label_id,
      text_eq_refl x.label_id,
    ),
  )
  attach_found-tags t name none e found here = (
    _,
    find_label-new account (to_lower name) t.labels _ found
        (ground (arith, text_eq_refl account, text_eq_refl (to_lower name))),
    ground (
      arith,
      here,
      carries-attach_members (label_key name) members t.mappings e (label_key name),
      text_eq_refl (label_key name),
    ),
  )

  attach_keywords-keeps :
      (names : List Text) (t : Tags) (lower e : Text)
      → IsTagged t lower e
      → IsTagged (attach_keywords label_key account members names t) lower e
  unfolding attach_keywords
  attach_keywords-keeps [] t lower e h = h
  attach_keywords-keeps (name ∷ names) t lower e h =
      attach_keywords-keeps names _ lower e
        (attach_found-keeps t name (find_label account (to_lower name) t.labels) lower e h)

  attach_keywords-tags :
      (names : List Text) (t : Tags) (name e : Text)
      → member name names ≡ true
      → member e members ≡ true
      → IsTagged (attach_keywords label_key account members names t) (to_lower name) e
  unfolding attach_keywords member
  attach_keywords-tags [] t name e h here = absurd (cc h)
  attach_keywords-tags (n ∷ names) t name e h here = elim (Bool-cases (text_eq name n)) [
    | inl same ↦ rw ((text_eq_iff name n).0 same) (
        attach_keywords-keeps names _ (to_lower n) e
          (attach_found-tags t n (find_label account (to_lower n) t.labels) e refl here))
    | inr other ↦ attach_keywords-tags names _ name e (ground (arith, h, other)) here
  ]

  attach_found-others :
      (t : Tags) (name : Text) (o : Option Label) (e l : Text)
      → member e members ≡ false
      → carries (attach_found label_key account members t name o).mappings e l
        ≡ carries t.mappings e l
  attach_found-others t name (some x) e l h =
      ground (arith, h, carries-attach_members x.label_id members t.mappings e l)
  attach_found-others t name none e l h =
      ground (arith, h, carries-attach_members (label_key name) members t.mappings e l)

  attach_keywords-others :
      (names : List Text) (t : Tags) (e l : Text)
      → member e members ≡ false
      → carries (attach_keywords label_key account members names t).mappings e l
        ≡ carries t.mappings e l
  unfolding attach_keywords
  attach_keywords-others [] t e l h = refl
  attach_keywords-others (name ∷ names) t e l h =
      attach_keywords-others names _ e l h
      ∙ attach_found-others t name (find_label account (to_lower name) t.labels) e l h

  release_keywords-others :
      (names : List Text) (t : Tags) (e l : Text)
      → member e members ≡ false
      → carries (release_keywords label_key account members names t).mappings e l
        ≡ carries t.mappings e l
  unfolding release_keywords
  release_keywords-others names t e l h = ground (
    arith,
    h,
    carries-drop_mappings members
        (released account members (map to_lower names) t.mappings t.labels) t.mappings e l,
  )

  detach_keywords-others :
      (names : List Text) (t : Tags) (e l : Text)
      → member e members ≡ false
      → carries (detach_keywords label_key account members names t).mappings e l
        ≡ carries t.mappings e l
  unfolding detach_keywords
  detach_keywords-others names t e l h = ground (
    arith,
    h,
    carries-drop_mappings members (label_ids account (map to_lower names) t.labels) t.mappings e l,
  )

  detach_keywords-drops :
      (names : List Text) (t : Tags)
      → All
          (λ l.
            concerns account names l ≡ true
            → (e : Text) → member e members ≡ true
            → carries (detach_keywords label_key account members names t).mappings e l.label_id
              ≡ false)
          t.labels
  unfolding detach_keywords
  detach_keywords-drops names t =
      let ids = label_ids account (map to_lower names) t.labels in
      All-impl
        (λ l h c e here.
          ground (arith, h c, here, carries-drop_mappings members ids t.mappings e l.label_id))
        t.labels (label_ids-concerns account names ids t.labels (λ x k. k))

  set_keywords_others :
      (names : List Text) (mode : Text) (t : Tags) (e l : Text)
      → member e members ≡ false
      → carries (set_protocol_keywords label_key account members names mode t).mappings e l
        ≡ carries t.mappings e l
  unfolding set_protocol_keywords
  set_keywords_others names mode t e l h = elim (Bool-cases (text_eq mode (codes "remove"))) [
    | inl r ↦ rw r (detach_keywords-others names t e l h)
    | inr r ↦ elim (Bool-cases (text_eq mode (codes "replace"))) [
      | inl p ↦
          rw (r, p)
            (attach_keywords-others names (release_keywords label_key account members names t) e l h
              ∙ release_keywords-others names t e l h)
      | inr p ↦ rw (r, p) (attach_keywords-others names t e l h)
    ]
  ]

  set_keywords_tags :
      (names : List Text) (mode : Text) (t : Tags) (name e : Text)
      → text_eq mode (codes "remove") ≡ false
      → member name names ≡ true
      → member e members ≡ true
      → IsTagged (set_protocol_keywords label_key account members names mode t) (to_lower name) e
  unfolding set_protocol_keywords
  set_keywords_tags names mode t name e r h here =
      elim (Bool-cases (text_eq mode (codes "replace"))) [
        | inl p ↦ rw (r, p) (attach_keywords-tags names _ name e h here)
        | inr p ↦ rw (r, p) (attach_keywords-tags names t name e h here)
      ]

  -- setProtocolKeywordsTx changes the tags of the listed messages only. Under "remove" they lose every
  -- tag of the account with one of the names, whatever its case; under any other mode they all
  -- carry, for each name, the tag of the account that this name finds.
  pub set_protocol_keywords_lem :
      (names : List Text) (mode : Text) (t : Tags)
      → let t' = set_protocol_keywords label_key account members names mode t in
        ((e l : Text) → member e members ≡ false → carries t'.mappings e l ≡ carries t.mappings e l)
        × (text_eq mode (codes "remove") ≡ true
            → All
                (λ l.
                  concerns account names l ≡ true
                  → (e : Text) → member e members ≡ true
                  → carries t'.mappings e l.label_id ≡ false)
                t.labels)
        × ((name e : Text)
            → text_eq mode (codes "remove") ≡ false
            → member name names ≡ true
            → member e members ≡ true
            → IsTagged t' (to_lower name) e)
  unfolding set_protocol_keywords
  set_protocol_keywords_lem names mode t = (
    set_keywords_others names mode t,
    λ r. rw r (detach_keywords-drops names t),
    set_keywords_tags names mode t,
  )
