-- ===== src/Smtp/Delivery/Deletion.antt =====
-- What `deleteStagedAttachments` of internal/smtp/queue.go deletes.
use elec_postal.Base.{
  ◌≡◌, inl, inr, refl, ◌∙◌, true, false, ◌||◌, Option, none, some, List, [], ◌∷◌, ◌++◌, arith,
  Bool-cases, All,
}
use elec_postal.Text.{Text, text_eq_refl, is_nil, trim_space, member}
use elec_postal.Smtp.Delivery.{
  Reference, Backend, delete_staged_attachments, delete_maps, delete_keys,
}

-- the surroundings with the keys that staging returned and the keys that were deleted
abbrev pub Traced : Type 0 → Type 0
Traced W = W × (List Reference × List Text)

abbrev pub returned : Option (List Reference) → List Reference
returned none = []
returned (some refs) = refs

abbrev pub traced : {C A W : Type 0} → Backend C A W → Backend C A (Traced W)
traced b = record {
  stages = b.stages;
  deletes = b.deletes;
  stage = λ m as' s.
      let (refs, w') = b.stage m as' s.0 in (refs, (w', (s.1.0 ++ returned refs, s.1.1)));
  delete_attachment =
      λ key s. let (r, w') = b.delete_attachment key s.0 in (r, (w', (s.1.0, key ∷ s.1.1)));
  receive = λ d s. let (stored, w') = b.receive d s.0 in (stored, (w', s.1));
}

-- The key names an attachment that was deleted, or nothing.
abbrev pub Gone : List Text → Reference → Type 0
Gone deleted key = is_nil (trim_space key) ≡ false → member (trim_space key) deleted ≡ true

abbrev pub Within : List Text → List Text → Type 0
Within a b = (id : Text) → member id a ≡ true → member id b ≡ true

Within-cons : (x : Text) (a b : List Text) → Within a b → Within (x ∷ a) (x ∷ b)
unfolding member
Within-cons x a b h id e = ground (arith, h id, e)

All-Gone-mono :
    (a b : List Text) (refs : List Reference) → Within a b → All (Gone a) refs → All (Gone b) refs
All-Gone-mono a b [] h g = tt
All-Gone-mono a b (k ∷ refs) h g = ((λ e. h (trim_space k) (g.0 e)), All-Gone-mono a b refs h g.1)

Within-behind : (x : Text) (a : List Text) → Within a (x ∷ a)
unfolding member
Within-behind x a id e = ground (arith, e)

-- All keys of a map are gone.
abbrev pub AllGone : List Text → List (Text × List Reference) → Type 0
AllGone deleted [] = Unit
AllGone deleted ((mailbox, refs) ∷ l) = All (Gone deleted) refs × AllGone deleted l

module _ {C A W : Type 0} (b : Backend C A W) where
  -- The keys are gone, those marked as seen were deleted, nothing is taken off either list, and
  -- nothing was staged.
  record Deletes (refs : List Reference) (seen seen' : List Text) (s s' : Traced W) : Type 0 where
    gone : All (Gone seen') refs
    covered : Within seen s.1.1 → Within seen' s'.1.1
    seen_grows : Within seen seen'
    log_grows : Within s.1.1 s'.1.1
    unstaged : s'.1.0 ≡ s.1.0

  Deletes-skip :
      (key : Reference) (refs : List Reference) (seen seen' : List Text) (s s' : Traced W)
      → is_nil (trim_space key) || member (trim_space key) seen ≡ true
      → Deletes refs seen seen' s s'
      → Deletes (key ∷ refs) seen seen' s s'
  Deletes-skip key refs seen seen' s s' e d = record {
    gone = ((λ n. d.seen_grows (trim_space key) (ground (arith, e, n))), d.gone);
    covered = d.covered;
    seen_grows = d.seen_grows;
    log_grows = d.log_grows;
    unstaged = d.unstaged;
  }

  Deletes-cons :
      (key : Reference) (refs : List Reference) (seen seen' : List Text) (s s' : Traced W) (w : W)
      → Deletes refs (trim_space key ∷ seen) seen' (w, (s.1.0, trim_space key ∷ s.1.1)) s'
      → Deletes (key ∷ refs) seen seen' s s'
  unfolding member
  Deletes-cons key refs seen seen' s s' w d =
      let id = trim_space key in
      record {
        gone = ((λ n. d.seen_grows id (ground (arith, text_eq_refl id))), d.gone);
        covered = λ h. d.covered (Within-cons id seen s.1.1 h);
        seen_grows = λ x e. d.seen_grows x (Within-behind id seen x e);
        log_grows = λ x e. d.log_grows x (Within-behind id s.1.1 x e);
        unstaged = d.unstaged;
      }

  delete_keys-Deletes :
      (seen : List Text) (refs : List Reference) (s : Traced W)
      → let r = delete_keys (traced b) seen refs s in Deletes refs seen r.0 s r.1
  unfolding delete_keys
  delete_keys-Deletes seen [] s = record {
    gone = tt;
    covered = λ h. h;
    seen_grows = λ id e. e;
    log_grows = λ id e. e;
    unstaged = refl;
  }
  delete_keys-Deletes seen (key ∷ refs) s =
      elim (Bool-cases (is_nil (trim_space key) || member (trim_space key) seen)) [
        | inl e ↦
            rw (e, delete_keys)
              (Deletes-skip key refs seen _ s _ e (delete_keys-Deletes seen refs s))
        | inr e ↦
            rw (e, delete_keys)
              (Deletes-cons key refs seen _ s _ (b.delete_attachment (trim_space key) s.0).1 (
                delete_keys-Deletes (trim_space key ∷ seen) refs
                  ((b.delete_attachment (trim_space key) s.0).1, (s.1.0, trim_space key ∷ s.1.1))))
      ]

  delete_maps-AllGone :
      (seen : List Text) (l : List (Text × List Reference)) (s : Traced W)
      → Within seen s.1.1
      → let s' = delete_maps (traced b) seen l s in
        AllGone s'.1.1 l × Within s.1.1 s'.1.1 × (s'.1.0 ≡ s.1.0)
  unfolding delete_maps
  delete_maps-AllGone seen [] s h = (tt, (λ id e. e), refl)
  delete_maps-AllGone seen ((mailbox, refs) ∷ l) s h =
      let d = delete_keys-Deletes seen refs s in
      let (seen', s') = delete_keys (traced b) seen refs s in
      let (gone, grows, same) = delete_maps-AllGone seen' l s' (d.covered h) in
      (
        (All-Gone-mono seen' _ refs (λ id e. grows id (d.covered h id e)) d.gone, gone),
        (λ id e. grows id (d.log_grows id e)),
        same ∙ d.unstaged,
      )

  -- Where the backend can delete, no key of the map is left, and nothing is staged.
  pub delete_staged-AllGone :
      (l : List (Text × List Reference)) (s : Traced W)
      → b.deletes ≡ true
      → let s' = delete_staged_attachments (traced b) l s in AllGone s'.1.1 l × (s'.1.0 ≡ s.1.0)
  unfolding delete_staged_attachments member
  delete_staged-AllGone l s can =
      let (gone, grows, same) = delete_maps-AllGone [] l s (λ id e. cc e) in
      rw (can, delete_staged_attachments) (gone, same)
