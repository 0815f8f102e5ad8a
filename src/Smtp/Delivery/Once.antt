-- ===== src/Smtp/Delivery/Once.antt =====
-- Each local mailbox of a job gets one copy.
use mathlib.Core.List.{append-nil}
use mathlib.Core.Path.{subst}
use elec_postal.Base.{
  ◌≡◌, ◌≢◌, ◌⊎◌, inl, inr, refl, sym, ◌∙◌, Bool, true, false, Option, none, some, List, [], ◌∷◌,
  ◌++◌, arith, Bool-cases, All, if◌then◌else◌,
}
use elec_postal.Text.{Text, nil-cases, member}
use elec_postal.Smtp.Delivery.{
  Recipient, Reference, Job, Received, Backend, skipped, finish, stage_for, received,
  receive_staged, deliver_one, deliver_loop, deliver_job,
}
use elec_postal.Smtp.Delivery.Addresses.{delivered_to-IsPicked, dmarc_intake_iff}
use elec_postal.Smtp.Delivery.Copies.{
  IsFor, Fresh, HasCopy, Outcome, All-unseen, Outcome-skip, Outcome-cons,
}

-- the service with a list of the copies that it has stored
abbrev pub recorded : {C A W : Type 0} → Backend C A W → Backend C A (W × List (Received C A))
recorded b = record {
  stages = b.stages;
  deletes = b.deletes;
  stage = λ m as' s. let (r, w') = b.stage m as' s.0 in (r, (w', s.1));
  delete_attachment = λ key s. let (r, w') = b.delete_attachment key s.0 in (r, (w', s.1));
  receive = λ d s.
      let (stored, w') = b.receive d s.0 in (stored, (w', if stored then s.1 ++ d ∷ [] else s.1));
}

module _ {C A : Type 0} where
  -- The service stored nothing, or the copy for this mailbox.
  abbrev CopyOf :
      {W : Type 0}
      → Job C A
      → Text
      → List (Received C A)
      → Bool × (W × List (Received C A))
      → Type 0
  CopyOf job mailbox old r =
      ((r.0 ≡ false) × (r.1.1 ≡ old))
      ⊎ ((d : Received C A) × (r.0 ≡ true)
          × (r.1.1 ≡ old ++ d ∷ [])
          × (d.mailbox_id ≡ mailbox)
          × (mailbox ≢ [] → IsFor job d))

  stored-copy :
      {W : Type 0} (job : Job C A) (d : Received C A) (stored : Bool) (w : W)
      (log : List (Received C A))
      → (d.mailbox_id ≢ [] → IsFor job d)
      → CopyOf job d.mailbox_id log (stored, (w, if stored then log ++ d ∷ [] else log))
  stored-copy job d true w log h = inr (d, refl, refl, refl, h)
  stored-copy job d false w log h = inl (refl, refl)

  module _ {W : Type 0} (b : Backend C A W) (job : Job C A) where
    receive_staged-copy :
        (mailbox : Text) (staged : Option (List Reference × List A)) (w : W)
        (log : List (Received C A))
        → CopyOf job mailbox log (receive_staged (recorded b) job mailbox staged (w, log))
    unfolding receive_staged received
    receive_staged-copy mailbox none w log = inl (refl, refl)
    receive_staged-copy mailbox (some (refs, as')) w log =
        let d = received (recorded b) job mailbox refs as' in
        let (stored, w') = b.receive d w in
        stored-copy job d stored w' log (λ ne. record {
          addressed = ne;
          unchanged = refl;
          addresses = delivered_to-IsPicked mailbox job.recipients;
          intake = dmarc_intake_iff mailbox job.recipients;
        })

    stage_for-log :
        (mailbox : Text) (w : W) (log : List (Received C A))
        → (stage_for (recorded b) job mailbox (w, log)).1.1 ≡ log
    unfolding stage_for
    stage_for-log mailbox w log = ground arith

    deliver_one-copy :
        (mailbox : Text) (w : W) (log : List (Received C A))
        → CopyOf job mailbox log (deliver_one (recorded b) job mailbox (w, log))
    unfolding deliver_one
    deliver_one-copy mailbox w log =
        let (staged, s) = stage_for (recorded b) job mailbox (w, log) in
        subst (λ l. CopyOf job mailbox l (receive_staged (recorded b) job mailbox staged s))
          (stage_for-log mailbox w log) (receive_staged-copy mailbox staged s.0 s.1)

    Outcome-stop :
        (seen : List Text) (rs : List Recipient) (log old : List (Received C A))
        → log ≡ old
        → Outcome job seen rs old false log
    Outcome-stop seen rs log old e = record {
      new = [];
      grows = e ∙ sym (append-nil old);
      right = tt;
      fresh = tt;
      served = λ h. cc h;
    }

    unskipped :
        (seen : List Text) (r : Recipient)
        → skipped seen r ≡ false
        → (r.mailbox_id ≢ []) × (member r.mailbox_id seen ≡ false)
    unskipped seen r e = elim (nil-cases r.mailbox_id) [
      | inl none_left ↦ absurd (ground (arith, e, none_left.1))
      | inr not_nil ↦ (not_nil.0, ground (arith, e, not_nil.1))
    ]

    -- the rest of the loop after a copy was tried
    finish-Outcome :
        (seen : List Text) (r : Recipient) (rs : List Recipient) (log : List (Received C A))
        (tried : Bool × (W × List (Received C A)))
        (rest : W × List (Received C A) → Bool × (W × List (Received C A)))
        → skipped seen r ≡ false
        → CopyOf job r.mailbox_id log tried
        → ((s : W × List (Received C A))
            → Outcome job (r.mailbox_id ∷ seen) rs s.1 (rest s).0 (rest s).1.1)
        → Outcome job seen (r ∷ rs) log (finish rest tried).0 (finish rest tried).1.1
    finish-Outcome seen r rs log (false, s) rest e (inl (_, same)) ih =
        Outcome-stop seen (r ∷ rs) s.1 log same
    finish-Outcome seen r rs log (true, s) rest e (inl (h, _)) ih = cc h
    finish-Outcome seen r rs log (false, s) rest e (inr (d, h, _, _, _)) ih = cc h
    finish-Outcome seen r rs log (true, s) rest e (inr (d, _, grown, same, is_for)) ih =
        let (addressed, unseen) = unskipped seen r e in
        Outcome-cons job seen r rs log (rest s).0 (rest s).1.1 d
          (subst (λ m. member m seen ≡ false) (sym same) unseen) same (is_for addressed)
          (subst (λ l. Outcome job (d.mailbox_id ∷ seen) rs l (rest s).0 (rest s).1.1) grown
            (subst (λ m. Outcome job (m ∷ seen) rs s.1 (rest s).0 (rest s).1.1) (sym same) (ih s)))

    deliver_loop-Outcome :
        (seen : List Text) (rs : List Recipient) (w : W) (log : List (Received C A))
        → let r = deliver_loop (recorded b) job seen rs (w, log) in
          Outcome job seen rs log r.0 r.1.1
    unfolding deliver_loop
    deliver_loop-Outcome seen [] w log = record {
      new = [];
      grows = sym (append-nil log);
      right = tt;
      fresh = tt;
      served = λ e. tt;
    }
    deliver_loop-Outcome seen (r ∷ rs) w log = elim (Bool-cases (skipped seen r)) [
      | inl e ↦
          rw (e, deliver_loop)
            (Outcome-skip job seen r rs log (deliver_loop (recorded b) job seen rs (w, log)).0
              (deliver_loop (recorded b) job seen rs (w, log)).1.1 e
              (deliver_loop-Outcome seen rs w log))
      | inr e ↦
          rw (e, deliver_loop)
            (finish-Outcome seen r rs log (deliver_one (recorded b) job r.mailbox_id (w, log))
              (λ s. deliver_loop (recorded b) job (r.mailbox_id ∷ seen) rs s) e
              (deliver_one-copy r.mailbox_id w log)
              (λ s. deliver_loop-Outcome (r.mailbox_id ∷ seen) rs s.0 s.1))
    ]

  -- Whatever the service answers, `deliverJob` stores copies for different local mailboxes, each
  -- with the addresses and the intake flag of its mailbox, and if it returns no error, every local
  -- mailbox of the job has its copy.
  pub deliver_job-once :
      {W : Type 0} (b : Backend C A W) (job : Job C A) (w : W)
      → let r = deliver_job (recorded b) job (w, []) in
        All (IsFor job) r.1.1
        × Fresh [] r.1.1
        × (r.0 ≡ true → All (λ x. (x.mailbox_id ≡ []) ⊎ HasCopy x.mailbox_id r.1.1) job.recipients)
  unfolding deliver_job
  deliver_job-once b job w =
      let o = deliver_loop-Outcome b job [] job.recipients w [] in
      let same = o.grows in
      (
        subst (All (IsFor job)) (sym same) o.right,
        subst (Fresh []) (sym same) o.fresh,
        λ h.
            subst
              (λ l.
                All (λ (x : Recipient). (x.mailbox_id ≡ []) ⊎ HasCopy x.mailbox_id l)
                  job.recipients)
              (sym same) (All-unseen o.new job.recipients (o.served h)),
      )
