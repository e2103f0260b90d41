-- ===== src/Integration/Supervisor/Outstanding.antt =====
-- What is pending by the records of a journal, described by what comes later in the journal, and what
-- `recover` collects (internal/integration/supervisor.go).
use veracity.Base.{
  ℕ, suc, ◌+◌, ◌<◌, ◌≡◌, refl, sym, ap, ◌∙◌, subst, Bool, true, false, List, [], ◌∷◌, ◌++◌, some,
  length, arith, ok, max_u64, if◌then◌else◌,
}
use veracity.EventStream.{Messages}
use veracity.Integration.{
  Record, CommandAccepted, CommandHandled, Operation, command_accepted, command_handled,
  events_appended_to_stream,
}
use veracity.Integration.Services.{positioned}
use veracity.Integration.Pending.{Pending, delete_first, replay, replay_record}
use veracity.Integration.RecordBuilder.{must_switch}
use veracity.Integration.Supervisor.Progress.{pending_from}
use veracity.Integration.Supervisor.Removal.{
  without, ids_before, Distinct, kept_all, without_last, ids_last, delete_first-Distinct,
  without-delete_first,
}
use veracity.Integration.Supervisor.Replay.{replay-pending_from}

module _ {E U : Type 0} (M : Messages E U) where
  -- The journal handles the command.
  abbrev pub is_handled : U → List (Operation E U) → Bool
  is_handled id [] = false
  is_handled id (command_accepted c ∷ ops) = is_handled id ops
  is_handled id (command_handled h ∷ ops) =
      if M.equal id h.command_id then true else is_handled id ops
  is_handled id (events_appended_to_stream a ∷ ops) = is_handled id ops

  -- The journal has the events of the command as appended.
  abbrev pub is_appended : U → List (Operation E U) → Bool
  is_appended id [] = false
  is_appended id (command_accepted c ∷ ops) = is_appended id ops
  is_appended id (command_handled h ∷ ops) = is_appended id ops
  is_appended id (events_appended_to_stream a ∷ ops) =
      if M.equal id a.appended_id then true else is_appended id ops

  -- The commands that are accepted and not handled later, in order.
  abbrev pub unhandled : List (Operation E U) → List (CommandAccepted E)
  unhandled [] = []
  unhandled (command_accepted c ∷ ops) =
      if is_handled (M.message_id c.command) ops then unhandled ops else c ∷ unhandled ops
  unhandled (command_handled h ∷ ops) = unhandled ops
  unhandled (events_appended_to_stream a ∷ ops) = unhandled ops

  -- The commands that are handled and whose events are not appended later, in order.
  abbrev pub unappended : List (Operation E U) → List (CommandHandled E U)
  unappended [] = []
  unappended (command_accepted c ∷ ops) = unappended ops
  unappended (command_handled h ∷ ops) =
      if is_appended h.command_id ops then unappended ops else h ∷ unappended ops
  unappended (events_appended_to_stream a ∷ ops) = unappended ops

  abbrev pub accepted_ids : List (Operation E U) → List U
  accepted_ids [] = []
  accepted_ids (command_accepted c ∷ ops) = M.message_id c.command ∷ accepted_ids ops
  accepted_ids (command_handled h ∷ ops) = accepted_ids ops
  accepted_ids (events_appended_to_stream a ∷ ops) = accepted_ids ops

  abbrev pub handled_ids : List (Operation E U) → List U
  handled_ids [] = []
  handled_ids (command_accepted c ∷ ops) = handled_ids ops
  handled_ids (command_handled h ∷ ops) = h.command_id ∷ handled_ids ops
  handled_ids (events_appended_to_stream a ∷ ops) = handled_ids ops

  abbrev pub records_with : List (Operation E U) → List (Record E U)
  records_with [] = []
  records_with (op ∷ ops) = record { operation = some op } ∷ records_with ops

  length-records_with : (ops : List (Operation E U)) → length (records_with ops) ≡ length ops
  length-records_with [] = refl
  length-records_with (op ∷ ops) = ap suc (length-records_with ops)

  abbrev command_of : CommandAccepted E → U
  command_of c = M.message_id c.command

  abbrev handled_of : CommandHandled E U → U
  handled_of h = h.command_id

  -- The pending operations before, less those that the records complete, and those of the records.
  abbrev left_after : Pending E U → List (Operation E U) → Pending E U
  left_after p ops = record {
    accepted =
        without command_of M.equal (λ c. is_handled (command_of c) ops) p.accepted ++ unhandled ops;
    handled =
        without handled_of M.equal (λ h. is_appended h.command_id ops) p.handled ++ unappended ops;
  }

  collected :
      (ops : List (Operation E U)) (p : Pending E U)
      → Distinct command_of M.equal (ids_before command_of M.equal p.accepted (accepted_ids ops))
      → Distinct handled_of M.equal (ids_before handled_of M.equal p.handled (handled_ids ops))
      → pending_from M (ok p) (records_with ops) ≡ ok (left_after p ops)
  unfolding replay_record must_switch
  collected [] p a h = sym (
      ap
        (λ x. ok (record p {
          accepted = x;
          handled = without handled_of M.equal (λ _. false) p.handled ++ [];
        }))
        (kept_all command_of M.equal p.accepted)
      ∙ ap (λ x. ok (record p { handled = x })) (kept_all handled_of M.equal p.handled))
  collected (command_accepted c ∷ ops) p a h =
      collected ops (record p { accepted = p.accepted ++ c ∷ [] })
        (subst (Distinct command_of M.equal)
          (sym (ids_last command_of M.equal p.accepted c (accepted_ids ops))) a)
        h
      ∙ ap (λ x. ok (record { accepted = x; handled = (left_after p ops).handled }))
          (without_last command_of M.equal (λ c. is_handled (command_of c) ops) p.accepted c
            (unhandled ops))
  collected (command_handled op ∷ ops) p a h =
      collected ops
        (record {
          accepted =
              delete_first (λ (c : CommandAccepted E). M.equal (command_of c) op.command_id)
                p.accepted;
          handled = p.handled ++ op ∷ [];
        })
        (delete_first-Distinct command_of M.equal _ p.accepted (accepted_ids ops) a)
        (subst (Distinct handled_of M.equal)
          (sym (ids_last handled_of M.equal p.handled op (handled_ids ops))) h)
      ∙ ap
          (λ x. ok (record {
            accepted = x ++ unhandled ops;
            handled =
                without handled_of M.equal (λ h. is_appended h.command_id ops)
                  (p.handled ++ op ∷ [])
                ++ unappended ops;
          }))
          (sym (
            without-delete_first command_of M.equal op.command_id
              (λ c. is_handled (command_of c) (command_handled op ∷ ops))
              (λ c. is_handled (command_of c) ops) (λ c n. rw n refl) (λ c t. rw t refl)
              (λ c t. (M.equal_iff _ _).0 t) p.accepted (accepted_ids ops) a))
      ∙ ap
          (λ x.
            ok (record {
              accepted = (left_after p (command_handled op ∷ ops)).accepted;
              handled = x;
            }))
          (without_last handled_of M.equal (λ h. is_appended h.command_id ops) p.handled op
            (unappended ops))
  collected (events_appended_to_stream op ∷ ops) p a h =
      collected ops
        (record p {
          handled =
              delete_first (λ (x : CommandHandled E U). M.equal x.command_id op.appended_id)
                p.handled;
        })
        a (delete_first-Distinct handled_of M.equal _ p.handled (handled_ids ops) h)
      ∙ ap
          (λ x.
            ok (record { accepted = (left_after p ops).accepted; handled = x ++ unappended ops }))
          (sym (
            without-delete_first handled_of M.equal op.appended_id
              (λ c. is_appended c.command_id (events_appended_to_stream op ∷ ops))
              (λ c. is_appended c.command_id ops) (λ c n. rw n refl) (λ c t. rw t refl)
              (λ c t. (M.equal_iff _ _).0 t) p.handled (handled_ids ops) h))

  -- The callback of the range, over the records of any operations in which no command is accepted
  -- twice and none is handled twice, and whose end is less than the largest position: it collects
  -- the commands that are accepted and not handled later, and the commands that are handled and whose
  -- events are not appended later, each in the order of the journal; the position comes to the end.
  pub replay-records_with :
      (n : ℕ) (ops : List (Operation E U))
      → Distinct command_of M.equal (accepted_ids ops)
      → Distinct handled_of M.equal (handled_ids ops)
      → n + length ops < max_u64
      → replay M n (record { accepted = []; handled = [] }) (positioned n (records_with ops))
        ≡ (n + length ops, ok (record { accepted = unhandled ops; handled = unappended ops }))
  replay-records_with n ops a h room =
      let e = length-records_with ops in
      replay-pending_from M n (record { accepted = []; handled = [] }) _ (records_with ops)
        (omega (arith, e, room)) (collected ops (record { accepted = []; handled = [] }) a h)
      ∙ ap (λ k. (n + k, ok (record { accepted = unhandled ops; handled = unappended ops }))) e
