-- ===== src/Response/Engine/History/Growth.antt =====
-- What each call of response/engine.py does to the rows of blocks.
use pondsecndr.Prelude.{
  ℕ, ◌≤◌, ◌≡◌, inl, inr, refl, sym, ap, subst, ◌∙◌, arith, String, Bool, true, false, List, [], ◌∷◌,
  ◌++◌, Option, none, some, any, count_if, count_if-append, Option-cases,
}
use pondsecndr.Python.Result.{Result, ok, raise, Result-cases, run}
use pondsecndr.Config.{PondSecConfig}
use pondsecndr.Storage.{BlockEntry, proposed, removed, Store, audit, audit_response_decision}
use pondsecndr.Storage.Blocks.{is_active_at, set_status, existing_response_block, add_block_entry}
use pondsecndr.Storage.Blocks.Ids.{has_id, UniqueIds, append-UniqueIds}
use pondsecndr.Response.Policy.{Platform, Decision}
use pondsecndr.Response.Engine.{Call, Subject, check_source}
use pondsecndr.Response.Engine.Propose.{
  propose_block_for_incident, propose_manual_block, propose_for, ask_policy, settle, settle_by,
  place, place_by, new_entry, manual_entry,
}

-- A call leaves the rows as they are, or adds one that is proposed and has the fresh id.
pub data Grows (fresh : String) (before : List BlockEntry) : List BlockEntry → Type 0 where
  same : (after : List BlockEntry) → after ≡ before → Grows fresh before after
  grown :
      (entry : BlockEntry) (after : List BlockEntry)
      → entry.block_id ≡ fresh
      → entry.status ≡ proposed
      → after ≡ before ++ entry ∷ []
      → Grows fresh before after

-- As time goes by, blocks only pass out of force.
pub active_mono :
    (now later : ℕ) (bs : List BlockEntry)
    → now ≤ later
    → count_if (is_active_at later) bs ≤ count_if (is_active_at now) bs
unfolding count_if
active_mono now later [] h = omega arith
active_mono now later (b ∷ bs) h = ground (arith, active_mono now later bs h)

pub Grows-UniqueIds :
    (fresh : String) (before after : List BlockEntry)
    → any (has_id fresh) before ≡ false
    → UniqueIds before
    → Grows fresh before after
    → UniqueIds after
Grows-UniqueIds fresh before after free u (same _ e) = subst UniqueIds (sym e) u
Grows-UniqueIds fresh before after free u (grown entry _ i status e) =
    subst UniqueIds (sym e)
      (append-UniqueIds before entry (subst (λ x. any (has_id x) before ≡ false) (sym i) free) u)

pub Grows-count :
    (now : ℕ) (fresh : String) (before after : List BlockEntry)
    → Grows fresh before after
    → count_if (is_active_at now) after ≡ count_if (is_active_at now) before
unfolding count_if
Grows-count now fresh before after (same _ e) = ap (count_if (is_active_at now)) e
Grows-count now fresh before after (grown entry _ i status e) =
    ap (count_if (is_active_at now)) e
    ∙ count_if-append (is_active_at now) before (entry ∷ [])
    ∙ rw status (omega arith)

pub count-removed :
    (now : ℕ) (block_id : String) (reason : Option String) (bs : List BlockEntry)
    → count_if (is_active_at now) (set_status block_id removed reason bs)
      ≤ count_if (is_active_at now) bs
unfolding count_if set_status
count-removed now block_id reason [] = omega arith
count-removed now block_id reason (b ∷ bs) = ground (arith, count-removed now block_id reason bs)

module _ (p : Platform) (config : PondSecConfig) where
  place_by-Grows :
      (call : Call) (entry : BlockEntry) (decision : Option Decision) (s : Store)
      (of_incident of_source : Option BlockEntry)
      → entry.block_id ≡ call.fresh
      → entry.status ≡ proposed
      → Grows call.fresh s.blocks
          (place_by p config call entry decision s of_incident of_source).1.blocks
  unfolding place_by add_block_entry audit
  place_by-Grows call entry decision s (some b) of_source i status = same _ refl
  place_by-Grows call entry decision s none (some b) i status = same _ refl
  place_by-Grows call entry decision s none none i status = grown entry _ i status refl

  module _ (call : Call) (incident_id : String) (automatic : Bool) (duration : Option ℕ) where
    settle_by-Grows :
        (subject : Subject) (decision : Option Decision) (s : Store) (r : Result (Unit {0}))
        → Grows call.fresh s.blocks
            (settle_by p config call incident_id
              (new_entry p config call incident_id automatic duration subject)
              decision
              r
              s).1.blocks
    unfolding settle_by place new_entry
    settle_by-Grows subject decision s (raise e) = same _ refl
    settle_by-Grows subject decision s (ok _) = place_by-Grows call _ decision s _ _ refl refl

    answer-Grows :
        (subject : Subject) (s : Store) (r : Result (Option Decision))
        → Grows call.fresh s.blocks
            (run
              (
                r,
                audit_response_decision call.now incident_id "response.policy_decision" call.actor
                    s,
              )
              (settle p config call incident_id automatic duration subject)).1.blocks
    unfolding audit_response_decision audit settle
    answer-Grows subject s (raise e) = same _ refl
    answer-Grows subject s (ok decision) = settle_by-Grows subject decision _ _

    asked-Grows :
        (asks : Bool) (subject : Subject) (s : Store)
        → Grows call.fresh s.blocks
            (run
              (ask_policy p config call incident_id asks subject s)
              (settle p config call incident_id automatic duration subject)).1.blocks
    unfolding ask_policy settle
    asked-Grows false subject s = settle_by-Grows subject none s _
    asked-Grows true subject s = answer-Grows subject s _

    propose_for-Grows :
        (r : Result Subject) (s : Store)
        → Grows call.fresh s.blocks
            (propose_for p config call incident_id duration automatic r s).1.blocks
    unfolding propose_for
    propose_for-Grows (raise e) s = same _ refl
    propose_for-Grows (ok subject) s = asked-Grows automatic subject s

    pub propose_block_for_incident-Grows :
        (s : Store)
        → Grows call.fresh s.blocks
            (propose_block_for_incident p config call incident_id duration automatic s).1.blocks
    unfolding propose_block_for_incident
    propose_block_for_incident-Grows s = propose_for-Grows _ s

  pub manual-Grows :
      (call : Call) (target : String) (reason : Option String) (duration : Option ℕ) (s : Store)
      → Grows call.fresh s.blocks
          (propose_manual_block p config call target reason duration s).1.blocks
  unfolding propose_manual_block manual_entry add_block_entry audit
  manual-Grows call target reason duration s =
      elim (Result-cases (check_source p config call.now target s)) [
        | inr (e, failed) ↦ rw (propose_manual_block, failed) (same _ refl)
        | inl (source_ip, checked) ↦
            elim (Option-cases (existing_response_block call.now none (some source_ip) s)) [
              | inr (b, found) ↦ rw (propose_manual_block, checked, found) (same _ refl)
              | inl fresh ↦
                  rw (propose_manual_block, checked, fresh)
                    (grown (manual_entry p config call source_ip reason duration) _ refl refl refl)
            ]
      ]
