-- ===== src/Response/Engine/Propose/Placed.antt =====
-- What a call of `propose_block_for_incident` in response/engine.py leaves in the table of blocks.
use pondsecndr.Prelude.{
  ℕ, ◌≤◌, ◌+◌, ◌*◌, ◌≡◌, ◌⊎◌, inl, inr, String, is_empty, eq_iff, Bool, true, false, not, ◌&&◌,
  List, [], ◌∷◌, ◌++◌, Option, none, some, refl, arith, keep, All, subst, ltb, Option-cases,
  &&-eq-true, Bool-cases, sym, ◌∙◌,
}
use pondsecndr.Python.Result.{Result, ok, raise}
use pondsecndr.Config.{PondSecConfig}
use pondsecndr.Storage.{audit, BlockEntry, Store, given}
use pondsecndr.Storage.Blocks.{
  is_current, is_open, microseconds, existing_response_block, add_block_entry, latest, matches,
}
use pondsecndr.Response.Policy.{Platform, Decision, below_confidence}
use pondsecndr.Response.Engine.{Call, Proposal, Subject, find_subject, found_target}
use pondsecndr.Response.Engine.Propose.{admit, new_entry, place_by, place, settle_by, block_seconds}

module _ (p : Platform) (config : PondSecConfig) where
  -- The tests of `admit` in one record.
  pub record Admitted (subject : Subject) : Type 0 where
    pub unprotected : subject.protected ≡ false
    pub unlisted : subject.allowlisted ≡ false
    pub risk_score : config.response.minimum_risk_score ≤ subject.incident.risk_score
    pub confidence : below_confidence p config subject.incident ≡ false

  admit-Admitted :
      (automatic : Bool) (subject : Subject)
      → admit p config automatic subject ≡ ok tt
      → Admitted subject
  unfolding admit
  admit-Admitted automatic subject h = ground arith

  block_seconds-le :
      (automatic : Bool) (duration : Option ℕ)
      → block_seconds p config automatic duration ≤ config.response.max_block_seconds
  unfolding block_seconds
  block_seconds-le automatic duration = omega arith

ok-injective {ℓ} : {A : Type ℓ} {a b : A} → ok a ≡ ok b → a ≡ b
ok-injective h = cc

-- What `latest` finds has the property of the rows that it was given.
latest_all :
    (P : BlockEntry → Type 0) (bs : List BlockEntry) {b : BlockEntry}
    → All P bs
    → latest bs ≡ some b
    → P b
unfolding latest
latest_all P [] h e = cc
latest_all P (c ∷ bs) {b} h e = elim (Option-cases (latest bs)) [
  | inl empty ↦ subst P (ground (arith, empty)) h.0
  | inr (d, found) ↦ elim (Bool-cases (ltb c.created_at d.created_at)) [
    | inl later ↦ subst P (ground (arith, found, later)) (latest_all P bs {b = d} h.1 found)
    | inr earlier ↦ subst P (ground (arith, found, earlier)) h.0
  ]
]

All-keep {ℓ} : {A : Type ℓ} (q : A → Bool) (xs : List A) → All (λ x. q x ≡ true) (keep q xs)
unfolding keep
All-keep q [] = tt
All-keep q (x ∷ xs) = elim (Bool-cases (q x)) [
  | inl passes ↦ rw passes (passes, All-keep q xs)
  | inr fails ↦ rw fails (All-keep q xs)
]

-- A block that `existing_response_block` finds is open, in force, and of the source asked for.
existing-matches :
    (now : ℕ) (incident_id source_ip : Option String) (store : Store) (b : BlockEntry)
    → existing_response_block now incident_id source_ip store ≡ some b
    → matches now incident_id source_ip b ≡ true
unfolding existing_response_block
existing-matches now incident_id source_ip store b e =
    elim (Bool-cases (not (given incident_id) && not (given source_ip))) [
      | inl nothing ↦ absurd (ground (arith, nothing))
      | inr something ↦
          latest_all (λ c. matches now incident_id source_ip c ≡ true)
            (keep (matches now incident_id source_ip) store.blocks) (All-keep _ _)
            (sym (rw something refl) ∙ e)
    ]

matches_sound :
    (now : ℕ) (incident_id : Option String) (source : String) (b : BlockEntry)
    → is_empty source ≡ false
    → matches now incident_id (some source) b ≡ true
    → (is_current now b ≡ true) × (b.source_ip ≡ source)
unfolding matches
matches_sound now incident_id source b full h = ground (arith, eq_iff source b.source_ip)

module _ (p : Platform) (config : PondSecConfig) where
  pub find_subject-target :
      (now : ℕ) (incident_id : String) (store : Store) (subject : Subject)
      → find_subject p config now incident_id store ≡ ok subject
      → is_empty subject.target ≡ false
  unfolding find_subject found_target
  find_subject-target now incident_id store subject h = ground arith

  -- The store after a proposal: as it was, with an open block of the target that is in force, or
  -- with one new block, where no block of the target was in force.
  pub record Placed (call : Call) (target : String) (decision : Option Decision)
      (before after : Store) (proposal : Proposal) : Type 0 where
    pub decided : proposal.policy_decision ≡ decision
    pub is_of_target : proposal.block.source_ip ≡ target
    pub is_open_block : is_open proposal.block.status ≡ true
    pub stored :
        ((after.blocks ≡ before.blocks) × (is_current call.now proposal.block ≡ true))
        ⊎ ((after.blocks ≡ before.blocks ++ proposal.block ∷ [])
            × (existing_response_block call.now none (some target) before ≡ none)
            × (proposal.block.block_id ≡ call.fresh)
            × (proposal.block.expires_at
                ≤ call.now + config.response.max_block_seconds * microseconds))

  Placed-old :
      (call : Call) (target : String) (decision : Option Decision) (store : Store)
      (proposal : Proposal)
      → proposal.policy_decision ≡ decision
      → (is_current call.now proposal.block ≡ true) × (proposal.block.source_ip ≡ target)
      → Placed call target decision store store proposal
  Placed-old call target decision store proposal d h = record {
    decided = d;
    is_of_target = h.1;
    is_open_block = (&&-eq-true _ _ h.0).0;
    stored = inl (refl, h.0);
  }

  existing-current :
      (now : ℕ) (incident_id : Option String) (source : String) (store : Store) (b : BlockEntry)
      → is_empty source ≡ false
      → existing_response_block now incident_id (some source) store ≡ some b
      → (is_current now b ≡ true) × (b.source_ip ≡ source)
  existing-current now incident_id source store b full e =
      matches_sound now incident_id source b full
        (existing-matches now incident_id (some source) store b e)

  module _ (call : Call) (entry : BlockEntry) (decision : Option Decision) (store : Store) where
    place_by-Placed :
        (full : is_empty entry.source_ip ≡ false)
        → (opened : is_open entry.status ≡ true) → (fresh : entry.block_id ≡ call.fresh)
        → (short : entry.expires_at ≤ call.now + config.response.max_block_seconds * microseconds)
        → (incident_id : Option String) (of_incident of_source : Option BlockEntry)
        → existing_response_block call.now incident_id (some entry.source_ip) store ≡ of_incident
        → existing_response_block call.now none (some entry.source_ip) store ≡ of_source
        → Placed call entry.source_ip decision store
            (place_by p config call entry decision store of_incident of_source).1
            (place_by p config call entry decision store of_incident of_source).0
    unfolding place_by add_block_entry audit
    place_by-Placed full opened fresh short incident_id (some b) of_source e1 e2 =
        Placed-old call entry.source_ip decision store _ refl
          (existing-current call.now incident_id entry.source_ip store b full e1)
    place_by-Placed full opened fresh short incident_id none (some b) e1 e2 =
        Placed-old call entry.source_ip decision store _ refl
          (existing-current call.now none entry.source_ip store b full e2)
    place_by-Placed full opened fresh short incident_id none none e1 e2 = record {
      decided = refl;
      is_of_target = refl;
      is_open_block = opened;
      stored = inr (refl, e2, fresh, short);
    }

  module _ (call : Call) (incident_id : String) (automatic : Bool) (duration : Option ℕ) where
    pub settle_by-Placed :
        (subject : Subject) (decision : Option Decision) (store : Store) (proposal : Proposal)
        (r : Result (Unit {0}))
        → is_empty subject.target ≡ false
        → admit p config automatic subject ≡ r
        → (settle_by p config call incident_id
            (new_entry p config call incident_id automatic duration subject)
            decision
            r
            store).0
          ≡ ok proposal
        → Admitted p config subject
          × Placed call subject.target decision store
              (settle_by p config call incident_id
                (new_entry p config call incident_id automatic duration subject)
                decision
                r
                store).1
              proposal
    unfolding settle_by place new_entry
    settle_by-Placed subject decision store proposal (raise e) full a h = cc
    settle_by-Placed subject decision store proposal (ok _) full a h = (
      admit-Admitted p config automatic subject a,
      subst
          (λ x.
            Placed call subject.target decision store
              (place p config call incident_id
                (new_entry p config call incident_id automatic duration subject) decision store).1
              x)
          (ok-injective h)
          (place_by-Placed call (new_entry p config call incident_id automatic duration subject)
            decision store full refl refl
            (omega (arith, block_seconds-le p config automatic duration)) (some incident_id) _ _
            refl refl),
    )
