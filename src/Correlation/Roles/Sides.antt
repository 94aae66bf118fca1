-- ===== src/Correlation/Roles/Sides.antt =====
-- On which side of the network the roles of correlation.py lie.
use pondsecndr.Prelude.{
  ◌≡◌, refl, sym, subst, arith, String, Bool, true, false, List, [], ◌∷◌, Option, none, some, inl,
  inr, map, str_eq, eq_iff, Bool-cases, Option-cases, some-injective, sort_by,
}
use pondsecndr.Detection.{Detection}
use pondsecndr.Correlation.Cases.{text_or_none, is_internal_address}
use pondsecndr.Response.Policy.{Platform}
use pondsecndr.Correlation.Roles.{
  EntityRoles, first_text, as_inbound, first_inbound, external_actor_of, victim_of, is_pivot,
  as_pivot, pivot_of, entity_roles,
}

first_text_sound :
    (test : String → Bool) (xs : List (Option String)) (s : String)
    → first_text test xs ≡ some s
    → test s ≡ true
unfolding first_text
first_text_sound test [] s h = absurd (ground arith)
first_text_sound test (none ∷ xs) s h = first_text_sound test xs s h
first_text_sound test (some x ∷ xs) s h = elim (Bool-cases (test x)) [
  | inl passes ↦ ground (arith, passes, h)
  | inr fails ↦ first_text_sound test xs s (ground (arith, fails, h))
]

module _ (p : Platform) where
  inside : String → Bool
  inside s = is_internal_address p.ipaddress s

  as_inbound_sound :
      (src dst : Option String) (s d : String)
      → as_inbound p src dst ≡ some (s, d)
      → (inside s ≡ false) × (inside d ≡ true)
  unfolding as_inbound inside
  as_inbound_sound none dst s d h = absurd (ground arith)
  as_inbound_sound (some src) none s d h = absurd (ground arith)
  as_inbound_sound (some src) (some dst) s d h = ground (arith, h)

  first_inbound_sound :
      (ds : List Detection) (s t : String)
      → first_inbound p ds ≡ some (s, t)
      → (inside s ≡ false) × (inside t ≡ true)
  unfolding first_inbound
  first_inbound_sound [] s t h = absurd (ground arith)
  first_inbound_sound (d ∷ ds) s t h =
      elim (Option-cases
        (as_inbound p (text_or_none d.source_ip) (text_or_none d.destination_ip))) [
          | inl other ↦ first_inbound_sound ds s t (ground (arith, other, h))
          | inr (ends, found) ↦
              as_inbound_sound (text_or_none d.source_ip) (text_or_none d.destination_ip) s t
                (ground (arith, found, h))
        ]

  external_actor_sound :
      (inbound : Option (String × String)) (sources : List (Option String))
      → ((s t : String) → inbound ≡ some (s, t) → (inside s ≡ false) × (inside t ≡ true))
      → (a : String) → external_actor_of p inbound sources ≡ some a
      → inside a ≡ false
  unfolding external_actor_of inside
  external_actor_sound (some (s, t)) sources k a h =
      subst (λ x. inside x ≡ false) (some-injective h) (k s t refl).0
  external_actor_sound none sources k a h =
      let outside = first_text_sound _ sources a h in ground (arith, outside)

  victim_sound :
      (inbound : Option (String × String)) (destinations : List (Option String))
      → ((s t : String) → inbound ≡ some (s, t) → (inside s ≡ false) × (inside t ≡ true))
      → (v : String) → victim_of p inbound destinations ≡ some v
      → inside v ≡ true
  unfolding victim_of inside
  victim_sound (some (s, t)) destinations k v h =
      subst (λ x. inside x ≡ true) (some-injective h) (k s t refl).1
  victim_sound none destinations k v h = first_text_sound _ destinations v h

  is_pivot_sound :
      (victim src : String) (dst : Option String)
      → inside victim ≡ true
      → is_pivot p victim src dst ≡ true
      → inside src ≡ true
  unfolding is_pivot inside
  is_pivot_sound victim src none v h = ground (arith, h)
  is_pivot_sound victim src (some dst) v h = elim (Bool-cases (str_eq src victim)) [
    | inl same ↦ subst (λ x. inside x ≡ true) (sym ((eq_iff src victim).0 same)) v
    | inr other ↦ ground (arith, other, h)
  ]

  as_pivot_sound :
      (victim : String) (src dst : Option String) (s : String)
      → inside victim ≡ true
      → as_pivot p victim src dst ≡ some s
      → inside s ≡ true
  unfolding as_pivot
  as_pivot_sound victim none dst s v h = absurd (ground arith)
  as_pivot_sound victim (some src) dst s v h = elim (Bool-cases (is_pivot p victim src dst)) [
    | inl pivot ↦
        subst (λ x. inside x ≡ true) (ground (arith, pivot, h))
          (is_pivot_sound victim src dst v pivot)
    | inr other ↦ absurd (ground (arith, other, h))
  ]

  pivot_sound :
      (victim : String) (ds : List Detection) (s : String)
      → inside victim ≡ true
      → pivot_of p (some victim) ds ≡ some s
      → inside s ≡ true
  unfolding pivot_of
  pivot_sound victim [] s v h = absurd (ground arith)
  pivot_sound victim (d ∷ ds) s v h =
      elim (Option-cases
        (as_pivot p victim (text_or_none d.source_ip) (text_or_none d.destination_ip))) [
          | inl other ↦ pivot_sound victim ds s v (ground (arith, other, h))
          | inr (src, found) ↦
              as_pivot_sound victim (text_or_none d.source_ip) (text_or_none d.destination_ip) s v
                (ground (arith, found, h))
        ]

  pivot_of_sound :
      (victim : Option String) (ds : List Detection) (s : String)
      → ((v : String) → victim ≡ some v → inside v ≡ true)
      → pivot_of p victim ds ≡ some s
      → inside s ≡ true
  unfolding pivot_of
  pivot_of_sound none ds s k h = absurd (ground arith)
  pivot_of_sound (some victim) ds s k h = pivot_sound victim ds s (k victim refl) h

  -- Who is who: the external actor, and so a response target where there is one, is no internal
  -- host; the victim and the pivot are internal hosts.
  pub record HasSides (roles : EntityRoles) : Type 0 where
    pub external_actor :
        (a : String) → roles.external_actor ≡ some a → is_internal_address p.ipaddress a ≡ false
    pub victim : (v : String) → roles.victim ≡ some v → is_internal_address p.ipaddress v ≡ true
    pub pivot_host :
        (s : String) → roles.pivot_host ≡ some s → is_internal_address p.ipaddress s ≡ true
    pub response_target :
        (a : String) → roles.external_actor ≡ some a → roles.response_target ≡ some a
    pub threat_source : (a : String) → roles.external_actor ≡ some a → roles.threat_source ≡ some a

  -- Of any detections, the external actor lies outside of the internal networks, the victim and the
  -- pivot inside, and the response and the threat are those of the external actor if there is one.
  pub entity_roles-HasSides : (ds : List Detection) → HasSides (entity_roles p ds)
  unfolding entity_roles inside
  entity_roles-HasSides ds =
      let ordered = sort_by (λ d. d.timestamp) ds in
      let sources = map (λ d. text_or_none d.source_ip) ordered in
      let destinations = map (λ d. text_or_none d.destination_ip) ordered in
      let ends = first_inbound_sound ordered in
      let victim = victim_sound (first_inbound p ordered) destinations ends in
      record {
        external_actor = external_actor_sound (first_inbound p ordered) sources ends;
        victim = victim;
        pivot_host = λ s. pivot_of_sound _ ordered s victim;
        response_target = λ a h. rw h refl;
        threat_source = λ a h. rw h refl;
      }
