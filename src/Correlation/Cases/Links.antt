-- ===== src/Correlation/Cases/Links.antt =====
-- What the indexes of a case in correlation.py stand for: the addresses of its detections. So a case
-- is described by its detections alone.
use pondsecndr.Prelude.{
  ℕ, ◌≡◌, sym, subst, arith, String, Bool, true, ◌||◌, List, [], ◌∷◌, ◌++◌, Option, none, some, inl,
  inr, any, is_in, eq_iff, Bool-cases,
}
use pondsecndr.Response.Policy.{Platform}
use pondsecndr.Storage.{is_some_text}
use pondsecndr.Detection.{Detection}
use pondsecndr.Correlation.Cases.{
  Case, has_pair, add_source, add_destination, add_pair, text_or_none, update_case_indexes,
  new_case, extend_case, is_internal_address,
}
use pondsecndr.Correlation.Cases.Partition.{detections-extend_case, detections-new_case}
use pondsecndr.Correlation.Cases.Growth.{Grown, opened, extended}

-- The address is the source of the detection, or its destination.
unfoldable pub is_source : String → Detection → Bool
is_source s d = is_some_text (text_or_none d.source_ip) s

unfoldable pub is_destination : String → Detection → Bool
is_destination s d = is_some_text (text_or_none d.destination_ip) s

unfoldable pub is_end : String → Detection → Bool
is_end s d = is_source s d || is_destination s d

-- What the indexes say of the detections.
pub record Indexed (c : Case) (ds : List Detection) : Type 0 where
  pub sources : (s : String) → is_in s c.source_ips ≡ true → any (is_source s) ds ≡ true
  pub externals : (s : String) → is_in s c.external_sources ≡ true → any (is_source s) ds ≡ true
  pub internals : (s : String) → is_in s c.internal_hosts ≡ true → any (is_end s) ds ≡ true
  pub pairs : (s t : String) → has_pair s t c.pairs ≡ true → any (is_source s) ds ≡ true

pub any-snoc :
    (q : Detection → Bool) (ds : List Detection) (d : Detection)
    → any q (ds ++ d ∷ []) ≡ (any q ds || q d)
unfolding any
any-snoc q [] d = ground arith
any-snoc q (e ∷ ds) d = ground (arith, any-snoc q ds d)

snoc-Indexed :
    (c : Case) (ds : List Detection) (d : Detection) → Indexed c ds → Indexed c (ds ++ d ∷ [])
snoc-Indexed c ds d h = record {
  sources = λ s i. ground (arith, any-snoc (is_source s) ds d, h.sources s i);
  externals = λ s i. ground (arith, any-snoc (is_source s) ds d, h.externals s i);
  internals = λ s i. ground (arith, any-snoc (is_end s) ds d, h.internals s i);
  pairs = λ s t i. ground (arith, any-snoc (is_source s) ds d, h.pairs s t i);
}

pub any_end :
    (s : String) (ds : List Detection) → any (is_source s) ds ≡ true → any (is_end s) ds ≡ true
unfolding any is_end
any_end s [] h = h
any_end s (d ∷ ds) h = ground (arith, any_end s ds)

module _ (p : Platform) (now : ℕ) where
  add_source-Indexed :
      (src : Option String) (c : Case) (ds : List Detection)
      → ((s : String) → is_some_text src s ≡ true → any (is_source s) ds ≡ true)
      → Indexed c ds
      → Indexed (add_source p now src c) ds
  unfolding add_source is_in
  add_source-Indexed none c ds k h = h
  add_source-Indexed (some src) c ds k h = elim (Bool-cases (is_internal_address p.ipaddress src)) [
    | inl internal ↦ rw internal (record {
      sources = λ s i. ground (arith, i, k s, h.sources s, eq_iff s src, eq_iff src s);
      externals = h.externals;
      internals =
          λ s i. ground (arith, i, k s, any_end s ds, h.internals s, eq_iff s src, eq_iff src s);
      pairs = h.pairs;
    })
    | inr external ↦ rw external (record {
      sources = λ s i. ground (arith, i, k s, h.sources s, eq_iff s src, eq_iff src s);
      externals = λ s i. ground (arith, i, k s, h.externals s, eq_iff s src, eq_iff src s);
      internals = h.internals;
      pairs = h.pairs;
    })
  ]

  add_destination-Indexed :
      (dst : Option String) (c : Case) (ds : List Detection)
      → ((s : String) → is_some_text dst s ≡ true → any (is_end s) ds ≡ true)
      → Indexed c ds
      → Indexed (add_destination p now dst c) ds
  unfolding add_destination is_in
  add_destination-Indexed none c ds k h = h
  add_destination-Indexed (some dst) c ds k h =
      elim (Bool-cases (is_internal_address p.ipaddress dst)) [
        | inl internal ↦ rw internal (record {
          sources = h.sources;
          externals = h.externals;
          internals = λ s i. ground (arith, i, k s, h.internals s, eq_iff s dst, eq_iff dst s);
          pairs = h.pairs;
        })
        | inr external ↦ rw external (record {
          sources = h.sources;
          externals = h.externals;
          internals = h.internals;
          pairs = h.pairs;
        })
      ]

  add_pair-Indexed :
      (src dst : Option String) (c : Case) (ds : List Detection)
      → ((s : String) → is_some_text src s ≡ true → any (is_source s) ds ≡ true)
      → Indexed c ds
      → Indexed (add_pair p now src dst c) ds
  unfolding add_pair has_pair
  add_pair-Indexed none dst c ds k h = h
  add_pair-Indexed (some src) none c ds k h = h
  add_pair-Indexed (some src) (some dst) c ds k h = record {
    sources = h.sources;
    externals = h.externals;
    internals = h.internals;
    pairs = λ s t i. ground (arith, i, k s, h.pairs s t);
  }

  any_last :
      (q : Detection → Bool) (ds : List Detection) (d : Detection)
      → q d ≡ true
      → any q (ds ++ d ∷ []) ≡ true
  any_last q ds d h = ground (arith, any-snoc q ds d)

  update_case_indexes-Indexed :
      (d : Detection) (c : Case) (ds : List Detection)
      → Indexed c ds
      → Indexed (update_case_indexes p now d c) (ds ++ d ∷ [])
  unfolding update_case_indexes is_source is_destination is_end
  update_case_indexes-Indexed d c ds h =
      let src = text_or_none d.source_ip in
      let dst = text_or_none d.destination_ip in
      let all = ds ++ d ∷ [] in
      add_pair-Indexed src dst _ all (λ s i. any_last (is_source s) ds d i)
        (add_destination-Indexed dst _ all (λ s i. any_last (is_end s) ds d (ground (arith, i)))
          (add_source-Indexed src c all (λ s i. any_last (is_source s) ds d i)
            (snoc-Indexed c ds d h)))

  new_case-Indexed : (d : Detection) → Indexed (new_case p now d) (d ∷ [])
  unfolding new_case is_in has_pair
  new_case-Indexed d = update_case_indexes-Indexed d _ [] (record {
    sources = λ s i. absurd (ground arith);
    externals = λ s i. absurd (ground arith);
    internals = λ s i. absurd (ground arith);
    pairs = λ s t i. absurd (ground arith);
  })

  extend_case-Indexed :
      (d : Detection) (c : Case) (ds : List Detection)
      → Indexed c ds
      → Indexed (extend_case p now d c) (ds ++ d ∷ [])
  unfolding extend_case
  extend_case-Indexed d c ds h = update_case_indexes-Indexed d _ ds (record {
    sources = h.sources;
    externals = h.externals;
    internals = h.internals;
    pairs = h.pairs;
  })

  pub Grown-Indexed : {window : ℕ} (c : Case) → Grown p now window c → Indexed c c.detections
  Grown-Indexed c (opened d) =
      subst (Indexed (new_case p now d)) (sym (detections-new_case p now d)) (new_case-Indexed d)
  Grown-Indexed c (extended b d g fitting) =
      subst (Indexed (extend_case p now d b)) (sym (detections-extend_case p now d b))
        (extend_case-Indexed d b b.detections (Grown-Indexed b g))
