-- ===== src/Monitoring/Metrics/Lookups.antt =====
-- What the counters hold after any lookups.
use llm_semantic_caching_lay.Prelude.{
  ℕ, suc, ◌+◌, ◌≡◌, refl, Bool, true, false, not, inl, inr, Bool-cases, ◌&&◌, ◌==◌, List, [], ◌∷◌,
  length, Text, codes, text_eq, arith, if◌then◌else◌,
}
use llm_semantic_caching_lay.Prelude.Int.{pos}
use llm_semantic_caching_lay.Float.{Float}
use llm_semantic_caching_lay.Monitoring.Metrics.{CacheMetrics, init, rate_of, record_lookup}

-- The arguments of one call.
pub record Lookup (F : Type 0) : Type 0 where
  pub status : Text
  pub provider : Text
  pub model : Text
  pub similarity : F
  pub latency_ms : F

-- A counter with one label, after one more call.
labelled : (n k : ℕ) (b : Bool) → n ≡ k → (if b then suc n else n) ≡ (if b then 1 else 0) + k
labelled n k true h = omega (arith, h)
labelled n k false h = omega (arith, h)

module _ {F : Type 0} ⦃f : Float F⦄ where
  -- The calls, the last one first.
  abbrev pub after_lookups : List (Lookup F) → CacheMetrics F
  after_lookups [] = init
  after_lookups (l ∷ ls) =
      record_lookup l.status l.provider l.model l.similarity l.latency_ms (after_lookups ls)

  abbrev pub is_hit : Lookup F → Bool
  is_hit l = text_eq l.status (codes "HIT")

  -- How many calls have a property.
  abbrev pub how_many : (Lookup F → Bool) → List (Lookup F) → ℕ
  how_many p [] = 0
  how_many p (l ∷ ls) = (if p l then 1 else 0) + how_many p ls

  abbrev pub of_both : Text → Text → Lookup F → Bool
  of_both p m l = text_eq l.provider p && text_eq l.model m

  -- 0 of none, and otherwise the quotient of the hits by the calls.
  abbrev pub share : List (Lookup F) → F
  share [] = f.ratio 0 1
  share (l ∷ ls) =
      f.div (f.of_int (pos (how_many is_hit (l ∷ ls)))) (f.of_int (pos (length (l ∷ ls))))

  pub record IsConsistent (ls : List (Lookup F)) (c : CacheMetrics F) : Type 0 where
    pub hits : (p m : Text) → c.cache_hits p m ≡ how_many (λ l. is_hit l && of_both p m l) ls
    pub misses :
        (p m : Text) → c.cache_misses p m ≡ how_many (λ l. not (is_hit l) && of_both p m l) ls
    pub by_provider :
        (p : Text) → c.requests_by_provider p ≡ how_many (λ l. text_eq l.provider p) ls
    pub by_model : (m : Text) → c.requests_by_model m ≡ how_many (λ l. text_eq l.model m) ls
    pub totals : c.total ≡ length ls
    pub hit_total : c.hits ≡ how_many is_hit ls
    pub rated : c.hit_rate ≡ share ls

  rate_share :
      (h n : ℕ) (l : Lookup F) (ls : List (Lookup F))
      → h ≡ how_many is_hit (l ∷ ls)
      → n ≡ length ls
      → rate_of h (n + 1) ≡ share (l ∷ ls)
  unfolding rate_of
  rate_share h n l ls a b =
      let whole : n + 1 ≡ suc (length ls) = omega (arith, b) in
      let positive : (suc (length ls) == 0) ≡ false = ground arith in rw (a, whole, positive) refl

  counts :
      (l : Lookup F) (ls : List (Lookup F)) (p m : Text)
      → IsConsistent ls (after_lookups ls)
      → ((after_lookups (l ∷ ls)).cache_hits p m
          ≡ how_many (λ x. is_hit x && of_both p m x) (l ∷ ls))
        × ((after_lookups (l ∷ ls)).cache_misses p m
            ≡ how_many (λ x. not (is_hit x) && of_both p m x) (l ∷ ls))
  unfolding record_lookup
  counts l ls p m before = elim (Bool-cases (is_hit l)) [
    | inl hit ↦ elim (Bool-cases (of_both p m l)) [
      | inl here ↦
          rw (record_lookup, hit, here)
            (omega (arith, before.hits p m), omega (arith, before.misses p m))
      | inr elsewhere ↦
          rw (record_lookup, hit, elsewhere)
            (omega (arith, before.hits p m), omega (arith, before.misses p m))
    ]
    | inr missed ↦ elim (Bool-cases (of_both p m l)) [
      | inl here ↦
          rw (record_lookup, missed, here)
            (omega (arith, before.hits p m), omega (arith, before.misses p m))
      | inr elsewhere ↦
          rw (record_lookup, missed, elsewhere)
            (omega (arith, before.hits p m), omega (arith, before.misses p m))
    ]
  ]

  hits_after :
      (l : Lookup F) (ls : List (Lookup F))
      → IsConsistent ls (after_lookups ls)
      → (after_lookups (l ∷ ls)).hits ≡ how_many is_hit (l ∷ ls)
  unfolding record_lookup
  hits_after l ls before = elim (Bool-cases (is_hit l)) [
    | inl hit ↦ rw (record_lookup, hit) (omega (arith, before.hit_total))
    | inr missed ↦ rw (record_lookup, missed) (omega (arith, before.hit_total))
  ]

  -- After any lookups, the hits counted for a provider and a model are the lookups of the two that
  -- hit, the misses counted are the others of the two, the requests counted for a provider and for
  -- a model are the lookups of it, and the hit rate is the quotient of the number of hits by the
  -- number of lookups, and 0 before the first.
  pub lookups-IsConsistent : (ls : List (Lookup F)) → IsConsistent ls (after_lookups ls)
  unfolding record_lookup rate_of
  lookups-IsConsistent [] = record {
    hits = λ p m. refl;
    misses = λ p m. refl;
    by_provider = λ p. refl;
    by_model = λ m. refl;
    totals = refl;
    hit_total = refl;
    rated = refl;
  }
  lookups-IsConsistent (l ∷ ls) =
      let before = lookups-IsConsistent ls in
      record {
        hits = λ p m. (counts l ls p m before).0;
        misses = λ p m. (counts l ls p m before).1;
        by_provider = λ p.
            labelled ((after_lookups ls).requests_by_provider p) _ (text_eq l.provider p)
              (before.by_provider p);
        by_model = λ m.
            labelled ((after_lookups ls).requests_by_model m) _ (text_eq l.model m)
              (before.by_model m);
        totals = omega (arith, before.totals);
        hit_total = hits_after l ls before;
        rated = rate_share _ (after_lookups ls).total l ls (hits_after l ls before) before.totals;
      }
