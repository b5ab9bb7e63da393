-- ===== src/Analytics/NearMiss/Window.antt =====
-- The window of near misses, and the reports made from it.
use llm_semantic_caching_lay.Prelude.{
  ℕ, zero, suc, ◌+◌, ◌-◌, ◌/◌, ◌≡◌, ◌≤◌, ◌<◌, ◌↔◌, refl, sym, ap, ◌∙◌, inl, inr, Bool-cases, none,
  some, List, [], ◌∷◌, ◌++◌, append_assoc, append-nil, map, length, length-drop, length-map,
  length-append, take, drop, leb, arith, Text, ok, leb, ◌==◌,
}
use llm_semantic_caching_lay.Prelude.Sort.{sorted, sorted-perm, length_of_perm}
use llm_semantic_caching_lay.Float.{Float}
use llm_semantic_caching_lay.Cache.Numpy.{index}
use llm_semantic_caching_lay.Analytics.NearMiss.{
  NearMiss, Histogram, NearMissTracker, NearMissReport, init, append, record_event, count_score,
  count_scores, histogram, recommended, report, full_report, empty_report, lower, too_few,
}

drop-append {ℓ} :
    {A : Type ℓ} (n : ℕ) (xs ys : List A) → n ≤ length xs → drop n (xs ++ ys) ≡ drop n xs ++ ys
drop-append zero xs ys h = refl
drop-append (suc n) [] ys h = absurd (omega (arith, h))
drop-append (suc n) (x ∷ xs) ys h = drop-append n xs ys (omega (arith, h))

drop-drop {ℓ} : {A : Type ℓ} (n m k : ℕ) (xs : List A) → k ≡ m + n → drop n (drop m xs) ≡ drop k xs
drop-drop n zero k xs e = ap (λ k. drop k xs) (omega (arith, e))
drop-drop n (suc m) zero xs e = absurd (omega (arith, e))
drop-drop zero (suc m) (suc k) [] e = refl
drop-drop (suc n) (suc m) (suc k) [] e = refl
drop-drop n (suc m) (suc k) (x ∷ xs) e = drop-drop n m k xs (omega (arith, e))

nothing_dropped {ℓ} : {A : Type ℓ} (n : ℕ) → [] ≡ drop {A = A} n []
nothing_dropped zero = refl
nothing_dropped (suc n) = refl

-- What `append` does to a window over all elements so far.
append-drop {ℓ} :
    {A : Type ℓ} (maxlen : ℕ) (all : List A) (e : A)
    → append maxlen (drop (length all - maxlen) all) e
      ≡ drop (length (all ++ (e ∷ [])) - maxlen) (all ++ (e ∷ []))
unfolding append
append-drop maxlen all e =
    let skip = length all - maxlen in
    rw (sym (drop-append skip all (e ∷ []) (omega arith))) (
      drop-drop _ skip _ (all ++ (e ∷ []))
        (omega (arith, length-drop skip all, length-append all (e ∷ []))))

index_below {ℓ} : {A : Type ℓ} (xs : List A) (i : ℕ) → i < length xs → (x : A) × (index xs i ≡ ok x)
unfolding index
index_below [] i h = absurd (omega (arith, h))
index_below (x ∷ xs) zero h = (x, refl)
index_below (x ∷ xs) (suc i) h = index_below xs i (omega (arith, h))

abbrev pub total : Histogram → ℕ
total h = h.low + h.middle + h.high + h.other

-- The arguments of `record`, and the reading of the clock.
pub record Recording (F : Type 0) : Type 0 where
  pub score : F
  pub threshold : F
  pub namespace : Text
  pub prompt : Text
  pub time : F

module _ {F : Type 0} where
  abbrev pub event : Recording F → NearMiss F
  event r = record {
    score = r.score;
    threshold = r.threshold;
    namespace = r.namespace;
    prompt_preview = take 120 r.prompt;
    timestamp = r.time;
  }

  abbrev pub record_all : List (Recording F) → NearMissTracker F → NearMissTracker F
  record_all [] t = t
  record_all (r ∷ rs) t =
      record_all rs (record_event r.score r.threshold r.namespace r.prompt r.time t)

  record_all_lem :
      (rs : List (Recording F)) (m c : ℕ) (all : List (NearMiss F))
      → record_all rs (record { min_samples = m; capacity = c; events = drop (length all - c) all })
        ≡ record {
          min_samples = m;
          capacity = c;
          events = drop (length (all ++ map event rs) - c) (all ++ map event rs);
        }
  unfolding record_event
  record_all_lem [] m c all = rw append-nil refl
  record_all_lem (r ∷ rs) m c all =
      rw (append-drop c all (event r), sym (append_assoc all (event r ∷ []) (map event rs)))
        (record_all_lem rs m c (all ++ (event r ∷ [])))

  -- After any recordings a tracker holds the last `capacity` of them, oldest first, with the first
  -- 120 characters of the prompts.
  pub record_all-init :
      (rs : List (Recording F)) (min_samples capacity : ℕ)
      → record_all rs (init min_samples capacity) ≡ record {
        min_samples = min_samples;
        capacity = capacity;
        events = drop (length rs - capacity) (map event rs);
      }
  record_all-init rs m c = rw (sym (length-map event rs)) (
      ap (λ es. record_all rs (record { min_samples = m; capacity = c; events = es }))
        (nothing_dropped (0 - c))
      ∙ record_all_lem rs m c [])

module _ {F : Type 0} ⦃f : Float F⦄ where
  count_score-total : (s : F) (h : Histogram) → total (count_score s h) ≡ suc (total h)
  unfolding count_score
  count_score-total s h = ground arith

  count_scores-total :
      (es : List (NearMiss F)) (h : Histogram) → total (count_scores es h) ≡ length es + total h
  unfolding count_scores
  count_scores-total [] h = omega arith
  count_scores-total (e ∷ es) h =
      omega (arith, count_scores-total es (count_score e.score h), count_score-total e.score h)

  recommended_lem : (ss : List F) → 0 < length ss → (r : F) × (recommended ss ≡ ok r)
  unfolding recommended
  recommended_lem ss h =
      let same : length (sorted f.le ss) ≡ length ss = length_of_perm (sorted-perm f.le ss) in
      let (p25, e) =
        index_below (sorted f.le ss) (length (sorted f.le ss) / 4 - 1) (omega (arith, same, h)) in
      (f.round (f.sub p25 (f.ratio 5 1000)) 3, rw e refl)

  histogram-total : (t : NearMissTracker F) → total (histogram t) ≡ length t.events
  unfolding histogram
  histogram-total t =
      omega
        (arith, count_scores-total t.events (record { low = 0; middle = 0; high = 0; other = 0 }))

  pub record IsSummary (t : NearMissTracker F) (r : NearMissReport F) : Type 0 where
    pub counted : r.count ≡ length t.events
    pub binned : total r.histogram ≡ length t.events
    pub recommends :
        ((x : F) × (r.recommended_threshold ≡ some x))
        ↔ ((t.min_samples ≤ length t.events) × (0 < length t.events))

  -- A report never raises. It counts every event of the window, in exactly one bin of the
  -- histogram, and recommends a threshold exactly when the window is not empty and has the least
  -- number of samples.
  pub report-IsSummary :
      (fmean : List F → F) (t : NearMissTracker F)
      → (r : NearMissReport F) × (report fmean t ≡ ok r) × IsSummary t r
  unfolding report full_report empty_report
  report-IsSummary fmean t = elim (Bool-cases (length t.events == 0)) [
    | inl empty ↦ (
      empty_report t,
      rw empty refl,
      record {
        counted = ground arith;
        binned = histogram-total t;
        recommends = (λ (x, e). cc, λ (a, b). ground arith);
      },
    )
    | inr full ↦ elim (Bool-cases (leb t.min_samples (length t.events))) [
      | inl enough ↦
          let some_event : 0 < length t.events = ground arith in
          let many : t.min_samples ≤ length t.events = ground arith in
          let (r, same) =
            recommended_lem (map (λ e. e.score) t.events)
              (omega (arith, some_event, length-map (λ e. e.score) t.events)) in
          (
            full_report fmean t (some r)
                (lower (length t.events) (fmean (map (λ e. e.score) t.events)) r),
            rw (full, enough, same) refl,
            record {
              counted = refl;
              binned = histogram-total t;
              recommends = (λ _. (many, some_event), λ _. (r, refl));
            },
          )
      | inr few ↦ (
        full_report fmean t none
            (too_few (length t.events) t.min_samples (fmean (map (λ e. e.score) t.events))),
        rw (full, few) refl,
        record {
          counted = refl;
          binned = histogram-total t;
          recommends = (λ (x, e). absurd (cc), λ (a, b). ground arith);
        },
      )
    ]
  ]
