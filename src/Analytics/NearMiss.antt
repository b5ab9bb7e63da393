-- ===== src/Analytics/NearMiss.antt =====
-- app/analytics/near_miss.py. The advice of a report is a value with what its text is made from, and
-- `fmean` stands for `statistics.fmean`.
pub mod Window
use llm_semantic_caching_lay.Prelude.{
  ℕ, ◌+◌, ◌-◌, ◌/◌, ◌≡◌, Bool, true, false, ◌&&◌, Option, none, some, List, [], ◌∷◌, ◌++◌, map,
  length, take, drop, leb, ◌==◌, Text, Result, ok, raise, and_then, if◌then◌else◌,
}
use llm_semantic_caching_lay.Prelude.Sort.{sorted}
use llm_semantic_caching_lay.Float.{Float}
use llm_semantic_caching_lay.Cache.Numpy.{index}

pub record NearMiss (F : Type 0) : Type 0 where
  pub score : F
  pub threshold : F
  pub namespace : Text
  pub prompt_preview : Text
  pub timestamp : F

pub record Histogram : Type 0 where
  pub low : ℕ
  pub middle : ℕ
  pub high : ℕ
  pub other : ℕ

pub data Advice (F : Type 0) : Type 0 where
  none_observed : Advice F
  lower : (count : ℕ) (mean_score recommended : F) → Advice F
  too_few : (count min_samples : ℕ) (mean_score : F) → Advice F

pub record NearMissReport (F : Type 0) : Type 0 where
  pub count : ℕ
  pub window_size : ℕ
  pub mean_score : Option F
  pub mean_gap : Option F
  pub histogram : Histogram
  pub recommended_threshold : Option F
  pub recommendation : Advice F

-- `deque(maxlen=capacity)` drops from the left.
pub record NearMissTracker (F : Type 0) : Type 0 where
  pub min_samples : ℕ
  pub capacity : ℕ
  pub events : List (NearMiss F)

abbrev pub init : {F : Type 0} → ℕ → ℕ → NearMissTracker F
init min_samples capacity = record { min_samples = min_samples; capacity = capacity; events = [] }

-- `events.append(e)` of a deque with a greatest length.
unfoldable pub append {ℓ} : {A : Type ℓ} → ℕ → List A → A → List A
append maxlen es e = drop (length es + 1 - maxlen) (es ++ (e ∷ []))

module _ {F : Type 0} where
  unfoldable pub record_event :
      (score threshold : F) (namespace prompt : Text) (time : F)
      → NearMissTracker F
      → NearMissTracker F
  unfolding append
  record_event score threshold namespace prompt time t = record t {
    events = append t.capacity t.events (record {
      score = score;
      threshold = threshold;
      namespace = namespace;
      prompt_preview = take 120 prompt;
      timestamp = time;
    });
  }

module _ {F : Type 0} ⦃f : Float F⦄ where
  unfoldable pub gap : NearMiss F → F
  gap e = f.sub e.threshold e.score

  abbrev pub within : F → F → F → Bool
  within low high s = f.le low s && f.lt s high

  -- One pass of the loop of `_histogram`.
  unfoldable pub count_score : F → Histogram → Histogram
  count_score s bins =
      if within (f.ratio 90 100) (f.ratio 92 100) s
      then record bins { low = bins.low + 1 }
      else if within (f.ratio 92 100) (f.ratio 94 100) s
      then record bins { middle = bins.middle + 1 }
      else if within (f.ratio 94 100) (f.ratio 95 100) s
      then record bins { high = bins.high + 1 }
      else record bins { other = bins.other + 1 }

  unfoldable pub count_scores : List (NearMiss F) → Histogram → Histogram
  count_scores [] bins = bins
  count_scores (e ∷ es) bins = count_scores es (count_score e.score bins)

  unfoldable pub histogram : NearMissTracker F → Histogram
  unfolding count_scores
  histogram t = count_scores t.events (record { low = 0; middle = 0; high = 0; other = 0 })

  -- The threshold that a report recommends: below the 25th percentile of the scores.
  unfoldable pub recommended : List F → Result F
  unfolding index sorted
  recommended scores =
      let ordered = sorted f.le scores in
      and_then (index ordered (length ordered / 4 - 1))
        (λ p25. ok (f.round (f.sub p25 (f.ratio 5 1000)) 3))

  -- The report on a window that is not empty.
  unfoldable pub full_report :
      (List F → F) → NearMissTracker F → Option F → Advice F → NearMissReport F
  unfolding gap histogram
  full_report fmean t threshold advice = record {
    count = length t.events;
    window_size = t.capacity;
    mean_score = some (f.round (fmean (map (λ e. e.score) t.events)) 4);
    mean_gap = some (f.round (fmean (map gap t.events)) 4);
    histogram = histogram t;
    recommended_threshold = threshold;
    recommendation = advice;
  }

  unfoldable pub empty_report : NearMissTracker F → NearMissReport F
  unfolding histogram
  empty_report t = record {
    count = 0;
    window_size = t.capacity;
    mean_score = none;
    mean_gap = none;
    histogram = histogram t;
    recommended_threshold = none;
    recommendation = none_observed;
  }

  unfoldable pub report : (List F → F) → NearMissTracker F → Result (NearMissReport F)
  unfolding full_report empty_report
  report fmean t =
      let count = length t.events in
      let scores = map (λ e. e.score) t.events in
      if count == 0
      then ok (empty_report t)
      else if leb t.min_samples count
      then and_then (recommended scores)
          (λ r. ok (full_report fmean t (some r) (lower count (fmean scores) r)))
      else ok (full_report fmean t none (too_few count t.min_samples (fmean scores)))
