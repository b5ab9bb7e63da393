-- ===== src/Tests/Serving.antt =====
-- A stream, a window of near misses, feedback, times to live, a burst, and a routed request.
use llm_semantic_caching_lay.Prelude.{
  ℕ, suc, ◌*◌, ◌≡◌, ◌⊎◌, refl, Option, none, some, List, [], ◌∷◌, min, true, false, Text, codes,
  text_eq, strip, is_space, is_in, any, arith, ok, if◌then◌else◌,
}
use llm_semantic_caching_lay.Prelude.Dict
use llm_semantic_caching_lay.Prelude.Int.{ℤ, pos, ◌+ℤ◌, ◌-ℤ◌, ◌*ℤ◌}
use llm_semantic_caching_lay.Float.Decimals.{decimals, decimals-IsOrdered}
use llm_semantic_caching_lay.Models.Json.{Json, obj, Fields}
use llm_semantic_caching_lay.Models.Chat.{Role, ChatCompletionRequest, ChatCompletionResponse}
use llm_semantic_caching_lay.Proxy.Streaming.{nothing, init, push_all, push, drain}
use llm_semantic_caching_lay.Proxy.Streaming.Frames.{frames}
use llm_semantic_caching_lay.Proxy.Streaming.Pushing.{concat, consume_all, Left, push_all-frames}
use llm_semantic_caching_lay.Proxy.Streaming.Ending.{Ended, push-ends}
use llm_semantic_caching_lay.Analytics.NearMiss.{NearMissTracker, NearMissReport, report}
use llm_semantic_caching_lay.Analytics.NearMiss
use llm_semantic_caching_lay.Analytics.NearMiss.Window.{
  Recording, event, record_all, record_all-init, IsSummary, report-IsSummary,
}
use llm_semantic_caching_lay.Policies.Threshold.{
  ThresholdCategory, CategoryPolicy, Policies, category_policy, policy_of, categorize, is_category,
  default_policies, programming_keywords, classification_keywords, threshold_for_prompt,
  record_feedback,
}
use llm_semantic_caching_lay.Policies.Threshold.Bounds.{
  IsBounded, IsAdditive, after_feedback, threshold-bounds, feedback-direction,
}
use llm_semantic_caching_lay.Policies.Ttl.{TtlClassifier, ttl_policy}
use llm_semantic_caching_lay.Policies.Ttl.Decisions.{IsDecided, ttl_policy-IsDecided}
use llm_semantic_caching_lay.Core.RateLimit.{
  Request, RateLimitMiddleware, client_key, new_bucket, dispatch,
}
use llm_semantic_caching_lay.Core.RateLimit.Admission.{
  IsCounting, admitted, burst-admitted, SameClient, dispatch-SameClient,
}
use llm_semantic_caching_lay.Providers.Router.{
  ChatProvider, ProviderRouter, default_rules, complete,
}
use llm_semantic_caching_lay.Providers.Router.Dispatch.{Dispatched, complete-Dispatched}

-- A JSON reader for one payload.
abbrev pub loads : Text → Option (Json ℤ)
loads t = if text_eq t (codes "{}") then some (obj Fields.empty) else none

abbrev pub chunks : List Text
chunks = codes "data: {}\n" ∷ codes "\ndata: [DO" ∷ codes "NE]\n\nrest" ∷ []

push_all-frames_example :
    Left loads
      (init (codes "gpt-4o"))
      (frames (concat chunks)).1
      (consume_all loads (frames (concat chunks)).0 nothing)
      (push_all loads chunks (init (codes "gpt-4o")))
push_all-frames_example = push_all-frames loads (codes "gpt-4o") chunks

push-ends_example :
    (push loads
        (codes "data: [DONE]\n\nrest")
        (record (init (codes "gpt-4o")) { buffer = codes "id: 1\n\n" })
      ≡ drain loads 40
          (record (init (codes "gpt-4o")) { buffer = codes "id: 1\n\ndata: [DONE]\n\nrest" }))
    × Ended loads (
        push loads
          (codes "data: [DONE]\n\nrest")
          (record (init (codes "gpt-4o")) { buffer = codes "id: 1\n\n" }))
push-ends_example =
    push-ends loads (codes "data: [DONE]\n\nrest")
      (record (init (codes "gpt-4o")) { buffer = codes "id: 1\n\n" }) 40 (omega arith)

abbrev missed : ℕ → Recording ℤ
missed score = record {
  score = pos score;
  threshold = pos 9500;
  namespace = codes "ns";
  prompt = codes "hi";
  time = pos 1;
}

record_all-init_example :
    record_all (missed 9100 ∷ missed 9300 ∷ missed 9400 ∷ []) (NearMiss.init 20 2) ≡ record {
      min_samples = 20;
      capacity = 2;
      events = event (missed 9300) ∷ event (missed 9400) ∷ [];
    }
record_all-init_example = record_all-init (missed 9100 ∷ missed 9300 ∷ missed 9400 ∷ []) 20 2

abbrev tracker : NearMissTracker ℤ
tracker = record_all (missed 9100 ∷ missed 9300 ∷ []) (NearMiss.init 1 5)

report-IsSummary_example :
    (r : NearMissReport ℤ) × (report (λ xs. pos 9200) tracker ≡ ok r) × IsSummary tracker r
report-IsSummary_example = report-IsSummary (λ xs. pos 9200) tracker

abbrev general_policy : CategoryPolicy ℤ
general_policy = record {
  base = pos 9500;
  minimum = pos 9200;
  maximum = pos 9800;
  step = pos 50;
  current = pos 9500;
}

general_found :
    policy_of (categorize (λ p t. false) (λ t. t) (codes "hello there")) default_policies
    ≡ ok general_policy
unfolding policy_of categorize is_category default_policies category_policy programming_keywords
    classification_keywords strip is_space is_in any
general_found = refl

general-IsBounded : IsBounded general_policy
general-IsBounded = record { consistent = refl; above = refl; below = refl }

threshold-bounds_example :
    (x : ℤ) × (threshold_for_prompt
        (λ p t. false)
        (λ t. t)
        (codes "hello there")
        (after_feedback ((ThresholdCategory.general, false) ∷ []) default_policies)
      ≡ ok x)
    × (decimals.le (pos 9200) x ≡ true)
    × (decimals.le x (pos 9800) ≡ true)
threshold-bounds_example =
    threshold-bounds decimals-IsOrdered (λ p t. false) (λ t. t) (codes "hello there")
      ((ThresholdCategory.general, false) ∷ []) default_policies general_policy general_found
      general-IsBounded

decimals-IsAdditive : IsAdditive decimals
unfolding ◌+ℤ◌ ◌-ℤ◌
decimals-IsAdditive = record { add_up = λ x d h. ground arith; add_down = λ x d h. ground arith }

abbrev pub one_policy : Policies ℤ
one_policy = (ThresholdCategory.general, general_policy) ∷ []

general_first : policy_of ThresholdCategory.general one_policy ≡ ok general_policy
unfolding policy_of is_category
general_first = refl

feedback-direction_example :
    (x : ℤ) × ((record_feedback ThresholdCategory.general true one_policy).0 ≡ ok x)
    × (decimals.le (pos 9500) x ≡ true)
feedback-direction_example =
    feedback-direction decimals-IsOrdered decimals-IsAdditive ThresholdCategory.general true
      one_policy general_policy general_first general-IsBounded refl

abbrev pub request : ChatCompletionRequest ℤ
request = record {
  model = codes "gpt-4o";
  messages =
      record {
        role = Role.user;
        content = some (codes "news today");
        name = none;
        extra = Fields.empty;
      }
      ∷ [];
  temperature = pos 10000;
  top_p = pos 10000;
  max_tokens = none;
  n = pos 1;
  stream = false;
  stop = none;
  user = none;
  cache_tags = some (codes "mine" ∷ []);
  extra = Fields.empty;
}

abbrev pub response : ChatCompletionResponse ℤ
response = record {
  id = codes "chatcmpl-1";
  object = codes "chat.completion";
  created = pos 1;
  model = codes "gpt-4o";
  choices = [];
  usage = record {
    prompt_tokens = pos 0;
    completion_tokens = pos 0;
    total_tokens = pos 0;
    extra = Fields.empty;
  };
  extra = Fields.empty;
}

abbrev classifier : TtlClassifier
classifier = record { long_ttl = pos 86400; short_ttl = pos 3600 }

ttl_policy-IsDecided_example :
    IsDecided
      (λ p t. false)
      (λ t. t)
      classifier
      request
      (ttl_policy (λ p t. false) (λ t. t) classifier request response)
ttl_policy-IsDecided_example =
    ttl_policy-IsDecided (λ p t. false) (λ t. t) classifier request response refl refl

scaled : (n : ℕ) → pos n *ℤ pos 10000 ≡ pos (10000 * n)
unfolding ◌*ℤ◌
scaled n = ground arith

cancelled : (t : ℤ) → t -ℤ t ≡ pos 0
unfolding ◌-ℤ◌
cancelled t = ground arith

nothing_times : (r : ℤ) → pos 0 *ℤ r ≡ pos 0
unfolding ◌*ℤ◌
nothing_times r = ground arith

less_one : (n : ℕ) → pos (10000 * suc n) -ℤ pos 10000 ≡ pos (10000 * n)
unfolding ◌-ℤ◌
less_one n = ground arith

plus_zero : (n : ℕ) → pos n +ℤ pos 0 ≡ pos n
unfolding ◌+ℤ◌
plus_zero n = ground arith

decimals-IsCounting : IsCounting decimals
decimals-IsCounting = record {
  at_least_one = λ n h. rw (scaled n) (ground arith);
  lt-of_int = λ m n h k. rw (scaled m, scaled n) (ground arith);
  sub_one = λ n h. rw (scaled n, scaled (suc n)) (less_one n);
  still = λ n t rate h. rw (scaled n, cancelled t, nothing_times rate) (plus_zero (10000 * n));
}

burst-admitted_example : admitted 7 (pos 5) (new_bucket (pos 3) (pos 5)) ≡ min 7 3
burst-admitted_example = burst-admitted decimals-IsCounting 3 (omega arith) (pos 5) 7

abbrev pub limiter : RateLimitMiddleware ℤ
limiter = record { rate = pos 3; exempt = codes "/health" ∷ []; buckets = [] }

abbrev pub acme : Request
acme = record {
  path = codes "/v1/chat/completions";
  tenant_header = some (codes "acme");
  client_host = some (codes "10.0.0.1");
}

abbrev anonymous : Request
anonymous = record acme { tenant_header = none }

dispatch-SameClient_example :
    SameClient acme anonymous
    ⊎ (Dict.get (dispatch (pos 0) (pos 1) acme limiter).1.buckets (client_key anonymous)
        ≡ Dict.get limiter.buckets (client_key anonymous))
dispatch-SameClient_example = dispatch-SameClient (pos 0) (pos 1) acme anonymous limiter

abbrev openai : ChatProvider ℤ
openai = record { name = codes "openai"; complete = λ r. ok response; stream = λ r. ([], none) }

abbrev router : ProviderRouter ℤ
router = record {
  providers = (codes "openai", openai) ∷ [];
  rules = default_rules;
  default = codes "openai";
}

complete-Dispatched_example : Dispatched (λ t. t) router request (complete (λ t. t) router request)
complete-Dispatched_example = complete-Dispatched (λ t. t) router request
