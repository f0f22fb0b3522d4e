-- ===== src/Server/Samples.antt =====
-- What the tests of the server share: a die, whole numbers for `float64`, an environment with two backends,
-- and a question.
use infer_flow.Prelude.{
  ℕ, ◌+◌, ◌%◌, ◌*◌, ◌/◌, ◌≡◌, refl, true, false, List, [], ◌∷◌, none, if◌then◌else◌,
}
use native.Mathlib.Nat.{mod-lt}
use infer_flow.Text.{
  Text, codes, text_beq, is_space, trim_space, trim_left, trim_right, trim_right_slash, split,
}
use infer_flow.Text.Decimal.{decimal}
use infer_flow.Cache.Store.{ten_minutes}
use infer_flow.Metrics.{Float64}
use infer_flow.Proxy.{ChatCompletionRequest}
use infer_flow.Router.Heap.{Backend, Heap, new_backend}
use infer_flow.Router.Random.{Rng}
use infer_flow.Server.Config.{
  Loaded, loaded, memory, getenv, duration_from_env, affinity_of, load_backends,
  load_config_from_env, split_and_trim, trim_parts,
}
use infer_flow.Server.Request.{validate_chat_request}
use infer_flow.Server.State.{Config}

abbrev pub die : Rng ℕ
die = record {
  new_source = λ seed. seed;
  intn = λ r n. (r + 1, r % n);
  intn_lt = λ r n pos. mod-lt r pos;
}

abbrev pub whole : Float64 ℕ
whole = record {
  add = λ a b. a + b;
  mul = λ a b. a * b;
  div = λ a b. a / b;
  of_int64 = λ n. n;
  to_int64 = λ n. n;
  of_tenths = λ n. n / 10;
}

abbrev pub one_memory : Heap
one_memory = record {
  backend = λ b. record { name = codes "a"; base_url = codes "http://a"; healthy = true };
  counter = λ c. 0;
  fresh = 0;
}

abbrev pub config : Config
config = record {
  listen_addr = codes ":8080";
  backends = 0 ∷ 1 ∷ [];
  probe_interval = 5;
  backend_request_timeout = 60;
  cache_ttl = 600;
}

abbrev pub question : ChatCompletionRequest ℕ
question = record {
  model = codes "m";
  messages = record { role = codes "user"; content = codes "Hi" } ∷ [];
  stream = false;
  max_tokens = 0;
  temperature = 0;
  repetition_penalty = 0;
}

abbrev pub no_digest : Text → List ℕ
no_digest s = []

abbrev pub keep : ℕ → ℕ
keep c = c

pub question_valid : validate_chat_request question ≡ none
unfolding validate_chat_request trim_space trim_left trim_right is_space
question_valid = refl

abbrev pub environment : Text → Text
environment key = if text_beq key (codes "INFERFLOW_BACKENDS") then codes " x/, y" else []

abbrev pub first_backend : Backend
first_backend = record { name = codes "backend-1"; base_url = codes "x"; healthy = true }

abbrev pub second_backend : Backend
second_backend = record { name = codes "backend-2"; base_url = codes "y"; healthy = true }

abbrev pub two_backends : Loaded
two_backends = record {
  listen_addr = codes ":8080";
  backends = first_backend ∷ second_backend ∷ [];
  probe_interval = 2 * 1000000000;
  backend_request_timeout = 10 * 1000000000;
  affinity_store = memory;
  cache_ttl = ten_minutes;
}

pub two_loaded : load_config_from_env environment (λ url. true) (λ s. none) ≡ loaded two_backends
unfolding load_config_from_env load_backends getenv duration_from_env affinity_of split_and_trim
    trim_parts split trim_space trim_left trim_right trim_right_slash is_space new_backend decimal
two_loaded = refl
