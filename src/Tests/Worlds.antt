-- ===== src/Tests/Worlds.antt =====
-- Concrete configurations, requests and surroundings.
use python_async_api_barebon.Exec.{ok}
use python_async_api_barebon.Base.{
  ℕ, String, true, false, none, some, str_eq, eq_iff, arith, ◌≡◌, ◌≢◌,
}
use python_async_api_barebon.Config.{
  RateLimitConfig, CircuitBreakerConfig, RetryPolicy, ClientConfig,
}
use python_async_api_barebon.Models.{Platform, Request, Response, null, none_left}
use python_async_api_barebon.Client.State.{World}

-- A platform that writes texts as they are and takes a text as its own digest.
abbrev pub plain : Platform ℕ
plain = record {
  int_text = λ n. "1";
  float_text = λ x. "1.0";
  quote = λ s. s;
  bytes_text = λ s. s;
  upper = λ s. s;
  sha256_hex = λ s. s;
}

abbrev pub world : World ℕ
world = record {
  platform = plain;
  netloc = λ url. ok url;
  read_float = λ s. some 3;
  uniform = λ low high. low;
}

abbrev pub request_to : String → Request ℕ
request_to url = record {
  method = "GET";
  url = url;
  headers = none_left;
  params = none_left;
  body = null;
  priority = 0;
  request_id = "r1";
  created_at = 7;
}

abbrev pub rates : RateLimitConfig ℕ
rates = record { rate_per_second = 2; burst = 4 }

abbrev pub breaking : CircuitBreakerConfig ℕ
breaking = record {
  failure_threshold = 2;
  failure_rate = 1;
  rolling_window = 3;
  open_seconds = 10;
  half_open_max_probes = 1;
}

abbrev pub policy : RetryPolicy ℕ
policy = record { max_retries = 3; base_delay = 2; max_delay = 9; jitter = true }

abbrev pub config : ClientConfig ℕ
config = record {
  db_path = "client.db";
  request_timeout = 30;
  rate_limit = rates;
  circuit_breaker = breaking;
  retry = policy;
  queue = record { max_size = 2; workers = 1 };
  user_agent = "tests";
}

abbrev pub ok_response : Response ℕ
ok_response = record {
  status_code = 200;
  data_read = null;
  headers = none_left;
  error = none;
  retries = 0;
  request_id = "r1";
}

pub differ : (a b : String) → str_eq a b ≡ false → a ≢ b
differ a b e = ground (arith, eq_iff a b)
