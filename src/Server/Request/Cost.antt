-- ===== src/Server/Request/Cost.antt =====
-- Laws of the estimated cost.
use infer_flow.Prelude.{ℕ, ◌+◌, ◌*◌, ◌≤◌, ◌<◌, ◌≡◌, ◌⊎◌, List, arith}
use infer_flow.Proxy.{ChatMessage}
use infer_flow.Server.Request.{total_bytes, cost_of_bytes, estimate_request_cost}

ceil_of_bytes :
    (n : ℕ)
    → (1 ≤ cost_of_bytes n)
      × (n ≤ 4 * cost_of_bytes n)
      × ((4 * cost_of_bytes n < n + 4) ⊎ ((n ≡ 0) × (cost_of_bytes n ≡ 1)))
unfolding cost_of_bytes
ceil_of_bytes n = ground arith

-- The cost is positive; four times the cost covers the bytes of the trimmed contents, and exceeds them
-- by less than four, or the cost is 1 for a request with nothing in it.
pub estimate_request_cost_ceil :
    (messages : List ChatMessage)
    → (1 ≤ estimate_request_cost messages)
      × (total_bytes messages ≤ 4 * estimate_request_cost messages)
      × ((4 * estimate_request_cost messages < total_bytes messages + 4)
          ⊎ ((total_bytes messages ≡ 0) × (estimate_request_cost messages ≡ 1)))
estimate_request_cost_ceil messages =
    unfold estimate_request_cost in ceil_of_bytes (total_bytes messages)
