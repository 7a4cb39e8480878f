-- ===== src/Mcp/Limits.antt =====
-- internal/mcpserver/limits.go. A limit that is not above 0 stands for the default. `timeout` is in
-- seconds.
use soft_ue_index.Base.{
  ℕ, ◌+◌, ◌-◌, ◌*◌, ◌≤◌, ◌≡◌, Bool, true, false, ◌||◌, some, none, arith, ltb, if◌then◌else◌,
}
use soft_ue_index.Base.Int.{ℤ, pos, negsuc, positive, or_default}

pub record Limits : Type 0 where
  pub max_items : ℤ
  pub max_query_bytes : ℤ
  pub max_path_bytes : ℤ
  pub max_source_bytes : ℤ
  pub max_response_bytes : ℤ
  pub max_request_bytes : ℤ
  pub max_request_id_bytes : ℤ
  pub max_call_depth : ℤ
  pub max_concurrent_tools : ℤ
  pub timeout : ℤ

-- the limits after `normalized`, all of them above 0
pub record Bounds : Type 0 where
  pub max_items : ℕ
  pub max_query_bytes : ℕ
  pub max_path_bytes : ℕ
  pub max_source_bytes : ℕ
  pub max_response_bytes : ℕ
  pub max_request_bytes : ℕ
  pub max_request_id_bytes : ℕ
  pub max_call_depth : ℕ
  pub max_concurrent_tools : ℕ
  pub timeout : ℕ

abbrev pub default_max_bytes : ℕ
default_max_bytes = 32 * 1024

abbrev pub protocol_envelope_bytes : ℕ
protocol_envelope_bytes = 256

abbrev pub minimum_response_bytes : ℕ
minimum_response_bytes = 512

abbrev pub max_request_id_token_bytes : ℕ
max_request_id_token_bytes = protocol_envelope_bytes - 128

unfoldable pub normalized : Limits → Bounds
normalized l = record {
  max_items = or_default l.max_items 100;
  max_query_bytes = or_default l.max_query_bytes 512;
  max_path_bytes = or_default l.max_path_bytes 4096;
  max_source_bytes = or_default l.max_source_bytes default_max_bytes;
  max_response_bytes = or_default l.max_response_bytes default_max_bytes;
  max_request_bytes = or_default l.max_request_bytes (64 * 1024);
  max_request_id_bytes = or_default l.max_request_id_bytes 128;
  max_call_depth = or_default l.max_call_depth 3;
  max_concurrent_tools = or_default l.max_concurrent_tools 8;
  timeout = or_default l.timeout 30;
}

-- `x > 0 && x < n`, `x > 0 && x > n`
abbrev pub set_below : ℤ → ℕ → Bool
set_below x n = elim (positive x) [ none ↦ false | some k ↦ ltb k n ]

abbrev pub set_above : ℤ → ℕ → Bool
set_above x n = elim (positive x) [ none ↦ false | some k ↦ ltb n k ]

-- `validate`: true when the limits are accepted
unfoldable pub validate : Limits → Bool
validate l =
    if set_below l.max_response_bytes minimum_response_bytes
    then false
    else if set_below l.max_request_bytes 2
        || (set_below l.max_request_id_bytes 1
            || set_above l.max_request_id_bytes max_request_id_token_bytes)
    then false
    else true

unfoldable pub output_limit : Bounds → ℕ
output_limit b = b.max_response_bytes - protocol_envelope_bytes

unfoldable pub item_limit : Bounds → ℤ → ℕ
item_limit b requested = elim (positive requested) [
  | none ↦ b.max_items
  | some n ↦ if ltb n b.max_items then n else b.max_items
]

-- What the operations may rely on once a server's limits are accepted.
pub record IsUsable (b : Bounds) : Type 0 where
  pub some_items : 1 ≤ b.max_items
  pub some_tools : 1 ≤ b.max_concurrent_tools
  pub response_room : output_limit b + protocol_envelope_bytes ≡ b.max_response_bytes
  pub result_room : 256 ≤ output_limit b
  pub request_room : 2 ≤ b.max_request_bytes
  pub id_fits_envelope : b.max_request_id_bytes + 128 ≤ protocol_envelope_bytes

default_le : (x : ℤ) (d : ℕ) → 1 ≤ d → 1 ≤ or_default x d
default_le (pos n) d h = ground arith
default_le (negsuc n) d h = h

-- Limits that validate accepts, whichever are left to their defaults, give bounds under which a
-- response has room for its envelope and 256 bytes more, and an echoed request ID fits the envelope.
pub normalized-IsUsable : (l : Limits) → validate l ≡ true → IsUsable (normalized l)
unfolding validate normalized output_limit
normalized-IsUsable l h =
    ground (arith, default_le l.max_items 100, default_le l.max_concurrent_tools 8)

-- The number of items that an operation answers with is at least 1 and at most what was asked for
-- and what the limits allow.
pub item_limit_bounds :
    (b : Bounds) (requested : ℤ)
    → 1 ≤ b.max_items
    → (1 ≤ item_limit b requested)
      × (item_limit b requested ≤ b.max_items)
      × (item_limit b requested ≤ or_default requested b.max_items)
unfolding item_limit
item_limit_bounds b (pos n) h = ground arith
item_limit_bounds b (negsuc n) h = ground arith
