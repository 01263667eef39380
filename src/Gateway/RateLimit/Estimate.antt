-- ===== src/Gateway/RateLimit/Estimate.antt =====
-- src/gateway/rate_limit.py: the estimate of a request's tokens.
use Prim.Native.Char.{Char}
use janus_server.Prelude.{
  ℕ, ◌+◌, ◌/◌, ◌==◌, min, max, Bool, Option, none, some, List, length, if◌then◌else◌,
}
use janus_server.Prelude.Int.{ℤ, pos_part}

-- A JSON value as Python holds it. The fields of an object are those that the code reads, each
-- with the value that `get` returns: null for a key that is missing.
mutual
  pub data Json : Type 0 where
    null : Json
    bool : Bool → Json
    int : ℤ → Json
    -- A number that is no integer.
    float : Json
    str : List Char → Json
    arr : Items → Json
    -- `parts`, `content` and `text`.
    obj : Json → Json → Json → Json

  pub data Items : Type 0 where
    end : Items
    item : Json → Items → Items

abbrev pub estimated_tokens_per_request : ℕ
estimated_tokens_per_request = 100

abbrev pub chars_per_token : ℕ
chars_per_token = 4

abbrev pub max_upfront_estimate : ℕ
max_upfront_estimate = 4000

abbrev pub max_completion_ceiling : ℕ
max_completion_ceiling = 200000

-- `len(text) if isinstance(text, str)`, else nothing.
abbrev pub text_chars : Json → ℕ
text_chars (str text) = length text
text_chars _ = 0

unfoldable pub count_parts_chars : Items → ℕ
count_parts_chars end = 0
count_parts_chars (item (obj parts content text) rest) = text_chars text + count_parts_chars rest
count_parts_chars (item _ rest) = count_parts_chars rest

-- What `_count_item_chars` reads of `content` and `text`, where `parts` is no list.
unfoldable pub count_content_chars : Json → Json → ℕ
unfolding count_parts_chars
count_content_chars null text = text_chars text
count_content_chars (str content) text = length content
count_content_chars (arr content) text = count_parts_chars content
count_content_chars _ text = 0

unfoldable pub count_item_chars : Json → Json → Json → ℕ
unfolding count_parts_chars count_content_chars
count_item_chars (arr parts) content text = count_parts_chars parts
count_item_chars _ content text = count_content_chars content text

unfoldable pub count_items_chars : Items → ℕ
unfolding count_item_chars
count_items_chars end = 0
count_items_chars (item (str text) rest) = length text + count_items_chars rest
count_items_chars (item (obj parts content text) rest) =
    count_item_chars parts content text + count_items_chars rest
count_items_chars (item _ rest) = count_items_chars rest

unfoldable pub count_input_chars : Json → ℕ
unfolding count_items_chars
count_input_chars (str text) = length text
count_input_chars (arr items) = count_items_chars items
count_input_chars _ = 0

-- `max(0, min(value, ceiling))`.
unfoldable pub clamp_completion : ℤ → ℕ
clamp_completion value = min (pos_part value) max_completion_ceiling

-- `int(text.strip())` is the library's: `none` is its ValueError.
unfoldable pub coerce_max_completion : (List Char → Option ℤ) → Json → ℕ
unfolding clamp_completion
coerce_max_completion parse_int (bool b) = 0
coerce_max_completion parse_int (int n) = clamp_completion n
coerce_max_completion parse_int (str text) = elim (parse_int text) [
  | none ↦ 0
  | some n ↦ clamp_completion n
]
coerce_max_completion parse_int _ = 0

unfoldable pub estimate_request_tokens : Json → ℤ → ℕ
unfolding count_input_chars clamp_completion
estimate_request_tokens messages max_completion =
    let total_chars = count_input_chars messages in
    let prompt_estimate =
      if total_chars == 0
      then estimated_tokens_per_request
      else min (max estimated_tokens_per_request (total_chars / chars_per_token))
          max_upfront_estimate in
    prompt_estimate + clamp_completion max_completion
