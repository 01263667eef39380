-- ===== src/Gateway/RateLimit/Shapes.antt =====
-- What the estimate promises: its bounds, and the same figure for each provider's shape of a prompt.
use Prim.Native.Char.{Char}
use janus_server.Prelude.{◌+◌, ◌≤◌, ◌≡◌, refl, List, [], ◌∷◌, length, All, arith}
use janus_server.Prelude.Int.{ℤ}
use janus_server.Gateway.RateLimit.Estimate.{
  Json, null, str, arr, obj, Items, end, item, estimate_request_tokens, count_input_chars,
  count_items_chars, count_item_chars, count_content_chars, count_parts_chars, clamp_completion,
}

-- Whatever the payload and the declared cap, an estimate lies between 100 and 204000 tokens.
pub estimate_request_tokens-bounded :
    (messages : Json) (max_completion : ℤ)
    → (100 ≤ estimate_request_tokens messages max_completion)
      × (estimate_request_tokens messages max_completion ≤ 204000)
unfolding estimate_request_tokens clamp_completion
estimate_request_tokens-bounded messages max_completion = ground arith

abbrev pub items_of : (List Char → Json) → List (List Char) → Items
items_of f [] = end
items_of f (t ∷ ts) = item (f t) (items_of f ts)

-- A prompt of several texts, each written by f.
abbrev pub prompt : (List Char → Json) → List (List Char) → Json
prompt f ts = arr (items_of f ts)

-- One text as an item of each provider's shape.
abbrev pub chat_message : List Char → Json
chat_message t = obj null (str t) null

abbrev pub chat_blocks : List Char → Json
chat_blocks t = obj null (arr (item (obj null null (str t)) end)) null

abbrev pub gemini_content : List Char → Json
gemini_content t = obj (arr (item (obj null null (str t)) end)) null null

abbrev pub responses_item : List Char → Json
responses_item t = obj null null (str t)

module _ (f : List Char → Json)
    (h : (t : List Char) (rest : Items)
      → count_items_chars (item (f t) rest) ≡ length t + count_items_chars rest) where
  count_items_chars-same :
      (ts : List (List Char))
      → count_items_chars (items_of f ts) ≡ count_items_chars (items_of str ts)
  unfolding count_items_chars
  count_items_chars-same [] = refl
  count_items_chars-same (t ∷ ts) = omega (arith, h t (items_of f ts), count_items_chars-same ts)

  estimate-same :
      (ts : List (List Char)) (max_completion : ℤ)
      → estimate_request_tokens (prompt f ts) max_completion
        ≡ estimate_request_tokens (prompt str ts) max_completion
  unfolding estimate_request_tokens count_input_chars
  estimate-same ts max_completion = rw (count_items_chars-same ts) refl

-- The texts of a prompt get the same estimate as chat messages, as chat messages of blocks, as
-- Gemini contents and as items of the Responses API: that of a list of plain texts.
pub estimate_request_tokens-shapes :
    (ts : List (List Char)) (max_completion : ℤ)
    → All
        (λ f.
          estimate_request_tokens (prompt f ts) max_completion
          ≡ estimate_request_tokens (prompt str ts) max_completion)
        (chat_message ∷ chat_blocks ∷ gemini_content ∷ responses_item ∷ [])
unfolding count_items_chars count_item_chars count_content_chars count_parts_chars
estimate_request_tokens-shapes ts max_completion = (
  estimate-same chat_message (λ t rest. refl) ts max_completion,
  (
    estimate-same chat_blocks (λ t rest. omega arith) ts max_completion,
    (
      estimate-same gemini_content (λ t rest. omega arith) ts max_completion,
      (estimate-same responses_item (λ t rest. refl) ts max_completion, tt),
    ),
  ),
)
