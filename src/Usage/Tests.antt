-- ===== src/Usage/Tests.antt =====
-- The theorems on the estimates at a concrete request.
use qwen2api_go.Prelude.{◌≡◌, refl, none, [], ◌∷◌, ◌+◌}
use qwen2api_go.Text.{Text, codes, text_beq, trim_space, trim_left, trim_right, is_space}
use qwen2api_go.Json.{Value, absent, text, object, entry, no_entries}
use qwen2api_go.Usage.{estimate_text_tokens, estimate_payload_tokens, estimate_openai_input_tokens}
use qwen2api_go.Usage.Estimates.{message_named, estimate_openai_input_tokens_nameless}

abbrev print : Value → Text
print v = []

-- Five characters and the key of four count as two tokens and one.
five_and_four :
    estimate_payload_tokens (object (entry (codes "text") (text (codes "hello")) no_entries)) ≡ 3
unfolding estimate_payload_tokens estimate_text_tokens trim_space trim_left trim_right is_space
    text_beq
five_and_four = refl

estimate_openai_input_tokens_nameless_example :
    estimate_openai_input_tokens print
      (message_named (text (codes "user")) (text (codes "hello")) none absent ∷ [])
      absent
      (text (codes "auto"))
    ≡ estimate_openai_input_tokens print
        (message_named (text (codes "user")) (text (codes "hello")) none (text []) ∷ [])
        absent
        (text (codes "auto"))
      + 2
estimate_openai_input_tokens_nameless_example =
    estimate_openai_input_tokens_nameless print (text (codes "user")) (text (codes "hello")) none []
      absent (text (codes "auto"))
