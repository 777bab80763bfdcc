-- ===== src/Client/Body.antt =====
-- `_read_response`: what the worker has of an answer's bytes.
use python_async_api_barebon.Base.{ℕ, String, Option, some, none, str_eq, if◌then◌else◌}
use python_async_api_barebon.Client.Execute.{Reply, answers}
use python_async_api_barebon.Models.{Value, Fields, null, str}

-- What comes from the library: `bytes.decode("utf-8", errors="replace")`, and `json.loads`, which
-- reads a document or raises a JSONDecodeError.
pub record Codec (F : Type 0) : Type 0 where
  pub decode : String → String
  pub loads : String → Option (Value F)

module _ {F : Type 0} (codec : Codec F) where
  abbrev pub text_or_document : String → Option (Value F) → Value F
  text_or_document text none = str text
  text_or_document text (some document) = document

  -- The body and the headers, from the bytes that the answer has and its headers.
  unfoldable pub read_response : String → Fields F → Value F × Fields F
  read_response raw headers =
      let text = if str_eq raw "" then "" else codec.decode raw in
      (if str_eq text "" then null else text_or_document text (codec.loads text), headers)

  -- The reply that `_execute` reads of an answer.
  abbrev pub received : ℕ → String → Fields F → Reply F
  received status raw headers =
      let (body, plain_headers) = read_response raw headers in answers status body plain_headers
