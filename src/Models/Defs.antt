-- ===== src/Models/Defs.antt =====
-- The dataclasses Request and Response.
use python_async_api_barebon.Base.{
  false, ◌||◌, ◌==◌, not, true, Bool, ℕ, String, Option, none, some, str_eq, if◌then◌else◌,
}
use python_async_api_barebon.Base.Float.{Float}
use python_async_api_barebon.Models.Json.{
  nil, arr, bool, Value, null, int, float, str, dict, Fields, none_left, field, Platform,
  sort_value, write_value,
}

-- `headers` and `params` are dicts; a body of None is `null`. The priority is not negative, since
-- the program never reads it.
pub record Request (F : Type 0) : Type 0 where
  pub method : String
  pub url : String
  pub headers : Fields F
  pub params : Fields F
  pub body : Value F
  pub priority : ℕ
  pub request_id : String
  pub created_at : F

pub record Response (F : Type 0) : Type 0 where
  pub status_code : ℕ
  pub data_read : Value F
  pub headers : Fields F
  pub error : Option String
  pub retries : ℕ
  pub request_id : String

module _ {F : Type 0} (p : Platform F) where
  unfoldable pub stable_dump : Value F → String
  stable_dump value = write_value p (sort_value value)

  -- The dict that is hashed.
  abbrev pub payload : Request F → Value F
  payload r = dict (
      field "method" (str (p.upper r.method))
        (field "url" (str r.url) (field "params" (dict r.params) (field "body" r.body none_left))))

  unfoldable pub idempotency_key : Request F → String
  unfolding stable_dump
  idempotency_key r = p.sha256_hex (stable_dump (payload r))

infixl 5 ◌>>=◌
abbrev ◌>>=◌ : {A B : Type 0} → Option A → (A → Option B) → Option B
none >>= f = none
some a >>= f = f a

module _ {F : Type 0} where
  unfoldable pub to_storage : Request F → Value F
  to_storage r = dict (
      field "method" (str r.method) (
        field "url" (str r.url) (
          field "headers" (dict r.headers) (
            field "params" (dict r.params) (
              field "body" r.body (
                field "priority" (int r.priority) (
                  field "request_id" (str r.request_id)
                    (field "created_at" (float r.created_at) none_left))))))))

  -- `data.get(k)`
  unfoldable pub field_of : String → Fields F → Option (Value F)
  field_of k none_left = none
  field_of k (field j x fs) = if str_eq j k then some x else field_of k fs

  abbrev as_text : Value F → Option String
  as_text (str s) = some s
  as_text _ = none

module _ {F : Type 0} ⦃o : Float F⦄ where
  -- What counts as false, of the values that JSON text is read as, but a dict.
  abbrev is_falsy : Value F → Bool
  is_falsy null = true
  is_falsy (bool b) = not b
  is_falsy (int n) = n == 0
  is_falsy (float x) = not (o.lt x o.zero || o.lt o.zero x)
  is_falsy (str t) = str_eq t ""
  is_falsy (arr nil) = true
  is_falsy _ = false

  -- `data.get(k, {}) or {}`: a dict, or an empty one for what counts as false.
  abbrev dict_or_empty : Option (Value F) → Option (Fields F)
  dict_or_empty none = some none_left
  dict_or_empty (some (dict fs)) = some fs
  dict_or_empty (some x) = if is_falsy x then some none_left else none

  abbrev value_or_null : Option (Value F) → Value F
  value_or_null none = null
  value_or_null (some x) = x

  abbrev int_or : ℕ → Option (Value F) → Option ℕ
  int_or default none = some default
  int_or default (some (int n)) = some n
  int_or default (some _) = none

  abbrev text_or : String → Option (Value F) → Option String
  text_or default none = some default
  text_or default (some x) = as_text x

  abbrev float_or : F → Option (Value F) → Option F
  float_or default none = some default
  float_or default (some (float x)) = some x
  float_or default (some _) = none

  abbrev from_fields : String → F → Fields F → Option (Request F)
  from_fields fresh_id now fs = do
    method ← field_of "method" fs >>= as_text
    url ← field_of "url" fs >>= as_text
    headers ← dict_or_empty (field_of "headers" fs)
    params ← dict_or_empty (field_of "params" fs)
    priority ← int_or 0 (field_of "priority" fs)
    request_id ← text_or fresh_id (field_of "request_id" fs)
    created_at ← float_or now (field_of "created_at" fs)
    some (record {
      method = method;
      url = url;
      headers = headers;
      params = params;
      body = value_or_null (field_of "body" fs);
      priority = priority;
      request_id = request_id;
      created_at = created_at;
    })

  -- With a fresh identifier and the time for what is missing. `none` is a KeyError, or a field that
  -- is not of the type that the dataclass declares.
  unfoldable pub from_storage : String → F → Value F → Option (Request F)
  unfolding field_of
  from_storage fresh_id now (dict fs) = from_fields fresh_id now fs
  from_storage fresh_id now _ = none
