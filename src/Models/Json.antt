-- ===== src/Models/Json.antt =====
-- The values of a request's fields, and the canonical JSON text of a value.
use Prim.Native.String.{◌++◌}
use python_async_api_barebon.Base.{ℕ, suc, String, Bool, true, false, ◌&&◌, if◌then◌else◌}
use python_async_api_barebon.Base.TextOrder.{text_lt}

-- Python's values as the client meets them. `neg_int n` is -(n + 1); `object` is one of any class
-- that json cannot write, by its `str`. `arr` is a list, or a tuple, which json writes as one. A dict
-- is its fields in insertion order; its keys are texts, and dicts with other keys are left out.
mutual
  pub data Value (F : Type 0) : Type 0 where
    null : Value F
    bool : Bool → Value F
    int : ℕ → Value F
    neg_int : ℕ → Value F
    float : F → Value F
    str : String → Value F
    bytes : String → Value F
    object : String → Value F
    arr : Values F → Value F
    dict : Fields F → Value F

  pub data Values (F : Type 0) : Type 0 where
    nil : Values F
    cons : Value F → Values F → Values F

  pub data Fields (F : Type 0) : Type 0 where
    none_left : Fields F
    field : String → Value F → Fields F → Fields F

-- What the interpreter and its library compute of texts: the decimal text of an int, the text of a
-- float, a JSON string literal, `str` of a bytes object, `str.upper`, and the SHA-256 digest in hex.
pub record Platform (F : Type 0) : Type 0 where
  pub int_text : ℕ → String
  pub float_text : F → String
  pub quote : String → String
  pub bytes_text : String → String
  pub upper : String → String
  pub sha256_hex : String → String

module _ {F : Type 0} where
  -- `json.dumps(value)` raises no TypeError.
  unfoldable mutual
    pub is_serializable : Value F → Bool
    is_serializable (bytes text) = false
    is_serializable (object text) = false
    is_serializable (arr xs) = are_serializable xs
    is_serializable (dict fs) = fields_serializable fs
    is_serializable null = true
    is_serializable (bool b) = true
    is_serializable (int n) = true
    is_serializable (neg_int n) = true
    is_serializable (float x) = true
    is_serializable (str s) = true

    pub are_serializable : Values F → Bool
    are_serializable nil = true
    are_serializable (cons x xs) = is_serializable x && are_serializable xs

    pub fields_serializable : Fields F → Bool
    fields_serializable none_left = true
    fields_serializable (field k x fs) = is_serializable x && fields_serializable fs

  -- One field into fields that are sorted by key.
  unfoldable pub insert_field : String → Value F → Fields F → Fields F
  insert_field k x none_left = field k x none_left
  insert_field k x (field j y fs) =
      if text_lt k j then field k x (field j y fs) else field j y (insert_field k x fs)

  -- `sort_keys=True`, at every level.
  unfoldable mutual
    unfolding insert_field

    pub sort_value : Value F → Value F
    sort_value (arr xs) = arr (sort_values xs)
    sort_value (dict fs) = dict (sort_fields fs)
    sort_value null = null
    sort_value (bool b) = bool b
    sort_value (int n) = int n
    sort_value (neg_int n) = neg_int n
    sort_value (float x) = float x
    sort_value (str s) = str s
    sort_value (bytes s) = bytes s
    sort_value (object s) = object s

    pub sort_values : Values F → Values F
    sort_values nil = nil
    sort_values (cons x xs) = cons (sort_value x) (sort_values xs)

    pub sort_fields : Fields F → Fields F
    sort_fields none_left = none_left
    sort_fields (field k x fs) = insert_field k (sort_value x) (sort_fields fs)

module _ {F : Type 0} (p : Platform F) where
  abbrev truth : Bool → String
  truth true = "true"
  truth false = "false"

  -- The text, with the separators "," and ":" and `default=str`.
  unfoldable mutual
    pub write_value : Value F → String
    write_value null = "null"
    write_value (bool b) = truth b
    write_value (int n) = p.int_text n
    write_value (neg_int n) = "-" ++ p.int_text (suc n)
    write_value (float x) = p.float_text x
    write_value (str s) = p.quote s
    write_value (bytes s) = p.quote (p.bytes_text s)
    write_value (object s) = p.quote s
    write_value (arr nil) = "[]"
    write_value (arr (cons x xs)) = "[" ++ write_value x ++ write_values xs
    write_value (dict none_left) = "{}"
    write_value (dict (field k x fs)) = "{" ++ p.quote k ++ ":" ++ write_value x ++ write_fields fs

    -- the values behind the first, and the bracket
    pub write_values : Values F → String
    write_values nil = "]"
    write_values (cons x xs) = "," ++ write_value x ++ write_values xs

    -- the fields behind the first, and the brace
    pub write_fields : Fields F → String
    write_fields none_left = "}"
    write_fields (field k x fs) = "," ++ p.quote k ++ ":" ++ write_value x ++ write_fields fs
