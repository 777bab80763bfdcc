-- ===== src/Models.antt =====
-- async_hardened_client/models.py: requests, responses and the idempotency key. JSON documents are
-- values of one data type; what json, hashlib and str compute of a text is the record Platform.
mod Json
pub use Json.{
  Value, null, bool, int, neg_int, float, str, bytes, object, arr, dict, Values, nil, cons, Fields,
  none_left, field,
}
unfoldable pub use Json.{
  is_serializable, are_serializable, fields_serializable, sort_value, sort_values, sort_fields,
  insert_field, write_value, write_values, write_fields,
}
pub use Json.{Platform}
mod Defs
pub use Defs.{Request, Response}
unfoldable pub use Defs.{stable_dump, idempotency_key, to_storage, from_storage, field_of}
pub mod Keys
pub mod RoundTrip
