-- ===== src/Models/Keys.antt =====
-- async_hardened_client/models.py: the idempotency key does not depend on the order of dict fields.
use python_async_api_barebon.Base.{String, ◌≡◌, ◌≢◌, refl, ap, ◌∙◌, arith}
use python_async_api_barebon.Base.TextOrder.{text_lt_flip, text_lt_asymm, text_lt_trans}
use python_async_api_barebon.Models.Json.{
  Value, Fields, none_left, field, Platform, sort_value, sort_fields, insert_field, write_value,
}
use python_async_api_barebon.Models.Defs.{Request, idempotency_key, payload}

module _ {F : Type 0} where
  -- Two dicts with the same fields in another order, in which no key stands twice.
  pub data Reordered : Fields F → Fields F → Type 0 where
    same : (fs : Fields F) → Reordered fs fs
    swapped :
        (k j : String) (x y : Value F) (fs : Fields F)
        → k ≢ j
        → Reordered (field k x (field j y fs)) (field j y (field k x fs))
    kept :
        (k : String) (x : Value F) (fs gs : Fields F)
        → Reordered fs gs
        → Reordered (field k x fs) (field k x gs)
    chained : (fs gs hs : Fields F) → Reordered fs gs → Reordered gs hs → Reordered fs hs

  insert_field_comm :
      (k j : String) (x y : Value F) (fs : Fields F)
      → k ≢ j
      → insert_field k x (insert_field j y fs) ≡ insert_field j y (insert_field k x fs)
  unfolding insert_field
  insert_field_comm k j x y none_left ne = ground (arith, text_lt_flip k j ne, text_lt_asymm k j)
  insert_field_comm k j x y (field i z fs) ne = ground (
    arith,
    text_lt_flip k j ne,
    text_lt_asymm k j,
    text_lt_trans k j i,
    text_lt_trans j k i,
    insert_field_comm k j x y fs ne,
  )

  sort_fields-Reordered : {fs gs : Fields F} → Reordered fs gs → sort_fields fs ≡ sort_fields gs
  unfolding sort_fields
  sort_fields-Reordered (same fs) = refl
  sort_fields-Reordered (swapped k j x y fs ne) =
      insert_field_comm k j (sort_value x) (sort_value y) (sort_fields fs) ne
  sort_fields-Reordered (kept k x fs gs r) =
      ap (insert_field k (sort_value x)) (sort_fields-Reordered r)
  sort_fields-Reordered (chained fs gs hs r s) = sort_fields-Reordered r ∙ sort_fields-Reordered s

  sort_value-payload :
      (p : Platform F) (r s : Request F)
      → p.upper r.method ≡ p.upper s.method
      → r.url ≡ s.url
      → sort_fields r.params ≡ sort_fields s.params
      → r.body ≡ s.body
      → sort_value (payload p r) ≡ sort_value (payload p s)
  unfolding sort_value
  sort_value-payload p r s m u ps b = cc

  -- Requests whose methods agree in upper case, with the same URL and body, and with params of the
  -- same fields in another order, share an idempotency key, whatever their headers, priorities,
  -- identifiers and times.
  pub idempotency_key-Reordered :
      (p : Platform F) (r s : Request F)
      → p.upper r.method ≡ p.upper s.method
      → r.url ≡ s.url
      → Reordered r.params s.params
      → r.body ≡ s.body
      → idempotency_key p r ≡ idempotency_key p s
  unfolding idempotency_key
  idempotency_key-Reordered p r s m u ps b =
      ap (λ v. p.sha256_hex (write_value p v))
        (sort_value-payload p r s m u (sort_fields-Reordered ps) b)
