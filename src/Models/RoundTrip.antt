-- ===== src/Models/RoundTrip.antt =====
-- async_hardened_client/models.py: a stored request is read back as it was.
use python_async_api_barebon.Base.Float.{Float}
use python_async_api_barebon.Base.{String, some, ◌≡◌, refl}
use python_async_api_barebon.Models.Defs.{Request, to_storage, from_storage}

-- The document of a request reads back as that request, whatever identifier and time would stand
-- in for missing fields; its JSON text stands as the document here.
pub from_storage-to_storage :
    {F : Type 0} ⦃o : Float F⦄ (fresh_id : String) (now : F) (r : Request F)
    → from_storage fresh_id now (to_storage r) ≡ some r
unfolding from_storage to_storage
from_storage-to_storage fresh_id now r = refl
