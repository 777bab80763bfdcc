-- ===== src/Storage/Listing.antt =====
-- async_hardened_client/storage.py: what `list_inflight` returns, which is what recovery works from.
use mathlib.Core.List.{Perm}
use mathlib.Core.List.Perm
use python_async_api_barebon.Base.{
  ⊤, String, true, false, List, [], ◌∷◌, ◌≡◌, inl, inr, refl, arith, Bool-cases,
}
use python_async_api_barebon.Base.Lists.{All}
use python_async_api_barebon.Base.Float.{Float, FloatLaws}
use python_async_api_barebon.Exec.{ok}
use python_async_api_barebon.Models.{Request, Platform, to_storage, idempotency_key}
use python_async_api_barebon.Models.RoundTrip.{from_storage-to_storage}
use python_async_api_barebon.Storage.Tables.{InflightRecord, Storage, InflightRow}
use python_async_api_barebon.Storage.Inflight.{
  read_rows, insert_oldest, oldest_first, list_inflight,
}

module _ {F : Type 0} (p : Platform F) where
  -- The row holds a request, under the request's own key.
  pub record Holds (row : InflightRecord F) : Type 0 where
    pub request : Request F
    pub written : row.payload ≡ to_storage request
    pub keyed : row.idempotency_key ≡ idempotency_key p request

  -- A row that was read is that of the table.
  abbrev pub ReadFrom : InflightRow F → InflightRecord F → Type 0
  ReadFrom read row =
      (to_storage read.request ≡ row.payload)
      × (read.idempotency_key ≡ row.idempotency_key)
      × (read.idempotency_key ≡ idempotency_key p read.request)
      × (read.retry_count ≡ row.retry_count)

  abbrev pub AllReadFrom : List (InflightRow F) → List (InflightRecord F) → Type 0
  AllReadFrom [] [] = ⊤
  AllReadFrom (x ∷ xs) (r ∷ rs) = ReadFrom x r × AllReadFrom xs rs
  AllReadFrom _ _ = ⊥

  pub read_rows-total :
      ⦃o : Float F⦄ (fresh_id : String) (now : F) (rs : List (InflightRecord F))
      → All Holds rs
      → (xs : List (InflightRow F)) × (read_rows fresh_id now rs ≡ ok xs) × AllReadFrom xs rs
  unfolding read_rows
  read_rows-total fresh_id now [] h = ([], refl, tt)
  read_rows-total fresh_id now (r ∷ rs) (h, hs) =
      let (xs, e, reads) = read_rows-total fresh_id now rs hs in
      let back = from_storage-to_storage fresh_id now h.request in
      (
        record {
          idempotency_key = r.idempotency_key;
          request_id = r.request_id;
          request = h.request;
          status = r.status;
          retry_count = r.retry_count;
          last_error = r.last_error;
          created_at = r.created_at;
          updated_at = r.updated_at;
        }
            ∷ xs,
        ground (arith, h.written, back, e),
        ((ground (arith, h.written), refl, h.keyed, refl), reads),
      )

  All-insert_oldest :
      ⦃o : Float F⦄ (P : InflightRecord F → Type 0) (r : InflightRecord F)
      (rs : List (InflightRecord F))
      → P r
      → All P rs
      → All P (insert_oldest r rs)
  unfolding insert_oldest
  All-insert_oldest P r [] h hs = (h, tt)
  All-insert_oldest ⦃o⦄ P r (x ∷ xs) h hs = elim (Bool-cases (o.lt x.created_at r.created_at)) [
    | inl e ↦ rw e (hs.0, All-insert_oldest P r xs h hs.1)
    | inr e ↦ rw e (h, hs)
  ]

  All-oldest_first :
      ⦃o : Float F⦄ (P : InflightRecord F → Type 0) (rs : List (InflightRecord F))
      → All P rs
      → All P (oldest_first rs)
  unfolding oldest_first
  All-oldest_first P [] h = tt
  All-oldest_first P (r ∷ rs) h =
      All-insert_oldest P r (oldest_first rs) h.0 (All-oldest_first P rs h.1)

module _ {F : Type 0} ⦃o : Float F⦄ where
  insert_oldest-perm :
      (r : InflightRecord F) (rs : List (InflightRecord F)) → Perm (insert_oldest r rs) (r ∷ rs)
  unfolding insert_oldest
  insert_oldest-perm r [] = Perm.refl (r ∷ [])
  insert_oldest-perm r (x ∷ xs) = elim (Bool-cases (o.lt x.created_at r.created_at)) [
    | inl e ↦ rw e (Perm.trans (Perm.cons x (insert_oldest-perm r xs)) (Perm.swap r x xs))
    | inr e ↦ rw e (Perm.refl (r ∷ x ∷ xs))
  ]

  oldest_first-perm : (rs : List (InflightRecord F)) → Perm (oldest_first rs) rs
  unfolding oldest_first
  oldest_first-perm [] = Perm.refl []
  oldest_first-perm (r ∷ rs) =
      Perm.trans (insert_oldest-perm r (oldest_first rs)) (Perm.cons r (oldest_first-perm rs))

  -- No row is older than the one before it.
  abbrev pub FollowedBy : InflightRecord F → List (InflightRecord F) → Type 0
  FollowedBy r [] = ⊤
  FollowedBy r (x ∷ xs) = o.lt x.created_at r.created_at ≡ false

  abbrev pub IsOldestFirst : List (InflightRecord F) → Type 0
  IsOldestFirst [] = ⊤
  IsOldestFirst (r ∷ rs) = FollowedBy r rs × IsOldestFirst rs

  module _ (laws : FloatLaws F o) where
    insert_oldest-FollowedBy :
        (x r : InflightRecord F) (xs : List (InflightRecord F))
        → o.lt x.created_at r.created_at ≡ true
        → FollowedBy x xs
        → FollowedBy x (insert_oldest r xs)
    unfolding insert_oldest
    insert_oldest-FollowedBy x r [] e h = laws.lt_asymm _ _ e
    insert_oldest-FollowedBy x r (y ∷ ys) e h = elim (Bool-cases (o.lt y.created_at r.created_at)) [
      | inl l ↦ rw l h
      | inr l ↦ rw l (laws.lt_asymm _ _ e)
    ]

    insert_oldest-IsOldestFirst :
        (r : InflightRecord F) (rs : List (InflightRecord F))
        → IsOldestFirst rs
        → IsOldestFirst (insert_oldest r rs)
    unfolding insert_oldest
    insert_oldest-IsOldestFirst r [] h = (tt, tt)
    insert_oldest-IsOldestFirst r (x ∷ xs) h = elim (Bool-cases (o.lt x.created_at r.created_at)) [
      | inl e ↦ rw e (insert_oldest-FollowedBy x r xs e h.0, insert_oldest-IsOldestFirst r xs h.1)
      | inr e ↦ rw e (e, h)
    ]

    oldest_first-IsOldestFirst : (rs : List (InflightRecord F)) → IsOldestFirst (oldest_first rs)
    unfolding oldest_first
    oldest_first-IsOldestFirst [] = tt
    oldest_first-IsOldestFirst (r ∷ rs) =
        insert_oldest-IsOldestFirst r (oldest_first rs) (oldest_first-IsOldestFirst rs)

    -- Over lawful floats, on an open connection to a table whose rows hold requests under their own
    -- keys, `list_inflight` returns every row once, the oldest first, each with the request that
    -- was stored and its counter.
    pub list_inflight_returns :
        (p : Platform F) (fresh_id : String) (now : F) (s : Storage F)
        → s.is_open ≡ true
        → All (Holds p) s.inflight
        → (xs : List (InflightRow F)) × (rows : List (InflightRecord F)) × (list_inflight fresh_id
              now s
            ≡ (ok xs, s))
          × AllReadFrom p xs rows
          × Perm rows s.inflight
          × IsOldestFirst rows
    unfolding list_inflight
    list_inflight_returns p fresh_id now s opened h =
        let sorted = oldest_first s.inflight in
        let (xs, e, reads) =
          read_rows-total p fresh_id now sorted (All-oldest_first p (Holds p) s.inflight h) in
        (
          xs,
          sorted,
          ground (arith, e),
          reads,
          oldest_first-perm s.inflight,
          oldest_first-IsOldestFirst s.inflight,
        )
