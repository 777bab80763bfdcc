-- ===== src/Client/System/Recovered.antt =====
-- `_recover_inflight` keeps the system consistent: what it puts on the queue is owned by a future.
use python_async_api_barebon.Client.Start.Recovery.{item_of}
use python_async_api_barebon.Base.{
  ℕ, Bool, true, false, Option, none, some, List, [], ◌∷◌, ◌≡◌, refl, sym, ap, ◌∙◌, subst, arith,
  Option-cases, inl, inr,
}
use python_async_api_barebon.Base.Lists.{All}
use python_async_api_barebon.Base.Float.{Float}
use python_async_api_barebon.Models.{Response, idempotency_key}
use python_async_api_barebon.Queue.{enqueue}
use python_async_api_barebon.Dedup.{InFlightRegistry, get_or_create}
use python_async_api_barebon.Dedup.Invariant.{get_or_create-IsValid}
use python_async_api_barebon.Storage.{InflightRow}
use python_async_api_barebon.Client.State.{Client, World}
use python_async_api_barebon.Client.Start.{recover_rows, recover_item, bind}
use python_async_api_barebon.Client.System.Defs.{System}
use python_async_api_barebon.Client.System.Carriers.{carriers}
use python_async_api_barebon.Client.System.Futures.{in_flight-get_or_create}
use python_async_api_barebon.Client.System.Consistent.{IsConsistent}
use python_async_api_barebon.Client.System.Balances.{put-total}

module _ {F : Type 0} ⦃o : Float F⦄ (w : World F) where
  abbrev or_else : Client F → Option (Client F) → Client F
  or_else c none = c
  or_else c (some d) = d

  recover_item-IsConsistent :
      (s : System F) (row : InflightRow F) (id : ℕ) (owner : Bool)
      (g : InFlightRegistry F (Response F)) (c : Client F)
      → get_or_create row.idempotency_key s.client.dedup ≡ (id, owner, g)
      → row.idempotency_key ≡ idempotency_key w.platform row.request
      → recover_item row (id, owner, g) s.client ≡ some c
      → IsConsistent w s
      → IsConsistent w (record s { client = c })
  unfolding carriers
  recover_item-IsConsistent s row id false g c e keyed done inv =
      let valid = get_or_create-IsValid row.idempotency_key s.client.dedup inv.registry in
      record {
        registry = ground (arith, e, valid, done);
        owned = λ k.
            let gained =
              in_flight-get_or_create k row.idempotency_key s.client.dedup inv.registry in
            ground (arith, e, gained, inv.owned k, done);
        counted = ground (arith, inv.counted, done);
      }
  recover_item-IsConsistent s row id true g c e keyed done inv =
      let valid = get_or_create-IsValid row.idempotency_key s.client.dedup inv.registry in
      elim (Option-cases (enqueue (item_of row) s.client.queue)) [
        | inl full ↦ ground (arith, full, done)
        | inr (q, there) ↦ record {
          registry = ground (arith, e, valid, done, there);
          owned = λ k.
              let gained =
                in_flight-get_or_create k row.idempotency_key s.client.dedup inv.registry in
              let put = put-total w k (item_of row) s.client.queue q there in
              ground (arith, e, gained, inv.owned k, done, there, put, keyed);
          counted =
              let put = put-total w "" (item_of row) s.client.queue q there in
              ground (arith, inv.counted, done, there, put);
        }
      ]

  -- Where `_recover_inflight` comes to an end from a consistent system, over rows that stand under
  -- the keys of their requests, the system with the recovered client is consistent again: each item
  -- that it put on the queue is owned by a pending future of its own.
  pub recover_rows-IsConsistent :
      (rows : List (InflightRow F)) (s : System F) (c : Client F)
      → IsConsistent w s
      → All (λ row. row.idempotency_key ≡ idempotency_key w.platform row.request) rows
      → recover_rows rows s.client ≡ some c
      → IsConsistent w (record s { client = c })
  unfolding recover_rows
  recover_rows-IsConsistent [] s c inv keyed done =
      subst (λ found. IsConsistent w (record s { client = or_else s.client found })) done inv
  recover_rows-IsConsistent (row ∷ rows) s c inv keyed done =
      let answer = get_or_create row.idempotency_key s.client.dedup in
      elim (Option-cases (recover_item row answer s.client)) [
        | inl stuck ↦ ground (arith, stuck, done)
        | inr (c1, e) ↦
            recover_rows-IsConsistent rows (record s { client = c1 }) c
              (recover_item-IsConsistent s row answer.0 answer.1 answer.2 c1 refl keyed.0 e inv)
              keyed.1 (sym (ap (λ next. bind next (recover_rows rows)) e) ∙ done)
      ]
