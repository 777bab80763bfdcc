-- ===== src/Client/Snapshot.antt =====
-- `AsyncHardenedClient.metrics`.
use python_async_api_barebon.Base.{none, ◌≡◌, Option, String, some, true, [], ◌∷◌, refl}
use python_async_api_barebon.Base.Dict.{Dict}
use python_async_api_barebon.Base.Float.{Float}
use python_async_api_barebon.Breaker.{
  CircuitState, snapshot as hosts_snapshot, closed, opened, half_open,
}
use python_async_api_barebon.Client.State.{Client}
use python_async_api_barebon.Metrics.{texts, snapshot}
use python_async_api_barebon.Models.{
  int, field_of, fields_serializable, Value, is_serializable, dict,
}
use python_async_api_barebon.Queue.Defs.{depth}

-- The value of the enum.
unfoldable pub value : CircuitState → String
value closed = "closed"
value opened = "open"
value half_open = "half_open"

-- The states that `breakers.snapshot()` lists, by their values.
unfoldable pub values : Dict CircuitState → Dict String
unfolding value
values [] = []
values ((host, state) ∷ rest) = (host, value state) ∷ values rest

module _ {F : Type 0} where
  -- The entry of a document.
  abbrev pub entry : String → Value F → Option (Value F)
  entry k (dict fs) = field_of k fs
  entry k _ = none

texts-serializable : (F : Type 0) (d : Dict String) → fields_serializable {F = F} (texts d) ≡ true
unfolding texts fields_serializable is_serializable
texts-serializable F [] = refl
texts-serializable F ((k, x) ∷ d) = texts-serializable F d

module _ {F : Type 0} ⦃o : Float F⦄ where
  abbrev pub gauged : Client F → Client F
  gauged c =
      let m = c.metrics in
      record c {
        metrics = record m {
          queue_depth = depth c.queue;
          dedup_hits = c.dedup.dedup_hits;
          breaker_state = values (hosts_snapshot c.breakers.breakers);
        };
      }

  -- The client, whose gauges are set, and the document.
  unfoldable pub metrics : (F → F) → Client F → Client F × Value F
  unfolding snapshot
  metrics round4 c = (gauged c, snapshot round4 (gauged c).metrics)

  -- The document of `metrics` is one that JSON can write, and its gauges are those of the parts.
  pub metrics-entries :
      (round4 : F → F) (c : Client F)
      → (is_serializable (metrics round4 c).1 ≡ true)
        × (entry "queue_depth" (metrics round4 c).1 ≡ some (int (depth c.queue)))
        × (entry "breaker_state" (metrics round4 c).1
            ≡ some (dict (texts (values (hosts_snapshot c.breakers.breakers)))))
        × (entry "dedup_hits" (metrics round4 c).1 ≡ some (int c.dedup.dedup_hits))
  unfolding metrics snapshot is_serializable fields_serializable field_of
  metrics-entries round4 c = (
    rw (texts-serializable F (values (hosts_snapshot c.breakers.breakers))) refl,
    refl,
    refl,
    refl,
  )
