-- ===== src/Demo.antt =====
-- examples/run_demo.py: the two batches of requests that it gathers.
pub mod Shares
use Prim.Native.String.{◌++◌}
use python_async_api_barebon.Base.{
  ◌+◌, some, none, true, false, [], ◌∷◌, refl, inl, inr, List, ℕ, Bool, String, Option, map,
}
use python_async_api_barebon.Client.State.{persists, awaits}
use python_async_api_barebon.Client.System.Defs.{Event, requests}
use python_async_api_barebon.Models.{Fields, Platform, none_left, field, str, null}

-- f"{base}/flaky"
abbrev pub flaky_url : String → String
flaky_url base = base ++ "/flaky"

module _ {F : Type 0} where
  -- `client.request("GET", url, params=params)`, with the identifier and the time that the Request
  -- takes.
  abbrev pub asks : String → Fields F → String × F → Event F
  asks url params (id, at) = requests id at "GET" url params none_left null 0

  -- The first batch, from the number `i` on.
  unfoldable pub mixed_batch : Platform F → String → ℕ → List (String × F) → List (Event F)
  mixed_batch p base i [] = []
  mixed_batch p base i (stamp ∷ stamps) =
      asks (base ++ "/flaky?i=" ++ p.int_text i) none_left stamp ∷ mixed_batch p base (i + 1) stamps

  abbrev pub unique : Fields F
  unique = field "unique" (str "x") none_left

  -- The second batch, whose requests are the same.
  unfoldable pub dedup_batch : String → List (String × F) → List (Event F)
  dedup_batch base [] = []
  dedup_batch base (stamp ∷ stamps) = asks (flaky_url base) unique stamp ∷ dedup_batch base stamps
