-- ===== src/MockServer/Admin.antt =====
-- The admin endpoints, and the server over all orders of steps.
use python_async_api_barebon.Base.{⊤, ◌++◌, List, Option, String, ℕ, some, none, [], ◌∷◌}
use python_async_api_barebon.Base.Float.{Float}
use python_async_api_barebon.Base.Lists.{get_elem?, set}
use python_async_api_barebon.Exec.{◌>>=◌, pure, Exec, Result}
use python_async_api_barebon.MockServer.Flaky.{resume, flaky}
use python_async_api_barebon.MockServer.State.{Handler, reset_for_profile, Builtins, ServerState}
use python_async_api_barebon.Models.{Fields, field_of, Value, null, int}

module _ {F R : Type 0} ⦃o : Float F⦄ (b : Builtins F R) where
  abbrev lifted : {A : Type 0} → Result F A → Exec F (ServerState F R) A
  lifted r s = (r, s)

  -- `float(profile.get(k, default))` and `int(profile.get(k, default))`
  abbrev float_at : String → F → Fields F → Exec F (ServerState F R) F
  float_at k default doc = elim (field_of k doc) [
    | none ↦ pure default
    | some x ↦ lifted (b.float_of x)
  ]

  abbrev int_at : String → ℕ → Fields F → Exec F (ServerState F R) ℕ
  int_at k default doc = elim (field_of k doc) [
    | none ↦ pure default
    | some x ↦ lifted (b.int_of x)
  ]

  abbrev rate_of : Option (Value F) → Exec F (ServerState F R) (Option F)
  rate_of none = pure none
  rate_of (some null) = pure none
  rate_of (some x) = lifted (b.float_of x) >>= λ rate. pure (some rate)

  -- `POST /admin/profile`, on the dict that the framework has read.
  unfoldable pub set_profile : Fields F → F → Exec F (ServerState F R) ⊤
  unfolding field_of reset_for_profile
  set_profile doc now = do
    p_429 ← float_at "p_429" o.zero doc
    p_500 ← float_at "p_500" o.zero doc
    latency_seconds ← float_at "latency_seconds" o.zero doc
    rate ← rate_of (field_of "enforce_rate_per_second" doc)
    enforce_burst ← int_at "enforce_burst" 5 doc
    succeed_first ← int_at "succeed_first" 0 doc
    reset_for_profile b
        (record {
          p_429 = p_429;
          p_500 = p_500;
          latency_seconds = latency_seconds;
          enforce_rate_per_second = rate;
          enforce_burst = enforce_burst;
          seed = elim (field_of "seed" doc) [ none ↦ int 0 | some x ↦ x ];
          succeed_first = succeed_first;
        })
        now

  -- `POST /admin/reset`
  unfoldable pub reset : F → Exec F (ServerState F R) ⊤
  unfolding reset_for_profile
  reset now s = reset_for_profile b s.profile now s

-- The server and the handlers of all requests to /flaky so far, in their order.
pub record Server (F R : Type 0) : Type 0 where
  pub state : ServerState F R
  pub handlers : List (Handler F)

pub data ServerEvent (F : Type 0) : Type 0 where
  flaky_arrives : String → F → ServerEvent F
  handler_runs : ℕ → Result F (Value F) → ServerEvent F
  profile_posted : Fields F → F → ServerEvent F
  reset_posted : F → ServerEvent F

module _ {F R : Type 0} ⦃o : Float F⦄ (b : Builtins F R) where
  abbrev pub with_handler : Server F R → ServerState F R × Handler F → Server F R
  with_handler v (s, h) = record { state = s; handlers = v.handlers ++ h ∷ [] }

  abbrev pub resume_handler : ℕ → Result F (Value F) → Option (Handler F) → Server F R → Server F R
  resume_handler i body none v = v
  resume_handler i body (some h) v =
      let (s, h') = resume b body h v.state in record { state = s; handlers = set v.handlers i h' }

  unfoldable pub handle : Server F R → ServerEvent F → Server F R
  unfolding flaky set_profile reset
  handle v (flaky_arrives method now) = with_handler v (flaky b method now v.state)
  handle v (handler_runs i body) = resume_handler i body (get_elem? v.handlers i) v
  handle v (profile_posted doc now) = record v { state = (set_profile b doc now v.state).1 }
  handle v (reset_posted now) = record v { state = (reset b now v.state).1 }

  unfoldable pub serve : Server F R → List (ServerEvent F) → Server F R
  serve v [] = v
  serve v (e ∷ es) = serve (handle v e) es
