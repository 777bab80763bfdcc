-- ===== src/Client/System/Futures.antt =====
-- How a call of the registry changes whether a key is in flight.
use python_async_api_barebon.Base.{
  ℕ, ◌+◌, ◌≤◌, String, Bool, true, false, none, some, [], ◌∷◌, ◌≡◌, ◌≢◌, inl, inr, refl, arith,
  str_eq, eq_iff, if◌then◌else◌, Bool-cases, Option-cases,
}
use python_async_api_barebon.Base.Lists.{
  length, get_elem?-set_ne, get_elem?-append_left, get_elem?-append_end,
}
use python_async_api_barebon.Base.Dict.{get, pop, get-put, get-pop}
use python_async_api_barebon.Dedup.Defs.{
  Future, pending, InFlightRegistry, future_at, get_or_create, is_pending, create, settle_future,
}
use python_async_api_barebon.Dedup.Invariant.{IsValid}
use python_async_api_barebon.Client.System.Carriers.{in_flight}

-- 1 if the caller owns a fresh future of the key `k`.
abbrev pub new_owner : String → String → Bool → ℕ
new_owner k key owner = if owner then (if str_eq key k then 1 else 0) else 0

module _ {F T : Type 0} (k : String) where
  pub in_flight-le_one : (g : InFlightRegistry F T) → in_flight k g ≤ 1
  unfolding in_flight
  in_flight-le_one g = ground arith

  in_flight-create :
      (key : String) (g : InFlightRegistry F T)
      → IsValid g
      → (str_eq key k ≡ true → in_flight k g ≡ 0)
      → in_flight k (create key g).2 ≡ in_flight k g + new_owner k key true
  unfolding in_flight future_at
  in_flight-create key g v free =
      let fresh : Future F T = pending in
      elim (Option-cases (get g.inflight k)) [
        | inl e ↦ ground (
          arith,
          get-put g.inflight key k (length g.futures),
          get_elem?-append_end g.futures fresh,
        )
        | inr (id, e) ↦ ground (
          arith,
          get-put g.inflight key k (length g.futures),
          get_elem?-append_end g.futures fresh,
          get_elem?-append_left g.futures (pending ∷ []) id,
          v.known k id e,
        )
      ]

  absent :
      (key : String) (g : InFlightRegistry F T)
      → get g.inflight key ≡ none
      → str_eq key k ≡ true
      → in_flight k g ≡ 0
  unfolding in_flight
  absent key g e q = ground (arith, eq_iff key k)

  over :
      (key : String) (id : ℕ) (g : InFlightRegistry F T)
      → get g.inflight key ≡ some id
      → is_pending (future_at g id) ≡ false
      → str_eq key k ≡ true
      → in_flight k g ≡ 0
  unfolding in_flight
  over key id g e h q = ground (arith, eq_iff key k)

  hit :
      (g : InFlightRegistry F T)
      → in_flight k (record g { dedup_hits = g.dedup_hits + 1 }) ≡ in_flight k g
  unfolding in_flight future_at
  hit g = refl

  pub in_flight-get_or_create :
      (key : String) (g : InFlightRegistry F T)
      → IsValid g
      → let (id, owner, g') = get_or_create key g in
        in_flight k g' ≡ in_flight k g + new_owner k key owner
  unfolding get_or_create
  in_flight-get_or_create key g v = elim (Option-cases (get g.inflight key)) [
    | inl e ↦ rw e (in_flight-create key g v (λ q. absent key g e q))
    | inr (id, e) ↦ elim (Bool-cases (is_pending (future_at g id))) [
      | inl h ↦ rw e (rw h (omega (arith, hit g)))
      | inr h ↦ rw e (rw h (in_flight-create key g v (λ q. over key id g e h q)))
    ]
  ]

  pub in_flight-settle :
      (key : String) (x : Future F T) (g : InFlightRegistry F T)
      → IsValid g
      → is_pending (some x) ≡ false
      → in_flight k (record g {
        inflight = pop g.inflight key;
        futures = settle_future x (get g.inflight key) g.futures;
      })
        ≡ (if str_eq key k then 0 else in_flight k g)
  unfolding in_flight future_at
  in_flight-settle key x g v settled = elim (Option-cases (get g.inflight key)) [
    | inl e ↦ ground (arith, get-pop g.inflight key k, eq_iff key k)
    | inr (id, e) ↦ elim (Option-cases (get g.inflight k)) [
      | inl f ↦ ground (arith, get-pop g.inflight key k, eq_iff key k)
      | inr (i, f) ↦ ground (
        arith,
        get-pop g.inflight key k,
        eq_iff key k,
        λ (n : id ≢ i). get_elem?-set_ne g.futures x n,
        λ (q : id ≡ i). v.apart key k id e (rw q f),
      )
    ]
  ]
