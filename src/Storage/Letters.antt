-- ===== src/Storage/Letters.antt =====
-- async_hardened_client/storage.py: the identifiers of the dead-letter queue.
use python_async_api_barebon.Base.{ℕ, ◌+◌, ◌≤◌, ◌<◌, String, List, [], ◌∷◌, ◌++◌, ◌≡◌, arith}
use python_async_api_barebon.Exec.{ok}
use python_async_api_barebon.Models.{Request, Platform, to_storage, idempotency_key}
use python_async_api_barebon.Storage.Tables.{DeadLetterRecord, Storage}
use python_async_api_barebon.Storage.DeadLetters.{
  push_dead_letter, remove_dead_letter, purge_dead_letter, without_id, new_letter,
}

-- A statement on the table.
pub data Event (F : Type 0) : Type 0 where
  pushes : F → Request F → String → ℕ → Event F
  removes : ℕ → Event F
  purges : Event F

module _ {F : Type 0} where
  -- The identifiers rise from row to row, above a bound and up to another.
  abbrev pub Rising : ℕ → List (DeadLetterRecord F) → ℕ → Type 0
  Rising low [] high = low ≤ high
  Rising low (r ∷ rs) high = (low < r.id) × Rising r.id rs high

  Rising-le :
      (low : ℕ) (rs : List (DeadLetterRecord F)) (high : ℕ) → Rising low rs high → low ≤ high
  Rising-le low [] high h = h
  Rising-le low (r ∷ rs) high h = omega (arith, h.0, Rising-le r.id rs high h.1)

  Rising-lower :
      (low low' : ℕ) (rs : List (DeadLetterRecord F)) (high : ℕ)
      → low ≤ low'
      → Rising low' rs high
      → Rising low rs high
  Rising-lower low low' [] high l h = omega arith
  Rising-lower low low' (r ∷ rs) high l h = (omega (arith, h.0), h.1)

  Rising-append :
      (low : ℕ) (rs : List (DeadLetterRecord F)) (high : ℕ) (r : DeadLetterRecord F)
      → Rising low rs high
      → high < r.id
      → Rising low (rs ++ r ∷ []) r.id
  Rising-append low [] high r h l = (omega arith, omega arith)
  Rising-append low (x ∷ xs) high r h l = (h.0, Rising-append x.id xs high r h.1 l)

  Rising-without_id :
      (low n : ℕ) (rs : List (DeadLetterRecord F)) (high : ℕ)
      → Rising low rs high
      → Rising low (without_id n rs) high
  unfolding without_id
  Rising-without_id low n [] high h = h
  Rising-without_id low n (r ∷ rs) high h =
      ground
        (arith, Rising-without_id r.id n rs high h.1, Rising-lower low r.id (without_id n rs) high)

  module _ (p : Platform F) where
    unfoldable pub step : Storage F → Event F → Storage F
    step s (pushes now r error n) = (push_dead_letter p now r error n s).1
    step s (removes n) = (remove_dead_letter n s).1
    step s purges = (purge_dead_letter s).1

    unfoldable pub run : Storage F → List (Event F) → Storage F
    run s [] = s
    run s (e ∷ es) = run (step s e) es

    -- The identifiers in the table rise, and none is above the last that was given.
    abbrev pub IsNumbered : Storage F → Type 0
    IsNumbered s = Rising 0 s.dead_letters s.last_id

    push-IsNumbered :
        (now : F) (r : Request F) (error : String) (n : ℕ) (s : Storage F)
        → IsNumbered s
        → IsNumbered (push_dead_letter p now r error n s).1
    unfolding push_dead_letter
    push-IsNumbered now r error n s h =
        let letter =
          new_letter (s.last_id + 1) (idempotency_key p r) r error n now (to_storage r) in
        ground (arith, Rising-append 0 s.dead_letters s.last_id letter h)

    step-IsNumbered : (s : Storage F) (e : Event F) → IsNumbered s → IsNumbered (step s e)
    unfolding step remove_dead_letter purge_dead_letter
    step-IsNumbered s (pushes now r error n) h = push-IsNumbered now r error n s h
    step-IsNumbered s (removes n) h =
        ground (arith, Rising-without_id 0 n s.dead_letters s.last_id h)
    step-IsNumbered s purges h = ground arith

    step-last_id : (s : Storage F) (e : Event F) → s.last_id ≤ (step s e).last_id
    unfolding step push_dead_letter remove_dead_letter purge_dead_letter
    step-last_id s e = ground arith

    run-last_id : (s : Storage F) (es : List (Event F)) → s.last_id ≤ (run s es).last_id
    unfolding run
    run-last_id s [] = omega arith
    run-last_id s (e ∷ es) = omega (arith, step-last_id s e, run-last_id (step s e) es)

    run_keeps : (s : Storage F) (es : List (Event F)) → IsNumbered s → IsNumbered (run s es)
    unfolding run
    run_keeps s [] h = h
    run_keeps s (e ∷ es) h = run_keeps (step s e) es (step-IsNumbered s e h)

    push_id :
        (now : F) (r : Request F) (error : String) (n : ℕ) (s : Storage F) (id : ℕ)
        → (push_dead_letter p now r error n s).0 ≡ ok id
        → (id ≡ s.last_id + 1) × ((push_dead_letter p now r error n s).1.last_id ≡ id)
    unfolding push_dead_letter
    push_id now r error n s id h = ground arith

    -- From a table that is numbered, the identifiers keep rising along the rows, and one that a
    -- push returned is never returned again: a later push, behind any pushes, removals and purges,
    -- returns a larger one.
    pub push_dead_letter_fresh :
        (now later : F) (r r' : Request F) (error error' : String) (n n' id id' : ℕ) (s : Storage F)
        (es : List (Event F))
        → IsNumbered s
        → (push_dead_letter p now r error n s).0 ≡ ok id
        → let t = run (push_dead_letter p now r error n s).1 es in
          (push_dead_letter p later r' error' n' t).0 ≡ ok id'
          → (id < id') × IsNumbered (push_dead_letter p later r' error' n' t).1
    push_dead_letter_fresh now later r r' error error' n n' id id' s es h first second =
        let s' = (push_dead_letter p now r error n s).1 in
        let t = run s' es in
        (
          omega (
            arith,
            push_id now r error n s id first,
            push_id later r' error' n' t id' second,
            run-last_id s' es,
          ),
          push-IsNumbered later r' error' n' t
              (run_keeps s' es (push-IsNumbered now r error n s h)),
        )
