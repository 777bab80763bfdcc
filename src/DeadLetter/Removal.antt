-- ===== src/DeadLetter/Removal.antt =====
-- dead_letter.py: what the storage has of a row while its replay begins.
use python_async_api_barebon.Base.{refl, ⊤, ap, arith, ◌≡◌, ◌≢◌, List, String, ℕ, true, [], ◌∷◌}
use python_async_api_barebon.Base.Float.{Float}
use python_async_api_barebon.Base.Lists.{length, All}
use python_async_api_barebon.Client.State.{Client, World}
use python_async_api_barebon.Client.System.Defs.{step, System}
use python_async_api_barebon.Client.Tasks.{submit}
use python_async_api_barebon.DeadLetter.Defs.{
  removed, ReplayResult, Replay, replay_step, walks, waits, asks,
}
use python_async_api_barebon.Exec.{err, Result, ok}
use python_async_api_barebon.Models.{Value, Fields}
use python_async_api_barebon.Storage.{Storage, DeadLetterRecord, DeadLetterRow, remove_dead_letter}
use python_async_api_barebon.Storage.DeadLetters.{without_id}

module _ {F : Type 0} where
  without_id-All :
      (n : ℕ) (rows : List (DeadLetterRecord F)) → All (λ r. r.id ≢ n) (without_id n rows)
  unfolding without_id
  without_id-All n [] = tt
  without_id-All n (r ∷ rs) = ground (arith, without_id-All n rs)

  opened :
      (n : ℕ) (s : Storage F)
      → s.is_open ≡ true
      → remove_dead_letter n s ≡ (ok tt, record s { dead_letters = without_id n s.dead_letters })
  unfolding remove_dead_letter
  opened n s e = ground arith

  unlisted :
      (n : ℕ) (s : Storage F)
      → s.is_open ≡ true
      → ((remove_dead_letter n s).1.inflight ≡ s.inflight)
        × All (λ r. r.id ≢ n) (remove_dead_letter n s).1.dead_letters
  unlisted n s e = rw (opened n s e) (refl, without_id-All n s.dead_letters)

module _ {F : Type 0} ⦃o : Float F⦄ (w : World F) where
  requests_keeps :
      (c : Client F) (id : String) (at : F) (method : String) (url : String) (params : Fields F)
      (headers : Fields F) (body : Value F) (priority : ℕ)
      → (submit w id at method url params headers body priority c).0.storage ≡ c.storage
  unfolding submit
  requests_keeps c id at method url params headers body priority = ground arith

  removes :
      (row : DeadLetterRow F) (rows : List (DeadLetterRow F)) (results : List ReplayResult)
      (x : Result F ⊤ × Storage F) (t : System F)
      → x.0 ≡ ok tt
      → (removed row rows results x t).1 ≡ asks row rows results
  removes row rows results (ok u, s) t e = refl
  removes row rows results (err u, s) t e = cc

  -- The session after two steps of the replay, with the same identifier and time.
  abbrev pub begun : String → F → Replay F → System F → System F × Replay F
  begun id at r t = let (u, q) = replay_step w id at r t in replay_step w id at q u

  -- On an open connection, behind the two steps with which the replay of a row begins, with no
  -- other step between them, it waits for its request, no dead letter has the identifier of its row
  -- any more, and the in-flight table is as it was before: the request has written nothing there
  -- yet.
  pub replay_window :
      (id : String) (at : F) (row : DeadLetterRow F) (rows : List (DeadLetterRow F))
      (results : List ReplayResult) (t : System F)
      → t.client.storage.is_open ≡ true
      → ((begun id at (walks (row ∷ rows) results) t).1 ≡ waits row (length t.callers) rows results)
        × ((begun id at (walks (row ∷ rows) results) t).0.client.storage.inflight
            ≡ t.client.storage.inflight)
        × All
            (λ r. r.id ≢ row.id)
            (begun id at (walks (row ∷ rows) results) t).0.client.storage.dead_letters
  unfolding replay_step step
  replay_window id at row rows results t e =
      let r = row.request in
      let s = t.client.storage in
      let c = record t.client { storage = (remove_dead_letter row.id s).1 } in
      rw
        (removes row rows results (remove_dead_letter row.id s) t
          (ap (λ x. x.0) (opened row.id s e)))
        (rw (requests_keeps c id at r.method r.url r.params r.headers r.body r.priority)
          (let kept = unlisted row.id s e in (refl, kept.0, kept.1)))
