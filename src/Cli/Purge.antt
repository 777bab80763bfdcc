-- ===== src/Cli/Purge.antt =====
-- The commands that open the storage alone.
use python_async_api_barebon.Base.{arith, ℕ, ◌≡◌, String, true, false, refl, []}
use python_async_api_barebon.Base.Float.{Float}
use python_async_api_barebon.Base.Lists.{length}
use python_async_api_barebon.Cli.Defs.{cmd_list, cmd_purge, refusal, removed_rows, exits}
use python_async_api_barebon.DeadLetter.{list_entries, purge}
use python_async_api_barebon.Storage.{Storage, close_storage, open_storage, purge_dead_letter}
use python_async_api_barebon.Storage.DeadLetters.{list_dead_letter}

module _ {F : Type 0} ⦃o : Float F⦄ where
  -- A purge empties the table of dead letters, and reports their number, only if it was confirmed.
  pub cmd_purge_lem :
      (s : Storage F)
      → (cmd_purge false s ≡ (exits refusal 1, s))
        × (cmd_purge true s ≡ (
          exits (removed_rows (length s.dead_letters)) 0,
          record s { dead_letters = []; is_open = false },
        ))
  unfolding cmd_purge purge purge_dead_letter open_storage close_storage
  cmd_purge_lem s = (refl, refl)

  -- A list changes no row.
  pub cmd_list-keeps :
      (fresh_id : String) (now : F) (limit : ℕ) (s : Storage F)
      → (cmd_list fresh_id now limit s).1 ≡ record s { is_open = false }
  unfolding cmd_list list_entries list_dead_letter open_storage close_storage
  cmd_list-keeps fresh_id now limit s = ground arith
