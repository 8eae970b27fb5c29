-- ===== src/Pe/Tables.antt =====
-- How each of the table dialogs begins: it finds the headers, sets `optHead`, and converts the
-- address of its entry of the data directory.
use process_manger_alpha.Base.{ℕ, some}
use process_manger_alpha.Pe.Globals.{Action, pure, ◌>>=◌, ◌>>◌, need, buffer, set_opt_head}
use process_manger_alpha.Pe.Headers.{nt_head, opt_head_of, directory_rva}
use process_manger_alpha.Pe.Address.{rva_to_foa}

-- `optHead = PIMAGE_OPTIONAL_HEADER(&ntHead->OptionalHeader)`; the result is its offset.
unfoldable pub load_opt_head : Action ℕ
load_opt_head = do
  img ← buffer
  nt ← need (nt_head img)
  set_opt_head (some (record { into = img; offset = opt_head_of nt }))
  pure (opt_head_of nt)

-- The place in the file of the table that the directory's entry `i` names.
unfoldable pub table_foa : ℕ → Action ℕ
unfolding load_opt_head
table_foa i = do
  opt ← load_opt_head
  img ← buffer
  rva ← need (directory_rva img opt i)
  rva_to_foa rva
