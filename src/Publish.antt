-- ===== src/Publish.antt =====
-- `create_identity_file` of `python/seam_sdk/identity.py`: how the bytes of a new file are published.
pub mod Whole
mod Runs
use seam_sdk.Prelude.{◌≡◌, Option, none, some, List, [], ◌++◌}
use seam_sdk.Bytes.{Bytes}

-- How a call that does not return ends: the `IdentityFileError` of the three refusals, or an `OSError`.
pub data Refusal : Type 0 where
  cannot_create overwrite_refused cannot_publish os_error : Refusal

-- Where the call is: what is left to write, or what the removal of the temporary file comes after;
-- `none` is a published file.
pub data Phase : Type 0 where
  opening : Phase
  writing : Bytes → Phase
  syncing linking : Phase
  removing : Option Refusal → Phase
  syncing_directory : Phase
  finished : Option Refusal → Phase

-- What stands at the path and at the temporary name, which is random and so no other's, and where the call
-- is.
pub data FileState : Type 0 where
  at : (final tmp : Option Bytes) → Phase → FileState

-- A step of the call, with each way it can fail, or of another process, which creates what is
-- `Foreign` where nothing is. A crash is a sequence of steps that goes no further.
pub data Step (Foreign : Bytes → Type 0) (body : Bytes) : FileState → FileState → Type 0 where
  opened :
      {f : Option Bytes} → Step Foreign body (at f none opening) (at f (some []) (writing body))
  open_failed :
      {f t : Option Bytes}
      → Step Foreign body (at f t opening) (at f t (finished (some cannot_create)))
  wrote :
      {f : Option Bytes} {w todo : Bytes} (chunk rest : Bytes)
      → todo ≡ chunk ++ rest
      → Step Foreign body (at f (some w) (writing todo)) (at f (some (w ++ chunk)) (writing rest))
  write_failed :
      {f t : Option Bytes} {todo : Bytes}
      → Step Foreign body (at f t (writing todo)) (at f t (removing (some os_error)))
  written : {f t : Option Bytes} → Step Foreign body (at f t (writing [])) (at f t syncing)
  synced : {f t : Option Bytes} → Step Foreign body (at f t syncing) (at f t linking)
  sync_failed :
      {f t : Option Bytes} → Step Foreign body (at f t syncing) (at f t (removing (some os_error)))
  linked :
      {w : Bytes}
      → Step Foreign body (at none (some w) linking) (at (some w) (some w) (removing none))
  link_refused :
      {x : Bytes} {t : Option Bytes}
      → Step Foreign body
          (at (some x) t linking)
          (at (some x) t (removing (some overwrite_refused)))
  link_failed :
      {f t : Option Bytes}
      → Step Foreign body (at f t linking) (at f t (removing (some cannot_publish)))
  removed :
      {f t : Option Bytes}
      → Step Foreign body (at f t (removing none)) (at f none syncing_directory)
  removed_after :
      {f t : Option Bytes} (r : Refusal)
      → Step Foreign body (at f t (removing (some r))) (at f none (finished (some r)))
  remove_failed :
      {f t : Option Bytes} {r : Option Refusal}
      → Step Foreign body (at f t (removing r)) (at f t (finished (some os_error)))
  directory_synced :
      {f t : Option Bytes} → Step Foreign body (at f t syncing_directory) (at f t (finished none))
  directory_failed :
      {f t : Option Bytes}
      → Step Foreign body (at f t syncing_directory) (at f t (finished (some os_error)))
  created_by_other :
      {t : Option Bytes} {p : Phase} (x : Bytes)
      → Foreign x
      → Step Foreign body (at none t p) (at (some x) t p)

-- The states that a call can reach when it starts with this at the path.
pub data Reachable (Foreign : Bytes → Type 0) (body : Bytes) (before : Option Bytes)
    : FileState → Type 0 where
  start : Reachable Foreign body before (at before none opening)
  further :
      {s s' : FileState}
      → Reachable Foreign body before s
      → Step Foreign body s s'
      → Reachable Foreign body before s'
