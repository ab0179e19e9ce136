-- ===== src/Publish/Runs.antt =====
-- A call that writes its file in two chunks, and one that finds a file at its path.
use seam_sdk.Prelude.{◌≡◌, refl, Option, none, some, [], codes}
use seam_sdk.Bytes.{Bytes}
use seam_sdk.Publish.{at, finished, Reachable, overwrite_refused, linking}
use seam_sdk.Publish.Step.{
  opened, wrote, written, synced, linked, link_refused, removed, removed_after, directory_synced,
  created_by_other,
}
use seam_sdk.Publish.Reachable.{start, further}
use seam_sdk.Publish.Whole.{Holds, reachable-Holds}

-- Other processes write this file.
abbrev Other : Bytes → Type 0
Other x = x ≡ codes "z"

abbrev body : Bytes
body = codes "abc"

before_linking : (f : Option Bytes) → Reachable Other body f (at f (some body) linking)
before_linking f =
    further
      (further
        (further (further (further start opened) (wrote (codes "ab") (codes "c") refl))
          (wrote (codes "c") [] refl))
        written)
      synced

published : Reachable Other body none (at (some body) none (finished none))
published = further (further (further (before_linking none) linked) removed) directory_synced

overtaken :
    Reachable Other body none (at (some (codes "z")) none (finished (some overwrite_refused)))
overtaken =
    further
      (further (further (before_linking none) (created_by_other (codes "z") refl)) link_refused)
      (removed_after overwrite_refused)

reachable-Holds_example : Holds Other body none (at (some body) none (finished none))
reachable-Holds_example =
    reachable-Holds Other body none _ (at (some body) none (finished none)) published
