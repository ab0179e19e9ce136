-- ===== src/Publish/Whole.antt =====
-- What stands at the path, at each step.
use seam_sdk.Prelude.{
  some_injective, ◌≡◌, refl, sym, ap, ap₂, ◌∙◌, ◌⊎◌, inl, inr, Option, none, some, [], ◌++◌,
}
use seam_sdk.Bytes.{Bytes}
use mathlib.Core.List.{append_assoc, append-nil}
use seam_sdk.Publish.{
  Phase, FileState, at, Step, Reachable, opening, writing, syncing, linking, removing,
  syncing_directory, finished,
}
use seam_sdk.Publish.Step.{
  opened, open_failed, wrote, write_failed, written, synced, sync_failed, linked, link_refused,
  link_failed, removed, removed_after, remove_failed, directory_synced, directory_failed,
  created_by_other,
}
use seam_sdk.Publish.Reachable.{start, further}

-- What stands at the path is the whole body, or another's file.
abbrev pub IsWhole : (Bytes → Type 0) → Bytes → Option Bytes → Type 0
IsWhole Foreign body none = Unit {0}
IsWhole Foreign body (some x) = (x ≡ body) ⊎ Foreign x

-- What stood at the path before is still there.
abbrev pub IsKept : Option Bytes → Option Bytes → Type 0
IsKept none final = Unit {0}
IsKept (some x) final = final ≡ some x

-- Where a call is, is what it has done.
abbrev pub IsAt : Bytes → Option Bytes → Option Bytes → Phase → Type 0
IsAt body final tmp opening = tmp ≡ none
IsAt body final tmp (writing todo) = (w : Bytes) × (tmp ≡ some w) × (w ++ todo ≡ body)
IsAt body final tmp syncing = tmp ≡ some body
IsAt body final tmp linking = tmp ≡ some body
IsAt body final tmp (removing none) = final ≡ some body
IsAt body final tmp (removing (some r)) = Unit {0}
IsAt body final tmp syncing_directory = (final ≡ some body) × (tmp ≡ none)
IsAt body final tmp (finished none) = (final ≡ some body) × (tmp ≡ none)
IsAt body final tmp (finished (some r)) = Unit {0}

abbrev pub Holds : (Bytes → Type 0) → Bytes → Option Bytes → FileState → Type 0
Holds Foreign body before (at final tmp phase) =
    IsKept before final × IsWhole Foreign body final × IsAt body final tmp phase

created : (before : Option Bytes) (x : Bytes) → IsKept before none → IsKept before (some x)
created none x k = _
created (some y) x k = cc

still_IsAt :
    (body x : Bytes) (t : Option Bytes) (p : Phase) → IsAt body none t p → IsAt body (some x) t p
still_IsAt body x t opening e = e
still_IsAt body x t (writing todo) e = e
still_IsAt body x t syncing e = e
still_IsAt body x t linking e = e
still_IsAt body x t (removing none) e = cc
still_IsAt body x t (removing (some r)) e = _
still_IsAt body x t syncing_directory (e, d) = cc
still_IsAt body x t (finished none) (e, d) = cc
still_IsAt body x t (finished (some r)) e = _

wrote_more :
    (w done chunk rest todo body : Bytes)
    → some w ≡ some done
    → todo ≡ chunk ++ rest
    → done ++ todo ≡ body
    → (w ++ chunk) ++ rest ≡ body
wrote_more w done chunk rest todo body e split whole =
    append_assoc w chunk rest ∙ ap₂ (λ a b. a ++ b) (some_injective e) (sym split) ∙ whole

module _ (Foreign : Bytes → Type 0) (body : Bytes) (before : Option Bytes) where
  preserved :
      (s s' : FileState)
      → Step Foreign body s s'
      → Holds Foreign body before s
      → Holds Foreign body before s'
  preserved _ _ opened (k, w, e) = (k, w, ([], refl, refl))
  preserved _ _ open_failed (k, w, e) = (k, w, _)
  preserved _ _ (wrote {w = w'} {todo = todo} chunk rest split) (k, w, (done, e, whole)) =
      (k, w, (w' ++ chunk, refl, wrote_more w' done chunk rest todo body e split whole))
  preserved _ _ write_failed (k, w, e) = (k, w, _)
  preserved _ _ written (k, w, (done, e, whole)) =
      (k, w, e ∙ ap some (sym (append-nil done) ∙ whole))
  preserved _ _ synced (k, w, e) = (k, w, e)
  preserved _ _ sync_failed (k, w, e) = (k, w, _)
  preserved _ _ (linked {w = w'}) (k, w, e) = (created before w' k, inl (some_injective e), e)
  preserved _ _ link_refused (k, w, e) = (k, w, _)
  preserved _ _ link_failed (k, w, e) = (k, w, _)
  preserved _ _ removed (k, w, e) = (k, w, (e, refl))
  preserved _ _ (removed_after r) (k, w, e) = (k, w, _)
  preserved _ _ remove_failed (k, w, e) = (k, w, _)
  preserved _ _ directory_synced (k, w, e) = (k, w, e)
  preserved _ _ directory_failed (k, w, e) = (k, w, _)
  preserved _ _ (created_by_other {t = t} {p = p} x foreign) (k, w, e) =
      (created before x k, inr foreign, still_IsAt body x t p e)

  -- Whatever fails and wherever the call stops: what stood at the path before still stands there; what
  -- stands there is the whole file of the call, or what another process put there where nothing was;
  -- and a call that has returned has put its whole file there and left no temporary one.
  pub reachable-Holds :
      IsWhole Foreign body before
      → (s : FileState) → Reachable Foreign body before s
      → Holds Foreign body before s
  reachable-Holds others _ start = (kept before, others, refl)
    where
      kept : (f : Option Bytes) → IsKept f f
      kept none = _
      kept (some x) = refl
  reachable-Holds others _ (further {s = s} {s' = s'} r step) =
      preserved s s' step (reachable-Holds others s r)
