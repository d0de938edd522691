-- ===== src/Transfer/Manager/Pending.antt =====
-- What `EventTransferManager::cleanup` waits for.
use sirikata.Base.{
  ℕ, ◌+◌, ◌≡◌, refl, ap, ◌∙◌, ◌↔◌, [], ◌∷◌, length, length-append, length-zero, arith, Option, none,
  some,
}
use sirikata.Base.Int.{pos, ◌+ℤ◌, ◌-ℤ◌}
use sirikata.Transfer.Range.{Range}
use sirikata.Transfer.Manager.{RemoteFileId, Manager, name_lookup_success, download_finished}
use sirikata.Transfer.Manager.Steps.{
  System, Step, download, answer_lookup, return, answer_get, fire, cleanup, Reach, start, later,
}

abbrev IsCounted : System → Type 0
IsCounted s = s.manager.pending ≡ pos (length s.lookups + s.returning)

name_lookup_success-pending :
    (l : ℕ) (range : Range) (remote : Option RemoteFileId) (m : Manager)
    → (name_lookup_success l range remote m).0.pending ≡ m.pending
unfolding name_lookup_success
name_lookup_success-pending l range none m = refl
name_lookup_success-pending l range (some file) m = ground arith

Step-IsCounted : {s t : System} → Step s t → IsCounted s → IsCounted t
unfolding ◌+ℤ◌ ◌-ℤ◌ download_finished
Step-IsCounted (download l range) k = ground (arith, k)
Step-IsCounted {s} (answer_lookup before after lookup remote e) k =
    name_lookup_success-pending lookup.0 lookup.1 remote s.manager
    ∙ k
    ∙ ap pos (
        omega
          (arith, ap length e, length-append before (lookup ∷ after), length-append before after))
Step-IsCounted (return n e) k = ground (arith, k)
Step-IsCounted (answer_get before after get downloaded e) k = k
Step-IsCounted (fire before after event e) k = k
Step-IsCounted cleanup k = k

Reach-IsCounted : {s : System} → Reach s → IsCounted s
Reach-IsCounted start = refl
Reach-IsCounted (later r st) = Step-IsCounted st (Reach-IsCounted r)

-- In every state that is reached the count that the cleanup waits for is that of the lookups that
-- have not been answered and of those that are still in `downloadNameLookupSuccess`; it is 0
-- exactly if there are none.
pub pending_iff :
    {s : System}
    → Reach s
    → (s.manager.pending ≡ pos (length s.lookups + s.returning))
      × ((s.manager.pending ≡ pos 0) ↔ ((s.lookups ≡ []) × (s.returning ≡ 0)))
pending_iff {s} r = (
  Reach-IsCounted r,
  (
    λ e. (
      length-zero s.lookups (ground (arith, Reach-IsCounted r)),
      ground (arith, Reach-IsCounted r),
    ),
    λ (e, f). ground (arith, Reach-IsCounted r, ap length e),
  ),
)
