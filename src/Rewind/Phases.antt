-- ===== src/Rewind/Phases.antt =====
-- What a receiver of a rewind gets: a step relation on phases of the stream.
use event_scanner.Prelude.{ℕ, ◌+◌, ◌≤◌, ◌<◌, ◌≡◌, [], ◌∷◌, ◌++◌}
use event_scanner.Types.{ScannerError, Notification, from_data, from_notification, from_error}
use event_scanner.Task.{delivered, refused}
use event_scanner.Task.Hoare.{Trace}
use event_scanner.RangeIterator.{BlockRange}
use event_scanner.RangeStream.{Item}

-- `descending low`: the blocks from `low` up to the tip have been streamed, downwards.
-- `rescanning low next`: so they have, and those of a reorg up to just below `next` anew, upwards.
-- `ended`: an error was sent, or the receiver was gone.
pub data Phase : Type 0 where
  descending : ℕ → Phase
  rescanning : ℕ → ℕ → Phase
  ended : Phase

abbrev pub IsGoing : Phase → Type 0
IsGoing (descending low) = Unit
IsGoing (rescanning low next) = Unit
IsGoing ended = ⊥

-- A trace that leads to a phase, on a rewind from block `from` down to `to`.
module _ (size from to : ℕ) where
  pub data IsRewound : Phase → Trace Item → Type 0 where
    begins : IsRewound (descending (from + 1)) []
    streams :
        (low : ℕ) (t : Trace Item) (r : BlockRange)
        → IsRewound (descending low) t
        → r.end + 1 ≡ low
        → r.start ≤ r.end
        → r.end < r.start + size
        → to ≤ r.start
        → IsRewound (descending r.start) (t ++ (delivered (from_data r) ∷ []))
    forks :
        (low a : ℕ) (t : Trace Item)
        → IsRewound (descending low) t
        → IsRewound
            (rescanning low (a + 1))
            (t ++ (delivered (from_notification (Notification.reorg_detected a)) ∷ []))
    rescans :
        (low next : ℕ) (t : Trace Item) (r : BlockRange)
        → IsRewound (rescanning low next) t
        → r.start ≡ next
        → r.start ≤ r.end
        → r.end < r.start + size
        → r.end ≤ from
        → IsRewound (rescanning low (r.end + 1)) (t ++ (delivered (from_data r) ∷ []))
    resumes :
        (low next : ℕ) (t : Trace Item)
        → IsRewound (rescanning low next) t
        → from < next
        → IsRewound (descending low) t
    fails :
        (p : Phase) (t : Trace Item) (e : ScannerError)
        → IsGoing p
        → IsRewound p t
        → IsRewound ended (t ++ (delivered (from_error e) ∷ []))
    stops :
        (p : Phase) (t : Trace Item) (item : Item)
        → IsGoing p
        → IsRewound p t
        → IsRewound ended (t ++ (refused item ∷ []))
