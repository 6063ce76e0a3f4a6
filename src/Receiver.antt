-- ===== src/Receiver.antt =====
-- What a receiver knows from the items that it was handed: the ranges since the last reorg
-- notification, the block from which it has to be served since then, and whether there was one.
pub mod Rules
use event_scanner.Prelude.{ℕ, ◌+◌, ◌≤◌, ◌⊎◌, Bool, true, false, max, List, [], ◌∷◌, ◌++◌, ◌≡◌, refl}
use event_scanner.Types.{ok, err, data_of, notification, Notification}
use event_scanner.Task.{Attempt, delivered, refused}
use event_scanner.Task.Hoare.{Trace}
use event_scanner.RangeIterator.{BlockRange}
use event_scanner.RangeIterator.Tiling.{TilesUp}
use event_scanner.RangeStream.{Item}

pub record View : Type 0 where
  pub resume : ℕ
  pub ranges : List BlockRange
  pub reorged : Bool

module _ (stream_start : ℕ) where
  -- A reorg calls for the blocks after the common ancestor, those before the start excepted.
  abbrev pub receive : View → Attempt Item → View
  receive v (delivered (ok (data_of r))) = record v { ranges = v.ranges ++ (r ∷ []) }
  receive v (delivered (ok (notification (Notification.reorg_detected a)))) = record {
    resume = max (a + 1) stream_start;
    ranges = [];
    reorged = true;
  }
  receive v (delivered (ok (notification Notification.switching_to_live))) = v
  receive v (delivered (ok (notification Notification.no_past_logs_found))) = v
  receive v (delivered (err e)) = v
  receive v (refused item) = v

  abbrev pub receive_all : View → Trace Item → View
  receive_all v [] = v
  receive_all v (a ∷ t) = receive_all (receive v a) t

  receive_all-snoc :
      (v : View) (t : Trace Item) (a : Attempt Item)
      → receive_all v (t ++ (a ∷ [])) ≡ receive (receive_all v t) a
  receive_all-snoc v [] a = refl
  receive_all-snoc v (x ∷ t) a = receive_all-snoc (receive v x) t a

  abbrev pub view : Trace Item → View
  view t = receive_all (record { resume = stream_start; ranges = []; reorged = false }) t

  pub view-snoc : (t : Trace Item) (a : Attempt Item) → view (t ++ (a ∷ [])) ≡ receive (view t) a
  view-snoc t a =
      receive_all-snoc (record { resume = stream_start; ranges = []; reorged = false }) t a

  -- The ranges since the last reorg are consecutive, up to just below `upto`. Without a reorg they
  -- begin at the start; after one they begin at or below the block to resume at, and no more than one
  -- block below the start.
  pub record Served (size upto : ℕ) (v : View) : Type 0 where
    pub base : ℕ
    pub tiled : TilesUp size base upto v.ranges
    pub reaches_back : base ≤ v.resume
    pub not_before : stream_start ≤ base + 1
    pub exact : (v.reorged ≡ true) ⊎ (base ≡ stream_start)

  pub record IsGapless (size : ℕ) (v : View) : Type 0 where
    pub upto : ℕ
    pub served : Served size upto v
