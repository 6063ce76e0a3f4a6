-- ===== src/Receiver/Rules.antt =====
-- What one attempt to send does to a receiver's view.
use event_scanner.Prelude.{ℕ, inl, ◌+◌, ◌≤◌, ◌<◌, ◌≡◌, refl, max, List, [], ◌∷◌, ◌++◌, arith}
use event_scanner.Types.{
  ScannerError, Notification, ChannelState, open_channel, closed_channel, from_data,
  from_notification, from_error,
}
use event_scanner.Env.{Env}
use event_scanner.Task.{delivered, refused, pure, ◌>>◌, try_stream}
use event_scanner.Task.Hoare.{Trace, Hoare, pure-Hoare, bind-Hoare, try_stream-Hoare}
use event_scanner.RangeIterator.{BlockRange}
use event_scanner.RangeIterator.Tiling.{TilesUp, TilesUp-append}
use event_scanner.RangeStream.{Item, stream_ranges}
use event_scanner.Receiver.{view, view-snoc, Served, IsGapless}

module _ (stream_start size : ℕ) where
  abbrev pub ServedTo : ℕ → Trace Item → Type 0
  ServedTo upto t = Served stream_start size upto (view stream_start t)

  abbrev pub Gapless : Trace Item → Type 0
  Gapless t = IsGapless stream_start size (view stream_start t)

  pub served→gapless : (k : ℕ) (t : Trace Item) → ServedTo k t → Gapless t
  served→gapless k t s = record { upto = k; served = s }

  -- An item that tells the receiver nothing of the ranges.
  pub error_keeps :
      (e : ScannerError) (k : ℕ) (t : Trace Item)
      → ServedTo k t
      → ServedTo k (t ++ (delivered (from_error e) ∷ []))
  error_keeps e k t s = rw (view-snoc stream_start t (delivered (from_error e))) s

  pub refused_keeps :
      (i : Item) (k : ℕ) (t : Trace Item) → ServedTo k t → ServedTo k (t ++ (refused i ∷ []))
  refused_keeps i k t s = rw (view-snoc stream_start t (refused i)) s

  pub error-Gapless :
      (e : ScannerError) (t : Trace Item)
      → Gapless t
      → Gapless (t ++ (delivered (from_error e) ∷ []))
  error-Gapless e t g =
      served→gapless g.upto (t ++ (delivered (from_error e) ∷ [])) (error_keeps e g.upto t g.served)

  pub refused-Gapless : (i : Item) (t : Trace Item) → Gapless t → Gapless (t ++ (refused i ∷ []))
  refused-Gapless i t g =
      served→gapless g.upto (t ++ (refused i ∷ [])) (refused_keeps i g.upto t g.served)

  -- The next range is handed over.
  pub data_extends :
      (r : BlockRange) (k : ℕ) (t : Trace Item)
      → r.start ≡ k
      → r.start ≤ r.end
      → r.end < r.start + size
      → ServedTo k t
      → ServedTo (r.end + 1) (t ++ (delivered (from_data r) ∷ []))
  data_extends r k t a b c s = rw (view-snoc stream_start t (delivered (from_data r))) (record {
    base = s.base;
    tiled =
        TilesUp-append size s.base k (r.end + 1) (view stream_start t).ranges (r ∷ []) s.tiled
          (a, b, c, omega arith, refl);
    reaches_back = s.reaches_back;
    not_before = s.not_before;
    exact = s.exact;
  })

  -- After a reorg any position in reach will do.
  pub reorg_restarts :
      (a k : ℕ) (t : Trace Item)
      → k ≤ max (a + 1) stream_start
      → stream_start ≤ k + 1
      → ServedTo k (t ++ (delivered (from_notification (Notification.reorg_detected a)) ∷ []))
  reorg_restarts a k t h l =
      rw (view-snoc stream_start t (delivered (from_notification (Notification.reorg_detected a))))
        (record { base = k; tiled = refl; reaches_back = h; not_before = l; exact = inl refl })

  -- What holds after a send: `P` while the channel is open.
  abbrev pub OnOpen : (Trace Item → Type 0) → ChannelState → Trace Item → Type 0
  OnOpen P open_channel t = P t
  OnOpen P closed_channel t = Gapless t

  pub stream_ranges-Hoare :
      {W : Type 0} (env : Env W) (rs : List BlockRange) (from upto : ℕ)
      → TilesUp size from upto rs
      → Hoare Gapless (ServedTo from) (stream_ranges env rs) (OnOpen (ServedTo upto))
  unfolding stream_ranges
  stream_ranges-Hoare env [] from upto tiles = pure-Hoare _ (λ t s. rw (← tiles) s)
  stream_ranges-Hoare env (r ∷ rs) from upto tiles =
      bind-Hoare (OnOpen (ServedTo (r.end + 1)))
        (try_stream-Hoare env (from_data r) (λ t s. data_extends r from t tiles.0 tiles.1 tiles.2 s)
          (λ t s. refused-Gapless (from_data r) t (served→gapless from t s)))
        (elim [
          | closed_channel ↦ pure-Hoare _ (λ t p. p)
          | open_channel ↦ stream_ranges-Hoare env rs (r.end + 1) upto tiles.4
        ])

  -- An error is reported, and the work ends.
  pub report-Hoare :
      {W A : Type 0} (env : Env W) {pre : Trace Item → Type 0} (e : ScannerError) (a : A)
      → ((t : Trace Item) → pre t → Gapless t)
      → Hoare (Gapless) pre (try_stream env (from_error e) >> pure a) (λ b t. Gapless t × (b ≡ a))
  report-Hoare env e a h =
      bind-Hoare (λ state. Gapless)
        (try_stream-Hoare env (from_error e) (λ t p. error-Gapless e t (h t p))
          (λ t p. refused-Gapless (from_error e) t (h t p)))
        (λ state. pure-Hoare a (λ t p. (p, refl)))
