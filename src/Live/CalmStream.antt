-- ===== src/Live/CalmStream.antt =====
-- The whole of a live stream while the chain stands, with the default reorg handler.
use event_scanner.Prelude.{
  ℕ, ◌+◌, ◌^◌, ◌≤◌, ◌<◌, ◌≡◌, ◌⊎◌, refl, sym, ap, ◌∙◌, subst, Bool, if◌then◌else◌, true, false,
  none, some, List, [], ◌∷◌, All, arith, inl, inr, length, ◌==◌, ==_iff,
}
use event_scanner.Types.{ok, open_channel, closed_channel, Notification, from_notification}
use event_scanner.Env.{Env, Block, BlockNumberOrTag}
use event_scanner.Task.{Task, pure, ◌>>=◌, try_stream, delivered, finished}
use event_scanner.Task.Hoare.{Trace, each_pair}
use event_scanner.Task.Runs.{
  Runs, pure-Runs, weaken-Runs, fact-Runs, bind-Runs, bind_known-Runs, try_stream-Runs,
}
use event_scanner.RangeIterator.Step.{block_limit}
use event_scanner.RangeStream.{Item}
use event_scanner.ReorgHandler.{
  ReorgHandler, DefaultReorgHandler, default_handler, check, reorg_detected,
}
use event_scanner.Historical.Calm.{IsCalm, Streamed}
use event_scanner.Live.{Incoming}
use event_scanner.Live.Loop.{stream_from_first_block, stream_live_blocks}
use event_scanner.Live.Calm.{IsFed, FindsNone}
use event_scanner.Live.CalmRun.{frontier, IsHeader}
use event_scanner.Live.CalmStart.{FoundBlock, get_first_block-Runs, stream_from_first_block-Runs}

-- The default handler finds no reorg while the chain stands, and takes no header.
pub default_handler-FindsNone :
    {W : Type 0} (env : Env W) (upcoming : W → List Incoming) (chain : ℕ → Block) (top : ℕ)
    → IsFed env upcoming
    → IsCalm env chain top
    → FindsNone upcoming (default_handler env) chain top
unfolding default_handler check reorg_detected
default_handler-FindsNone env upcoming chain top fed calm n reached h w =
    let asked : (env.get_block_by_number (BlockNumberOrTag.number (chain n).number) w).0
        ≡ ok (chain n) =
      ap (λ (k : ℕ). (env.get_block_by_number (BlockNumberOrTag.number k) w).0) (calm.numbers n)
      ∙ calm.blocks n reached w in
    let same : ((chain n).hash == (chain n).hash) ≡ true = (==_iff _ _).1 refl in
    rw (check, asked, same) (refl, fed.asked (BlockNumberOrTag.number (chain n).number) w)

-- What a live stream has sent: every block from the start up to the frontier, after the
-- notification where there is one.
abbrev pub LiveSent : Bool → ℕ → ℕ → ℕ → Trace Item → Type 0
LiveSent false size start upto t = Streamed size start upto t
LiveSent true size start upto t =
    ((t ≡ []) × (upto ≡ start))
    ⊎ ((t' : Trace Item) × (t ≡ delivered (from_notification Notification.switching_to_live) ∷ t')
        × Streamed size start upto t')

nothing-LiveSent :
    (notify : Bool) (size start upto : ℕ) → upto ≡ start → LiveSent notify size start upto []
nothing-LiveSent false size start upto same = ([], refl, sym same)
nothing-LiveSent true size start upto same = inl (refl, same)

module _ {W H : Type 0} (env : Env W) (reorg_handler : ReorgHandler W H)
    (upcoming : W → List Incoming) (fed : IsFed env upcoming) (chain : ℕ → Block) (top : ℕ)
    (calm : IsCalm env chain top) (small : top < block_limit)
    (quiet : FindsNone upcoming reorg_handler chain top) (size : ℕ) (sized : 1 ≤ size)
    (start confirmations : ℕ) where
  -- The notification goes first.
  announced-Runs :
      (later : List Incoming) (rest : Task Item W (Unit {0})) (upto : ℕ) (notify : Bool)
      → Runs (λ w. upcoming w ≡ later) rest (λ done t w. Streamed size start upto t)
      → Runs
          (λ w. upcoming w ≡ later)
          (if notify
            then (do
              channel_state ← try_stream env (from_notification Notification.switching_to_live)
              elim channel_state [ closed_channel ↦ pure tt | open_channel ↦ rest ])
            else rest)
          (λ done t w. LiveSent notify size start upto t)
  announced-Runs later rest upto false h = h
  announced-Runs later rest upto true h =
      bind_known-Runs _ open_channel
        (delivered (from_notification Notification.switching_to_live) ∷ [])
        (λ w. upcoming w ≡ later)
        (try_stream-Runs env (from_notification Notification.switching_to_live)
          (λ w q. (fed.sends w, fed.sent w ∙ q)))
        (weaken-Runs h (λ w q. q) (λ done t w streamed. inr (t, refl, streamed)))

  pub stream_live_blocks-Runs :
      (hs : List Incoming) (fuel : ℕ) (notify : Bool) (h : H)
      → All (IsHeader top) hs
      → length hs + top + 3 ≤ fuel
      → fuel ≤ 2 ^ 63
      → Runs
          (λ w. upcoming w ≡ hs)
          (stream_live_blocks env reorg_handler fuel start confirmations size notify h)
          (λ done t w. LiveSent notify size start (frontier confirmations start hs) t)
  unfolding stream_live_blocks
  stream_live_blocks-Runs hs fuel notify h known enough limited =
      bind-Runs
        (λ r t w.
          (t ≡ [])
          × FoundBlock env reorg_handler upcoming fed chain top calm small quiet size sized start
              confirmations hs r w)
        (get_first_block-Runs env reorg_handler upcoming fed chain top calm small quiet size sized
          start confirmations hs fuel known (omega (arith, enough)))
        (each_pair _ (elim [
          | none ↦ λ flag t. pure-Runs tt (λ w (none_sent, same).
              rw none_sent
                (nothing-LiveSent notify size start (frontier confirmations start hs) same))
          | some header ↦ λ flag t.
              fact-Runs {P = (t ≡ []) × (flag ≡ true)}
                (λ w (none_sent, found). (none_sent, found.0))
                (λ (none_sent, passed). rw none_sent (record {
                  run = λ w (_, (_, later, first, q)).
                      (announced-Runs later _ (frontier confirmations start hs) notify (
                          subst
                            (λ f.
                              Runs (λ w. upcoming w ≡ later)
                                (stream_from_first_block env reorg_handler fuel header start
                                  confirmations size f h)
                                (λ done t w.
                                  Streamed size start (frontier confirmations start hs) t))
                            (sym passed)
                            (stream_from_first_block-Runs env reorg_handler upcoming fed chain top
                              calm small quiet size sized start confirmations hs later header fuel h
                              first enough limited))).run
                        w q;
                }))
        ]))

-- While the chain stands up to `top`, nobody leaves, and the subscription yields lags and headers of
-- blocks up to `top` and then ends, live streaming with the default reorg handler ends, on fuel
-- above the number of headers plus `top`, and sends, in ranges of at most the size, every block from
-- its start up to the highest confirmed header, each once and in order; where a notification was
-- asked for it is sent before the first range, and nothing at all is sent where no header reaches
-- the start.
-- `max_block_range` is at least 1, `top` is below the limit of block numbers, and the fuel is at most
-- 2 ^ 63.
pub stream_live_blocks_streams :
    {W : Type 0} (env : Env W) (upcoming : W → List Incoming) (chain : ℕ → Block)
    (top size start confirmations fuel : ℕ) (hs : List Incoming) (notify : Bool)
    (h : DefaultReorgHandler) (w : W)
    → IsFed env upcoming
    → IsCalm env chain top
    → top < block_limit
    → 1 ≤ size
    → All (IsHeader top) hs
    → upcoming w ≡ hs
    → length hs + top + 3 ≤ fuel
    → fuel ≤ 2 ^ 63
    → (t : Trace Item) × (w' : W) × (stream_live_blocks env
          (default_handler env)
          fuel
          start
          confirmations
          size
          notify
          h
          w
        ≡ (finished tt, t, w'))
      × LiveSent notify size start (frontier confirmations start hs) t
stream_live_blocks_streams env upcoming chain top size start confirmations fuel hs notify h w fed
      calm small sized known awaits enough limited =
    let (done, t, w', e, sent) =
      (stream_live_blocks-Runs env (default_handler env) upcoming fed chain top calm small
          (default_handler-FindsNone env upcoming chain top fed calm) size sized start confirmations
          hs fuel notify h known enough limited).run
        w awaits in
    (t, w', e, sent)
