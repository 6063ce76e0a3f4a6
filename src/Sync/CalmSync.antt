-- ===== src/Sync/CalmSync.antt =====
-- The sync mode while the chain stands: past blocks, then live ones, each once.
use event_scanner.Prelude.{
  ℕ, ◌+◌, ◌-◌, ◌^◌, ◌≤◌, ◌<◌, ◌≡◌, ◌⊎◌, inl, inr, Bool-cases, ltb, max, refl, ◌∙◌, true, false,
  none, some, List, [], ◌∷◌, ◌++◌, All, arith, length,
}
use event_scanner.Types.{
  Result, ok, err, ProviderError, open_channel, Notification, from_notification,
}
use event_scanner.Env.{Env, Block, BlockId, Call}
use event_scanner.Task.{Task, delivered, finished}
use event_scanner.Task.Hoare.{Trace}
use event_scanner.Task.Runs.{
  Runs, call-Runs, weaken-Runs, fact-Runs, bind-Runs, bind_known-Runs, try_stream-Runs, Total-Runs,
}
use event_scanner.RangeIterator.Step.{block_limit}
use event_scanner.RangeStream.{Item}
use event_scanner.ReorgHandler.{ReorgHandler, DefaultReorgHandler, default_handler}
use event_scanner.Historical.Calm.{IsCalm, Streamed}
use event_scanner.Live.{Incoming}
use event_scanner.Live.Loop.{stream_live_blocks}
use event_scanner.Live.Calm.{IsFed, FindsNone}
use event_scanner.Live.CalmRun.{frontier, IsHeader}
use event_scanner.Live.CalmStream.{
  LiveSent, default_handler-FindsNone, stream_live_blocks-Runs, stream_live_blocks_streams,
}
use event_scanner.Sync.{SyncHandler, live_only, run, transition_to_live, catchup_then_live}
use event_scanner.Sync.Ends.{IsBelow, CatchupEnds, Reaches, catchup-Total}
use event_scanner.Sync.Catchup.{IsPastTip}

-- The subscription succeeds, and yields these from then on.
abbrev pub Subscribes : {W : Type 0} → Env W → (W → List Incoming) → List Incoming → Type 0
Subscribes {W} env upcoming hs =
    (w : W) → ((env.subscribe_blocks w).0 ≡ ok tt) × (upcoming (env.subscribe_blocks w).1 ≡ hs)

-- The provider knows a latest block, at or below a number.
abbrev pub KnowsTip : {W : Type 0} → Env W → ℕ → Type 0
KnowsTip {W} env top = (w : W) → (n : ℕ) × ((env.get_block_number w).0 ≡ ok n) × (n ≤ top)

-- Live streaming from a block, announced.
abbrev pub WentLive : ℕ → ℕ → ℕ → Trace Item → Type 0
WentLive size next upto t =
    (live : Trace Item) × (t ≡ delivered (from_notification Notification.switching_to_live) ∷ live)
    × Streamed size next upto live

-- Where live streaming begins: past the confirmed tip, within the chain.
abbrev pub IsHandover : {W : Type 0} → Env W → ℕ → ℕ → ℕ → ℕ → ℕ → Type 0
IsHandover env top confirmations start tip next =
    IsPastTip env confirmations start tip next × (next ≤ max start (top + 1))

-- Past blocks up to a block past the confirmed tip, then live ones from there on.
abbrev pub Synced : {W : Type 0} → Env W → ℕ → ℕ → ℕ → ℕ → ℕ → List Incoming → Trace Item → Type 0
Synced env top size start tip confirmations hs t =
    (next : ℕ) × (past : Trace Item) × (rest : Trace Item) × (t ≡ past ++ rest)
    × IsHandover env top confirmations start tip next
    × Streamed size start next past
    × WentLive size next (frontier confirmations next hs) rest

module _ {W H : Type 0} (env : Env W) (reorg_handler : ReorgHandler W H)
    (upcoming : W → List Incoming) (fed : IsFed env upcoming) (chain : ℕ → Block) (top : ℕ)
    (calm : IsCalm env chain top) (small : top < block_limit)
    (quiet : FindsNone upcoming reorg_handler chain top) (size : ℕ) (sized : 1 ≤ size)
    (hs : List Incoming) (subscribes : Subscribes env upcoming hs) (known : All (IsHeader top) hs)
    (tipped : KnowsTip env top) (fuel : ℕ) (enough : length hs + top + 3 ≤ fuel)
    (limited : fuel ≤ 2 ^ 63) where
  transition_to_live-Runs :
      (next confirmations : ℕ) (h : H)
      → Runs
          (λ w. Unit)
          (transition_to_live env reorg_handler fuel next confirmations size h)
          (λ done t w. WentLive size next (frontier confirmations next hs) t)
  unfolding transition_to_live
  transition_to_live-Runs next confirmations h =
      bind_known-Runs _ (ok tt) [] (λ w. upcoming w ≡ hs)
        (call-Runs _ (λ w _. let (good, q) = subscribes w in (good, refl, q)))
        (bind_known-Runs _ open_channel
          (delivered (from_notification Notification.switching_to_live) ∷ []) (λ w. upcoming w ≡ hs)
          (try_stream-Runs env (from_notification Notification.switching_to_live)
            (λ w q. (fed.sends w, fed.sent w ∙ q)))
          (weaken-Runs
            (stream_live_blocks-Runs env reorg_handler upcoming fed chain top calm small quiet size
              sized next confirmations hs fuel false h known enough limited)
            (λ w q. q) (λ done t w streamed. (t, refl, streamed))))

  tip_known : (w : W) (e : ProviderError) → (env.get_block_number w).0 ≡ err e → ⊥
  tip_known w e bad = let (n, found, _) = tipped w in cc (bad, found)

  tip-IsBelow : IsBelow env top
  tip-IsBelow w n found =
      let (m, found', within) = tipped w in
      let same : n ≡ m = cc (found, found') in omega (arith, same, within)

  pub catchup_then_live-Runs :
      (start tip confirmations : ℕ) (h : H)
      → tip ≤ top
      → Runs
          (λ w. Unit)
          (catchup_then_live env reorg_handler fuel start tip confirmations size h)
          (λ done t w. Synced env top size start tip confirmations hs t)
  unfolding catchup_then_live
  catchup_then_live-Runs start tip confirmations h within =
      bind-Runs
        (λ r t w. CatchupEnds ⊥ size start r t × Reaches env ⊥ confirmations start tip (top + 1) r)
        (Total-Runs (
          catchup-Total env ⊥ ⊥ (λ w. inl (fed.sends w)) chain top calm tip-IsBelow tip_known small
            size sized fuel start tip confirmations within (omega (arith, enough))
            (omega (arith, enough))))
        (elim [
          | ok none ↦ λ t. fact-Runs (λ w (gone, _). gone) (λ gone. absurd gone)
          | err e ↦ λ t. fact-Runs (λ w (_, bad). bad) (λ bad. absurd bad)
          | ok (some next) ↦ λ t.
              fact-Runs (λ w known. known)
                (λ (streamed, handover).
                  weaken-Runs (transition_to_live-Runs next confirmations h) (λ w _. tt)
                    (λ done s w live. (next, t, s, refl, handover, streamed, live)))
        ])

-- What the sync mode has sent: past and live blocks; or nothing, where no header reaches a start
-- that is not yet confirmed.
abbrev pub SyncSent : {W : Type 0} → Env W → ℕ → ℕ → ℕ → ℕ → ℕ → List Incoming → Trace Item → Type 0
SyncSent env top size start tip confirmations hs t =
    Synced env top size start tip confirmations hs t
    ⊎ ((t ≡ []) × (tip < start) × (frontier confirmations start hs ≡ start))

live_only-SyncSent :
    {W : Type 0} (env : Env W) (top size start tip confirmations : ℕ) (hs : List Incoming)
    (t : Trace Item)
    → tip < start
    → LiveSent true size start (frontier confirmations start hs) t
    → SyncSent env top size start tip confirmations hs t
live_only-SyncSent env top size start tip confirmations hs t ahead (inl (nothing, same)) =
    inr (nothing, ahead, same)
live_only-SyncSent env top size start tip confirmations hs t ahead (inr (live, e, streamed)) = inl (
  start,
  [],
  t,
  refl,
  (inr (omega (arith, ahead), refl), omega arith),
  ([], refl, refl),
  (live, e, streamed),
)

-- While the chain stands up to `top`, at or above its latest block, nobody leaves and every
-- subscription succeeds and yields the same lags and headers of blocks up to `top` before it ends,
-- the sync mode starts, and its task ends, on fuel above the number of headers plus `top`. It sends
-- every block from the start block up to some block, then that it switches to live streaming, then
-- every block from there up to the highest confirmed header: in ranges of at most the size, in order
-- and each block once. Where the start is below the confirmed tip, that block is above the tip, not
-- below the tip confirmed at a latest block that the provider answered with, and at most one above
-- `top`; otherwise it is the start. Only where the start is not yet confirmed and no header
-- reaches it, nothing is sent.
-- `max_block_range` is at least 1, `top` is below the limit of block numbers, and the fuel is at most
-- 2 ^ 63.
pub run_syncs :
    {W : Type 0} (env : Env W) (try_join_numbers : BlockId → Call W (Result ProviderError (ℕ × ℕ)))
    (upcoming : W → List Incoming) (chain : ℕ → Block) (top fuel start latest : ℕ)
    (handler : SyncHandler) (h : DefaultReorgHandler) (hs : List Incoming) (w : W)
    → IsFed env upcoming
    → IsCalm env chain top
    → Subscribes env upcoming hs
    → KnowsTip env top
    → top < block_limit
    → 1 ≤ handler.max_block_range
    → All (IsHeader top) hs
    → length hs + top + 3 ≤ fuel
    → fuel ≤ 2 ^ 63
    → (try_join_numbers handler.start_id w).0 ≡ ok (start, latest)
    → latest ≤ top
    → (task : Task Item W (Unit {0})) × ((run env
          (default_handler env)
          try_join_numbers
          fuel
          handler
          h
          w).0
        ≡ ok task)
      × ((w' : W)
          → upcoming w' ≡ hs
          → (t : Trace Item) × (w'' : W) × (task w' ≡ (finished tt, t, w''))
            × SyncSent env top handler.max_block_range start
                (latest - handler.block_confirmations)
                handler.block_confirmations
                hs
                t)
unfolding run live_only
run_syncs env try_join_numbers upcoming chain top fuel start latest handler h hs w fed calm
      subscribes tipped small sized known enough limited found within =
    let size : ℕ = handler.max_block_range in
    let confirmations : ℕ = handler.block_confirmations in
    let tip : ℕ = latest - confirmations in
    let quiet = default_handler-FindsNone env upcoming chain top fed calm in
    elim (Bool-cases (ltb tip start)) [
      | inl ahead ↦ (
        stream_live_blocks env (default_handler env) fuel start confirmations size true h,
        rw (found, run, ahead, live_only, (subscribes _).0) refl,
        λ w' awaits.
            let (t, w'', e, sent) =
              stream_live_blocks_streams env upcoming chain top size start confirmations fuel hs
                true h w' fed calm small sized known awaits enough limited in
            let below : tip < start = ground (arith, ahead) in
            (t, w'', e, live_only-SyncSent env top size start tip confirmations hs t below sent),
      )
      | inr behind ↦ (
        catchup_then_live env (default_handler env) fuel start tip confirmations size h,
        rw (found, run, behind) refl,
        λ w' awaits.
            let (done, t, w'', e, synced) =
              (catchup_then_live-Runs env (default_handler env) upcoming fed chain top calm small
                  quiet size sized hs subscribes known tipped fuel enough limited start tip
                  confirmations h (omega (arith, within))).run
                w' tt in
            (t, w'', e, inl synced),
      )
    ]
