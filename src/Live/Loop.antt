-- ===== src/Live/Loop.antt =====
-- The phases of `stream_live_blocks` of src/block_range_scanner/common.rs, over the parts that Live has.
use event_scanner.Prelude.{
  ℕ, zero, suc, Bool, false, Option, none, some, ltb, if◌then◌else◌, add_u64, saturating_sub,
}
use event_scanner.Types.{
  ok, err, Notification, ChannelState, open_channel, closed_channel, from_notification, from_error,
}
use event_scanner.Env.{Env, Block}
use event_scanner.Task.{Task, pure, still_running, call, ◌>>=◌, ◌>>◌, try_stream}
use event_scanner.RangeStream.{Item}
use event_scanner.ReorgHandler.{ReorgHandler}
use event_scanner.Live.{
  LiveStreamingState, reported, next_relevant, get_first_block, handle_reorg_detected,
  stream_range_with_reorg_handling,
}

module _ {W H : Type 0} (env : Env W) (reorg_handler : ReorgHandler W H) where
  unfoldable pub initialize_live_streaming_state :
      ℕ → Block → ℕ → ℕ → ℕ → H → Task Item W (Option LiveStreamingState × H)
  initialize_live_streaming_state fuel first_block stream_start block_confirmations max_block_range
        h =
      do
        let confirmed = saturating_sub first_block.number block_confirmations
        let min_common_ancestor = saturating_sub stream_start 1
        (previous_batch_end, h') ←
            stream_range_with_reorg_handling env reorg_handler fuel min_common_ancestor stream_start
              confirmed max_block_range h
        elim previous_batch_end [
          | none ↦ pure (none, h')
          | some block ↦
              pure
                (some (record { batch_start = stream_start; previous_batch_end = some block }), h')
        ]

  unfoldable pub stream_next_batch :
      ℕ → ℕ → LiveStreamingState → ℕ → ℕ → H → Task Item W (ChannelState × LiveStreamingState × H)
  stream_next_batch fuel batch_end_num state stream_start max_block_range h =
      if ltb batch_end_num state.batch_start then pure (open_channel, state, h) else do
        let min_common_ancestor = saturating_sub stream_start 1
        (previous_batch_end, h') ←
            stream_range_with_reorg_handling env reorg_handler fuel min_common_ancestor
              state.batch_start batch_end_num max_block_range h
        elim previous_batch_end [
          | none ↦ pure (closed_channel, record state { previous_batch_end = none }, h')
          | some block ↦ pure (
            open_channel,
            record { batch_start = add_u64 batch_end_num 1; previous_batch_end = some block },
            h',
          )
        ]

  -- One turn of `stream_blocks_continuously` for a block that has come in: whether the loop goes
  -- on, and with what state.
  unfoldable pub handle_incoming_block :
      ℕ
      → Block
      → LiveStreamingState
      → ℕ
      → ℕ
      → ℕ
      → H
      → Task Item W (ChannelState × LiveStreamingState × H)
  unfolding handle_reorg_detected stream_next_batch
  handle_incoming_block fuel incoming state stream_start block_confirmations max_block_range h =
      elim state.previous_batch_end [
        | none ↦ pure (open_channel, state, h)
        | some previous_batch_end ↦ do
          let batch_end_num = saturating_sub incoming.number block_confirmations
          (checked, h') ← call (reorg_handler.check h previous_batch_end)
          elim checked [
            | err e ↦ try_stream env (from_error e) >> pure (closed_channel, state, h')
            | ok none ↦
                stream_next_batch fuel batch_end_num
                  (record state { batch_start = add_u64 previous_batch_end.number 1 }) stream_start
                  max_block_range h'
            | ok (some common_ancestor) ↦ do
              (channel_state, state') ←
                  handle_reorg_detected env reorg_handler common_ancestor stream_start state
              elim channel_state [
                | closed_channel ↦ pure (closed_channel, state', h')
                | open_channel ↦
                    stream_next_batch fuel batch_end_num state' stream_start max_block_range h'
              ]
          ]
      ]

  -- The loop runs until the subscription ends, an error is reported or the channel is closed; the
  -- fuel bounds its turns, and those of the loops inside.
  unfoldable pub stream_blocks_continuously :
      ℕ → LiveStreamingState → ℕ → ℕ → ℕ → Bool → H → Task Item W (Unit {0})
  unfolding next_relevant handle_incoming_block reported
  stream_blocks_continuously zero state stream_start block_confirmations max_block_range flag h =
      still_running
  stream_blocks_continuously (suc fuel) state stream_start block_confirmations max_block_range flag
        h =
      do
        (incoming, flag') ←
            next_relevant env reorg_handler (suc fuel) stream_start block_confirmations flag
        elim incoming [
          | none ↦ pure tt
          | some (err e) ↦ elim (reported e) [
            | none ↦
                stream_blocks_continuously fuel state stream_start block_confirmations
                  max_block_range flag' h
            | some error ↦ try_stream env (from_error error) >> pure tt
          ]
          | some (ok block) ↦ do
            (channel_state, state', h') ←
                handle_incoming_block (suc fuel) block state stream_start block_confirmations
                  max_block_range h
            elim channel_state [
              | closed_channel ↦ pure tt
              | open_channel ↦
                  stream_blocks_continuously fuel state' stream_start block_confirmations
                    max_block_range flag' h'
            ]
        ]

  -- Phases 2 and 3 of `stream_live_blocks`.
  unfoldable pub stream_from_first_block : ℕ → Block → ℕ → ℕ → ℕ → Bool → H → Task Item W (Unit {0})
  unfolding initialize_live_streaming_state stream_blocks_continuously
  stream_from_first_block fuel first_block stream_start block_confirmations max_block_range flag h =
      do
        (initialized, h') ←
            initialize_live_streaming_state fuel first_block stream_start block_confirmations
              max_block_range h
        elim initialized [
          | none ↦ pure tt
          | some state ↦
              stream_blocks_continuously fuel state stream_start block_confirmations max_block_range
                flag h'
        ]

  unfoldable pub stream_live_blocks : ℕ → ℕ → ℕ → ℕ → Bool → H → Task Item W (Unit {0})
  unfolding get_first_block stream_from_first_block
  stream_live_blocks fuel stream_start block_confirmations max_block_range notify_after_first_block
        h =
      do
        (first, flag) ←
            get_first_block env reorg_handler fuel stream_start block_confirmations false
        elim first [
          | none ↦ pure tt
          | some first_block ↦
              let rest =
                stream_from_first_block fuel first_block stream_start block_confirmations
                  max_block_range flag h in
              if notify_after_first_block
              then (do
                channel_state ← try_stream env (from_notification Notification.switching_to_live)
                elim channel_state [ closed_channel ↦ pure tt | open_channel ↦ rest ])
              else rest
        ]
