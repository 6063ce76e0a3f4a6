-- ===== src/Historical/Calm.antt =====
-- The historical handler while the chain stands: it ends, and streams its range once.
use event_scanner.Prelude.{
  ℕ, suc, ◌+◌, ◌≤◌, ◌<◌, ◌≡◌, refl, ap, ◌∙◌, min, max, true, Option, none, some, List, [], ◌∷◌,
  ◌++◌, map, append-nil, ltb, ◌==◌, ==_iff, arith, add_u64, inl, inr, Bool-cases,
}
use event_scanner.Types.{ok, err, open_channel, closed_channel, from_data}
use event_scanner.Env.{Env, Block, BlockNumberOrTag}
use event_scanner.Task.{delivered}
use event_scanner.Task.Hoare.{Trace}
use event_scanner.Task.Total.{
  Total, pure-Total, call-Total, weaken-Total, bind-Total, or_panic_some-Total, Sends, IfOpen,
  try_stream-Total,
}
use event_scanner.RangeIterator.{BlockRange, collect_forward}
use event_scanner.RangeIterator.Tiling.{TilesUp, TilesUp-append}
use event_scanner.RangeIterator.Step.{block_limit}
use event_scanner.RangeStream.{Item, stream_ranges}
use event_scanner.Historical.{
  HistoricalRangeHandler, unwrap_or, stream_finalized_blocks, get_reorged_end_block,
  stream_until_stable, stream_non_finalized_blocks, handle_stream_historical_range,
}
use event_scanner.Historical.Coverage.{forward_tiles}

-- The provider answers from one chain, which reaches up to `top`.
pub record IsCalm {W : Type 0} (env : Env W) (chain : ℕ → Block) (top : ℕ) : Type 0 where
  pub blocks :
      (n : ℕ)
      → n ≤ top
      → (w : W) → (env.get_block_by_number (BlockNumberOrTag.number n) w).0 ≡ ok (chain n)
  pub numbers : (n : ℕ) → (chain n).number ≡ n

abbrev pub all_delivered : List BlockRange → Trace Item
all_delivered rs = map (λ r. delivered (from_data r)) rs

all_delivered-append :
    (rs ss : List BlockRange) → all_delivered (rs ++ ss) ≡ all_delivered rs ++ all_delivered ss
all_delivered-append [] ss = refl
all_delivered-append (r ∷ rs) ss =
    ap (λ t. delivered (from_data r) ∷ t) (all_delivered-append rs ss)

-- The trace is ranges from `start` to below `upto`, each once.
abbrev pub Streamed : ℕ → ℕ → ℕ → Trace Item → Type 0
Streamed size start upto t =
    (rs : List BlockRange) × (t ≡ all_delivered rs) × TilesUp size start upto rs

pub Streamed-append :
    (size start mid upto : ℕ) (s t : Trace Item)
    → Streamed size start mid s
    → Streamed size mid upto t
    → Streamed size start upto (s ++ t)
Streamed-append size start mid upto s t (rs, e, tiles) (rs', e', tiles') = (
  rs ++ rs',
  rw (e, e', all_delivered-append rs rs') refl,
  TilesUp-append size start mid upto rs rs' tiles tiles',
)

module _ {W : Type 0} (env : Env W) (Gone : Type 0) (sends : Sends env Gone) where
  pub stream_ranges-Total :
      (rs : List BlockRange)
      → Total (stream_ranges env rs) (IfOpen Gone (λ t. t ≡ all_delivered rs))
  unfolding stream_ranges
  stream_ranges-Total [] = pure-Total open_channel refl
  stream_ranges-Total (r ∷ rs) =
      bind-Total (IfOpen Gone (λ t. t ≡ delivered (from_data r) ∷ []))
        (try_stream-Total env Gone sends (from_data r))
        (elim [
          | closed_channel ↦ λ t gone. pure-Total closed_channel gone
          | open_channel ↦ λ t e.
              weaken-Total (stream_ranges-Total rs)
                (elim [ closed_channel ↦ λ s gone. gone | open_channel ↦ λ s e'. rw (e, e') refl ])
        ])

  -- The ranges that a valid iterator yields.
  pub stream_forward-Total :
      (rs : List BlockRange) (size start upto : ℕ)
      → TilesUp size start upto rs
      → Total (stream_ranges env rs) (IfOpen Gone (Streamed size start upto))
  stream_forward-Total rs size start upto tiles =
      weaken-Total (stream_ranges-Total rs)
        (elim [ closed_channel ↦ λ t gone. gone | open_channel ↦ λ t e. (rs, e, tiles) ])

  module _ (h : HistoricalRangeHandler) (sized : 1 ≤ h.max_block_range)
      (small : h.end < block_limit) where
    open h use {start, end, max_block_range as size}

    abbrev AfterFinalized : Option (ℕ × ℕ) → Trace Item → Type 0
    AfterFinalized none t = Gone
    AfterFinalized (some (next, finalized)) t =
        Streamed size start next t × (next ≡ max start (min finalized end + 1))

    finalized-Total : Total (stream_finalized_blocks env h) AfterFinalized
    unfolding stream_finalized_blocks
    finalized-Total =
        bind-Total (λ answer t. t ≡ []) (call-Total _ (λ w. refl))
          (λ answer t none_sent.
            let upto = min (unwrap_or answer 0) end in
            let (iter, made, tiles) = forward_tiles start upto size sized (omega arith) in
            let no_wrap : add_u64 upto 1 ≡ upto + 1 = omega arith in
            rw (made, none_sent)
              (or_panic_some-Total _ (
                bind-Total (IfOpen Gone (Streamed size start (max start (upto + 1))))
                  (stream_forward-Total (collect_forward iter) size start (max start (upto + 1))
                    tiles)
                  (elim [
                    | closed_channel ↦ λ s gone. pure-Total none gone
                    | open_channel ↦
                        λ s streamed. rw no_wrap (pure-Total _ (rw append-nil (streamed, refl)))
                  ]))))

    module _ (chain : ℕ → Block) (top : ℕ) (calm : IsCalm env chain top) (reached : end ≤ top) where
      same_end-Total : Total (get_reorged_end_block env (chain end)) (λ r t. (r ≡ none) × (t ≡ []))
      unfolding get_reorged_end_block
      same_end-Total =
          bind-Total (λ answer t. (answer ≡ ok (chain end)) × (t ≡ []))
            (call-Total _ (λ w. (
              ap (λ (n : ℕ). (env.get_block_by_number (BlockNumberOrTag.number n) w).0)
                    (calm.numbers end)
                  ∙ calm.blocks end reached w,
              refl,
            )))
            (elim [
              | err e ↦ λ t (bad, none_sent). absurd (cc bad)
              | ok block ↦ λ t (same, none_sent).
                  let found : block ≡ chain end = cc same in
                  let equal : (block.hash == (chain end).hash) ≡ true =
                    (==_iff _ _).1 (ap (λ (b : Block). b.hash) found) in
                  rw (equal, none_sent) (pure-Total none (refl, refl))
            ])

      until_stable-Total :
          (fuel next common_ancestor : ℕ)
          → next ≤ end
          → Total
              (stream_until_stable env h (suc fuel) next common_ancestor (chain end))
              (IfOpen Gone (Streamed size next (end + 1)))
      unfolding stream_until_stable
      until_stable-Total fuel next common_ancestor within =
          let (iter, made, tiles) = forward_tiles next end size sized small in
          let all : max next (end + 1) ≡ end + 1 = omega arith in
          rw made (
            or_panic_some-Total _ (
              bind-Total (IfOpen Gone (Streamed size next (end + 1)))
                (stream_forward-Total (collect_forward iter) size next (end + 1) (rw all at tiles))
                (elim [
                  | closed_channel ↦ λ s gone. pure-Total closed_channel gone
                  | open_channel ↦ λ s streamed.
                      bind-Total (λ r t. (r ≡ none) × (t ≡ [])) same_end-Total
                        (elim [
                          | none ↦ λ t (_, none_sent).
                              rw none_sent (pure-Total open_channel (rw append-nil streamed))
                          | some block ↦ λ t (bad, none_sent). absurd (cc bad)
                        ])
                ])))

      non_finalized-Total :
          (fuel next finalized : ℕ)
          → next ≤ end
          → Total
              (stream_non_finalized_blocks env h (suc fuel) next finalized)
              (IfOpen Gone (Streamed size next (end + 1)))
      unfolding stream_non_finalized_blocks
      non_finalized-Total fuel next finalized within =
          bind-Total (λ answer t. (answer ≡ ok (chain end)) × (t ≡ []))
            (call-Total _ (λ w. (calm.blocks end reached w, refl)))
            (elim [
              | err e ↦ λ t (bad, none_sent). absurd (cc bad)
              | ok block ↦ λ t (same, none_sent).
                  let found : block ≡ chain end = cc same in
                  rw (found, none_sent) (until_stable-Total fuel next _ within)
            ])

      pub handle-Total :
          (fuel : ℕ)
          → start ≤ end
          → Total
              (handle_stream_historical_range env h (suc fuel))
              (IfOpen Gone (Streamed size start (end + 1)))
      unfolding handle_stream_historical_range
      handle-Total fuel ordered = bind-Total AfterFinalized finalized-Total (elim [
        | none ↦ λ t gone. pure-Total closed_channel gone
        | some (next, finalized) ↦ λ t (streamed, at). elim (Bool-cases (ltb end next)) [
          | inl past ↦
              let all : next ≡ end + 1 = ground (arith, at, past, ordered) in
              rw past (pure-Total open_channel (rw append-nil (rw all at streamed)))
          | inr more ↦ rw more (
              weaken-Total (non_finalized-Total fuel next finalized (ground (arith, more))) (elim [
                | closed_channel ↦ λ s gone. gone
                | open_channel ↦
                    λ s rest. Streamed-append size start next (end + 1) t s streamed rest
              ]))
        ]
      ])
