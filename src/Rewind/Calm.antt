-- ===== src/Rewind/Calm.antt =====
-- A rewind while the chain stands: it ends, and streams its range once, downwards.
use event_scanner.Prelude.{
  ℕ, ◌+◌, ◌≤◌, ◌<◌, ◌≡◌, ◌⊎◌, inl, inr, refl, ap, ◌∙◌, Bool, true, false, none, some, List, [], ◌∷◌,
  ◌++◌, ◌==◌, ==_iff,
}
use event_scanner.Types.{ok, err, open_channel, closed_channel, from_data}
use event_scanner.Env.{Env, Block, BlockNumberOrTag}
use event_scanner.Task.{Task, delivered}
use event_scanner.Task.Hoare.{Trace, each_pair}
use event_scanner.Task.Total.{
  Total, pure-Total, call-Total, weaken-Total, bind-Total, or_panic_some-Total, Sends, IfOpen,
  try_stream-Total,
}
use event_scanner.RangeIterator.{BlockRange, collect_reverse}
use event_scanner.RangeIterator.Tiling.{TilesDown}
use event_scanner.RangeIterator.Step.{block_limit}
use event_scanner.RangeStream.{Item}
use event_scanner.ReorgHandler.{ReorgHandler, default_handler, check, reorg_detected}
use event_scanner.Historical.Calm.{IsCalm, all_delivered}
use event_scanner.Rewind.{rewind_ranges, handle_stream_rewind}
use event_scanner.Rewind.Order.{reverse_tiles}

-- The handler finds no reorg below a block.
abbrev pub IsQuiet : {W H : Type 0} → ReorgHandler W H → Block → Type 0
IsQuiet {W} {H} reorg_handler tip = (h : H) (w : W) → (reorg_handler.check h tip w).0.0 ≡ ok none

-- The default handler finds none while the chain stands.
pub default_handler-IsQuiet :
    {W : Type 0} (env : Env W) (chain : ℕ → Block) (top n : ℕ)
    → IsCalm env chain top
    → n ≤ top
    → IsQuiet (default_handler env) (chain n)
unfolding default_handler check reorg_detected
default_handler-IsQuiet env chain top n calm reached h w =
    let asked : (env.get_block_by_number (BlockNumberOrTag.number (chain n).number) w).0
        ≡ ok (chain n) =
      ap (λ (k : ℕ). (env.get_block_by_number (BlockNumberOrTag.number k) w).0) (calm.numbers n)
      ∙ calm.blocks n reached w in
    let same : ((chain n).hash == (chain n).hash) ≡ true = (==_iff _ _).1 refl in
    rw (check, asked, same) refl

after_range :
    {W : Type 0} {m : Task Item W (Unit {0})} (Gone : Type 0) (r : BlockRange)
    (rs : List BlockRange) (t : Trace Item)
    → t ≡ delivered (from_data r) ∷ []
    → Total m (λ done s. (s ≡ all_delivered rs) ⊎ Gone)
    → Total m (λ done s. (t ++ s ≡ all_delivered (r ∷ rs)) ⊎ Gone)
after_range Gone r rs t e h =
    weaken-Total h (λ done s. elim [ inl e' ↦ inl (rw (e, e') refl) | inr gone ↦ inr gone ])

-- What a rewind that ends has sent, unless the receiver may be gone.
abbrev pub RewoundOnce : Type 0 → ℕ → ℕ → ℕ → Unit {0} → Trace Item → Type 0
RewoundOnce Gone size upto to done t =
    ((rs : List BlockRange) × (t ≡ all_delivered rs) × TilesDown size upto to rs) ⊎ Gone

module _ {W H : Type 0} (env : Env W) (reorg_handler : ReorgHandler W H) (Gone : Type 0)
    (sends : Sends env Gone) (tip : Block) (quiet : IsQuiet reorg_handler tip) where
  rewind_ranges-Total :
      (rs : List BlockRange) (check_reorg : Bool) (size : ℕ) (h : H)
      → Total
          (rewind_ranges env reorg_handler rs check_reorg tip size h)
          (λ done t. (t ≡ all_delivered rs) ⊎ Gone)
  unfolding rewind_ranges
  rewind_ranges-Total [] check_reorg size h = pure-Total tt (inl refl)
  rewind_ranges-Total (r ∷ rs) false size h =
      bind-Total (IfOpen Gone (λ t. t ≡ delivered (from_data r) ∷ []))
        (try_stream-Total env Gone sends (from_data r))
        (elim [
          | closed_channel ↦ λ t gone. pure-Total tt (inr gone)
          | open_channel ↦ λ t e. after_range Gone r rs t e (rewind_ranges-Total rs false size h)
        ])
  rewind_ranges-Total (r ∷ rs) true size h =
      bind-Total (IfOpen Gone (λ t. t ≡ delivered (from_data r) ∷ []))
        (try_stream-Total env Gone sends (from_data r))
        (elim [
          | closed_channel ↦ λ t gone. pure-Total tt (inr gone)
          | open_channel ↦ λ t e.
              bind-Total (λ checked s. (checked.0 ≡ ok none) × (s ≡ []))
                (call-Total _ (λ w. (quiet h w, refl)))
                (each_pair _ (elim [
                  | err x ↦ λ h' s (bad, none_sent). absurd (cc bad)
                  | ok (some ancestor) ↦ λ h' s (bad, none_sent). absurd (cc bad)
                  | ok none ↦ λ h' s (_, none_sent).
                      rw none_sent (after_range Gone r rs t e (rewind_ranges-Total rs true size h'))
                ]))
        ])

  pub handle_stream_rewind-Total :
      (low : Block) (size : ℕ) (h : H)
      → 1 ≤ size
      → low.number ≤ tip.number
      → tip.number < block_limit
      → Total
          (handle_stream_rewind env reorg_handler tip low size h)
          (RewoundOnce Gone size (tip.number + 1) low.number)
  unfolding handle_stream_rewind
  handle_stream_rewind-Total low size h sized ordered small =
      bind-Total (λ answer t. t ≡ []) (call-Total _ (λ w. refl))
        (λ answer t none_sent.
          let (iter, made, tiles) = reverse_tiles tip.number low.number size sized small ordered in
          rw (made, none_sent)
            (or_panic_some-Total _ (
              weaken-Total (rewind_ranges-Total (collect_reverse iter) _ size h) (λ done s. elim [
                | inl e ↦ inl (collect_reverse iter, e, tiles)
                | inr gone ↦ inr gone
              ]))))
