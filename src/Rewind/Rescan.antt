-- ===== src/Rewind/Rescan.antt =====
-- What the rescan of a reorg during a rewind sends.
use event_scanner.Prelude.{
  ℕ, ◌+◌, ◌≤◌, ◌<◌, ◌≡◌, ◌∙◌, refl, sym, subst, max, some, List, [], ◌∷◌, add_u64, arith,
}
use event_scanner.Types.{
  ok, err, ScannerError, ChannelState, open_channel, closed_channel, from_data, from_error,
}
use event_scanner.Env.{Env, Block, BlockNumberOrTag}
use event_scanner.Task.{pure, ◌>>=◌, ◌>>◌, try_stream}
use event_scanner.Task.Hoare.{
  Trace, Hoare, pure-Hoare, call-Hoare, or_panic_some-Hoare, bind-Hoare, try_stream-Hoare,
  fact-Hoare, weaken-Hoare,
}
use event_scanner.RangeIterator.{BlockRange, RangeIterator, forward, collect_forward}
use event_scanner.RangeIterator.Tiling.{TilesUp}
use event_scanner.RangeIterator.Step.{block_limit}
use event_scanner.RangeStream.{Item, stream_ranges}
use event_scanner.ReorgHandler.{ReorgHandler}
use event_scanner.Historical.Coverage.{forward_tiles}
use event_scanner.Rewind.{handle_reorg_rescan}
use event_scanner.Rewind.Phases.{
  Phase, descending, rescanning, ended, IsGoing, IsRewound, forks, rescans, resumes, fails, stops,
}

-- What the provider and the reorg handler are relied on for: a block has the number that it was
-- asked for, and the ancestors of reorgs have numbers in range.
pub record IsHonest {W H : Type 0} (env : Env W) (reorg_handler : ReorgHandler W H) : Type 0 where
  pub numbered :
      (n : ℕ) (w : W) (block : Block)
      → (env.get_block_by_number (BlockNumberOrTag.number n) w).0 ≡ ok block
      → block.number ≡ n
  pub ancestors :
      (h : H) (block : Block) (w : W) (ancestor : Block)
      → (reorg_handler.check h block w).0.0 ≡ ok (some ancestor)
      → ancestor.number < block_limit

module _ {W : Type 0} (env : Env W) (size from to : ℕ) where
  abbrev pub Never : Trace Item → Type 0
  Never t = ⊥

  abbrev pub In : Phase → Trace Item → Type 0
  In p t = IsRewound size from to p t

  abbrev pub OnOpen : Phase → ChannelState → Trace Item → Type 0
  OnOpen p open_channel t = In p t
  OnOpen p closed_channel t = In ended t

  -- An error is sent, and the work ends.
  pub fail-Hoare :
      {A : Type 0} (p : Phase) (e : ScannerError) (a : A)
      → IsGoing p
      → Hoare Never (In p) (try_stream env (from_error e) >> pure a) (λ b t. In ended t × (b ≡ a))
  fail-Hoare p e a going =
      bind-Hoare (λ state. In ended)
        (try_stream-Hoare env (from_error e) (λ t q. fails p t e going q)
          (λ t q. stops p t (from_error e) going q))
        (λ state. pure-Hoare a (λ t q. (q, refl)))

  rescan-Hoare :
      (rs : List BlockRange) (low next upto : ℕ)
      → TilesUp size next upto rs
      → upto ≤ max next (from + 1)
      → Hoare Never (In (rescanning low next)) (stream_ranges env rs) (OnOpen (rescanning low upto))
  unfolding stream_ranges
  rescan-Hoare [] low next upto tiles short =
      pure-Hoare _ (λ t q. subst (λ (k : ℕ). In (rescanning low k) t) tiles q)
  rescan-Hoare (r ∷ rs) low next upto tiles short =
      bind-Hoare (OnOpen (rescanning low (r.end + 1)))
        (try_stream-Hoare env (from_data r)
          (λ t q. rescans low next t r q tiles.0 tiles.1 tiles.2 (omega (arith, short, tiles)))
          (λ t q. stops (rescanning low next) t (from_data r) tt q))
        (elim [
          | closed_channel ↦ pure-Hoare _ (λ t q. q)
          | open_channel ↦
              rescan-Hoare rs low (r.end + 1) upto tiles.4 (omega (arith, short, tiles))
        ])

module _ {W H : Type 0} (env : Env W) (reorg_handler : ReorgHandler W H)
    (honest : IsHonest env reorg_handler) (size from to : ℕ) (sized : 1 ≤ size)
    (small : from < block_limit) where
  abbrev pub Rescanned : ℕ → ChannelState × Block → Trace Item → Type 0
  Rescanned low (state, tip) t =
      OnOpen env size from to (descending low) state t × (tip.number ≡ from)

  rescan_all-Hoare :
      (a low : ℕ) (tip : Block)
      → a < block_limit
      → tip.number ≡ from
      → (iter : RangeIterator) × (forward (add_u64 a 1) from size ≡ some iter)
        × Hoare
            (Never env size from to)
            (In env size from to (rescanning low (a + 1)))
            (stream_ranges env (collect_forward iter) >>= λ state. pure (state, tip))
            (Rescanned low)
  rescan_all-Hoare a low tip bounded at =
      let (iter, made, tiles) = forward_tiles (a + 1) from size sized small in
      let no_wrap : add_u64 a 1 ≡ a + 1 = omega (arith, bounded) in
      (
        iter,
        rw no_wrap made,
        bind-Hoare (OnOpen env size from to (rescanning low (max (a + 1) (from + 1))))
            (rescan-Hoare env size from to (collect_forward iter) low (a + 1)
              (max (a + 1) (from + 1)) tiles (omega arith))
            (elim [
              | closed_channel ↦ pure-Hoare _ (λ t q. (q, at))
              | open_channel ↦ pure-Hoare _ (λ t q. (resumes low _ t q (omega arith), at))
            ]),
      )

  pub handle_reorg_rescan-Hoare :
      (tip ancestor : Block) (low : ℕ)
      → ancestor.number < block_limit
      → tip.number ≡ from
      → Hoare
          (Never env size from to)
          (In env size from to (descending low))
          (handle_reorg_rescan env tip ancestor size)
          (Rescanned low)
  unfolding handle_reorg_rescan
  handle_reorg_rescan-Hoare tip ancestor low bounded at =
      bind-Hoare (OnOpen env size from to (rescanning low (ancestor.number + 1)))
        (try_stream-Hoare env _ (λ t q. forks low ancestor.number t q)
          (λ t q. stops (descending low) t _ tt q))
        (elim [
          | closed_channel ↦ pure-Hoare _ (λ t q. (q, at))
          | open_channel ↦
              bind-Hoare
                (λ answer t.
                  In env size from to (rescanning low (ancestor.number + 1)) t
                  × ((b : Block) → answer ≡ ok b → b.number ≡ from))
                (call-Hoare _ (λ w t q. (q, λ b e. honest.numbered tip.number w b e ∙ at)))
                (elim [
                  | err e ↦
                      weaken-Hoare (fail-Hoare env size from to _ _ (closed_channel, tip) tt)
                        (λ t q. q.0) (λ r t q. subst (λ x. Rescanned low x t) (sym q.1) (q.0, at))
                  | ok new_tip ↦
                      fact-Hoare (λ t q. q.1 new_tip refl)
                        (λ same.
                          let (iter, made, rest) =
                            rescan_all-Hoare ancestor.number low new_tip bounded same in
                          rw (at, made)
                            (or_panic_some-Hoare _ (weaken-Hoare rest (λ t q. q.0) (λ r t q. q))))
                ])
        ])
