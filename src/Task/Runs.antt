-- ===== src/Task/Runs.antt =====
-- Total correctness from the worlds that meet a precondition, with the world that a task leaves.
use event_scanner.Prelude.{true, ◌≡◌, refl, sym, ap, ◌∙◌, subst, some, [], ◌∷◌, ◌++◌}
use event_scanner.Env.{Env, Call}
use event_scanner.Types.{ScannerResult, ChannelState, open_channel, closed_channel}
use event_scanner.Task.{delivered, finished, Task, pure, call, or_panic, ◌>>=◌, try_stream}
use event_scanner.Task.Hoare.{Trace}
use event_scanner.Task.Total.{Total}

pub record Runs {I W A : Type 0} (pre : W → Type 0) (m : Task I W A)
    (post : A → Trace I → W → Type 0) : Type 0 where
  pub run :
      (w : W)
      → pre w
      → (a : A) × (t : Trace I) × (w' : W) × (m w ≡ (finished a, t, w')) × post a t w'

module _ {I W A : Type 0} {pre : W → Type 0} {post : A → Trace I → W → Type 0} where
  pub pure-Runs : (a : A) → ((w : W) → pre w → post a [] w) → Runs pre (pure a) post
  unfolding pure
  pure-Runs a h = record { run = λ w p. (a, [], w, refl, h w p) }

  pub call-Runs :
      (c : Call W A) → ((w : W) → pre w → post (c w).0 [] (c w).1) → Runs pre (call c) post
  unfolding call
  call-Runs c h = record { run = λ w p. ((c w).0, [], (c w).1, refl, h w p) }

  pub weaken-Runs :
      {m : Task I W A} {pre' : W → Type 0} {post' : A → Trace I → W → Type 0}
      → Runs pre m post
      → ((w : W) → pre' w → pre w)
      → ((a : A) (t : Trace I) (w : W) → post a t w → post' a t w)
      → Runs pre' m post'
  weaken-Runs h j k = record {
    run = λ w p. let (a, t, w', e, q) = h.run w (j w p) in (a, t, w', e, k a t w' q);
  }

  -- What the precondition says whatever the world.
  pub fact-Runs :
      {m : Task I W A} {P : Type 0}
      → ((w : W) → pre w → P)
      → (P → Runs pre m post)
      → Runs pre m post
  fact-Runs know h = record { run = λ w p. (h (know w p)).run w p }

pub bind-Runs :
    {I W A B : Type 0} {pre : W → Type 0} {m : Task I W A} {f : A → Task I W B}
    {post : B → Trace I → W → Type 0} (mid : A → Trace I → W → Type 0)
    → Runs pre m mid
    → ((a : A) (t : Trace I) → Runs (mid a t) (f a) (λ b s. post b (t ++ s)))
    → Runs pre (m >>= f) post
unfolding ◌>>=◌
bind-Runs mid hm hf = record {
  run = λ w p.
      let (a, t, w', e, q) = hm.run w p in
      let (b, s, w'', e', q') = (hf a t).run w' q in (b, t ++ s, w'', rw (e, e') refl, q');
}

pub or_panic_some-Runs :
    {I W A B : Type 0} {a : A} {pre : W → Type 0} (f : A → Task I W B)
    {post : B → Trace I → W → Type 0}
    → Runs pre (f a) post
    → Runs pre (or_panic (some a) >>= f) post
unfolding ◌>>=◌ or_panic
or_panic_some-Runs f h = record { run = h.run }

-- A send to a receiver that is there.
pub try_stream-Runs :
    {W T : Type 0} {pre : W → Type 0} (env : Env W) (item : ScannerResult T) {post : W → Type 0}
    → ((w : W) → pre w → ((env.send_is_ok w).0 ≡ true) × post (env.send_is_ok w).1)
    → Runs pre
        (try_stream env item)
        (λ state t w. (state ≡ open_channel) × (t ≡ delivered item ∷ []) × post w)
unfolding try_stream
try_stream-Runs env item h = record {
  run = λ w p.
      let (sent, kept) = h w p in
      (open_channel, delivered item ∷ [], (env.send_is_ok w).1, rw sent refl, (refl, refl, kept));
}

-- A task whose value and trace are known.
pub bind_known-Runs :
    {I W A B : Type 0} {pre : W → Type 0} {m : Task I W A} (f : A → Task I W B)
    {post : B → Trace I → W → Type 0} (a : A) (t : Trace I) (mid : W → Type 0)
    → Runs pre m (λ a' t' w. (a' ≡ a) × (t' ≡ t) × mid w)
    → Runs mid (f a) (λ b s. post b (t ++ s))
    → Runs pre (m >>= f) post
bind_known-Runs f {post = post} a t mid hm hf =
    bind-Runs (λ a' t' w. (a' ≡ a) × (t' ≡ t) × mid w) hm
      (λ a' t'.
        fact-Runs (λ w p. (p.0, p.1))
          (λ (same, sent).
            subst
              (λ (c : _). Runs (λ w. (c ≡ a) × (t' ≡ t) × mid w) (f c) (λ b s. post b (t' ++ s)))
              (sym same) (rw sent (weaken-Runs hf (λ w p. p.2) (λ b s w q. q)))))

-- A call of which the first part of the answer is known.
pub bind_call-Runs :
    {I W A H B : Type 0} {pre : W → Type 0} (c : Call W (A × H)) (f : A × H → Task I W B)
    {post : B → Trace I → W → Type 0} (a : A) (mid : W → Type 0)
    → ((w : W) → pre w → ((c w).0.0 ≡ a) × mid (c w).1)
    → ((h : H) → Runs mid (f (a, h)) post)
    → Runs pre (call c >>= f) post
unfolding call ◌>>=◌
bind_call-Runs c f a mid known hf = record {
  run = λ w p.
      let (same, kept) = known w p in
      let (b, s, w', e, q) = (hf (c w).0.1).run (c w).1 kept in
      (b, s, w', ap (λ x. f (x, (c w).0.1) (c w).1) same ∙ e, q);
}

-- A task of which the first part of the value is known.
pub bind_first-Runs :
    {I W A H B : Type 0} {pre : W → Type 0} {m : Task I W (A × H)} (f : A × H → Task I W B)
    {post : B → Trace I → W → Type 0} (a : A) (mid : H → Trace I → W → Type 0)
    → Runs pre m (λ r t w. (r.0 ≡ a) × mid r.1 t w)
    → ((h : H) (t : Trace I) → Runs (mid h t) (f (a, h)) (λ b s. post b (t ++ s)))
    → Runs pre (m >>= f) post
unfolding ◌>>=◌
bind_first-Runs f a mid hm hf = record {
  run = λ w p.
      let (r, t, w', e, (same, q)) = hm.run w p in
      let (b, s, w'', e', q') = (hf r.1 t).run w' q in
      let ran = ap (λ x. f (x, r.1) w') same ∙ e' in (b, t ++ s, w'', rw (e, ran) refl, q');
}

pub when_open-Runs :
    {I W A : Type 0} {pre : W → Type 0} {k : Task I W A} (d : Task I W A)
    {post : A → Trace I → W → Type 0} (state : ChannelState)
    → state ≡ open_channel
    → Runs pre k post
    → Runs pre (elim state [ open_channel ↦ k | closed_channel ↦ d ]) post
when_open-Runs d open_channel e h = h
when_open-Runs d closed_channel e h = absurd (cc e)

-- What holds from every world.
pub Total-Runs :
    {I W A : Type 0} {m : Task I W A} {pre : W → Type 0} {post : A → Trace I → Type 0}
    → Total m post
    → Runs pre m (λ a t w. post a t)
Total-Runs h = record { run = λ w p. h.run w }
