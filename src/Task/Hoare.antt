-- ===== src/Task/Hoare.antt =====
-- Triples over the attempts made so far, and their rules. `Hoare cut pre m post`: from attempts
-- that satisfy `pre` the task never panics, leaves attempts that satisfy `post` at its result if it
-- finishes, and `cut` if its fuel ends.
use event_scanner.Prelude.{Bool, true, false, some, List, [], ◌∷◌, ◌++◌, append-nil, append_assoc}
use event_scanner.Env.{Env, Call}
use event_scanner.Types.{ScannerResult, ChannelState, open_channel, closed_channel}
use event_scanner.Task.{
  Attempt, delivered, refused, Progress, finished, running, panicked, Task, pure, still_running,
  call, or_panic, ◌>>=◌, try_stream, continue, sent, state_of,
}

abbrev pub Trace : Type 0 → Type 0
Trace I = List (Attempt I)

abbrev pub Outcome :
    {I A : Type 0} → (Trace I → Type 0) → (A → Trace I → Type 0) → Progress A → Trace I → Type 0
Outcome cut post (finished a) t = post a t
Outcome cut post running t = cut t
Outcome cut post panicked t = ⊥

pub record Hoare {I W A : Type 0} (cut pre : Trace I → Type 0) (m : Task I W A)
    (post : A → Trace I → Type 0) : Type 0 where
  pub run : (t : Trace I) (w : W) → pre t → Outcome cut post (m w).0 (t ++ (m w).1)

module _ {I W A : Type 0} {cut pre : Trace I → Type 0} {post : A → Trace I → Type 0} where
  pub pure-Hoare :
      (a : A) → ((t : Trace I) → pre t → post a t) → Hoare {W = W} cut pre (pure a) post
  unfolding pure
  pure-Hoare a h = record { run = λ t w p. rw append-nil (h t p) }

  pub call-Hoare :
      (c : Call W A)
      → ((w : W) (t : Trace I) → pre t → post (c w).0 t)
      → Hoare cut pre (call c) post
  unfolding call
  call-Hoare c h = record { run = λ t w p. rw append-nil (h w t p) }

  pub still_running-Hoare :
      ((t : Trace I) → pre t → cut t) → Hoare {W = W} cut pre still_running post
  unfolding still_running
  still_running-Hoare h = record { run = λ t w p. rw append-nil (h t p) }

  -- A fact that the precondition gives, whatever was sent.
  pub fact-Hoare :
      {m : Task I W A} {P : Type 0}
      → ((t : Trace I) → pre t → P)
      → (P → Hoare cut pre m post)
      → Hoare cut pre m post
  fact-Hoare h k = record { run = λ t w p. (k (h t p)).run t w p }

  pub weaken-Hoare :
      {m : Task I W A} {pre' : Trace I → Type 0} {post' : A → Trace I → Type 0}
      → Hoare cut pre m post
      → ((t : Trace I) → pre' t → pre t)
      → ((a : A) (t : Trace I) → post a t → post' a t)
      → Hoare cut pre' m post'
  weaken-Hoare {m} {post'} h before after = record {
    run = λ t w p. go (m w).0 (t ++ (m w).1) (h.run t w (before t p));
  }
    where
      go : (o : Progress A) (t : Trace I) → Outcome cut post o t → Outcome cut post' o t
      go (finished a) t q = after a t q
      go running t q = q
      go panicked t q = q

module _ {I W A B : Type 0} {cut pre : Trace I → Type 0} {m : Task I W A} {f : A → Task I W B}
    {post : B → Trace I → Type 0} where
  pub bind-Hoare :
      (mid : A → Trace I → Type 0)
      → Hoare cut pre m mid
      → ((a : A) → Hoare cut (mid a) (f a) post)
      → Hoare cut pre (m >>= f) post
  unfolding ◌>>=◌
  bind-Hoare mid hm hf = record { run = λ t w p. go t (m w).0 (m w).1 (m w).2 (hm.run t w p) }
    where
      go :
          (t : Trace I) (o : Progress A) (s : Trace I) (w : W)
          → Outcome cut mid o (t ++ s)
          → let r = continue o s f w in Outcome cut post r.0 (t ++ r.1)
      go t (finished a) s w h = rw append_assoc at ((hf a).run (t ++ s) w h)
      go t running s w h = h
      go t panicked s w h = h

-- An assertion that holds.
pub or_panic_some-Hoare :
    {I W A B : Type 0} {cut pre : Trace I → Type 0} {a : A} (f : A → Task I W B)
    {post : B → Trace I → Type 0}
    → Hoare cut pre (f a) post
    → Hoare cut pre (or_panic (some a) >>= f) post
unfolding ◌>>=◌ or_panic
or_panic_some-Hoare f h = record { run = λ t w p. h.run t w p }

pub pure_bind-Hoare :
    {I W A B : Type 0} {cut pre : Trace I → Type 0} {a : A} (f : A → Task I W B)
    {post : B → Trace I → Type 0}
    → Hoare cut pre (f a) post
    → Hoare cut pre (pure a >>= f) post
unfolding ◌>>=◌ pure
pure_bind-Hoare f h = record { run = λ t w p. h.run t w p }

-- To go through the parts of a result that is a pair or a triple.
pub each_pair :
    {A B : Type 0} (P : A × B → Type 0) → ((a : A) (b : B) → P (a, b)) → (p : A × B) → P p
each_pair P h p = h p.0 p.1

pub each_triple :
    {A B C : Type 0} (P : A × B × C → Type 0)
    → ((a : A) (b : B) (c : C) → P (a, b, c))
    → (p : A × B × C) → P p
each_triple P h p = h p.0 p.1 p.2

module _ {W T : Type 0} {cut pre : Trace (ScannerResult T) → Type 0} where
  pub try_stream-Hoare :
      (env : Env W) (item : ScannerResult T)
      {post : ChannelState → Trace (ScannerResult T) → Type 0}
      → ((t : Trace (ScannerResult T)) → pre t → post open_channel (t ++ (delivered item ∷ [])))
      → ((t : Trace (ScannerResult T)) → pre t → post closed_channel (t ++ (refused item ∷ [])))
      → Hoare cut pre (try_stream env item) post
  unfolding try_stream
  try_stream-Hoare env item {post} h k = record { run = λ t w p. go t p (env.send_is_ok w).0 }
    where
      go : (t : Trace (ScannerResult T)) → pre t → (b : Bool) → post (state_of b) (t ++ sent item b)
      go t p true = h t p
      go t p false = k t p
