-- ===== src/Dag/Synthesis/Checked.antt =====
-- What the semantic routers of src/dag.rs emit, and when.
use antenna.Base.{ℕ, ◌≡◌, refl, List, [], ◌∷◌, Option, none, some, ◌⊎◌, inl, inr}
use antenna.Base.Text.{Text}
use antenna.Base.Result.{Result, ok, err, Result-cases}
use antenna.Llm.{build_prompt}
use antenna.Dag.Scripts.{turtle_prefixes, validate_turtle}
use antenna.Dag.Synthesis.{
  Slots, Wake, latch_ready, router_system, retry_prompt, error_turtle, after_retry, after_first,
  fire, fire_ready, wake_up, emit, rounds,
}

module _ {B : Type 0} (complete : Text → Text → ℕ → B → Result Text × B)
    (parse : Text → List (Result (Unit {0}))) (system_prompt : Text) (max_tokens : ℕ) where
  -- A request to the model
  abbrev ask : Text → B → Result Text × B
  ask prompt st = complete (router_system system_prompt) prompt max_tokens st

  -- What comes of a prompt: what is emitted and the model's state behind it. The first answer is emitted
  -- if it passes the check. If not, the model is asked once more, with the error; the second answer is
  -- emitted if it passes the check, and its error is reported if not. Nothing is emitted where the model
  -- does not answer.
  pub data Firing (prompt : Text) (st : B) : Option Text → B → Type 0 where
    passed :
        (raw t : Text) (st1 : B)
        → ask prompt st ≡ (ok raw, st1)
        → validate_turtle parse raw ≡ ok t
        → Firing prompt st (some t) st1
    repaired :
        (raw e1 raw2 t : Text) (st1 st2 : B)
        → ask prompt st ≡ (ok raw, st1)
        → validate_turtle parse raw ≡ err e1
        → ask (retry_prompt prompt e1) st1 ≡ (ok raw2, st2)
        → validate_turtle parse raw2 ≡ ok t
        → Firing prompt st (some t) st2
    reported :
        (raw e1 raw2 e2 : Text) (st1 st2 : B)
        → ask prompt st ≡ (ok raw, st1)
        → validate_turtle parse raw ≡ err e1
        → ask (retry_prompt prompt e1) st1 ≡ (ok raw2, st2)
        → validate_turtle parse raw2 ≡ err e2
        → Firing prompt st (some (error_turtle e2)) st2
    unanswered : (e : Text) (st1 : B) → ask prompt st ≡ (err e, st1) → Firing prompt st none st1
    unrepaired :
        (raw e1 e : Text) (st1 st2 : B)
        → ask prompt st ≡ (ok raw, st1)
        → validate_turtle parse raw ≡ err e1
        → ask (retry_prompt prompt e1) st1 ≡ (err e, st2)
        → Firing prompt st none st2

  -- The rounds of a router with two slots, and what it emits in them: where a slot is empty behind a
  -- wake-up it goes on waiting, and where both are filled it fires with them and clears them.
  pub data Run : List Wake → Option Text → Option Text → B → List Text → Type 0 where
    done : (a b : Option Text) (st : B) → Run [] a b st []
    waits :
        (w : Wake) (ws : List Wake) (a b a' b' : Option Text) (st : B) (out : List Text)
        → latch_ready w.rx_a a ≡ a'
        → latch_ready w.rx_b b ≡ b'
        → (a' ≡ none) ⊎ (b' ≡ none)
        → Run ws a' b' st out
        → Run (w ∷ ws) a b st out
    fires :
        (w : Wake) (ws : List Wake) (a b : Option Text) (x y : Text) (st st' : B) (o : Option Text)
        (out : List Text)
        → latch_ready w.rx_a a ≡ some x
        → latch_ready w.rx_b b ≡ some y
        → Firing (build_prompt x y turtle_prefixes) st o st'
        → Run ws none none st' out
        → Run (w ∷ ws) a b st (emit complete parse system_prompt max_tokens o out)

  after_retry-Firing :
      (prompt raw e1 : Text) (st st1 : B) (r : Result Text × B)
      → ask prompt st ≡ (ok raw, st1)
      → validate_turtle parse raw ≡ err e1
      → ask (retry_prompt prompt e1) st1 ≡ r
      → Firing prompt st
          (after_retry complete parse system_prompt max_tokens r).0
          (after_retry complete parse system_prompt max_tokens r).1
  unfolding after_retry
  after_retry-Firing prompt raw e1 st st1 (ok raw2, st2) a v a2 =
      elim (Result-cases (validate_turtle parse raw2)) [
        | inl (t, e) ↦ rw (after_retry, e) (repaired raw e1 raw2 t st1 st2 a v a2 e)
        | inr (e2, e) ↦ rw (after_retry, e) (reported raw e1 raw2 e2 st1 st2 a v a2 e)
      ]
  after_retry-Firing prompt raw e1 st st1 (err e, st2) a v a2 = unrepaired raw e1 e st1 st2 a v a2

  after_first-Firing :
      (prompt : Text) (st : B) (r : Result Text × B)
      → ask prompt st ≡ r
      → Firing prompt st
          (after_first complete parse system_prompt max_tokens prompt r).0
          (after_first complete parse system_prompt max_tokens prompt r).1
  unfolding after_first
  after_first-Firing prompt st (ok raw, st1) a = elim (Result-cases (validate_turtle parse raw)) [
    | inl (t, e) ↦ rw (after_first, e) (passed raw t st1 a e)
    | inr (e1, e) ↦
        rw (after_first, e)
          (after_retry-Firing prompt raw e1 st st1 (ask (retry_prompt prompt e1) st1) a e refl)
  ]
  after_first-Firing prompt st (err e, st1) a = unanswered e st1 a

  fire-Firing :
      (x y : Text) (st : B)
      → Firing
          (build_prompt x y turtle_prefixes)
          st
          (fire complete parse system_prompt max_tokens x y st).0
          (fire complete parse system_prompt max_tokens x y st).1
  unfolding fire
  fire-Firing x y st =
      after_first-Firing (build_prompt x y turtle_prefixes) st
        (ask (build_prompt x y turtle_prefixes) st) refl

  abbrev slots : Option Text → Option Text → Slots
  slots a b = record { slot_a = a; slot_b = b }

  -- A round, where the slots are `a'` and `b'` behind the wake-up
  round-Run :
      (w : Wake) (ws : List Wake) (a b a' b' : Option Text) (st : B)
      → latch_ready w.rx_a a ≡ a'
      → latch_ready w.rx_b b ≡ b'
      → ((c d : Option Text) (st' : B)
          → Run ws c d st' (rounds complete parse system_prompt max_tokens ws (slots c d) st'))
      → Run (w ∷ ws) a b st (
          emit complete parse system_prompt max_tokens
            (fire_ready complete parse system_prompt max_tokens a' b' st).0
            (rounds complete parse system_prompt max_tokens ws
              (fire_ready complete parse system_prompt max_tokens a' b' st).1
              (fire_ready complete parse system_prompt max_tokens a' b' st).2))
  unfolding fire_ready
  round-Run w ws a b none b' st ea eb rec =
      waits w ws a b none b' st _ ea eb (inl refl) (rec none b' st)
  round-Run w ws a b (some x) none st ea eb rec =
      waits w ws a b (some x) none st _ ea eb (inr refl) (rec (some x) none st)
  round-Run w ws a b (some x) (some y) st ea eb rec =
      fires w ws a b x y st _ _ _ ea eb (fire-Firing x y st) (rec none none _)

  -- Whatever the model answers and whatever arrives, a router emits just what its rounds call for: it
  -- waits until both slots are filled, fires with them and clears them; what it emits is an answer that
  -- passed the check, the first or the second, or else the error of the second.
  pub rounds-Run :
      (ws : List Wake) (a b : Option Text) (st : B)
      → Run ws a b st
          (rounds complete parse system_prompt max_tokens ws (record { slot_a = a; slot_b = b }) st)
  unfolding rounds wake_up
  rounds-Run [] a b st = done a b st
  rounds-Run (w ∷ ws) a b st =
      round-Run w ws a b (latch_ready w.rx_a a) (latch_ready w.rx_b b) st refl refl (rounds-Run ws)
