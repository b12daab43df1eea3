-- ===== src/Gateway/Session/Drain/Drained.antt =====
-- How the detached drain of a session ends (`_cancel_drain_and_abandon`).
use kim_llm_serving.Prelude.{
  ℕ, ◌+◌, ◌≡◌, refl, sym, ap, ◌∙◌, String, Bool, true, false, Bool-cases, inl, inr, not, ◌||◌,
  Option, List, [], ◌∷◌, ◌++◌, arith,
}
use mathlib.Core.Path.{subst}
use kim_llm_serving.Gateway.Metrics.{Metrics, count_drain_timeout, sse_deltas_released}
use kim_llm_serving.Gateway.Decoder.{Text}
use kim_llm_serving.Gateway.Buffer.{abandon}
use kim_llm_serving.Gateway.Session.{Session, begin_cancel, end_cancel}
use kim_llm_serving.Gateway.Session.Run.{ends_cancel, step}
use kim_llm_serving.Gateway.Session.Drain.{
  Stage, asks, awaits_client, awaits_done, abandons_next, ended, Drain, Act, others, wakes,
  times_out, answers, holds_lock, wake, time_out, answer, act, acts,
}
use kim_llm_serving.Gateway.Session.Drain.Kept.{Keeps, end_cancel-Keeps, step-Keeps}

-- How many timeouts a drain counts.
abbrev pub timeouts : Bool → ℕ
timeouts true = 0
timeouts false = 1

-- `cancel_and_drain` returned `drained`: true only for a session that is done.
record IsDrained (count : ℕ) (d : Drain) (drained : Bool) : Type 0 where
  done : not drained || d.session.done ≡ true
  counted : d.metrics.drain_timeouts ≡ count + timeouts drained

record IsAbandoned (d : Drain) : Type 0 where
  abandoned : d.session.buffer.abandoned ≡ true
  empty : d.session.buffer.deltas ≡ []

-- `count` drains had timed out before.
abbrev IsValid : ℕ → Drain → Stage → Type 0
IsValid count d asks = d.metrics.drain_timeouts ≡ count
IsValid count d awaits_client = d.metrics.drain_timeouts ≡ count
IsValid count d awaits_done = d.metrics.drain_timeouts ≡ count
IsValid count d (abandons_next drained) = IsDrained count d drained
IsValid count d (ended drained) = IsDrained count d drained × IsAbandoned d

kept-IsValid :
    (count : ℕ) (d e : Drain) (st : Stage)
    → Keeps d.session d.metrics e.session e.metrics
    → IsValid count d st
    → IsValid count e st
kept-IsValid count d e asks k v = k.timeouts ∙ v
kept-IsValid count d e awaits_client k v = k.timeouts ∙ v
kept-IsValid count d e awaits_done k v = k.timeouts ∙ v
kept-IsValid count d e (abandons_next drained) k v = ground arith
kept-IsValid count d e (ended drained) k v = ground arith

same-stage :
    (count : ℕ) (d : Drain) (st : Stage)
    → d.stage ≡ st
    → IsValid count d st
    → IsValid count d d.stage
same-stage count d st h v = subst (λ x. IsValid count d x) (sym h) v

wake-IsValid :
    (count : ℕ) (d : Drain) (reason : String) (st : Stage)
    → d.stage ≡ st
    → IsValid count d st
    → let e = wake d reason st in IsValid count e e.stage
unfolding wake begin_cancel abandon sse_deltas_released
wake-IsValid count d reason asks h v = ground arith
wake-IsValid count d reason awaits_client h v = same-stage count d _ h v
wake-IsValid count d reason awaits_done h v = ground arith
wake-IsValid count d reason (abandons_next drained) h v = ground arith
wake-IsValid count d reason (ended drained) h v = same-stage count d _ h v

time_out-IsValid :
    (count : ℕ) (d : Drain) (st : Stage)
    → d.stage ≡ st
    → IsValid count d st
    → let e = time_out d st in IsValid count e e.stage
unfolding time_out count_drain_timeout
time_out-IsValid count d asks h v = same-stage count d _ h v
time_out-IsValid count d awaits_client h v = same-stage count d _ h v
time_out-IsValid count d awaits_done h v = ground arith
time_out-IsValid count d (abandons_next drained) h v = same-stage count d _ h v
time_out-IsValid count d (ended drained) h v = same-stage count d _ h v

answer-IsValid :
    (count : ℕ) (d : Drain) (result : Option Bool) (st : Stage)
    → d.stage ≡ st
    → IsValid count d st
    → let e = answer d result st in IsValid count e e.stage
unfolding answer
answer-IsValid count d result asks h v = same-stage count d _ h v
answer-IsValid count d result awaits_client h v =
    (end_cancel-Keeps d.session d.metrics result).timeouts ∙ v
answer-IsValid count d result awaits_done h v = same-stage count d _ h v
answer-IsValid count d result (abandons_next drained) h v = same-stage count d _ h v
answer-IsValid count d result (ended drained) h v = same-stage count d _ h v

abbrev pub new_drain : Session → Metrics → Drain
new_drain s m = record { session = s; metrics = m; stage = asks }

-- The task that holds the lock is answered, this task wakes up, the client answers its `cancel` with
-- `sent` (`none`: it raises), the task wakes up, the wait for `_done` times out, and the task wakes up
-- again.
abbrev pub last_acts : (other sent : Option Bool) → List Act
last_acts other sent =
    others (ends_cancel other) ∷ wakes ∷ answers sent ∷ wakes ∷ times_out ∷ wakes ∷ []

abbrev is_ended : Stage → Bool
is_ended (ended drained) = true
is_ended (abandons_next drained) = false
is_ended asks = false
is_ended awaits_client = false
is_ended awaits_done = false

module _ (decode : List ℕ → Option Text) (decode_error : List ℕ → String) (reason : String) where
  act-IsValid :
      (count : ℕ) (d : Drain) (a : Act)
      → IsValid count d d.stage
      → let e = act decode decode_error reason d a in IsValid count e e.stage
  unfolding act
  act-IsValid count d (others o) v = elim (Bool-cases (holds_lock d.stage o)) [
    | inl e ↦ rw e v
    | inr e ↦
        rw e
          (kept-IsValid count d _ d.stage (step-Keeps decode decode_error d.session d.metrics o) v)
  ]
  act-IsValid count d wakes v = wake-IsValid count d reason d.stage refl v
  act-IsValid count d times_out v = time_out-IsValid count d d.stage refl v
  act-IsValid count d (answers result) v = answer-IsValid count d result d.stage refl v

  acts-IsValid :
      (count : ℕ) (d : Drain) (steps : List Act)
      → IsValid count d d.stage
      → let e = acts decode decode_error reason d steps in IsValid count e e.stage
  unfolding acts
  acts-IsValid count d [] v = v
  acts-IsValid count d (a ∷ rest) v =
      acts-IsValid count (act decode decode_error reason d a) rest (act-IsValid count d a v)

  abbrev is_drained : Stage → Bool
  is_drained (ended drained) = drained
  is_drained (abandons_next drained) = false
  is_drained asks = false
  is_drained awaits_client = false
  is_drained awaits_done = false

  last_acts-end :
      (d : Drain) (other sent : Option Bool) (st : Stage)
      → d.stage ≡ st
      → is_ended (acts decode decode_error reason d (last_acts other sent)).stage ≡ true
  unfolding acts act wake time_out answer holds_lock step end_cancel begin_cancel
  last_acts-end d other sent asks h = ground arith
  last_acts-end d other sent awaits_client h = ground arith
  last_acts-end d other sent awaits_done h = ground arith
  last_acts-end d other sent (abandons_next drained) h = ground arith
  last_acts-end d other sent (ended drained) h = ground arith

  -- If the session is done and no wait has timed out, `cancel_and_drain` returns true.
  last_acts-drained :
      (count : ℕ) (d : Drain) (other sent : Option Bool) (st : Stage)
      → d.stage ≡ st
      → IsValid count d st
      → d.session.done ≡ true
      → d.metrics.drain_timeouts ≡ count
      → is_drained (acts decode decode_error reason d (last_acts other sent)).stage ≡ true
  unfolding acts act wake time_out answer holds_lock step end_cancel begin_cancel
  last_acts-drained count d other sent asks h v w n = ground arith
  last_acts-drained count d other sent awaits_client h v w n = ground arith
  last_acts-drained count d other sent awaits_done h v w n = ground arith
  last_acts-drained count d other sent (abandons_next true) h v w n = ground arith
  last_acts-drained count d other sent (abandons_next false) h v w n =
      absurd (omega (arith, v.counted))
  last_acts-drained count d other sent (ended true) h v w n = ground arith
  last_acts-drained count d other sent (ended false) h v w n = absurd (omega (arith, v.0.counted))

  ended-stage : (st : Stage) → is_ended st ≡ true → (drained : Bool) × (st ≡ ended drained)
  ended-stage (ended drained) h = (drained, refl)
  ended-stage (abandons_next drained) h = absurd (cc)
  ended-stage asks h = absurd (cc)
  ended-stage awaits_client h = absurd (cc)
  ended-stage awaits_done h = absurd (cc)

  acts-append :
      (d : Drain) (before after : List Act)
      → acts decode decode_error reason d (before ++ after)
        ≡ acts decode decode_error reason (acts decode decode_error reason d before) after
  unfolding acts
  acts-append d [] after = refl
  acts-append d (a ∷ before) after = acts-append (act decode decode_error reason d a) before after

  -- Whatever the tasks of a session have done since its drain began, the drain ends once the lock is
  -- freed, the client has answered, whatever it answers, and the wait has timed out, unless it ended
  -- before. Then the
  -- buffer is abandoned and empty; what `cancel_and_drain` returned is true only if the session is
  -- done, and is true if the session was done before and no wait had timed out; and one timeout more is counted if it returned false, else none.
  pub drain_ends :
      (s : Session) (m : Metrics) (before : List Act) (other sent : Option Bool)
      → let middle = acts decode decode_error reason (new_drain s m) before in
        let d = acts decode decode_error reason (new_drain s m) (before ++ last_acts other sent) in
        (drained : Bool) × (d.stage ≡ ended drained)
        × (not drained || d.session.done ≡ true)
        × (middle.session.done ≡ true
            → middle.metrics.drain_timeouts ≡ m.drain_timeouts
            → drained ≡ true)
        × (d.session.buffer.abandoned ≡ true)
        × (d.session.buffer.deltas ≡ [])
        × (d.metrics.drain_timeouts ≡ m.drain_timeouts + timeouts drained)
  drain_ends s m before other sent =
      let middle = acts decode decode_error reason (new_drain s m) before in
      let last = acts decode decode_error reason (new_drain s m) (before ++ last_acts other sent) in
      let valid =
        acts-IsValid m.drain_timeouts (new_drain s m) (before ++ last_acts other sent) refl in
      let (drained, at_end) = ended-stage last.stage (
        ap (λ e. is_ended e.stage) (acts-append (new_drain s m) before (last_acts other sent))
        ∙ last_acts-end middle other sent middle.stage refl) in
      let told : middle.session.done ≡ true
          → middle.metrics.drain_timeouts ≡ m.drain_timeouts
          → drained ≡ true =
        λ w n.
          sym (ap is_drained at_end)
          ∙ ap (λ e. is_drained e.stage) (acts-append (new_drain s m) before (last_acts other sent))
          ∙ last_acts-drained m.drain_timeouts middle other sent middle.stage refl
              (acts-IsValid m.drain_timeouts (new_drain s m) before refl) w n in
      let (w, gone) = subst (λ x. IsValid m.drain_timeouts last x) at_end valid in
      (drained, at_end, w.done, told, gone.abandoned, gone.empty, w.counted)
