-- ===== src/Client/Pool/Jobs.antt =====
-- The order in which the workers begin the jobs.
use samryetha_tunnel.Base.{
  ◌≡◌, refl, sym, ap, ◌∙◌, ltb, Bool-cases, inl, inr, List, [], ◌∷◌, ◌++◌, append-nil, append_assoc,
}
use samryetha_tunnel.Client.Pool.{
  Workers, Event, submit, stop, wake, wake_up, take_front, on_event, run_events,
}

module _ {ℓ} {Job : Type ℓ} where
  -- The jobs that the events submit.
  unfoldable pub submitted : List (Event Job) → List Job
  submitted [] = []
  submitted (submit j ∷ es) = j ∷ submitted es
  submitted (e ∷ es) = submitted es

  abbrev all_jobs : Workers Job → List Job
  all_jobs w = w.begun ++ w.queue

  take_front-all_jobs :
      (q : List Job) (w : Workers Job) → w.queue ≡ q → all_jobs (take_front q w) ≡ w.begun ++ q
  unfolding take_front
  take_front-all_jobs [] w e = elim (Bool-cases w.stopped) [
    | inl s ↦ rw (s, e) refl
    | inr s ↦ rw (s, e) refl
  ]
  take_front-all_jobs (j ∷ js) w e = elim (Bool-cases (ltb 0 w.workers)) [
    | inl s ↦ rw s (append_assoc w.begun (j ∷ []) js)
    | inr s ↦ rw (s, e) refl
  ]

  on_event-all_jobs :
      (e : Event Job) (w : Workers Job) → all_jobs (on_event e w) ≡ all_jobs w ++ submitted (e ∷ [])
  unfolding on_event submitted wake_up
  on_event-all_jobs (submit j) w = sym (append_assoc w.begun w.queue (j ∷ []))
  on_event-all_jobs stop w = sym (append-nil (all_jobs w))
  on_event-all_jobs wake w = take_front-all_jobs w.queue w refl ∙ sym (append-nil (all_jobs w))

  submitted-cons :
      (e : Event Job) (es : List (Event Job))
      → submitted (e ∷ es) ≡ submitted (e ∷ []) ++ submitted es
  unfolding submitted
  submitted-cons (submit j) es = refl
  submitted-cons stop es = refl
  submitted-cons wake es = refl

  -- Jobs are begun in the order in which they came, each once: those begun before, those that waited and
  -- those that the events submit are, in this order, those begun now and those that wait now.
  pub run_events-begun :
      (es : List (Event Job)) (w : Workers Job)
      → Workers.begun (run_events es w) ++ Workers.queue (run_events es w)
        ≡ (w.begun ++ w.queue) ++ submitted es
  unfolding run_events submitted
  run_events-begun [] w = sym (append-nil (all_jobs w))
  run_events-begun (e ∷ es) w =
      run_events-begun es (on_event e w)
      ∙ ap (λ x. x ++ submitted es) (on_event-all_jobs e w)
      ∙ append_assoc (all_jobs w) (submitted (e ∷ [])) (submitted es)
      ∙ ap (λ x. all_jobs w ++ x) (sym (submitted-cons e es))
