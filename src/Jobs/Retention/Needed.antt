-- ===== src/Jobs/Retention/Needed.antt =====
-- storage.rs: garbage collection selects nothing that is needed.
use mathlib.Core.Option.{some-injective, none-ne-some}
use rowtrail.Base.{
  ==_iff, Bool, Bool-cases, List, Option, Table, [], ap, arith, false, find, if◌then◌else◌, inl,
  inr, length, length-append, map, none, refl, some, suc, true, zero, ℕ, ◌&&◌, ◌++◌, ◌+◌, ◌<◌, ◌==◌,
  ◌||◌, ◌∙◌, ◌∷◌, ◌≡◌, ◌⊎◌,
}
use rowtrail.Jobs.{
  Job, JobState, Owner, ResultRow, Tables, Validity, budget_exhausted, cancelled, completed,
  expired, failed, interrupted, is_queued, running, source_changed, stopping, terminal, valid,
}
use rowtrail.Jobs.Submit.{is_active}
use rowtrail.Jobs.Retention.{
  active_results, contains, eligible, kept_results, not_expired, parents_of, protect, released_of,
  released_or_zero, roots, selected, unprotected,
}
use rowtrail.Jobs.Retention.Roots.{
  contains-append, contains-take, followed, popped, protect_all, unfollowed, unfollowed-parents,
  unfollowed_bound, unprotected_lem,
}

abbrev pub Listed : {A : Type 0} → A → List A → Type 0
Listed x [] = ⊥
Listed x (y ∷ ys) = (y ≡ x) ⊎ Listed x ys

-- Nobody has released it.
abbrev pub IsRetained : Option ℕ → Type 0
IsRetained none = Unit
IsRetained (some released) = released ≡ 0

-- What has to stay: a result that is not expired and not released, a pinned object, the result of a
-- job that has not ended, and whatever one of these was derived from.
pub data Needed (db : Tables) : ℕ → Type 0 where
  kept :
      (id : ℕ) (row : ResultRow)
      → find id db.results ≡ some row
      → ¬ (row.validity ≡ expired)
      → IsRetained (find id db.retention)
      → Needed db id
  pinned : (id : ℕ) (owner : Owner) → Listed (id, owner) db.pins → Needed db id
  active :
      (id job_id : ℕ) (job : Job)
      → find job_id db.jobs ≡ some job
      → terminal job.state ≡ false
      → job.spec.result_ref ≡ id
      → Needed db id
  ancestor : (id child : ℕ) → Needed db child → Listed (child, id) db.deps → Needed db id

refl_== : (n : ℕ) → (n == n) ≡ true
refl_== n = (==_iff n n).1 refl

not_expired-lem : (v : Validity) → ¬ (v ≡ expired) → not_expired v ≡ true
unfolding not_expired
not_expired-lem valid h = refl
not_expired-lem source_changed h = refl
not_expired-lem expired h = absurd (h refl)

is_active-lem : (state : JobState) → terminal state ≡ false → is_active state ≡ true
unfolding terminal is_active
is_active-lem is_queued h = refl
is_active-lem running h = refl
is_active-lem stopping h = refl
is_active-lem completed h = cc
is_active-lem failed h = cc
is_active-lem cancelled h = cc
is_active-lem budget_exhausted h = cc
is_active-lem interrupted h = cc

retained_zero : (o : Option ℕ) → IsRetained o → released_or_zero o ≡ 0
unfolding released_or_zero
retained_zero none h = refl
retained_zero (some n) h = h

contains-here :
    (b : Bool) (i id : ℕ) (rest : List ℕ)
    → b ≡ true
    → (i == id) ≡ true
    → contains id (if b then i ∷ rest else rest) ≡ true
unfolding contains
contains-here b i id rest h e = rw h (rw e refl)

contains-there :
    (b : Bool) (i id : ℕ) (rest : List ℕ)
    → contains id rest ≡ true
    → contains id (if b then i ∷ rest else rest) ≡ true
unfolding contains
contains-there b i id rest h = ground (arith, h)

and_true : (a b : Bool) → a ≡ true → b ≡ true → (a && b) ≡ true
and_true a b h k = ground arith

kept-contains :
    (db : Tables) (id : ℕ) (row : ResultRow) (results : Table ResultRow)
    → find id results ≡ some row
    → not_expired row.validity ≡ true
    → released_or_zero (released_of id db) ≡ 0
    → contains id (kept_results db results) ≡ true
unfolding kept_results contains find
kept-contains db id row [] found valid_row free = absurd (none-ne-some _ found)
kept-contains db id row ((i, r) ∷ results) found valid_row free = elim (Bool-cases (i == id)) [
  | inl e ↦
      let same : r ≡ row = some-injective _ _ (rw e at found) in
      let free' : released_or_zero (released_of i db) ≡ 0 =
        ap (λ k. released_or_zero (released_of k db)) ((==_iff i id).0 e) ∙ free in
      contains-here (not_expired r.validity && released_or_zero (released_of i db) == 0) i id
        (kept_results db results)
        (and_true (not_expired r.validity) (released_or_zero (released_of i db) == 0)
          (ap (λ (x : ResultRow). not_expired x.validity) same ∙ valid_row)
          ((==_iff (released_or_zero (released_of i db)) 0).1 free'))
        e
  | inr e ↦
      contains-there (not_expired r.validity && released_or_zero (released_of i db) == 0) i id
        (kept_results db results) (kept-contains db id row results (rw e at found) valid_row free)
]

pinned-contains :
    (id : ℕ) (owner : Owner) (pins : List (ℕ × Owner))
    → Listed (id, owner) pins
    → contains id (map (λ pin. pin.0) pins) ≡ true
unfolding contains
pinned-contains id owner [] h = absurd h
pinned-contains id owner (pin ∷ pins) (inl e) = rw ((==_iff pin.0 id).1 (ap (λ p. p.0) e)) refl
pinned-contains id owner (pin ∷ pins) (inr h) =
    let rest = pinned-contains id owner pins h in ground (arith, rest)

active-contains :
    (id : ℕ) (jobs : Table Job) (job_id : ℕ) (job : Job)
    → find job_id jobs ≡ some job
    → terminal job.state ≡ false
    → job.spec.result_ref ≡ id
    → contains id (active_results jobs) ≡ true
unfolding active_results contains find
active-contains id [] job_id job found open_job same = absurd (none-ne-some _ found)
active-contains id ((i, j) ∷ jobs) job_id job found open_job same =
    elim (Bool-cases (i == job_id)) [
      | inl e ↦
          let is_it : j ≡ job = some-injective _ _ (rw e at found) in
          contains-here (is_active j.state) j.spec.result_ref id (active_results jobs)
            (is_active-lem j.state (ap (λ (x : Job). terminal x.state) is_it ∙ open_job))
            ((==_iff j.spec.result_ref id).1 (ap (λ (x : Job). x.spec.result_ref) is_it ∙ same))
      | inr e ↦
          contains-there (is_active j.state) j.spec.result_ref id (active_results jobs)
            (active-contains id jobs job_id job (rw e at found) open_job same)
    ]

or_first : (a b : Bool) → a ≡ true → (a || b) ≡ true
or_first a b h = ground arith

or_second : (a b : Bool) → b ≡ true → (a || b) ≡ true
or_second a b h = ground arith

-- Whatever a protected id was derived from is protected, or still on the stack.
Closed : List (ℕ × ℕ) → List ℕ → List ℕ → Type 0
Closed deps pending protected =
    (child parent : ℕ)
    → Listed (child, parent) deps
    → contains child protected ≡ true
    → (contains parent pending || contains parent protected) ≡ true

parents-contains :
    (child parent : ℕ) (deps : List (ℕ × ℕ))
    → Listed (child, parent) deps
    → contains parent (parents_of child deps) ≡ true
unfolding parents_of contains
parents-contains child parent [] h = absurd h
parents-contains child parent ((c, p) ∷ deps) (inl e) =
    contains-here (c == child) p parent (parents_of child deps)
      ((==_iff c child).1 (ap (λ d. d.0) e)) ((==_iff p parent).1 (ap (λ d. d.1) e))
parents-contains child parent ((c, p) ∷ deps) (inr h) =
    contains-there (c == child) p parent (parents_of child deps)
      (parents-contains child parent deps h)

push-Closed :
    (deps : List (ℕ × ℕ)) (i : ℕ) (pending protected : List ℕ)
    → Closed deps (i ∷ pending) protected
    → Closed deps (parents_of i deps ++ pending) (i ∷ protected)
unfolding Closed contains
push-Closed deps i pending protected closed child parent d h = elim (Bool-cases (i == child)) [
  | inl e ↦
      let same = (==_iff i child).0 e in
      let found : contains parent (parents_of i deps) ≡ true =
        ap (λ k. contains parent (parents_of k deps)) same ∙ parents-contains child parent deps d in
      or_first (contains parent (parents_of i deps ++ pending)) _ (
        contains-append parent (parents_of i deps) pending
        ∙ or_first (contains parent (parents_of i deps)) _ found)
  | inr e ↦
      followed parent i (parents_of i deps) pending protected (closed child parent d (rw e at h))
]

-- With enough fuel, whatever a protected id was derived from is protected in the end.
protect-Closed :
    (fuel : ℕ) (deps : List (ℕ × ℕ)) (pending protected : List ℕ) (child parent : ℕ)
    → length pending + unfollowed deps protected < fuel
    → Closed deps pending protected
    → Listed (child, parent) deps
    → contains child (protect fuel deps pending protected) ≡ true
    → contains parent (protect fuel deps pending protected) ≡ true
unfolding protect
protect-Closed zero deps pending protected child parent f closed d h = absurd (omega arith)
protect-Closed (suc fuel) deps [] protected child parent f closed d h =
    unfold Closed contains in closed child parent d h
protect-Closed (suc fuel) deps (i ∷ pending) protected child parent f closed d h =
    elim (Bool-cases (contains i protected)) [
      | inl e ↦
          rw (e, protect)
            (protect-Closed fuel deps pending protected child parent (omega arith)
              (unfold Closed in λ c p d' h'. popped p i pending protected e (closed c p d' h')) d
              (rw (e, protect) at h))
      | inr e ↦
          let k = unfollowed-parents i deps protected e in
          let l = length-append (parents_of i deps) pending in
          rw (e, protect)
            (protect-Closed fuel deps (parents_of i deps ++ pending) (i ∷ protected) child parent
              (omega arith) (push-Closed deps i pending protected closed) d (rw (e, protect) at h))
    ]

module _ (db : Tables) where
  fuel : ℕ
  fuel = length (roots db) + length db.deps + 1

  protected_ids : List ℕ
  unfolding fuel
  protected_ids = protect fuel db.deps (roots db) []

  enough : length (roots db) + unfollowed db.deps [] < fuel
  unfolding fuel
  enough = omega (arith, unfollowed_bound db.deps [])

  root-protected : (id : ℕ) → contains id (roots db) ≡ true → contains id protected_ids ≡ true
  unfolding protected_ids
  root-protected id h =
      protect_all fuel db.deps (roots db) [] id enough (or_first (contains id (roots db)) _ h)

  -- The roots are of three kinds.
  some-root :
      (id : ℕ)
      → ((contains id (kept_results db db.results) ≡ true)
          ⊎ (contains id (map (λ pin. pin.0) db.pins) ≡ true))
        ⊎ (contains id (active_results db.jobs) ≡ true)
      → contains id (roots db) ≡ true
  unfolding roots
  some-root id h =
      let kept_ids = kept_results db db.results in
      let pinned_ids : List ℕ = map (λ pin. pin.0) db.pins in
      contains-append id (kept_ids ++ pinned_ids) (active_results db.jobs) ∙ elim h [
        | inl (inl k) ↦ or_first _ _ (contains-append id kept_ids pinned_ids ∙ or_first _ _ k)
        | inl (inr k) ↦ or_first _ _ (contains-append id kept_ids pinned_ids ∙ or_second _ _ k)
        | inr k ↦ or_second _ _ k
      ]

  parent-protected :
      (child id : ℕ)
      → contains child protected_ids ≡ true
      → Listed (child, id) db.deps
      → contains id protected_ids ≡ true
  unfolding protected_ids Closed contains
  parent-protected child id h listed =
      protect-Closed fuel db.deps (roots db) [] child id enough (λ c p d k. cc) listed h

  Needed-protected : (id : ℕ) → Needed db id → contains id protected_ids ≡ true
  Needed-protected id (kept _ row found valid_row free) = root-protected id (
      some-root id (
        inl (
          inl (
            kept-contains db id row db.results found (not_expired-lem row.validity valid_row)
              (unfold released_of in retained_zero (find id db.retention) free)))))
  Needed-protected id (pinned _ owner listed) =
      root-protected id (some-root id (inl (inr (pinned-contains id owner db.pins listed))))
  Needed-protected id (active _ job_id job found open_job same) =
      root-protected id
        (some-root id (inr (active-contains id db.jobs job_id job found open_job same)))
  Needed-protected id (ancestor _ child needed listed) =
      parent-protected child id (Needed-protected child needed) listed

-- Garbage collection selects nothing that is needed: no result that is neither expired nor released,
-- no pinned object, no result of a job that has not ended, and nothing from which, over any number of
-- dependencies, one of these was derived.
pub selected-Needed :
    (db : Tables) (id : ℕ) → Needed db id → contains id (map (λ row. row.0) (selected db)) ≡ false
unfolding selected protected_ids fuel
selected-Needed db id needed =
    contains-take id 1000 (unprotected (protected_ids db) (eligible db db.results)) (
      unprotected_lem id (protected_ids db) (eligible db db.results)
        (Needed-protected db id needed))
